-- ===== src/Report/Examples.antt =====
-- tests/scripts/md-table/main.py: a database that is a list, the newest record first, and two
-- files.
use vagrant_portainer.Base.{
  ℕ, String, ◌≡◌, refl, Bool, false, ◌||◌, Option, none, some, List, [], ◌∷◌, eqb, ◌==◌,
  if◌then◌else◌,
}
use vagrant_portainer.Base.Lists.{length, elem}
use vagrant_portainer.Report.{Field, Row, field, Pydblite, File, span, system_of, exists, load}
use vagrant_portainer.Report.Rendered.{Table, put_sorted, sort, not_a_directory, main}
use vagrant_portainer.Report.Readable.{all_readable, OrError, load-Decides}

-- Numbers of records: that of a record is how many are older.
abbrev has : ℕ → List ℕ → Bool
has k [] = false
has k (j ∷ i) = eqb k j || has k i

abbrev row_at : List Row → ℕ → Option Row
row_at [] k = none
row_at (r ∷ d) k = if eqb k (length d) then some r else row_at d k

abbrev select : List Row → Field → String → List ℕ
select [] f value = []
select (r ∷ d) f value =
    let rest = select d f value in if field r f == value then length d ∷ rest else rest

abbrev both : List ℕ → List ℕ → List ℕ
both [] j = []
both (k ∷ i) j = let rest = both i j in if has k j then k ∷ rest else rest

abbrev unique : List Row → Field → List String
unique [] f = []
unique (r ∷ d) f = let rest = unique d f in if elem (field r f) rest then rest else field r f ∷ rest

abbrev list_base : Pydblite
list_base = record {
  Db = List Row;
  Ids = List ℕ;
  create = [];
  insert = λ r d. r ∷ d;
  select = select;
  both = both;
  len = length;
  get_unique_ids = unique;
}

abbrev files : List File
files =
    record { name = "packet_ubuntu20-calico-aio.yml"; variables = some [] }
    ∷ record {
      name = "packet_debian10-cilium-svc-proxy.yml";
      variables = some (("kube_network_plugin", "cilium") ∷ []);
    }
    ∷ []

abbrev ubuntu : Row
ubuntu = record { container = "containerd"; network = "calico"; system = "ubuntu20" }

abbrev debian : Row
debian = record { container = "containerd"; network = "cilium"; system = "debian10" }

no_system : system_of "README.yml" ≡ none
unfolding system_of span
no_system = refl

-- Two operating systems, and the cells of the two files.
abbrev table : Table
table = record {
  container_engines = "containerd" ∷ [];
  network_plugins = "calico" ∷ "cilium" ∷ [];
  operating_systems = "debian10" ∷ "ubuntu20" ∷ [];
  is_covered = exists list_base (debian ∷ ubuntu ∷ []);
}

load-Decides_example : OrError (all_readable files) (load list_base files)
load-Decides_example = load-Decides list_base files

sorted_systems :
    sort ("ubuntu20" ∷ "debian10" ∷ "fedora34" ∷ []) ≡ "debian10" ∷ "fedora34" ∷ "ubuntu20" ∷ []
unfolding sort put_sorted
sorted_systems = refl

no_directory : main list_base false files ≡ not_a_directory
unfolding main
no_directory = refl
