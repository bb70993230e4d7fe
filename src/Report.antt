-- ===== src/Report.antt =====
-- tests/scripts/md-table/main.py: the table of what the test files cover, up to its rendering. The
-- database (pydblite) and the reading of YAML are parameters.
pub mod Covered
pub mod Readable
pub mod Rendered
pub mod Printed
mod Examples
use Prim.Native.Char.{Char, code}
use Prim.Native.String
use vagrant_portainer.Base.{
  ℕ, ◌<◌, String, ◌≡◌, ◌↔◌, Bool, true, false, not, ◌&&◌, ◌||◌, Option, none, some, List, [], ◌∷◌,
  leb, eqb, ltb, ◌==◌, if◌then◌else◌,
}
use vagrant_portainer.Base.Result.{Result, ok, raise, attribute_error, ◌>>=◌, fold_result}
use vagrant_portainer.Base.Lists.{elem}
use vagrant_portainer.Base.Dict.{Dict, lookup}
use vagrant_portainer.Base.Text.{push}

pub data Field : Type 0 where
  container_manager network_plugin operating_system : Field

-- A record of the database.
pub record Row : Type 0 where
  pub container : String
  pub network : String
  pub system : String

abbrev pub field : Row → Field → String
field r container_manager = r.container
field r network_plugin = r.network
field r operating_system = r.system

-- What the script uses of pydblite's Base: `db.insert(...)`, `db(field) == value`, which gives a
-- selection of records, `&`, `len`, and `get_unique_ids`, a set in some order.
pub record Pydblite : Type 1 where
  pub Db : Type 0
  pub Ids : Type 0
  pub create : Db
  pub insert : Row → Db → Db
  pub select : Db → Field → String → Ids
  pub both : Ids → Ids → Ids
  pub len : Ids → ℕ
  pub get_unique_ids : Db → Field → List String

abbrev pub is_row : Option Row → Field → String → Bool
is_row none f value = false
is_row (some r) f value = field r f == value

-- What its documentation says: every record has a number of its own, a selection by a field has the
-- records whose field is the value, `&` those of both, `len` counts them, and
-- the unique values of a field are those of the records.
pub record IsPydblite (b : Pydblite) : Type 0 where
  pub record_at : b.Db → ℕ → Option Row
  pub next : b.Db → ℕ
  pub selected : b.Ids → ℕ → Bool
  pub record_at-create : (k : ℕ) → record_at b.create k ≡ none
  pub record_at-next : (d : b.Db) → record_at d (next d) ≡ none
  pub record_at-insert :
      (r : Row) (d : b.Db) (k : ℕ)
      → record_at (b.insert r d) k ≡ (if eqb k (next d) then some r else record_at d k)
  pub selected-select :
      (d : b.Db) (f : Field) (value : String) (k : ℕ)
      → selected (b.select d f value) k ≡ is_row (record_at d k) f value
  pub selected-both :
      (i j : b.Ids) (k : ℕ) → selected (b.both i j) k ≡ (selected i k && selected j k)
  pub get_unique_ids-record :
      (d : b.Db) (f : Field) (value : String)
      → (elem value (b.get_unique_ids d f) ≡ true)
        ↔ ((k : ℕ) × (is_row (record_at d k) f value ≡ true))
  pub len-selected : (i : b.Ids) → (ltb 0 (b.len i) ≡ true) ↔ ((k : ℕ) × (selected i k ≡ true))

-- A file of the directory: its name, and its variables with a text for value; `none` for an empty
-- file.
pub record File : Type 0 where
  pub name : String
  pub variables : Option (Dict String)

-- The longest run of such characters at the start of a text, and the rest.
unfoldable pub span : (Char → Bool) → String → String → String × String
span p run String.[] = (run, String.[])
span p run (String.◌∷◌ c s) =
    let longer = span p (push run c) s in if p c then longer else (run, String.◌∷◌ c s)

abbrev pub is_lower : Char → Bool
is_lower c = leb b'a' (code c) && leb (code c) b'z'

abbrev pub in_prefix : Char → Bool
in_prefix c = is_lower c || eqb (code c) b'-'

abbrev pub in_system : Char → Bool
in_system c = is_lower c || (leb b'0' (code c) && leb (code c) b'9')

abbrev pub group : String × String → Option String
group (run, rest) = if run == "" then none else some run

-- After the prefix comes "_".
abbrev pub after_prefix : String → String → Option String
after_prefix run String.[] = none
after_prefix run (String.◌∷◌ c s) =
    if (run == "") || not (eqb (code c) b'_') then none else group (span in_system "" s)

-- `re.match(r"^[a-z-]+_([a-z0-9]+).*", name)` with its first group
unfoldable pub system_of : String → Option String
system_of name = let (run, rest) = span in_prefix "" name in after_prefix run rest

abbrev pub get : String → String → Dict String → String
get key default y = elim (lookup key y) [ none ↦ default | some text ↦ text ]

-- `None` has no method `get`, and no method `group`.
abbrev pub or_attribute_error {ℓ} : {A : Type ℓ} → Option A → Result A
or_attribute_error none = raise attribute_error
or_attribute_error (some a) = ok a

-- The row of a file.
unfoldable pub row_of : File → Result Row
row_of f = do
  y ← or_attribute_error f.variables
  system ← or_attribute_error (system_of f.name)
  ok (record {
    container = get "container_manager" "containerd" y;
    network = get "kube_network_plugin" "calico" y;
    system = system;
  })

module _ (b : Pydblite) where
  -- `Data.set`
  abbrev pub set : b.Db → Row → b.Db
  set d r = b.insert r d

  -- `Data.exists`
  abbrev pub exists : b.Db → Row → Bool
  exists d r = ltb 0 (
      b.len (
        b.both
          (b.both (b.select d container_manager r.container) (b.select d network_plugin r.network))
          (b.select d operating_system r.system)))

  -- A round of the loop over the files.
  abbrev pub add_file : b.Db → File → Result b.Db
  add_file d f = row_of f >>= λ r. ok (set d r)

  unfoldable pub load : List File → Result b.Db
  load files = fold_result add_file b.create files
