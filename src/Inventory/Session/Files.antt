-- ===== src/Inventory/Session/Files.antt =====
-- The groups of one file of the command `load` of contrib/inventory_builder/inventory.py.
use text.Mathlib.TextPositions.{eq_refl}
use vagrant_portainer.Base.{
  String, ◌≡◌, refl, sym, ap, ◌∙◌, Bool, true, false, not, ◌&&◌, ◌||◌, some, [], ◌∷◌, arith, ◌==◌,
  eq_iff, Option-cases, inl, inr,
}
use vagrant_portainer.Base.Result.{Result, ok, ◌>>=◌, fold_result}
use vagrant_portainer.Base.Dict.{Dict, has_key, lookup}
use vagrant_portainer.Inventory.Types.{blank, AllGroup, Config, item, or_empty}
use vagrant_portainer.Inventory.Hosts.{host_opts}
use vagrant_portainer.Inventory.Groups.{put_host, add_host_to_group}
use vagrant_portainer.Inventory.Groups.Members.{is_member, add_host_to_group-Adds}
use vagrant_portainer.Inventory.Groups.Shaped.{Shape, IsRole, add-Succeeds}
use vagrant_portainer.Inventory.Groups.Purge.{has_key-put_host}
use vagrant_portainer.Inventory.Groups.Ensured.{ensure_required_groups-Ensured, Ensured-Shape}
use vagrant_portainer.Inventory.Session.{Inventory, load_host, load_group}

-- A step that returns: the members of groups (`x`) and the hosts of `all` (`y`) that it adds.
pub record Loads (x : String → String → Bool) (y : String → Bool) (a : AllGroup) (m : Result Config)
    : Type 0 where
  pub result : AllGroup
  pub returns : m ≡ ok (some result)
  pub shape : Shape result
  pub member : (g h : String) → is_member (some result) g h ≡ (x g h || is_member (some a) g h)
  pub hosts :
      (h : String) → has_key h (or_empty result.hosts) ≡ (y h || has_key h (or_empty a.hosts))

-- The file puts the host into the group.
abbrev pub lists : Inventory → String → String → Bool
lists [] g h = false
lists ((group, hosts) ∷ d) g h = (group == g && has_key h hosts) || lists d g h

-- The host is in some group of the file.
abbrev pub names : Inventory → String → Bool
names [] h = false
names ((group, hosts) ∷ d) h = has_key h hosts || names d h

-- A group of a file that takes hosts.
abbrev pub takes_hosts : String → Bool
takes_hosts group =
    not (group == "all") && not (group == "k8s_cluster") && not (group == "k8s_cluster:children")

-- Every group takes hosts, and every host has an address.
abbrev all_ips : Dict (Dict String) → Bool
all_ips [] = true
all_ips ((h, opts) ∷ hosts) = has_key "ip" opts && all_ips hosts

abbrev pub is_file : Inventory → Bool
is_file [] = true
is_file ((group, hosts) ∷ d) = takes_hosts group && all_ips hosts && is_file d

Loads-bind :
    (x x' z : String → String → Bool) (y y' t : String → Bool) (a : AllGroup) (m : Result Config)
    (f : Config → Result Config)
    → (first : Loads x y a m) → Loads x' y' first.result (f (some first.result))
    → ((g h : String) → z g h ≡ (x' g h || x g h))
    → ((h : String) → t h ≡ (y' h || y h))
    → Loads z t a (m >>= f)
Loads-bind x x' z y y' t a m f first then p q = record {
  result = then.result;
  returns = rw first.returns then.returns;
  shape = then.shape;
  member = λ g h. ground (arith, then.member g h, first.member g h, p g h);
  hosts = λ h. ground (arith, then.hosts h, first.hosts h, q h);
}

-- A group with a member is there.
group_of_member :
    (a : AllGroup) (g h : String) → is_member (some a) g h ≡ true → has_key g a.children ≡ true
unfolding lookup
group_of_member a g h e = elim (Option-cases (lookup g a.children)) [
  | inr (v, there) ↦ rw there refl
  | inl none_there ↦ absurd (cc (sym (rw none_there at e)))
]

add_all-Loads :
    (a : AllGroup) (host ip : String)
    → Shape a
    → (l : Loads
        (λ g h. false)
        (λ h. host == h)
        a
        (add_host_to_group (some a) "all" host (host_opts ip ip)))
      × (l.result.children ≡ a.children)
unfolding add_host_to_group
add_all-Loads a host ip s = (
  record {
    result = record a { hosts = some (put_host host (host_opts ip ip) a.hosts) };
    returns = refl;
    shape = record {
      hosts = refl;
      groups = s.groups;
      etcd = s.etcd;
      control_plane = s.control_plane;
      node = s.node;
      calico = s.calico;
    };
    member = λ g h. refl;
    hosts = λ h. has_key-put_host host h (host_opts ip ip) a.hosts;
  },
  refl,
)

ip_there : (opts : Dict String) (ip : String) → lookup "ip" opts ≡ some ip → item "ip" opts ≡ ok ip
ip_there opts ip e = rw (e, item) refl

module _ (group : String) (takes : takes_hosts group ≡ true) where
  role : (a : AllGroup) → has_key group a.children ≡ true → IsRole a group
  role a there = record {
    not_all = ground arith;
    not_children = ground arith;
    not_cluster = ground arith;
    there = there;
  }

  add_member-Loads :
      (a : AllGroup) (host : String)
      → Shape a
      → has_key group a.children ≡ true
      → Loads
          (λ g h. group == g && host == h)
          (λ h. false)
          a
          (add_host_to_group (some a) group host blank)
  add_member-Loads a host s there =
      let done = add-Succeeds a group host s (role a there) in
      let adds =
        (add_host_to_group-Adds (some a) group host blank (ground arith, ground arith)).at
          (some done.result) done.returns in
      record {
        result = done.result;
        returns = done.returns;
        shape = done.shape;
        member = λ g h. ground (arith, adds.member g h, eq_iff h host, eq_iff host h);
        hosts = λ h. ap (has_key h) adds.all;
      }

  load_host-Loads :
      (a : AllGroup) (host : String) (opts : Dict String)
      → has_key "ip" opts ≡ true
      → Shape a
      → has_key group a.children ≡ true
      → Loads
          (λ g h. group == g && host == h)
          (λ h. host == h)
          a
          (load_host group (some a) (host, opts))
  unfolding load_host
  load_host-Loads a host opts has s there = elim (Option-cases (lookup "ip" opts)) [
    | inl none_there ↦ absurd (cc (none_there, has))
    | inr (ip, is) ↦
        let (first, same) = add_all-Loads a host ip s in
        let then = add_member-Loads first.result host first.shape (rw same there) in
        rw (ip_there opts ip is, load_host)
          (Loads-bind _ _ _ _ _ _ a _ (λ c. add_host_to_group c group host blank) first then
            (λ g h. ground arith) (λ h. ground arith))
  ]

  load_hosts-Loads :
      (a : AllGroup) (hosts : Dict (Dict String))
      → all_ips hosts ≡ true
      → Shape a
      → has_key group a.children ≡ true
      → Loads
          (λ g h. group == g && has_key h hosts)
          (λ h. has_key h hosts)
          a
          (fold_result (load_host group) (some a) hosts)
  unfolding fold_result lookup
  load_hosts-Loads a [] has s there = record {
    result = a;
    returns = refl;
    shape = s;
    member = λ g h. ground arith;
    hosts = λ h. refl;
  }
  load_hosts-Loads a ((host, opts) ∷ hosts) has s there =
      let first = load_host-Loads a host opts (ground arith) s there in
      let here : has_key group first.result.children ≡ true =
        group_of_member first.result group host
          (first.member group host ∙ rw (eq_refl, eq_refl) refl) in
      let rest = load_hosts-Loads first.result hosts (ground arith) first.shape here in
      Loads-bind _ _ _ _ _ _ a _ (λ c. fold_result (load_host group) c hosts) first rest
        (λ g h. ground arith) (λ h. ground arith)

  load_group-Loads :
      (a : AllGroup) (hosts : Dict (Dict String))
      → all_ips hosts ≡ true
      → Shape a
      → Loads
          (λ g h. group == g && has_key h hosts)
          (λ h. has_key h hosts)
          a
          (load_group (some a) (group, hosts))
  unfolding load_group
  load_group-Loads a hosts has s =
      let (b, e, h) = ensure_required_groups-Ensured a (group ∷ []) s.groups in
      let done =
        load_hosts-Loads b hosts has (Ensured-Shape (group ∷ []) a b h s)
          (h.there group (rw eq_refl (ground arith))) in
      record {
        result = done.result;
        returns = rw e done.returns;
        shape = done.shape;
        member = λ g j. ground (arith, done.member g j, h.member g j);
        hosts = λ j. ground (arith, done.hosts j, ap (λ m. has_key j (or_empty m)) h.hosts);
      }

pub load_groups-Loads :
    (a : AllGroup) (d : Inventory)
    → is_file d ≡ true
    → Shape a
    → Loads (lists d) (names d) a (fold_result load_group (some a) d)
unfolding fold_result
load_groups-Loads a [] f s = record {
  result = a;
  returns = refl;
  shape = s;
  member = λ g h. refl;
  hosts = λ h. refl;
}
load_groups-Loads a ((group, hosts) ∷ d) f s =
    let first = load_group-Loads group (ground arith) a hosts (ground arith) s in
    let rest = load_groups-Loads first.result d (ground arith) first.shape in
    Loads-bind _ _ _ _ _ _ a _ (λ c. fold_result load_group c d) first rest (λ g h. ground arith)
      (λ h. ground arith)
