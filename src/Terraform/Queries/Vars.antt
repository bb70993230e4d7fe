-- ===== src/Terraform/Queries/Vars.antt =====
-- contrib/terraform/terraform.py: the variables of `query_list` against `query_host`.
use vagrant_portainer.Base.{
  String, ◌≡◌, refl, ap, ◌∙◌, true, false, Option, none, some, List, [], ◌∷◌, arith, ◌==◌, eq_iff,
  if◌then◌else◌, Bool-cases, inl, inr,
}
use vagrant_portainer.Base.Lists.{elem, Nodup}
use vagrant_portainer.Base.Dict.{Dict, lookup, put, lookup-put, lookup-put_self}
use vagrant_portainer.Terraform.Json.{Value}
use vagrant_portainer.Terraform.Hosts.{Host}
use vagrant_portainer.Terraform.Queries.{
  Entry, hostvars, query_host, add_groups, list_hosts, entries, query_list,
}

abbrev pub names : List Host → List String
names [] = []
names (h ∷ hs) = h.name ∷ names hs

-- The variables that the answer holds for a host.
abbrev pub vars_in : Option Entry → String → Option (Dict Value)
vars_in (some (hostvars meta)) target = lookup target meta
vars_in _ target = none

-- The attributes of the last host with the name.
abbrev last_of : String → List Host → Option (Dict Value) → Option (Dict Value)
last_of target [] d = d
last_of target (h ∷ hs) d = last_of target hs (if h.name == target then some h.attrs else d)

lookup-meta :
    (set_order : List String → List String) (target : String) (hs : List Host)
    (groups : Dict (List String)) (meta : Dict (Dict Value))
    → lookup target (list_hosts set_order hs groups meta).1 ≡ last_of target hs (lookup target meta)
unfolding list_hosts
lookup-meta set_order target [] groups meta = refl
lookup-meta set_order target (h ∷ hs) groups meta =
    lookup-meta set_order target hs (add_groups h.name (set_order h.groups) groups)
      (put h.name h.attrs meta)
    ∙ ap (last_of target hs) (lookup-put h.name target h.attrs meta)

last_of-absent :
    (target : String) (hs : List Host) (d : Option (Dict Value))
    → elem target (names hs) ≡ false
    → last_of target hs d ≡ d
last_of-absent target [] d e = refl
last_of-absent target (h ∷ hs) d e =
    let other : (h.name == target) ≡ false =
      ground (arith, eq_iff target h.name, eq_iff h.name target) in
    let later : elem target (names hs) ≡ false = ground arith in
    ap (λ b. last_of target hs (if b then some h.attrs else d)) other
    ∙ last_of-absent target hs d later

last_of-query_host :
    (target : String) (hs : List Host)
    → Nodup (names hs)
    → last_of target hs none
      ≡ (if elem target (names hs) then some (query_host hs target) else none)
unfolding query_host
last_of-query_host target [] d = refl
last_of-query_host target (h ∷ hs) (new, d) = elim (Bool-cases (h.name == target)) [
  | inl same ↦
      let here : (target == h.name) ≡ true =
        ground (arith, eq_iff target h.name, eq_iff h.name target) in
      let absent : elem target (names hs) ≡ false = ground (arith, eq_iff h.name target) in
      rw (same, here) (last_of-absent target hs (some h.attrs) absent)
  | inr apart ↦
      let elsewhere : (target == h.name) ≡ false =
        ground (arith, eq_iff target h.name, eq_iff h.name target) in
      rw (apart, elsewhere) (last_of-query_host target hs d)
]

-- Where no two hosts have one name, `query_list` holds under `_meta` for every host the attributes
-- that `query_host` answers for it, and none for another name.
pub query_list-query_host :
    (set_order : List String → List String) (hs : List Host) (target : String)
    → Nodup (names hs)
    → vars_in (lookup "_meta" (query_list set_order hs)) target
      ≡ (if elem target (names hs) then some (query_host hs target) else none)
unfolding query_list lookup
query_list-query_host set_order hs target d =
    let (groups, meta) = list_hosts set_order hs [] [] in
    ap (λ o. vars_in o target) (lookup-put_self "_meta" (hostvars meta) (entries groups))
    ∙ lookup-meta set_order target hs [] []
    ∙ last_of-query_host target hs d
