-- ===== src/Terraform/Queries/Groups.antt =====
-- contrib/terraform/terraform.py: which hosts `query_list` puts into a group.
use mathlib.Core.List.{append_assoc}
use vagrant_portainer.Base.{
  String, ◌≡◌, refl, ap, ◌∙◌, Bool, true, false, not, ◌&&◌, ◌||◌, Option, none, some, List, [], ◌∷◌,
  ◌++◌, arith, ◌==◌, eq_iff, if◌then◌else◌, Bool-cases, inl, inr,
}
use vagrant_portainer.Base.Lists.{elem, Nodup}
use vagrant_portainer.Base.Dict.{Dict, lookup, put, lookup-put}
use vagrant_portainer.Terraform.Json.{Value}
use vagrant_portainer.Terraform.Hosts.{Host}
use vagrant_portainer.Terraform.Queries.{
  Entry, hosts, hostvars, or_nil, group_name, append_host, add_groups, list_hosts, entries,
  query_list,
}

-- Going through a set: every element of the list once, in an order that is not said.
pub record IsSetOrder (set_order : List String → List String) : Type 0 where
  pub same : (g : String) (gs : List String) → elem g (set_order gs) ≡ elem g gs
  pub once : (gs : List String) → Nodup (set_order gs)

-- The names of the hosts that have the group, in order.
abbrev pub names_in : String → List Host → List String
names_in g [] = []
names_in g (h ∷ hs) = let rest = names_in g hs in if elem g h.groups then h.name ∷ rest else rest

-- A group that has no other name: not the empty one, not "all", which stands for it, and not the
-- entry of the variables.
abbrev pub is_plain : String → Bool
is_plain g = not (g == "") && not (g == "all") && not (g == "_meta")

-- A group without hosts is not listed.
abbrev pub listed : List String → Option Entry
listed [] = none
listed (n ∷ ns) = some (hosts (n ∷ ns))

abbrev joined : Option (List String) → List String → Option (List String)
joined o [] = o
joined o (n ∷ ns) = some (or_nil o ++ n ∷ ns)

joined-cons :
    (o : Option (List String)) (n : String) (ns : List String)
    → joined (joined o (n ∷ [])) ns ≡ joined o (n ∷ ns)
joined-cons o n [] = refl
joined-cons o n (m ∷ ns) = ap some (append_assoc (or_nil o) (n ∷ []) (m ∷ ns))

abbrev one_if : Bool → String → List String
one_if b name = if b then name ∷ [] else []

group_name-eq :
    (h g : String) → (g == "") ≡ false → (g == "all") ≡ false → (group_name h == g) ≡ (h == g)
group_name-eq h g e a = elim (Bool-cases (h == "")) [
  | inl empty ↦
      rw empty
        (ground (arith, eq_iff h g, eq_iff h "", eq_iff g "", eq_iff "all" g, eq_iff g "all"))
  | inr named ↦ rw named refl
]

lookup-append_host :
    (name h g : String) (groups : Dict (List String))
    → lookup g (append_host name h groups)
      ≡ (if h == g then some (or_nil (lookup g groups) ++ name ∷ []) else lookup g groups)
lookup-append_host name h g groups = rw lookup-put (ground (arith, eq_iff h g))

lookup-add_groups :
    (name g : String) (gs : List String) (groups : Dict (List String))
    → (g == "") ≡ false
    → (g == "all") ≡ false
    → Nodup gs
    → lookup g (add_groups name gs groups) ≡ joined (lookup g groups) (one_if (elem g gs) name)
unfolding add_groups
lookup-add_groups name g [] groups e a d = refl
lookup-add_groups name g (h ∷ gs) groups e a (new, d) =
    lookup-add_groups name g gs (append_host name (group_name h) groups) e a d
    ∙ ap (λ o. joined o (one_if (elem g gs) name))
        (lookup-append_host name (group_name h) g groups
          ∙ ap (λ b. if b then some (or_nil (lookup g groups) ++ name ∷ []) else lookup g groups)
              (group_name-eq h g e a))
    ∙ once_only
  where
    once_only :
        joined
          (if h == g then some (or_nil (lookup g groups) ++ name ∷ []) else lookup g groups)
          (one_if (elem g gs) name)
        ≡ joined (lookup g groups) (one_if (g == h || elem g gs) name)
    once_only = elim (Bool-cases (h == g)) [
      | inl same ↦
          let absent : elem g gs ≡ false = ground (arith, eq_iff h g) in
          let here : (g == h) ≡ true = ground (arith, eq_iff h g, eq_iff g h) in
          rw (same, absent, here) refl
      | inr apart ↦
          let elsewhere : (g == h) ≡ false = ground (arith, eq_iff h g, eq_iff g h) in
          rw (apart, elsewhere) refl
    ]

joined-names :
    (o : Option (List String)) (b : Bool) (name : String) (ns : List String)
    → joined (joined o (one_if b name)) ns ≡ joined o (if b then name ∷ ns else ns)
joined-names o true name ns = joined-cons o name ns
joined-names o false name ns = refl

abbrev as_entry : Option (List String) → Option Entry
as_entry none = none
as_entry (some l) = some (hosts l)

lookup-entries :
    (g : String) (groups : Dict (List String))
    → lookup g (entries groups) ≡ as_entry (lookup g groups)
unfolding lookup
lookup-entries g [] = refl
lookup-entries g ((k, l) ∷ groups) = elim (Bool-cases (k == g)) [
  | inl same ↦ rw same refl
  | inr apart ↦ rw apart (lookup-entries g groups)
]

as_entry-joined : (ns : List String) → as_entry (joined none ns) ≡ listed ns
as_entry-joined [] = refl
as_entry-joined (n ∷ ns) = refl

module _ (set_order : List String → List String) (order : IsSetOrder set_order) where
  lookup-list_hosts :
      (g : String) (hs : List Host) (groups : Dict (List String)) (meta : Dict (Dict Value))
      → (g == "") ≡ false
      → (g == "all") ≡ false
      → lookup g (list_hosts set_order hs groups meta).0 ≡ joined (lookup g groups) (names_in g hs)
  unfolding list_hosts
  lookup-list_hosts g [] groups meta e a = refl
  lookup-list_hosts g (h ∷ hs) groups meta e a =
      lookup-list_hosts g hs (add_groups h.name (set_order h.groups) groups)
        (put h.name h.attrs meta) e a
      ∙ ap (λ o. joined o (names_in g hs))
          (lookup-add_groups h.name g (set_order h.groups) groups e a (order.once h.groups)
            ∙ ap (λ b. joined (lookup g groups) (one_if b h.name)) (order.same g h.groups))
      ∙ joined-names (lookup g groups) (elem g h.groups) h.name (names_in g hs)

-- Where a set is gone through once, in any order, `query_list` lists under a group the names of
-- exactly the hosts that have it, in the order of the hosts, and leaves a group out that no host
-- has; the group is neither the empty one, nor "all", nor "_meta".
pub query_list-listed :
    (set_order : List String → List String) (g : String) (hs : List Host)
    → IsSetOrder set_order
    → is_plain g ≡ true
    → lookup g (query_list set_order hs) ≡ listed (names_in g hs)
unfolding query_list lookup
query_list-listed set_order g hs order plain =
    let empty : (g == "") ≡ false = ground arith in
    let all : (g == "all") ≡ false = ground arith in
    let meta : ("_meta" == g) ≡ false = ground (arith, eq_iff "_meta" g, eq_iff g "_meta") in
    let vars = (list_hosts set_order hs [] []).1 in
    let groups = (list_hosts set_order hs [] []).0 in
    lookup-put "_meta" g (hostvars vars) (entries groups)
    ∙ ap (λ b. if b then some (hostvars vars) else lookup g (entries groups)) meta
    ∙ lookup-entries g groups
    ∙ ap as_entry (lookup-list_hosts set_order order g hs [] [] empty all)
    ∙ as_entry-joined (names_in g hs)
