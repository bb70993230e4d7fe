-- ===== src/Inventory/Groups/Required.antt =====
-- `ensure_required_groups` of contrib/inventory_builder/inventory.py.
use vagrant_portainer.Base.{
  String, ◌≡◌, refl, ap, ◌∙◌, Bool, true, false, not, ◌&&◌, ◌||◌, Option, none, some, List, [], ◌∷◌,
  arith, ◌==◌, eq_iff, Bool-cases, Option-cases, inl, inr,
}
use vagrant_portainer.Base.Result.{ok, fold_result}
use vagrant_portainer.Base.Lists.{elem}
use vagrant_portainer.Base.Dict.{lookup, put, lookup-put}
use vagrant_portainer.Inventory.Types.{Group, AllGroup}
use vagrant_portainer.Inventory.Groups.{no_hosts, ensure_group, ensure_required_groups}

abbrev pub or_group : Option Group → Bool → Option Group
or_group (some g) b = some g
or_group none true = some no_hosts
or_group none false = none

-- The document has the groups of the list, empty where they are new, and all else is unchanged.
pub record HasGroups (groups : List String) (a a' : AllGroup) : Type 0 where
  pub hosts : a'.hosts ≡ a.hosts
  pub group :
      (g : String)
      → lookup g a'.children ≡ or_group (lookup g a.children) (elem g groups && not (g == "all"))

HasGroups-refl : (a : AllGroup) → HasGroups [] a a
HasGroups-refl a = record { hosts = refl; group = λ g. same (lookup g a.children) }
  where
    same : (o : Option Group) → o ≡ or_group o false
    same (some g) = refl
    same none = refl

or_group-or : (o : Option Group) (b c : Bool) → or_group (or_group o b) c ≡ or_group o (b || c)
or_group-or (some g) b c = refl
or_group-or none true c = refl
or_group-or none false c = refl

ensure_group-HasGroups :
    (a : AllGroup) (group : String)
    → (a' : AllGroup) × (ensure_group (some a) group ≡ ok (some a')) × HasGroups (group ∷ []) a a'
unfolding ensure_group
ensure_group-HasGroups a group = elim (Bool-cases (group == "all")) [
  | inl is_all ↦ (
    a,
    rw is_all refl,
    record {
      hosts = refl;
      group = λ g. ground (arith, eq_iff g group, eq_iff group "all", eq_iff g "all");
    },
  )
  | inr other ↦ elim (Option-cases (lookup group a.children)) [
    | inl absent ↦ (
      record a { children = put group no_hosts a.children },
      rw (other, absent) refl,
      record {
        hosts = refl;
        group = λ g.
            rw lookup-put
              (ground (arith, eq_iff g group, eq_iff group g, eq_iff group "all", eq_iff g "all"));
      },
    )
    | inr (old, there) ↦ (
      a,
      rw (other, there) refl,
      record { hosts = refl; group = λ g. ground (arith, eq_iff g group, eq_iff group g) },
    )
  ]
]

-- On a document with a key `all`, `ensure_required_groups` raises no error, keeps every group that
-- is there with its contents, and adds the missing ones of the list without hosts.
pub ensure_required_groups-HasGroups :
    (a : AllGroup) (groups : List String)
    → (a' : AllGroup) × (ensure_required_groups (some a) groups ≡ ok (some a'))
      × HasGroups groups a a'
unfolding ensure_required_groups fold_result
ensure_required_groups-HasGroups a [] = (a, refl, HasGroups-refl a)
ensure_required_groups-HasGroups a (g ∷ gs) =
    let (a₁, e₁, h₁) = ensure_group-HasGroups a g in
    let (a₂, e₂, h₂) = ensure_required_groups-HasGroups a₁ gs in
    (
      a₂,
      rw e₁ e₂,
      record {
        hosts = h₂.hosts ∙ h₁.hosts;
        group = λ k.
            h₂.group k
            ∙ ap (λ o. or_group o (elem k gs && not (k == "all"))) (h₁.group k)
            ∙ or_group-or (lookup k a.children) _ _
            ∙ ap (or_group (lookup k a.children)) (ground arith);
      },
    )
