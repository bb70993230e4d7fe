-- ===== src/Inventory/Groups/Ensured.antt =====
-- `ensure_required_groups` of contrib/inventory_builder/inventory.py on documents in which every
-- group has a mapping of hosts.
use vagrant_portainer.Base.{
  String, ◌≡◌, refl, ap, ◌∙◌, Bool, true, false, not, ◌&&◌, Option, none, some, List, arith, ◌==◌,
}
use vagrant_portainer.Base.Result.{
  ok, Ensures, Ensures-ok, Ensures-if, Ensures-fold_result, ensures_rules,
}
use vagrant_portainer.Base.Lists.{elem}
use vagrant_portainer.Base.Dict.{has_key, lookup, is_some}
use vagrant_portainer.Inventory.Types.{Group, AllGroup, Config}
use vagrant_portainer.Inventory.Groups.{no_hosts, ensure_group, ensure_required_groups}
use vagrant_portainer.Inventory.Groups.Members.{is_member, members}
use vagrant_portainer.Inventory.Groups.Required.{or_group, ensure_required_groups-HasGroups}
use vagrant_portainer.Inventory.Groups.Shaped.{Shape, all_shaped, put-all_shaped}

-- Every group of the document has a mapping.
abbrev Mapped : Config → Type 0
Mapped none = Unit
Mapped (some a) = all_shaped a.children ≡ true

ensure_group-Mapped : (c : Config) (g : String) → Mapped c → Ensures Mapped (ensure_group c g)
unfolding ensure_group all_shaped
ensure_group-Mapped none g h = search ensures_rules
ensure_group-Mapped (some a) g h =
    Ensures-if (g == "all") _ _ (λ _. Ensures-ok _ h)
      (λ _.
        Ensures-if (has_key g a.children) _ _ (λ _. Ensures-ok _ h)
          (λ _. Ensures-ok _ (put-all_shaped g no_hosts a.children (ground arith) h)))

is_some-or_group : (o : Option Group) → is_some (or_group o true) ≡ true
is_some-or_group none = refl
is_some-or_group (some g) = refl

-- A group that is new has no hosts.
has_key-or_group :
    (h : String) (o : Option Group) (b : Bool)
    → has_key h (members (or_group o b)) ≡ has_key h (members o)
unfolding lookup
has_key-or_group h (some g) b = refl
has_key-or_group h none true = refl
has_key-or_group h none false = refl

-- The document after `ensure_required_groups`: the groups of the list are there, and nothing else
-- has changed.
pub record Ensured (groups : List String) (a a' : AllGroup) : Type 0 where
  pub hosts : a'.hosts ≡ a.hosts
  pub shaped : all_shaped a'.children ≡ true
  pub member : (g h : String) → is_member (some a') g h ≡ is_member (some a) g h
  pub there :
      (g : String) → (elem g groups && not (g == "all")) ≡ true → has_key g a'.children ≡ true
  pub kept : (g : String) → has_key g a.children ≡ true → has_key g a'.children ≡ true

has_key-or_kept : (o : Option Group) (b : Bool) → is_some o ≡ true → is_some (or_group o b) ≡ true
has_key-or_kept none b h = absurd cc
has_key-or_kept (some g) b h = refl

pub ensure_required_groups-Ensured :
    (a : AllGroup) (groups : List String)
    → all_shaped a.children ≡ true
    → (a' : AllGroup) × (ensure_required_groups (some a) groups ≡ ok (some a'))
      × Ensured groups a a'
unfolding ensure_required_groups
ensure_required_groups-Ensured a groups shaped =
    let (a', e, h) = ensure_required_groups-HasGroups a groups in
    (
      a',
      e,
      record {
        hosts = h.hosts;
        shaped =
            (Ensures-fold_result ensure_group ensure_group-Mapped (some a) groups shaped).at
              (some a') e;
        member = λ g host.
            ap (λ o. has_key host (members o)) (h.group g)
            ∙ has_key-or_group host (lookup g a.children) _;
        there = λ g r. ap is_some (h.group g) ∙ rw r (is_some-or_group (lookup g a.children));
        kept = λ g k. ap is_some (h.group g) ∙ has_key-or_kept (lookup g a.children) _ k;
      },
    )

-- The shape is kept.
pub Ensured-Shape :
    (groups : List String) (a a' : AllGroup) → Ensured groups a a' → Shape a → Shape a'
Ensured-Shape groups a a' h s = record {
  hosts = rw h.hosts s.hosts;
  groups = h.shaped;
  etcd = h.kept "etcd" s.etcd;
  control_plane = h.kept "kube_control_plane" s.control_plane;
  node = h.kept "kube_node" s.node;
  calico = h.kept "calico_rr" s.calico;
}
