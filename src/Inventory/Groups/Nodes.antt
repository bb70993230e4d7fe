-- ===== src/Inventory/Groups/Nodes.antt =====
-- `set_kube_node` of contrib/inventory_builder/inventory.py.

use vagrant_portainer.Base.{
  ℕ, String, ◌≡◌, refl, sym, ap, ◌∙◌, Bool, true, false, not, ◌&&◌, ◌||◌, Option, none, some, List,
  [], ◌∷◌, arith, ◌==◌, eq_iff, leb,
}
use vagrant_portainer.Base.Result.{
  ok, >>=-eq-ok, ok-injective, Ensures, Ensures-ok, Ensures-raise, Ensures-if, Ensures-bind,
  fold_result,
}
use vagrant_portainer.Base.Lists.{elem, length}
use vagrant_portainer.Base.Dict.{has_key}
use vagrant_portainer.Inventory.Types.{
  blank, Hosts, AllGroup, Config, item, hosts_of, entries, Settings, or_empty,
}
use vagrant_portainer.Inventory.Groups.{
  add_host_to_group, member_of, hosts_count, at_scale, node_round, set_kube_node,
}
use vagrant_portainer.Inventory.Groups.Members.{
  is_member, members, hosts_in, all_hosts, Adds, add_host_to_group-Adds, item-lookup, hosts_of-eq,
}

-- At a scale of `threshold` hosts, the host is in the group.
abbrev pub is_reserved : ℕ → String → Config → String → Bool
is_reserved threshold group c h = leb threshold (length (all_hosts c)) && is_member c group h

-- A host that is kept off the nodes: one of etcd at scale, of the control plane at massive scale.
abbrev pub is_dedicated : Settings → Config → String → Bool
is_dedicated s c h =
    is_reserved s.scale_threshold "etcd" c h
    || is_reserved s.massive_scale_threshold "kube_control_plane" c h

entries-eq : (m : Option Hosts) (d : Hosts) → entries m ≡ ok d → m ≡ some d
entries-eq none d e = absurd cc
entries-eq (some h) d e = cc

member_of-eq :
    (group h : String) (a : AllGroup) (b : Bool)
    → member_of group h a ≡ ok b
    → is_member (some a) group h ≡ b
member_of-eq group h a b e =
    let (g, e₁, e₂) = >>=-eq-ok (item group a.children) _ e in
    let (m, e₃, e₄) = >>=-eq-ok (hosts_of g) _ e₂ in
    let (d, e₅, e₆) = >>=-eq-ok (entries m) _ e₄ in
    ap (λ x. has_key h (members x)) (item-lookup group a.children g e₁)
    ∙ ap (λ x. has_key h (hosts_in x)) (hosts_of-eq g m e₃)
    ∙ ap (λ x. has_key h (or_empty x)) (entries-eq m d e₅)
    ∙ ok-injective e₆

hosts_count-eq : (a : AllGroup) (n : ℕ) → hosts_count a ≡ ok n → length (all_hosts (some a)) ≡ n
hosts_count-eq a n e = ground arith

-- Some of the hosts are added to the group: those that `skip` does not pass over.
pub record Selects (group : String) (skip : String → Bool) (hosts : List String) (c c' : Config)
    : Type 0 where
  pub member :
      (g h : String)
      → is_member c' g h ≡ ((group == g && elem h hosts && not (skip h)) || is_member c g h)
  pub all : all_hosts c' ≡ all_hosts c

at_scale-eq :
    (threshold n : ℕ) (group h : String) (a : AllGroup) (b : Bool)
    → hosts_count a ≡ ok n
    → at_scale threshold n (member_of group h a) ≡ ok b
    → is_reserved threshold group (some a) h ≡ b
at_scale-eq threshold n group h a b count e =
    ground (arith, member_of-eq group h a b, hosts_count-eq a n count)

Selects-none :
    (group : String) (skip : String → Bool) (host : String) (c : Config)
    → skip host ≡ true
    → Selects group skip (host ∷ []) c c
Selects-none group skip host c e = record {
  member = λ g h. ground (arith, eq_iff h host, ap skip {x = h} {y = host});
  all = refl;
}

Selects-one :
    (group : String) (skip : String → Bool) (host : String) (c c' : Config)
    → skip host ≡ false
    → Adds group (host ∷ []) c c'
    → Selects group skip (host ∷ []) c c'
Selects-one group skip host c c' e a = record {
  member = λ g h. ground (arith, a.member g h, eq_iff h host);
  all = a.all;
}

Selects-trans :
    (group : String) (skip : String → Bool) (host : String) (hosts : List String)
    (c₀ c₁ c₂ : Config)
    → Selects group skip (host ∷ []) c₀ c₁
    → Selects group skip hosts c₁ c₂
    → Selects group skip (host ∷ hosts) c₀ c₂
Selects-trans group skip host hosts c₀ c₁ c₂ h k = record {
  member = λ g j. ground (arith, h.member g j, k.member g j);
  all = k.all ∙ h.all;
}

-- A document in which `skip` is what the settings say.
abbrev Dedicated : Settings → (String → Bool) → Config → Type 0
Dedicated s skip c = (h : String) → is_dedicated s c h ≡ skip h

-- Adding nodes changes neither the count of the hosts nor etcd and the control plane.
Dedicated-Selects :
    (s : Settings) (skip : String → Bool) (hosts : List String) (c c' : Config)
    → Dedicated s skip c
    → Selects "kube_node" skip hosts c c'
    → Dedicated s skip c'
Dedicated-Selects s skip hosts c c' d k h =
    rw (k.member "etcd" h, k.member "kube_control_plane" h, k.all) (d h)

add_node-Selects :
    (skip : String → Bool) (c : Config) (host : String)
    → skip host ≡ false
    → Ensures (Selects "kube_node" skip (host ∷ []) c) (add_host_to_group c "kube_node" host blank)
add_node-Selects skip c host e = record {
  at = λ c' f.
      Selects-one "kube_node" skip host c c' e
        ((add_host_to_group-Adds c "kube_node" host blank (refl, refl)).at c' f);
}

node_round-Selects :
    (s : Settings) (skip : String → Bool) (c : Config) (host : String)
    → Dedicated s skip c
    → Ensures (Selects "kube_node" skip (host ∷ []) c) (node_round s c host)
unfolding node_round
node_round-Selects s skip none host d = Ensures-raise _
node_round-Selects s skip (some a) host d = Ensures-bind (hosts_count a) _ λ n count.
    Ensures-bind _ _ λ b₁ e₁.
      let in_etcd = at_scale-eq s.scale_threshold n "etcd" host a b₁ count e₁ in
      Ensures-if b₁ _ _
        (λ t.
          Ensures-ok (some a)
            (Selects-none "kube_node" skip host (some a) (sym (d host) ∙ ground (arith, in_etcd))))
        (λ f. Ensures-bind _ _ λ b₂ e₂.
          let in_control_plane =
            at_scale-eq s.massive_scale_threshold n "kube_control_plane" host a b₂ count e₂ in
          Ensures-if b₂ _ _
            (λ t. Ensures-ok (some a) (
              Selects-none "kube_node" skip host (some a)
                (sym (d host) ∙ ground (arith, in_control_plane))))
            (λ f'.
              add_node-Selects skip (some a) host
                (sym (d host) ∙ ground (arith, in_etcd, in_control_plane))))

nodes-Selects :
    (s : Settings) (skip : String → Bool) (c : Config) (hosts : List String)
    → Dedicated s skip c
    → Ensures (Selects "kube_node" skip hosts c) (set_kube_node s c hosts)
unfolding set_kube_node fold_result
nodes-Selects s skip c [] d = Ensures-ok c (record { member = λ g h. ground arith; all = refl })
nodes-Selects s skip c (host ∷ hosts) d = Ensures-bind (node_round s c host) _ λ c₁ e.
    let one = (node_round-Selects s skip c host d).at c₁ e in
    record {
      at = λ c₂ f. Selects-trans "kube_node" skip host hosts c c₁ c₂ one (
          (nodes-Selects s skip c₁ hosts (Dedicated-Selects s skip (host ∷ []) c c₁ d one)).at c₂
            f);
    }

-- `set_kube_node` adds the hosts to `kube_node`, and to no other group, but for those of etcd at
-- scale and those of the control plane at massive scale.
pub set_kube_node-Selects :
    (s : Settings) (c : Config) (hosts : List String)
    → Ensures (Selects "kube_node" (is_dedicated s c) hosts c) (set_kube_node s c hosts)
set_kube_node-Selects s c hosts = nodes-Selects s (is_dedicated s c) c hosts (λ h. refl)

-- `set_kube_node` adds its hosts to `kube_node`, but for those of etcd at scale and those of the
-- control plane at massive scale; it changes no other group, and not the hosts of `all`.
pub is_member-set_kube_node :
    (s : Settings) (c : Config) (hosts : List String) (c' : Config) (g h : String)
    → set_kube_node s c hosts ≡ ok c'
    → (is_member c' g h
        ≡ (("kube_node" == g && elem h hosts && not (is_dedicated s c h)) || is_member c g h))
      × (all_hosts c' ≡ all_hosts c)
is_member-set_kube_node s c hosts c' g h e =
    let p = (set_kube_node-Selects s c hosts).at c' e in (p.member g h, p.all)
