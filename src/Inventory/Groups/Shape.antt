-- ===== src/Inventory/Groups/Shape.antt =====
-- Documents on which the operations of contrib/inventory_builder/inventory.py raise no error: the
-- groups of the roles are there, and every group has a mapping of hosts.
use vagrant_portainer.Base.{
  ℕ, String, ◌≡◌, refl, ◌∙◌, Bool, true, false, ◌&&◌, Option, none, some, List, [], ◌∷◌, arith,
  ◌==◌, leb, if◌then◌else◌, Bool-cases, Option-cases, inl, inr,
}
use vagrant_portainer.Base.Result.{Result, ok}
use vagrant_portainer.Base.Lists.{length}
use vagrant_portainer.Base.Dict.{Dict, has_key, lookup, keys, is_some}
use vagrant_portainer.Inventory.Types.{roles, Hosts, Group, AllGroup, Config, entries, Settings}
use vagrant_portainer.Inventory.Groups.{
  put_host, add_host_to_group, purged, purge_group, purge_groups, purge_all_hosts,
  purge_invalid_hosts, set_all, set_k8s_cluster, set_etcd, set_kube_control_plane, member_of,
  hosts_count, at_scale, node_round, set_kube_node, group_has_key, calico_round, set_calico_rr,
  distribute,
}
use vagrant_portainer.Inventory.Groups.Shaped.{
  is_shaped, all_shaped, Shape, Succeeds, Succeeds-bind, Succeeds-fold, mapping_of, lookup-mapping,
  put-Shape, lookup-item, hosts-hosts_of, IsRole, add-Succeeds, add_all-Succeeds,
}

etcd-IsRole : (a : AllGroup) → Shape a → IsRole a "etcd"
etcd-IsRole a s = record { not_all = refl; not_children = refl; not_cluster = refl; there = s.etcd }

control_plane-IsRole : (a : AllGroup) → Shape a → IsRole a "kube_control_plane"
control_plane-IsRole a s = record {
  not_all = refl;
  not_children = refl;
  not_cluster = refl;
  there = s.control_plane;
}

node-IsRole : (a : AllGroup) → Shape a → IsRole a "kube_node"
node-IsRole a s = record { not_all = refl; not_children = refl; not_cluster = refl; there = s.node }

calico-IsRole : (a : AllGroup) → Shape a → IsRole a "calico_rr"
calico-IsRole a s = record {
  not_all = refl;
  not_children = refl;
  not_cluster = refl;
  there = s.calico;
}

member_of-returns :
    (group host : String) (a : AllGroup)
    → Shape a
    → IsRole a group
    → (b : Bool) × (member_of group host a ≡ ok b)
member_of-returns group host a s r =
    let (g, h, e, f) = lookup-mapping group a.children s.groups r.not_cluster r.there in
    (has_key host h, rw (lookup-item group a.children g e, hosts-hosts_of g (some h) f) refl)

at_scale-returns :
    (threshold n : ℕ) (m : Result Bool)
    → (b : Bool) × (m ≡ ok b)
    → (b : Bool) × (at_scale threshold n m ≡ ok b)
at_scale-returns threshold n m (b, e) = (leb threshold n && b, ground arith)

hosts_count-returns : (a : AllGroup) → Shape a → (n : ℕ) × (hosts_count a ≡ ok n)
hosts_count-returns a s = elim (Option-cases a.hosts) [
  | inl none_there ↦ absurd (ground (arith, s.hosts))
  | inr (h, e) ↦ (length h, rw (e, entries) refl)
]

if-Succeeds :
    (b : Bool) (m n : Result Config) → Succeeds m → Succeeds n → Succeeds (if b then m else n)
if-Succeeds true m n h k = h
if-Succeeds false m n h k = k

stays-Succeeds : (a : AllGroup) → Shape a → Succeeds (ok (some a))
stays-Succeeds a s = record { result = a; returns = refl; shape = s }

node_round-Succeeds :
    (s : Settings) (a : AllGroup) (host : String) → Shape a → Succeeds (node_round s (some a) host)
unfolding node_round
node_round-Succeeds s a host h =
    let (n, e₁) = hosts_count-returns a h in
    let (b₁, e₂) =
      at_scale-returns s.scale_threshold n _
        (member_of-returns "etcd" host a h (etcd-IsRole a h)) in
    let (b₂, e₃) =
      at_scale-returns s.massive_scale_threshold n _
        (member_of-returns "kube_control_plane" host a h (control_plane-IsRole a h)) in
    rw (e₁, e₂)
      (if-Succeeds b₁ _ _ (stays-Succeeds a h) (
        rw e₃ (
          if-Succeeds b₂ _ _ (stays-Succeeds a h)
            (add-Succeeds a "kube_node" host h (node-IsRole a h)))))

calico_round-Succeeds :
    (a : AllGroup) (host : String) → Shape a → Succeeds (calico_round (some a) host)
unfolding calico_round
calico_round-Succeeds a host s =
    let (p, _, e, _) =
      lookup-mapping "kube_control_plane" a.children s.groups refl s.control_plane in
    let (q, _, f, _) = lookup-mapping "kube_node" a.children s.groups refl s.node in
    rw (lookup-item "kube_control_plane" a.children p e) (
      if-Succeeds (group_has_key host p) _ _ (stays-Succeeds a s) (
        rw (lookup-item "kube_node" a.children q f) (
          if-Succeeds (group_has_key host q) _ _ (stays-Succeeds a s)
            (add-Succeeds a "calico_rr" host s (calico-IsRole a s)))))

set_all-Succeeds : (a : AllGroup) (hosts : Hosts) → Shape a → Succeeds (set_all (some a) hosts)
unfolding set_all add_host_to_group
set_all-Succeeds a hosts s =
    Succeeds-fold _
      (λ a' (h, o) s'. record {
        result = record a' { hosts = some (put_host h o a'.hosts) };
        returns = refl;
        shape = record {
          hosts = refl;
          groups = s'.groups;
          etcd = s'.etcd;
          control_plane = s'.control_plane;
          node = s'.node;
          calico = s'.calico;
        };
      })
      a hosts s

pub set_k8s_cluster-Succeeds : (a : AllGroup) → Shape a → Succeeds (set_k8s_cluster (some a))
unfolding set_k8s_cluster
set_k8s_cluster-Succeeds a s = record {
  result = _;
  returns = refl;
  shape = put-Shape a "k8s_cluster" _ s refl;
}

module _ (hostnames protected : List String) where
  -- The purge of a group that the purge passes over, or that has a mapping.
  purge_group-returns :
      (role : String) (g : Group)
      → is_shaped role g ≡ true
      → (g' : Group) × (purge_group hostnames protected role g ≡ ok g') × (is_shaped role g' ≡ true)
  unfolding purge_group
  purge_group-returns role g h = elim (Bool-cases (role == "k8s_cluster")) [
    | inl cluster ↦ (g, rw cluster refl, h)
    | inr other ↦
        let (d, e) = mapping_of g.hosts (ground arith) in
        (
          purged hostnames protected g (some d),
          rw (other, hosts-hosts_of g (some d) e) refl,
          ground arith,
        )
  ]

  purge_groups-returns :
      (children : Dict Group)
      → all_shaped children ≡ true
      → (d : Dict Group) × (purge_groups hostnames protected children ≡ ok d)
        × (all_shaped d ≡ true)
        × ((k : String) → has_key k d ≡ has_key k children)
  unfolding purge_groups all_shaped lookup
  purge_groups-returns [] h = ([], refl, refl, λ k. refl)
  purge_groups-returns ((role, g) ∷ rest) h =
      let (g', e, s) = purge_group-returns role g (ground arith) in
      let (d, f, t, same) = purge_groups-returns rest (ground arith) in
      ((role, g') ∷ d, rw (e, f) refl, ground arith, λ k. ground (arith, same k))

  is_some-purge_all_hosts :
      (m : Option Hosts) → is_some m ≡ true → is_some (purge_all_hosts hostnames protected m) ≡ true
  is_some-purge_all_hosts none h = h
  is_some-purge_all_hosts (some d) h = refl

  purge_invalid_hosts-Succeeds :
      (a : AllGroup) → Shape a → Succeeds (purge_invalid_hosts (some a) hostnames protected)
  unfolding purge_invalid_hosts
  purge_invalid_hosts-Succeeds a s =
      let (d, e, t, same) = purge_groups-returns a.children s.groups in
      record {
        result = record a { hosts = purge_all_hosts hostnames protected a.hosts; children = d };
        returns = rw e refl;
        shape = record {
          hosts = is_some-purge_all_hosts a.hosts s.hosts;
          groups = t;
          etcd = same "etcd" ∙ s.etcd;
          control_plane = same "kube_control_plane" ∙ s.control_plane;
          node = same "kube_node" ∙ s.node;
          calico = same "calico_rr" ∙ s.calico;
        };
      }

-- On a document of this shape the distribution of roles raises no error, and the document that
-- it returns has the shape again.
pub distribute-Succeeds :
    (s : Settings) (a : AllGroup) (hosts : Hosts) → Shape a → Succeeds (distribute s (some a) hosts)
unfolding distribute set_etcd set_kube_control_plane set_kube_node set_calico_rr
distribute-Succeeds s a₀ hosts h₀ =
    Succeeds-bind _ _ (purge_invalid_hosts-Succeeds (keys hosts) roles a₀ h₀) λ a₁ h₁.
      Succeeds-bind _ _ (set_all-Succeeds a₁ hosts h₁) λ a₂ h₂.
        Succeeds-bind _ _ (set_k8s_cluster-Succeeds a₂ h₂) λ a₃ h₃.
          Succeeds-bind _ _ (add_all-Succeeds "etcd" _ etcd-IsRole a₃ h₃) λ a₄ h₄.
            Succeeds-bind _ _ (add_all-Succeeds "kube_control_plane" _ control_plane-IsRole a₄ h₄)
              λ a₅ h₅.
                Succeeds-bind _ _ (Succeeds-fold _ (node_round-Succeeds s) a₅ (keys hosts) h₅)
                  λ a₆ h₆.
                    if-Succeeds (leb s.scale_threshold (length (keys hosts))) _ _
                      (Succeeds-fold _ calico_round-Succeeds a₆ _ h₆) (stays-Succeeds a₆ h₆)
