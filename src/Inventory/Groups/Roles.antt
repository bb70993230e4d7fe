-- ===== src/Inventory/Groups/Roles.antt =====
-- The distribution of roles by contrib/inventory_builder/inventory.py: lines 122 to 135.

use vagrant_portainer.Base.{
  ◌≤◌, String, ◌≡◌, sym, ap, ◌∙◌, Bool, true, false, not, ◌&&◌, ◌||◌, List, [], arith, leb,
  Bool-cases, inl, inr,
}
use vagrant_portainer.Base.Result.{ok}
use vagrant_portainer.Base.Lists.{
  elem, length, drop, elem-take, elem-drop, take-drop_disjoint, Nodup,
}
use vagrant_portainer.Base.Dict.{IsDict, has_key, keys, has_key-keys, keys-Nodup, length-keys}
use vagrant_portainer.Inventory.Types.{roles, Hosts, Config, Settings}
use vagrant_portainer.Inventory.Groups.{etcd_hosts_count, control_plane_hosts, distribute}
use vagrant_portainer.Inventory.Groups.Members.{is_member, all_hosts}
use vagrant_portainer.Inventory.Groups.Purge.{is_kept}
use vagrant_portainer.Inventory.Groups.Nodes.{is_dedicated}
use vagrant_portainer.Inventory.Groups.Distributed.{
  first_hosts, first_control_plane, first_hosts-take, first_control_plane-eq, etcd_hosts,
  IsDistributed, distribute-Distribution,
}

-- For any document and any table of hosts, where the distribution returns: etcd has the first three
-- hosts of the table, or the first one where there are fewer; the control plane the first ones, or
-- those after etcd at scale; `kube_node` all hosts but those that the scale sets apart; `all` the
-- hosts of the table. Each of them has besides the members that it had and that the purge keeps.
pub distribute-IsDistributed :
    (s : Settings) (c : Config) (hosts : Hosts) (c' : Config)
    → distribute s c hosts ≡ ok c'
    → IsDistributed s hosts c c'
distribute-IsDistributed s c hosts c' e = ((distribute-Distribution s c hosts).at c' e).distributed

pub elem-first_hosts :
    (h : String) (names : List String) → elem h (first_hosts names) ≡ true → elem h names ≡ true
elem-first_hosts h names e = elem-take h _ names (rw (← first_hosts-take names) at e)

pub elem-first_control_plane :
    (s : Settings) (h : String) (names : List String)
    → elem h (first_control_plane s names) ≡ true
    → elem h names ≡ true
elem-first_control_plane s h names e =
    let f : elem h (control_plane_hosts s names) ≡ true =
      ap (elem h) (first_control_plane-eq s names) ∙ e in
    elim (Bool-cases (leb s.scale_threshold (length names))) [
      | inl at_scale ↦ elem-drop h _ names (elem-take h _ _ (rw at_scale at f))
      | inr small ↦ elem-take h _ names (rw small at f)
    ]

-- The host is in the group only if it is in `all`, or has the name of a role.
abbrev pub IsClosed : String → Config → Type 0
IsClosed group c =
    (h : String) → (is_member c group h && not (has_key h (all_hosts c) || elem h roles)) ≡ false

-- A member `m` is new (`x`) or stays (`y`), and `k` are the keys of the table.
closed_by :
    (m x y k r a z : Bool)
    → m ≡ (x || (y && (k || r)))
    → (x ≡ true → k ≡ true)
    → a ≡ (k || z)
    → (m && not (a || r)) ≡ false
closed_by m x y k r a z e f g = ground arith

-- Whatever the document held, where the distribution returns, etcd, the control plane and
-- `kube_node` hold no host that `all` does not, but for hosts with the name of a role.
pub distribute-IsClosed :
    (s : Settings) (c : Config) (hosts : Hosts) (c' : Config)
    → distribute s c hosts ≡ ok c'
    → IsClosed "etcd" c' × IsClosed "kube_control_plane" c' × IsClosed "kube_node" c'
distribute-IsClosed s c hosts c' e = (
  λ h. closed h _ _ (d.etcd h) (elem-first_hosts h (keys hosts)),
  λ h. closed h _ _ (d.control_plane h) (elem-first_control_plane s h (keys hosts)),
  λ h. closed h _ _ (d.node h) (λ x. ground arith),
)
  where
    d : IsDistributed s hosts c c'
    d = distribute-IsDistributed s c hosts c' e

    closed :
        (h : String) {m : Bool} (x y : Bool)
        → m ≡ (x || (y && is_kept (keys hosts) roles h))
        → (x ≡ true → elem h (keys hosts) ≡ true)
        → (m && not (has_key h (all_hosts c') || elem h roles)) ≡ false
    closed h {m} x y f g =
        closed_by m x y (elem h (keys hosts)) (elem h roles) (has_key h (all_hosts c'))
          (has_key h (all_hosts c) && is_kept (keys hosts) roles h) f g
          (d.all h
            ∙ ap (λ b. b || (has_key h (all_hosts c) && is_kept (keys hosts) roles h))
                (sym (has_key-keys h hosts)))

-- A document with no hosts.
pub record IsEmpty (c : Config) : Type 0 where
  pub member : (g h : String) → is_member c g h ≡ false
  pub all : all_hosts c ≡ []

or_false : (b : Bool) → (b || false) ≡ b
or_false b = ground arith

set_apart : (m e d : Bool) → (m && (e && not ((true && m) || d))) ≡ false
set_apart m e d = ground arith

set_apart' : (m e d : Bool) → (m && (e && not (d || (true && m)))) ≡ false
set_apart' m e d = ground arith

-- Two groups with no host in common.
abbrev pub Disjoint : String → String → Config → Type 0
Disjoint g g' c = (h : String) → (is_member c g h && is_member c g' h) ≡ false

-- At scale the first hosts are etcd and the next ones the control plane.
apart :
    (s : Settings) (names : List String) (h : String)
    → Nodup names
    → leb s.scale_threshold (length names) ≡ true
    → (elem h (first_hosts names) && elem h (first_control_plane s names)) ≡ false
apart s names h d big =
    let k = etcd_hosts_count (length names) in
    rw (← first_hosts-take names, ← first_control_plane-eq s names, big)
      (ground
        (arith, take-drop_disjoint h k names d, elem-take h s.kube_control_hosts (drop k names)))

module _ (s : Settings) (c c' : Config) (hosts : Hosts) (empty : IsEmpty c) (dict : IsDict hosts)
    (done : distribute s c hosts ≡ ok c') where
  distributed : IsDistributed s hosts c c'
  distributed = distribute-IsDistributed s c hosts c' done

  same_count : length (all_hosts c') ≡ length hosts
  same_count = ap length (((distribute-Distribution s c hosts).at c' done).exact empty.all dict)

  etcd_exactly : (h : String) → is_member c' "etcd" h ≡ elem h (etcd_hosts hosts)
  etcd_exactly h = distributed.etcd h ∙ rw (empty.member "etcd" h) (or_false _)

  control_plane_exactly :
      (h : String)
      → is_member c' "kube_control_plane" h ≡ elem h (first_control_plane s (keys hosts))
  control_plane_exactly h =
      distributed.control_plane h ∙ rw (empty.member "kube_control_plane" h) (or_false _)

  node_exactly :
      (h : String) → is_member c' "kube_node" h ≡ (elem h (keys hosts) && not (is_dedicated s c' h))
  node_exactly h = distributed.node h ∙ rw (empty.member "kube_node" h) (or_false _)

  -- Where the document had no hosts, the names of the table are distinct, the distribution returns,
  -- and the table has at least as many hosts as the scale threshold, etcd shares no host with the
  -- control plane and none with `kube_node`.
  pub distribute-Disjoint_etcd :
      s.scale_threshold ≤ length hosts
      → Disjoint "etcd" "kube_control_plane" c' × Disjoint "etcd" "kube_node" c'
  distribute-Disjoint_etcd big =
      let at_scale : leb s.scale_threshold (length (all_hosts c')) ≡ true =
        rw same_count (ground arith) in
      let named : leb s.scale_threshold (length (keys hosts)) ≡ true =
        rw length-keys (ground arith) in
      (
        λ h.
            rw (etcd_exactly h, control_plane_exactly h)
              (apart s (keys hosts) h (keys-Nodup hosts dict) named),
        λ h. rw (node_exactly h, at_scale) (set_apart (is_member c' "etcd" h) _ _),
      )

  -- Where the document had no hosts, the names of the table are distinct, the distribution returns,
  -- and the table has at least as many hosts as the massive scale threshold, the control plane
  -- shares no host with `kube_node`.
  pub distribute-Disjoint_control_plane :
      s.massive_scale_threshold ≤ length hosts → Disjoint "kube_control_plane" "kube_node" c'
  distribute-Disjoint_control_plane big h =
      let massive : leb s.massive_scale_threshold (length (all_hosts c')) ≡ true =
        rw same_count (ground arith) in
      rw (node_exactly h, massive) (set_apart' (is_member c' "kube_control_plane" h) _ _)

-- The hosts of etcd, the control plane and `kube_node` are together the hosts of `all`, but for
-- hosts with the name of a role.
pub record IsBalanced (c : Config) : Type 0 where
  pub at :
      (h : String)
      → elem h roles ≡ false
      → (is_member c "etcd" h || is_member c "kube_control_plane" h || is_member c "kube_node" h)
        ≡ has_key h (all_hosts c)

-- With `k` for the hosts of the table: who gets a role (`x`, `y`), who is kept off the nodes (`b`,
-- `d`), and who was in a group (`l`, `m`, `n`) or in `all` (`z`) before.
balanced :
    (e p q a x y k b d l m n z r : Bool)
    → r ≡ false
    → (x ≡ true → k ≡ true)
    → (y ≡ true → k ≡ true)
    → e ≡ (x || (l && (k || r)))
    → p ≡ (y || (m && (k || r)))
    → q ≡ ((k && not ((b && e) || (d && p))) || (n && (k || r)))
    → a ≡ (k || (z && (k || r)))
    → (e || p || q) ≡ a
balanced e p q a x y k b d l m n z r no_role f g e₁ e₂ e₃ e₄ = ground arith

pub distribute-IsBalanced :
    (s : Settings) (c : Config) (hosts : Hosts) (c' : Config)
    → distribute s c hosts ≡ ok c'
    → IsBalanced c'
distribute-IsBalanced s c hosts c' e =
    let d = distribute-IsDistributed s c hosts c' e in
    record {
      at = λ h no_role.
          balanced _ _ _ _ (elem h (etcd_hosts hosts)) (elem h (first_control_plane s (keys hosts)))
            (elem h (keys hosts)) (leb s.scale_threshold (length (all_hosts c')))
            (leb s.massive_scale_threshold (length (all_hosts c'))) (is_member c "etcd" h)
            (is_member c "kube_control_plane" h) (is_member c "kube_node" h)
            (has_key h (all_hosts c)) (elem h roles) no_role (elem-first_hosts h (keys hosts))
            (elem-first_control_plane s h (keys hosts)) (d.etcd h) (d.control_plane h) (d.node h)
            (d.all h
              ∙ ap (λ k. k || (has_key h (all_hosts c) && (elem h (keys hosts) || elem h roles)))
                  (sym (has_key-keys h hosts)));
    }
