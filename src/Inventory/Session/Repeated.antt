-- ===== src/Inventory/Session/Repeated.antt =====
-- `inventory.py add ...` of contrib/inventory_builder/inventory.py, repeated with the same
-- addresses.
use mathlib.Core.Path.{subst}
use vagrant_portainer.Base.{
  String, ◌≡◌, refl, sym, ap, ◌∙◌, Bool, true, false, ◌&&◌, ◌||◌, not, some, List, ◌∷◌, arith,
}
use vagrant_portainer.Base.Result.{all}
use vagrant_portainer.Base.Lists.{elem}
use vagrant_portainer.Base.Dict.{IsDict, keys}
use vagrant_portainer.Inventory.Types.{roles, Hosts, AllGroup, Config, Settings, or_empty}
use vagrant_portainer.Inventory.Hosts.Names.{IsPlainPrefix}
use vagrant_portainer.Inventory.Hosts.Keeps.{AllAddresses, build_hostnames-Extends}
use vagrant_portainer.Inventory.Hosts.Added.{covers, build_hostnames-covers}
use vagrant_portainer.Inventory.Hosts.Repeated.{build_hostnames-repeated}
use vagrant_portainer.Inventory.Groups.{purge_hosts}
use vagrant_portainer.Inventory.Groups.Members.{is_member, all_hosts}
use vagrant_portainer.Inventory.Groups.Nodes.{is_dedicated}
use vagrant_portainer.Inventory.Groups.Purge.{is_kept, put_all}
use vagrant_portainer.Inventory.Groups.Entries.{put_all-extended}
use vagrant_portainer.Inventory.Groups.Distributed.{
  IsDistributed, etcd_hosts, first_control_plane, stays, distribute-Distribution,
}
use vagrant_portainer.Inventory.Session.{World}
use vagrant_portainer.Inventory.Session.Use.{
  IsInventory, AreHosts, Prepared-again, Makes, configure_returns, with_file, init_adds,
}
use vagrant_portainer.Inventory.Session.Lifetime.{Writes}

-- The two documents have the same hosts in etcd, the control plane and `kube_node`.
pub record SameRoles (c c' : Config) : Type 0 where
  pub etcd : (h : String) → is_member c' "etcd" h ≡ is_member c "etcd" h
  pub control_plane :
      (h : String) → is_member c' "kube_control_plane" h ≡ is_member c "kube_control_plane" h
  pub node : (h : String) → is_member c' "kube_node" h ≡ is_member c "kube_node" h

-- The same table is distributed twice, and then a member of a group is one that is given out (`x`),
-- or stays.
module _ (s : Settings) (table : Hosts) (c₀ c₁ c₂ c₃ : Config)
    (same : (g h : String) → is_member c₂ g h ≡ is_member c₁ g h)
    (hosts : all_hosts c₃ ≡ all_hosts c₁) where
  member_again :
      (g h : String) (x : Bool)
      → is_member c₁ g h ≡ (x || stays c₀ table g h)
      → is_member c₃ g h ≡ (x || stays c₂ table g h)
      → is_member c₃ g h ≡ is_member c₁ g h
  member_again g h x e f =
      again x (is_member c₀ g h) (is_kept (keys table) roles h) (is_member c₂ g h) _ _ e (same g h)
        f
    where
      again :
          (x m k before here twice : Bool)
          → here ≡ (x || (m && k))
          → before ≡ here
          → twice ≡ (x || (before && k))
          → twice ≡ here
      again x m k before here twice e f g = ground arith

  distribute-SameRoles : IsDistributed s table c₀ c₁ → IsDistributed s table c₂ c₃ → SameRoles c₁ c₃
  distribute-SameRoles d₁ d₃ = record {
    etcd = etcd_again;
    control_plane = control_plane_again;
    node = λ h.
        member_again "kube_node" h (elem h (keys table) && not (is_dedicated s c₁ h)) (d₁.node h) (
          d₃.node h
          ∙ ap (λ d. (elem h (keys table) && not d) || stays c₂ table "kube_node" h) (dedicated h));
  }
    where
      etcd_again : (h : String) → is_member c₃ "etcd" h ≡ is_member c₁ "etcd" h
      etcd_again h = member_again "etcd" h (elem h (etcd_hosts table)) (d₁.etcd h) (d₃.etcd h)

      control_plane_again :
          (h : String) → is_member c₃ "kube_control_plane" h ≡ is_member c₁ "kube_control_plane" h
      control_plane_again h =
          member_again "kube_control_plane" h (elem h (first_control_plane s (keys table)))
            (d₁.control_plane h) (d₃.control_plane h)

      dedicated : (h : String) → is_dedicated s c₃ h ≡ is_dedicated s c₁ h
      dedicated h = rw (hosts, etcd_again h, control_plane_again h) refl

module _ (w : World) (generated : w.settings.use_real_hostname ≡ false)
    (plain : IsPlainPrefix w.settings.host_prefix) where
  -- After addresses are added, the hosts of the document are those of the table, in its order.
  hosts-Makes :
      (b : AllGroup) (expanded : List String) (a' : AllGroup)
      → IsDict (or_empty b.hosts)
      → AllAddresses expanded
      → (m : Makes w b true expanded a') → or_empty a'.hosts ≡ m.table
  hosts-Makes b expanded a' dict addresses m =
      let x =
        (build_hostnames-Extends w.settings (some b) expanded generated plain dict addresses).at
          m.table m.builds in
      ((distribute-Distribution w.settings (some b) m.table).at (some a') m.distributes).all_entries
      ∙ subst (λ t. put_all t (purge_hosts (keys t) roles (or_empty b.hosts)) ≡ t) (sym x.same)
          (put_all-extended (or_empty b.hosts) x.added (subst IsDict x.same m.keys))

-- With generated names and a plain prefix, on a document that the program can load, `add` with the
-- same addresses a second time writes the file once, and changes neither the hosts of `all`, with
-- their values and their order, nor who is in etcd, the control plane and `kube_node`.
pub init_add-SameRoles :
    (w : World) (a : AllGroup) (h : String) (hs : List String)
    → w.settings.use_real_hostname ≡ false
    → IsPlainPrefix w.settings.host_prefix
    → IsInventory w.settings.host_prefix a
    → (hosts : AreHosts w.settings (h ∷ hs)) → AllAddresses hosts.expanded
    → (a' : AllGroup) × Writes (with_file w (some (some a))) ("add" ∷ h ∷ hs) a'
      × (a'' : AllGroup) × Writes (with_file w (some (some a'))) ("add" ∷ h ∷ hs) a''
      × (or_empty a''.hosts ≡ or_empty a'.hosts)
      × SameRoles (some a') (some a'')
init_add-SameRoles w a h hs generated plain i hosts addresses =
    let s = w.settings in
    let w₁ = with_file w (some (some a)) in
    let (b₁, p₁) = Prepared-again s.host_prefix a i in
    let (a₁, e₁, i₁, m₁) = configure_returns w₁ generated plain (some a) b₁ h hs true p₁ hosts in
    let w₂ = with_file w (some (some a₁)) in
    let (b₂, p₂) = Prepared-again s.host_prefix a₁ i₁ in
    let (a₂, e₂, i₂, m₂) = configure_returns w₂ generated plain (some a₁) b₂ h hs true p₂ hosts in
    let same₁ = hosts-Makes w₁ generated plain b₁ hosts.expanded a₁ p₁.keys addresses m₁ in
    let same₂ = hosts-Makes w₂ generated plain b₂ hosts.expanded a₂ p₂.keys addresses m₂ in
    let covered =
      build_hostnames-covers s generated plain (some b₁) hosts.expanded m₁.table addresses
        m₁.builds in
    let loaded : or_empty b₂.hosts ≡ m₁.table = p₂.same ∙ same₁ in
    let table : m₂.table ≡ m₁.table =
      (build_hostnames-repeated s (some b₂) hosts.expanded p₂.keys addresses
          (subst (λ d. all (covers d) hosts.expanded ≡ true) (sym loaded) covered)).at
        m₂.table m₂.builds
      ∙ loaded in
    let all_same = same₂ ∙ table ∙ sym same₁ in
    let d₁ =
      ((distribute-Distribution s (some b₁) m₁.table).at (some a₁) m₁.distributes).distributed in
    let d₂ =
      ((distribute-Distribution s (some b₂) m₂.table).at (some a₂) m₂.distributes).distributed in
    (
      a₁,
      init_adds w a h hs hosts.is_deletion hosts.starts ∙ e₁,
      a₂,
      init_adds w a₁ h hs hosts.is_deletion hosts.starts ∙ e₂,
      all_same,
      distribute-SameRoles s m₁.table (some b₁) (some a₁) (some b₂) (some a₂) p₂.members all_same d₁
          (subst (λ t. IsDistributed s t (some b₂) (some a₂)) table d₂),
    )
