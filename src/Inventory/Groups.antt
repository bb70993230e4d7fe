-- ===== src/Inventory/Groups.antt =====
-- contrib/inventory_builder/inventory.py: the groups of the document, the operations on them, and
-- the distribution of roles over the hosts.
pub mod Calico
pub mod Shaped
pub mod Distributed
pub mod Members
pub mod Purge
pub mod Nodes
pub mod Roles
pub mod Shape
pub mod Required
pub mod Entries
pub mod Ensured
use vagrant_portainer.Base.{
  ℕ, ◌+◌, String, ◌≡◌, refl, Bool, true, false, not, ◌&&◌, ◌||◌, Option, none, some, List, [], ◌∷◌,
  leb, ◌==◌, if◌then◌else◌,
}
use vagrant_portainer.Base.Result.{Result, ok, raise, type_error, ◌>>=◌, fold_result}
use vagrant_portainer.Base.Lists.{length, take, drop, elem}
use vagrant_portainer.Base.Dict.{Dict, has_key, lookup, put, keys}
use vagrant_portainer.Inventory.Types.{
  roles, HostVars, null, blank, Hosts, Group, AllGroup, Config, all_of, entries, item, hosts_of,
  Settings,
}

abbrev pub no_hosts : Group
no_hosts = record { hosts = some (some []); children = none }

-- One round of `ensure_required_groups`. Without a key `all` the whole document is replaced.
unfoldable pub ensure_group : Config → String → Result Config
ensure_group c group =
    if group == "all"
    then (elim c [
      | none ↦ ok (some (record { hosts = some []; children = [] }))
      | some a ↦ ok (some a)
    ])
    else do
      a ← all_of c
      if has_key group a.children
          then ok (some a)
          else ok (some (record a { children = put group no_hosts a.children }))

unfoldable pub ensure_required_groups : Config → List String → Result Config
unfolding ensure_group
ensure_required_groups c groups = fold_result ensure_group c groups

-- The entries whose host is in `hostnames` or `protected_names`.
unfoldable pub purge_hosts : List String → List String → Hosts → Hosts
purge_hosts hostnames protected [] = []
purge_hosts hostnames protected ((h, o) ∷ rest) =
    let kept = purge_hosts hostnames protected rest in
    if not (elem h hostnames) && not (elem h protected) then kept else (h, o) ∷ kept

-- A group without the hosts that are to go; a null is left.
abbrev purged : List String → List String → Group → Option Hosts → Group
purged hostnames protected g none = g
purged hostnames protected g (some h) = record g {
  hosts = some (some (purge_hosts hostnames protected h));
}

-- The body of the loop over the roles.
pub purge_group : List String → List String → String → Group → Result Group
purge_group hostnames protected role g =
    if role == "k8s_cluster"
    then ok g
    else (do hosts ← hosts_of g; ok (purged hostnames protected g hosts))

pub purge_groups : List String → List String → Dict Group → Result (Dict Group)
purge_groups hostnames protected [] = ok []
purge_groups hostnames protected ((role, g) ∷ rest) = do
  g' ← purge_group hostnames protected role g
  rest' ← purge_groups hostnames protected rest
  ok ((role, g') ∷ rest')

abbrev purge_all_hosts : List String → List String → Option Hosts → Option Hosts
purge_all_hosts hostnames protected none = none
purge_all_hosts hostnames protected (some h) = some (purge_hosts hostnames protected h)

unfoldable pub purge_invalid_hosts : Config → List String → List String → Result Config
unfolding purge_groups purge_group
purge_invalid_hosts c hostnames protected = do
  a ← all_of c
  children ← purge_groups hostnames protected a.children
  ok (some (record a { hosts = purge_all_hosts hostnames protected a.hosts; children = children }))

-- `hosts[host] = opts` for the hosts of `all`, which may be null
abbrev pub put_host : String → HostVars → Option Hosts → Hosts
put_host host opts none = put host opts ((host, null) ∷ [])
put_host host opts (some h) = put host opts h

-- The same for a child group, where the value is null.
abbrev put_member : String → Option Hosts → Hosts
put_member host none = (host, null) ∷ []
put_member host (some h) = put host null h

unfoldable pub add_host_to_group : Config → String → String → HostVars → Result Config
add_host_to_group c group host opts =
    if group == "all"
    then (do a ← all_of c; ok (some (record a { hosts = some (put_host host opts a.hosts) })))
    else if group == "k8s_cluster:children"
    then ok c
    else do
      a ← all_of c
      g ← item group a.children
      hosts ← hosts_of g
      ok (
          some (record a {
            children =
                put group (record g { hosts = some (some (put_member host hosts)) }) a.children;
          }))

-- `for host in hosts: self.add_host_to_group(group, host)`
pub add_all : String → Config → List String → Result Config
add_all group c hosts = fold_result (λ c' host. add_host_to_group c' group host blank) c hosts

unfoldable pub set_kube_control_plane : Config → List String → Result Config
unfolding add_all
set_kube_control_plane c hosts = add_all "kube_control_plane" c hosts

unfoldable pub set_etcd : Config → List String → Result Config
unfolding add_all
set_etcd c hosts = add_all "etcd" c hosts

unfoldable pub set_all : Config → Hosts → Result Config
set_all c hosts = fold_result (λ c' (host, opts). add_host_to_group c' "all" host opts) c hosts

unfoldable pub set_k8s_cluster : Config → Result Config
set_k8s_cluster c = do
  a ← all_of c
  ok (
      some (record a {
        children =
            put "k8s_cluster"
              (record { hosts = none; children = some ("kube_control_plane" ∷ "kube_node" ∷ []) })
              a.children;
      }))

-- `host in children[group]`: the keys of the group's own mapping, `hosts` and `children`
abbrev group_has_key : String → Group → Bool
group_has_key k g =
    (k == "hosts" && (elim g.hosts [ none ↦ false | some _ ↦ true ]))
    || (k == "children" && (elim g.children [ none ↦ false | some _ ↦ true ]))

pub calico_round : Config → String → Result Config
calico_round c host = do
  a ← all_of c
  control_plane ← item "kube_control_plane" a.children
  if group_has_key host control_plane then ok c else do
    node ← item "kube_node" a.children
    if group_has_key host node then ok c else add_host_to_group c "calico_rr" host blank

unfoldable pub set_calico_rr : Config → List String → Result Config
unfolding calico_round
set_calico_rr c hosts = fold_result calico_round c hosts

-- `host in children[group]['hosts']`, where a null has no members to look in
abbrev member_of : String → String → AllGroup → Result Bool
member_of group host a = do
  g ← item group a.children
  hosts ← hosts_of g
  h ← entries hosts
  ok (has_key host h)

-- `len(self.yaml_config['all']['hosts'])`
abbrev hosts_count : AllGroup → Result ℕ
hosts_count a = do h ← entries a.hosts; ok (length h)

-- A test that only a document of at least `threshold` hosts makes.
abbrev at_scale : ℕ → ℕ → Result Bool → Result Bool
at_scale threshold n test = if leb threshold n then test else ok false

pub node_round : Settings → Config → String → Result Config
node_round s c host = do
  a ← all_of c
  n ← hosts_count a
  in_etcd ← at_scale s.scale_threshold n (member_of "etcd" host a)
  if in_etcd then ok c else do
    in_control_plane ← at_scale s.massive_scale_threshold n (member_of "kube_control_plane" host a)
    if in_control_plane then ok c else add_host_to_group c "kube_node" host blank

unfoldable pub set_kube_node : Settings → Config → List String → Result Config
unfolding node_round
set_kube_node s c hosts = fold_result (node_round s) c hosts

-- `3 if len(hosts) >= 3 else 1`
abbrev pub etcd_hosts_count : ℕ → ℕ
etcd_hosts_count n = if leb 3 n then 3 else 1

-- The hosts of the control plane: the first ones, or at scale the first ones after etcd.
abbrev pub control_plane_hosts : Settings → List String → List String
control_plane_hosts s hosts =
    if leb s.scale_threshold (length hosts)
    then take s.kube_control_hosts (drop (etcd_hosts_count (length hosts)) hosts)
    else take s.kube_control_hosts hosts

-- What the constructor does with the table of hosts, up to the writing of the document.
unfoldable pub distribute : Settings → Config → Hosts → Result Config
distribute s c₀ hosts = do
  let names = keys hosts
  let etcd_hosts = take (etcd_hosts_count (length names)) names
  c₁ ← purge_invalid_hosts c₀ names roles
  c₂ ← set_all c₁ hosts
  c₃ ← set_k8s_cluster c₂
  c₄ ← set_etcd c₃ etcd_hosts
  c₅ ← set_kube_control_plane c₄ (control_plane_hosts s names)
  c₆ ← set_kube_node s c₅ names
  if leb s.scale_threshold (length names) then set_calico_rr c₆ etcd_hosts else ok c₆
