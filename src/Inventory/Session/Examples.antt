-- ===== src/Inventory/Session/Examples.antt =====
-- A document of contrib/inventory_builder/inventory.py through some uses, and the theorems on them.
use vagrant_portainer.Base.{
  String, ◌≡◌, refl, true, false, ◌==◌, none, some, List, [], ◌∷◌, if◌then◌else◌,
}
use vagrant_portainer.Base.Result.{ok, raise, exit, key_error, ◌>>=◌, fold_result, all}
use vagrant_portainer.Base.Dict.{put, lookup}
use vagrant_portainer.Base.Text.{contains_char, starts_with, split}
use vagrant_portainer.Base.Text.Decimal.{trailing}
use vagrant_portainer.Inventory.Types.{blank, Hosts, AllGroup, or_empty}
use vagrant_portainer.Inventory.Examples.{settings, world, plain_prefix}
use vagrant_portainer.Inventory.Hosts.{host_opts, get_host_id, get_ip_from_opts}
use vagrant_portainer.Inventory.Hosts.Keeps.{Keeps}
use vagrant_portainer.Inventory.Hosts.Added.{covers}
use vagrant_portainer.Inventory.Hosts.Deleted.{deletion}
use vagrant_portainer.Inventory.Hosts.Readable.{readable}
use vagrant_portainer.Inventory.Ranges.Expand.{range2ips-none}
use vagrant_portainer.Inventory.Groups.Shaped.{all_shaped}
use vagrant_portainer.Inventory.Groups.{set_k8s_cluster, ensure_required_groups, add_host_to_group}
use vagrant_portainer.Inventory.Session.{World, Inventory, init, load_group, load_host}
use vagrant_portainer.Inventory.Session.New.{fresh}
use vagrant_portainer.Inventory.Session.Loaded.{IsLoaded, writes, init_load-IsLoaded}
use vagrant_portainer.Inventory.Session.Use.{IsInventory, AreHosts, with_file}
use vagrant_portainer.Inventory.Session.Lifetime.{Writes}
use vagrant_portainer.Inventory.Session.Additions.{init_add-Keeps}
use vagrant_portainer.Inventory.Session.Repeated.{SameRoles, init_add-SameRoles}
use vagrant_portainer.Inventory.Session.Deletions.{IsGone, init_delete-IsGone}

-- A document that a person wrote: two hosts, one of them not named by the program, and no groups.
abbrev small_hosts : Hosts
small_hosts =
    ("node7", host_opts "10.0.0.7" "10.0.0.7") ∷ ("db", host_opts "10.0.0.8" "8.8.8.8") ∷ []

abbrev small : AllGroup
small = record { hosts = some small_hosts; children = [] }

small-IsInventory : IsInventory "node" small
unfolding all_shaped lookup readable get_ip_from_opts get_host_id starts_with split trailing
small-IsInventory = record {
  hosts = refl;
  groups = refl;
  keys = (refl, (refl, tt));
  loadable = refl;
}

-- A host is deleted by its address, one is added under a name, and two by their addresses.
abbrev changes : List String
changes = "-10.0.0.8" ∷ "web,10.1.0.1,8.8.4.4" ∷ "10.0.0.9,10.9.0.9" ∷ "10.0.0.7" ∷ []

abbrev two_addresses : List String
two_addresses = "10.0.0.9,10.9.0.9" ∷ "10.0.0.7" ∷ []

addresses-AreHosts : AreHosts settings two_addresses
unfolding contains_char split
addresses-AreHosts = record {
  is_deletion = false;
  starts = refl;
  expanded = two_addresses;
  expands = range2ips-none settings two_addresses (refl, (refl, tt));
  forms = refl;
}

init_add-Keeps_example :
    (a' : AllGroup) × Writes (with_file world (some (some small))) ("add" ∷ two_addresses) a'
    × IsInventory "node" a'
    × Keeps small_hosts (or_empty a'.hosts)
    × (all (covers (or_empty a'.hosts)) addresses-AreHosts.expanded ≡ true)
unfolding addresses-AreHosts
init_add-Keeps_example =
    init_add-Keeps world small "10.0.0.9,10.9.0.9" ("10.0.0.7" ∷ []) refl plain_prefix
      small-IsInventory addresses-AreHosts (refl, (refl, tt))

init_delete-IsGone_example :
    (a' : AllGroup) × Writes (with_file world (some (some small))) (deletion "10.0.0.8" ∷ []) a'
    × IsInventory "node" a'
    × ((h : String)
        → lookup h (or_empty a'.hosts) ≡ (if "db" == h then none else lookup h small_hosts))
    × IsGone "db" (some a')
unfolding lookup get_ip_from_opts
init_delete-IsGone_example =
    init_delete-IsGone world small "10.0.0.8" "db" refl plain_prefix small-IsInventory refl refl

init_add-SameRoles_example :
    (a' : AllGroup) × Writes (with_file world (some (some small))) ("add" ∷ two_addresses) a'
    × (a'' : AllGroup) × Writes (with_file world (some (some a'))) ("add" ∷ two_addresses) a''
    × (or_empty a''.hosts ≡ or_empty a'.hosts)
    × SameRoles (some a') (some a'')
init_add-SameRoles_example =
    init_add-SameRoles world small "10.0.0.9,10.9.0.9" ("10.0.0.7" ∷ []) refl plain_prefix
      small-IsInventory addresses-AreHosts (unfold addresses-AreHosts in (refl, (refl, tt)))

-- Two files of `load`: "b" is in both, and has the same group in each.
abbrev file₁ : Inventory
file₁ =
    ("kube_node", ("a", ("ip", "10.0.0.1") ∷ []) ∷ ("b", ("ip", "10.0.0.2") ∷ []) ∷ [])
    ∷ ("etcd", ("a", ("ip", "10.0.0.1") ∷ []) ∷ [])
    ∷ []

abbrev file₂ : Inventory
file₂ = ("kube_node", ("b", ("rack", "1") ∷ ("ip", "10.0.0.2") ∷ []) ∷ []) ∷ ("rack_1", []) ∷ []

abbrev with_files : World
with_files = record world {
  read_json = λ f. if f == "1.json" then ok (some file₁) else ok (some file₂);
}

init_load-IsLoaded_example :
    (documents : List AllGroup) × (init with_files ("load" ∷ "1.json" ∷ "2.json" ∷ [])
      ≡ record { events = writes with_files documents; ended = raise (exit 0) })
    × IsLoaded none (file₁ ∷ file₂ ∷ []) documents
unfolding lookup
init_load-IsLoaded_example =
    init_load-IsLoaded with_files "1.json" ("2.json" ∷ []) (file₁ ∷ file₂ ∷ [])
      (refl, refl, (refl, refl, tt))

-- A group `all` of a file takes the addresses of its hosts away again.
group_all :
    load_group (some fresh) ("all", ("a", ("ip", "10.0.0.1") ∷ []) ∷ [])
    ≡ ok (some (record { hosts = some (("a", blank) ∷ []); children = fresh.children }))
unfolding load_group load_host ensure_required_groups add_host_to_group fold_result lookup put
group_all = refl

-- A group `k8s_cluster` of a file that has a host ends the command: the group has no key `hosts`.
group_k8s_cluster :
    (set_k8s_cluster (some fresh) >>= λ c.
    load_group c ("k8s_cluster", ("a", ("ip", "10.0.0.1") ∷ []) ∷ []))
    ≡ raise key_error
unfolding set_k8s_cluster load_group load_host ensure_required_groups add_host_to_group fold_result
    lookup put
group_k8s_cluster = refl
