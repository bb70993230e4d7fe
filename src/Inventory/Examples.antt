-- ===== src/Inventory/Examples.antt =====
-- Runs of the model of contrib/inventory_builder/inventory.py, and its theorems at inputs that meet
-- their hypotheses.

use vagrant_portainer.Base.{
  String, ◌≡◌, refl, true, false, ◌&&◌, ◌||◌, none, some, List, [], ◌∷◌, arith, ◌==◌,
}
use vagrant_portainer.Base.Result.{Result, ok, raise, unbound_local, key_error, fold_result}
use vagrant_portainer.Base.Lists.{elem}
use vagrant_portainer.Base.Dict.{lookup, put, remove, IsDict}
use vagrant_portainer.Base.Text.{contains_char, starts_with, split}
use vagrant_portainer.Base.Text.Decimal.{show, trailing, value}
use vagrant_portainer.Inventory.Types.{Hosts, Config, Settings}
use vagrant_portainer.Inventory.Hosts.{
  host_opts, get_host_id, exists_ip, build_hostnames, step, get_ip_from_opts, delete_host_by_ip,
}
use vagrant_portainer.Inventory.Hosts.Addresses.{uses_ip, distinct_ips}
use vagrant_portainer.Inventory.Hosts.Table.{IsTable, hosts_before, build_hostnames-IsTable}
use vagrant_portainer.Inventory.Hosts.Names.{IsPlainPrefix}
use vagrant_portainer.Inventory.Hosts.Fresh.{AreNew, numbered}
use vagrant_portainer.Inventory.Ranges.Expand.{NoRanges, Argument, plain, range}
use vagrant_portainer.Inventory.Groups.{
  purge_invalid_hosts, purge_hosts, set_all, set_etcd, set_k8s_cluster, add_host_to_group,
  set_kube_node, set_calico_rr, set_kube_control_plane, distribute,
}
use vagrant_portainer.Inventory.Groups.Members.{is_member, all_hosts}
use vagrant_portainer.Inventory.Groups.Calico.{is_member-set_calico_rr}
use vagrant_portainer.Inventory.Groups.Roles.{
  distribute-IsDistributed, IsEmpty, Disjoint, distribute-Disjoint_etcd,
  distribute-Disjoint_control_plane,
}
use vagrant_portainer.Inventory.Groups.Distributed.{IsDistributed}
use vagrant_portainer.Inventory.Session.{World, init, parse_command}
use vagrant_portainer.Inventory.Session.New.{fresh, written_once, init_new}
use vagrant_portainer.Inventory.Session.Atomic.{IsAtomic, init-IsAtomic}

-- Two hosts of the control plane, a scale of four hosts and a massive scale of five.
abbrev pub settings : Settings
settings = record {
  kube_control_hosts = 2;
  scale_threshold = 4;
  massive_scale_threshold = 5;
  host_prefix = "node";
  use_real_hostname = false;
  hostname_of = λ ip. ok ip;
  ipv6_int = λ t. none;
  ipv6_exploded = λ n. "";
}

abbrev pub world : World
world = record {
  settings = settings;
  has_config_file = true;
  previous = none;
  open_error = "";
  read_json = λ f. ok none;
}

pub plain_prefix : IsPlainPrefix "node"
unfolding contains_char trailing
plain_prefix = record { no_dot = refl; no_digits = refl }

abbrev two_ips : List String
two_ips = "10.0.0.1" ∷ "10.0.0.2" ∷ []

two_ips-AreNew : AreNew "node" [] two_ips
unfolding uses_ip lookup starts_with contains_char
two_ips-AreNew = ((refl, refl, refl), refl, refl, refl, ((refl, refl, refl), refl, refl, refl, tt))

two_ips-NoRanges : NoRanges two_ips
unfolding contains_char
two_ips-NoRanges = (refl, (refl, tt))

init_new_example :
    (c : Config) × (init world two_ips ≡ written_once world c)
    × (all_hosts c ≡ numbered "node" 1 two_ips)
    × IsDistributed settings (numbered "node" 1 two_ips) (some fresh) c
init_new_example =
    init_new world "10.0.0.1" ("10.0.0.2" ∷ []) refl plain_prefix two_ips-AreNew two_ips-NoRanges

-- Five hosts: three of etcd, two of the control plane, and nodes by the thresholds.
abbrev five_hosts : Hosts
five_hosts = numbered "node" 1 ("10.0.0.1" ∷ "10.0.0.2" ∷ "10.0.0.3" ∷ "10.0.0.4" ∷ "10.0.0.5" ∷ [])

abbrev document : Result Config → Config
document (ok c) = c
document (raise e) = none

abbrev five : Config
five = document (distribute settings (some fresh) five_hosts)

five_runs : distribute settings (some fresh) five_hosts ≡ ok five
unfolding distribute purge_invalid_hosts purge_hosts set_all set_k8s_cluster set_etcd
    set_kube_control_plane set_kube_node set_calico_rr add_host_to_group fold_result lookup put show
five_runs = refl

five_roles :
    (is_member five "etcd" "node3" ≡ true)
    × (is_member five "etcd" "node4" ≡ false)
    × (is_member five "kube_control_plane" "node4" ≡ true)
    × (is_member five "kube_node" "node4" ≡ false)
unfolding distribute purge_invalid_hosts purge_hosts set_all set_k8s_cluster set_etcd
    set_kube_control_plane set_kube_node set_calico_rr add_host_to_group fold_result lookup put show
five_roles = (refl, refl, refl, refl)

distribute-IsDistributed_example : IsDistributed settings five_hosts (some fresh) five
distribute-IsDistributed_example =
    distribute-IsDistributed settings (some fresh) five_hosts five five_runs

fresh-IsEmpty : IsEmpty (some fresh)
unfolding lookup
fresh-IsEmpty = record { member = λ g h. no_member g h; all = refl }
  where
    no_member : (g h : String) → is_member (some fresh) g h ≡ false
    no_member g h = ground arith

five-IsDict : IsDict five_hosts
unfolding lookup show
five-IsDict = (refl, (refl, (refl, (refl, (refl, tt)))))

distribute-Disjoint_etcd_example :
    Disjoint "etcd" "kube_control_plane" five × Disjoint "etcd" "kube_node" five
distribute-Disjoint_etcd_example =
    distribute-Disjoint_etcd settings (some fresh) five five_hosts fresh-IsEmpty five-IsDict
      five_runs (omega arith)

distribute-Disjoint_control_plane_example : Disjoint "kube_control_plane" "kube_node" five
distribute-Disjoint_control_plane_example =
    distribute-Disjoint_control_plane settings (some fresh) five five_hosts fresh-IsEmpty
      five-IsDict five_runs (omega arith)

-- A document with two hosts, one of them not named by the program.
abbrev old_hosts : Hosts
old_hosts = ("node7", host_opts "10.0.0.7" "10.0.0.7") ∷ ("db", host_opts "10.0.0.8" "8.8.8.8") ∷ []

abbrev old : Config
old = some (record { hosts = some old_hosts; children = fresh.children })

old-IsTable : IsTable (hosts_before old)
unfolding lookup distinct_ips uses_ip get_ip_from_opts
old-IsTable = record { keys = (refl, (refl, tt)); ips = refl }

abbrev table : Result Hosts → Hosts
table (ok d) = d
table (raise e) = []

-- A host is deleted by its address, one is added, one is skipped, and a bare name reuses the
-- locals of the round before.
abbrev changes : List String
changes = "-10.0.0.8" ∷ "10.0.0.9" ∷ "10.0.0.7" ∷ "web,10.1.0.1,8.8.4.4" ∷ "web" ∷ []

abbrev changed : Hosts
changed =
    ("node7", host_opts "10.0.0.7" "10.0.0.7")
    ∷ ("node8", host_opts "10.0.0.9" "10.0.0.9")
    ∷ ("web", host_opts "10.1.0.1" "8.8.4.4")
    ∷ []

changes_run : build_hostnames settings old changes true ≡ ok changed
unfolding build_hostnames step fold_result lookup put remove exists_ip get_ip_from_opts
    delete_host_by_ip get_host_id trailing value split contains_char starts_with show
changes_run = refl

build_hostnames-IsTable_example : IsTable changed
build_hostnames-IsTable_example =
    build_hostnames-IsTable settings old changes true changed old-IsTable changes_run

-- A bare name as the first argument reads a local variable that is not bound.
bare_name : build_hostnames settings none ("web" ∷ []) false ≡ raise unbound_local
unfolding build_hostnames step fold_result lookup contains_char
bare_name = refl

-- The generated name takes the place of a host of the same call.
overwritten :
    build_hostnames settings none ("node1,10.0.0.1" ∷ "10.0.0.2" ∷ []) false
    ≡ ok (("node1", host_opts "10.0.0.2" "10.0.0.2") ∷ [])
unfolding build_hostnames step fold_result lookup put exists_ip get_ip_from_opts split contains_char
    show
overwritten = refl

-- A host, then a range of three addresses, then a host.
abbrev with_range : List Argument
with_range = plain "10.0.0.1" ∷ range 173670402 173670404 ∷ plain "-node1" ∷ []

abbrev calico_set : Config
calico_set = document (set_calico_rr five ("node4" ∷ []))

-- "node4" is one of the control plane, and is put into `calico_rr` all the same.
is_member-set_calico_rr_example : is_member calico_set "calico_rr" "node4" ≡ (
    ("calico_rr" == "calico_rr" && elem "node4" ("node4" ∷ []))
    || is_member five "calico_rr" "node4")
unfolding distribute purge_invalid_hosts purge_hosts set_all set_k8s_cluster set_etcd
    set_kube_control_plane set_kube_node set_calico_rr add_host_to_group fold_result lookup put show
is_member-set_calico_rr_example =
    is_member-set_calico_rr five ("node4" ∷ []) calico_set "calico_rr" "node4" (refl, tt) refl

init-IsAtomic_example : IsAtomic (init world ("print_ips" ∷ []))
init-IsAtomic_example = init-IsAtomic world ("print_ips" ∷ []) refl

-- The command `print_ips` runs on an empty document, so it can print nothing.
print_ips_fails : (init world ("print_ips" ∷ [])).ended ≡ raise key_error
unfolding init parse_command
print_ips_fails = refl
