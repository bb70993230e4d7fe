-- ===== src/Inventory/Session.antt =====
-- contrib/inventory_builder/inventory.py: the constructor, which is the whole program: commands,
-- loading, and what it writes. Standard output and the files are a list of events; the lines of
-- `debug` are left out.
pub mod Files
pub mod New
pub mod Atomic
pub mod Use
pub mod Lifetime
pub mod Examples
pub mod Additions
pub mod Deletions
pub mod Repeated
pub mod Loaded
use Prim.Native.Char.{code}
use vagrant_portainer.Base.{
  ℕ, String, ◌≡◌, refl, Bool, true, false, not, ◌&&◌, ◌||◌, Option, none, some, List, [], ◌∷◌, ◌++◌,
  eqb, ◌==◌, if◌then◌else◌,
}
use vagrant_portainer.Base.Result.{
  Error, Result, ok, raise, index_error, generic, value_error, os_error, exit, ◌>>=◌, fold_result,
  type_error,
}
use vagrant_portainer.Base.Lists.{elem}
use vagrant_portainer.Base.Dict.{Dict, lookup, keys}
use vagrant_portainer.Base.Text.{first, join}
use vagrant_portainer.Inventory.Types.{
  roles, available_commands, HostVars, blank, Hosts, AllGroup, Config, all_of, entries, item,
  Settings,
}
use vagrant_portainer.Inventory.Hosts.{get_ip_from_opts, host_opts, build_hostnames}
use vagrant_portainer.Inventory.Ranges.{range2ips}
use vagrant_portainer.Inventory.Groups.{
  ensure_group, ensure_required_groups, set_k8s_cluster, add_host_to_group, distribute,
}

-- `print` of a line, `yaml.dump` to standard output, the help text, and `yaml.dump` to the file.
pub data Event : Type 0 where
  printed : String → Event
  dumped written : Config → Event
  help_text : Event

-- A run: its events in order, and how it ends. `returned` is the end of the constructor.
pub record Run : Type 0 where
  pub events : List Event
  pub ended : Result (Unit {0})

-- A file of `load`: hosts with the mapping of each, by group. `none` where it is no JSON.
abbrev pub Inventory : Type 0
Inventory = Dict (Dict (Dict String))

-- The program's environment: the settings, the document at CONFIG_FILE (`none` where it cannot be
-- opened), and the files that `load` reads.
pub record World : Type 0 where
  pub settings : Settings
  pub has_config_file : Bool
  pub previous : Option Config
  pub open_error : String
  pub read_json : String → Result (Option Inventory)

-- `write_config`, which warns instead where no file is given. An error of `open` or of `yaml.dump`
-- is not modelled.
abbrev pub write_config : World → Config → Event
write_config w c =
    if w.has_config_file
    then written c
    else printed "WARNING: Unable to save config. Make sure you set CONFIG_FILE env var."

abbrev pub failed : Error → Run
failed e = record { events = []; ended = raise e }

-- `event; rest`
abbrev pub after : Event → Run → Run
after e r = record r { events = e ∷ r.events }

-- The body of the loops of `load_file` over the hosts of a group.
pub load_host : String → Config → String × Dict String → Result Config
load_host group c (host, opts) = do
  ip ← item "ip" opts
  c' ← add_host_to_group c "all" host (host_opts ip ip)
  add_host_to_group c' group host blank

pub load_group : Config → String × Dict (Dict String) → Result Config
load_group c (group, hosts) = do
  c' ← ensure_required_groups c (group ∷ [])
  fold_result (load_host group) c' hosts

abbrev pub parsed : Option Inventory → Result Inventory
parsed none = raise generic
parsed (some d) = ok d

pub load_one : World → Config → String → Result Config
load_one w c filename = do
  file ← w.read_json filename
  groups ← parsed file
  c₁ ← ensure_required_groups c roles
  c₂ ← set_k8s_cluster c₁
  fold_result load_group c₂ groups

-- The document is written after each file, before the next one is read.
pub load_files : World → Config → List String → Run
load_files w c [] = record { events = []; ended = ok tt }
load_files w c (filename ∷ rest) = elim (load_one w c filename) [
  | raise e ↦ failed e
  | ok c' ↦ after (write_config w c') (load_files w c' rest)
]

unfoldable pub load_file : World → List String → Run
unfolding load_files load_one load_group load_host
load_file w [] = failed generic
load_file w (f ∷ fs) = load_files w none (f ∷ fs)

-- `' '.join(...)` of the keys of `all`, or of their addresses
abbrev names_of : Config → Result String
names_of c = do a ← all_of c; h ← entries a.hosts; ok (join " " (keys h))

addresses_of : Hosts → Result (List String)
addresses_of [] = ok []
addresses_of ((_, opts) ∷ rest) = do
  ip ← get_ip_from_opts opts
  ips ← addresses_of rest
  ok (ip ∷ ips)

abbrev ips_of : Config → Result String
ips_of c = do a ← all_of c; h ← entries a.hosts; ips ← addresses_of h; ok (join " " ips)

abbrev print_line : Result String → Run
print_line (ok line) = record { events = printed line ∷ []; ended = ok tt }
print_line (raise e) = failed e

-- `sys.exit(0)` after a command that returns
abbrev pub then_exit : Run → Run
then_exit r = record r { ended = elim r.ended [ raise e ↦ raise e | ok _ ↦ raise (exit 0) ] }

-- The commands that the constructor runs on an empty document.
unfoldable pub parse_command : World → String → List String → Run
unfolding load_file addresses_of
parse_command w command args =
    if command == "help"
    then record { events = help_text ∷ []; ended = ok tt }
    else if command == "print_cfg"
    then record { events = dumped none ∷ []; ended = ok tt }
    else if command == "print_ips"
    then print_line (ips_of none)
    else if command == "print_hostnames"
    then print_line (names_of none)
    else if command == "load"
    then load_file w args
    else failed generic

-- What follows the preparation of the groups where no host is given: the help text, and an exit.
abbrev pub helped : Result Config → Run
helped (raise e) = failed e
helped (ok c) = record { events = help_text ∷ []; ended = raise (exit 0) }

-- What follows the distribution of the roles: the file is written.
abbrev pub configured : World → Result Config → Run
configured w (raise e) = failed e
configured w (ok c) = record { events = write_config w c ∷ []; ended = ok tt }

-- Lines 116 to 140: groups, hosts, roles, and the file.
pub configure : World → Config → List String → Bool → Run
configure w c [] load = helped (ensure_required_groups c roles)
configure w c (h ∷ hs) load = configured w (do
  c₁ ← ensure_required_groups c roles
  changed_hosts ← range2ips w.settings (h ∷ hs)
  hosts ← build_hostnames w.settings c₁ changed_hosts load
  distribute w.settings c₁ hosts)

-- Lines 103 to 140, with the document before; `none` where it cannot be opened.
pub with_config : World → List String → Bool → Bool → Option Config → Run
with_config w changed_hosts load print_hostnames none =
    after (printed w.open_error) (failed (exit 1))
with_config w changed_hosts load true (some c) = then_exit (print_line (names_of c))
with_config w changed_hosts load false (some c) = configure w c changed_hosts load

-- `changed_hosts and changed_hosts[0][0] == "-"`
abbrev pub deletes : List String → Result Bool
deletes [] = ok false
deletes (h ∷ hs) = elim (first h) [ none ↦ raise index_error | some c ↦ ok (eqb (code c) b'-') ]

-- The document before is read where it is wanted and a file is given.
pub dispatch_if : World → List String → Bool → Bool → Result Bool → Run
dispatch_if w changed_hosts load print_hostnames (raise e) = failed e
dispatch_if w changed_hosts load print_hostnames (ok d) =
    with_config w changed_hosts (load || d) print_hostnames
      (if w.has_config_file && (load || d) then w.previous else some none)

pub dispatch : World → List String → Bool → Bool → Run
dispatch w changed_hosts load print_hostnames =
    dispatch_if w changed_hosts load print_hostnames (deletes changed_hosts)

unfoldable pub init : World → List String → Run
unfolding dispatch dispatch_if with_config configure
init w [] = dispatch w [] false false
init w (command ∷ rest) =
    if command == "add"
    then dispatch w rest true false
    else if command == "print_hostnames"
    then dispatch w (command ∷ rest) true true
    else if elem command available_commands
    then then_exit (parse_command w command rest)
    else dispatch w (command ∷ rest) false false
