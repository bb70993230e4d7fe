-- ===== src/Inventory/Types.antt =====
-- The data of contrib/inventory_builder/inventory.py: settings read from the environment, and the
-- YAML document that the class keeps in `yaml_config`.
use vagrant_portainer.Base.{ℕ, String, Bool, Option, none, some, List, [], ◌∷◌}
use vagrant_portainer.Base.Dict.{Dict, lookup}
use vagrant_portainer.Base.Result.{Result, ok, raise, key_error, type_error}

-- ROLES, which PROTECTED_NAMES is too
abbrev pub roles : List String
roles = "all" ∷ "kube_control_plane" ∷ "kube_node" ∷ "etcd" ∷ "k8s_cluster" ∷ "calico_rr" ∷ []

abbrev pub protected_names : List String
protected_names = roles

abbrev pub available_commands : List String
available_commands = "help" ∷ "print_cfg" ∷ "print_ips" ∷ "print_hostnames" ∷ "load" ∷ "add" ∷ []

-- The value of a host in the document: null, a mapping, or the empty text that
-- `add_host_to_group` has as its default.
pub data HostVars : Type 0 where
  null blank : HostVars
  vars : Dict String → HostVars

abbrev pub Hosts : Type 0
Hosts = Dict HostVars

-- The mapping of a group under `children`. A key of it may be absent (`none`), and `hosts` may be
-- null (`some none`).
pub record Group : Type 0 where
  pub hosts : Option (Option Hosts)
  pub children : Option (List String)

-- `yaml_config['all']`, whose `hosts` may be null
pub record AllGroup : Type 0 where
  pub hosts : Option Hosts
  pub children : Dict Group

-- `yaml_config`: `none` where it has no key `all`
abbrev pub Config : Type 0
Config = Option AllGroup

-- `yaml_config['all']`
abbrev pub all_of : Config → Result AllGroup
all_of none = raise key_error
all_of (some a) = ok a

-- The hosts of a mapping that is read without a test for null.
abbrev pub entries : Option Hosts → Result Hosts
entries none = raise type_error
entries (some h) = ok h

-- The hosts of a mapping, where a null has none.
abbrev pub or_empty : Option Hosts → Hosts
or_empty none = []
or_empty (some h) = h

-- `d[key]`
abbrev pub item {ℓ} : {V : Type ℓ} → String → Dict V → Result V
item k d = elim (lookup k d) [ none ↦ raise key_error | some v ↦ ok v ]

-- `children[group]['hosts']`
abbrev pub hosts_of : Group → Result (Option Hosts)
hosts_of g = elim g.hosts [ none ↦ raise key_error | some h ↦ ok h ]

-- The environment variables, with what the program calls outside of itself: the name that a host
-- answers to `ssh ... hostname -s` (stripped and decoded), and `ipaddress` for version 6.
pub record Settings : Type 0 where
  pub kube_control_hosts : ℕ
  pub scale_threshold : ℕ
  pub massive_scale_threshold : ℕ
  pub host_prefix : String
  pub use_real_hostname : Bool
  pub hostname_of : String → Result String
  pub ipv6_int : String → Option ℕ
  pub ipv6_exploded : ℕ → String
