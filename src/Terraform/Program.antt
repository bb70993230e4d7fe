-- ===== src/Terraform/Program.antt =====
-- contrib/terraform/terraform.py: the hosts of the resources, their floating addresses, and `main`.
-- The hosts are a generator in the program, which nothing consumes before its end; here they are a
-- list, made where the answer is made.
pub mod Floating
pub mod Metal
use vagrant_portainer.Base.{
  ℕ, zero, suc, String, Bool, true, false, not, ◌||◌, Option, none, some, List, [], ◌∷◌, ◌==◌, eqb,
  if◌then◌else◌,
}
use vagrant_portainer.Base.Result.{Result, ok, raise, key_error, value_error, type_error, ◌>>=◌}
use vagrant_portainer.Base.Dict.{Dict, lookup, has_key, put, remove}
use vagrant_portainer.Base.Text.{◌⧺◌}
use vagrant_portainer.Terraform.Json.{Value, null, bool, num, str, arr, obj, item}
use vagrant_portainer.Terraform.Parse.{split_once}
use vagrant_portainer.Terraform.Hosts.{Host, metal_device, openstack_host, openstack_floating_ips}
use vagrant_portainer.Terraform.Fields.{as_dict, get, is_text}
use vagrant_portainer.Terraform.Convert.{update}
use vagrant_portainer.Terraform.Resources.{Env, Resource, tfstates, iterresources}
use vagrant_portainer.Terraform.Queries.{Entry, query_host, query_list, query_hostfile}

-- `resource_type, name = key.split('.', 1)`
abbrev pub resource_type : String → Result String
resource_type key = elim (split_once b'.' key) [ none ↦ raise value_error | some (t, n) ↦ ok t ]

-- `PARSERS[resource_type]`, applied to a resource; `none` where there is no parser
abbrev pub parser : Env → String → Option (Value → Result Host)
parser env type =
    if type == "metal_device"
    then some metal_device
    else if type == "openstack_compute_instance_v2"
    then some (openstack_host env.repr)
    else none

abbrev pub parsed_then :
    Option (Value → Result Host) → Value → Result (List Host) → Result (List Host)
parsed_then none resource rest = rest
parsed_then (some parse) resource rest = do h ← parse resource; hs ← rest; ok (h ∷ hs)

unfoldable pub iterhosts : Env → List Resource → Result (List Host)
iterhosts env [] = ok []
iterhosts env (r ∷ rs) = do
  type ← resource_type r.key
  parsed_then (parser env type) r.resource (iterhosts env rs)

abbrev pub ip_of : String → Value → Result (List (Value × Value))
ip_of type resource =
    if type == "openstack_networking_floatingip_associate_v2"
    then (do pair ← openstack_floating_ips resource; ok (pair ∷ []))
    else ok []

abbrev pub with_ips : List (Value × Value) → List (Value × Value) → List (Value × Value)
with_ips [] rest = rest
with_ips (p ∷ ps) rest = p ∷ with_ips ps rest

unfoldable pub iterips : List Resource → Result (List (Value × Value))
iterips [] = ok []
iterips (r ∷ rs) = do
  type ← resource_type r.key
  found ← ip_of type r.resource
  rest ← iterips rs
  ok (with_ips found rest)

-- A value that can be a key of a dictionary.
abbrev pub is_hashable : Value → Bool
is_hashable (arr vs) = false
is_hashable (obj fs) = false
is_hashable _ = true

abbrev pub number_of : Bool → ℕ
number_of true = 1
number_of false = 0

-- Python's equality of such values.
abbrev pub same_key : Value → Value → Bool
same_key (str s) (str t) = s == t
same_key (num m) (num n) = eqb m n
same_key (num m) (bool b) = eqb m (number_of b)
same_key (bool a) (num n) = eqb (number_of a) n
same_key (bool a) (bool b) = eqb (number_of a) (number_of b)
same_key null null = true
same_key _ _ = false

-- `dict(pairs)` wants keys that can be keys; a later pair counts.
unfoldable pub check_keys : List (Value × Value) → Result (List (Value × Value))
check_keys [] = ok []
check_keys ((k, v) ∷ pairs) =
    if is_hashable k then (do rest ← check_keys pairs; ok ((k, v) ∷ rest)) else raise type_error

unfoldable pub find_ip : Value → List (Value × Value) → Option Value
find_ip port_id [] = none
find_ip port_id ((k, v) ∷ pairs) =
    let later = find_ip port_id pairs in
    elim later [ some w ↦ some w | none ↦ if same_key k port_id then some v else none ]

abbrev pub ip_in : List (Value × Value) → Value → Result (Option Value)
ip_in ips port_id = if is_hashable port_id then ok (find_ip port_id ips) else raise type_error

abbrev pub set_ip : Option Value → Dict Value → Dict Value
set_ip none attrs = attrs
set_ip (some ip) attrs =
    update attrs
      (("access_ip_v4", ip) ∷ ("access_ip", ip) ∷ ("public_ipv4", ip) ∷ ("ansible_host", ip) ∷ [])

-- `attrs.pop('access_ip')`
abbrev pub pop_access_ip : Dict Value → Result (Dict Value)
pop_access_ip attrs =
    if has_key "access_ip" attrs then ok (remove "access_ip" attrs) else raise key_error

-- One round of `iter_host_ips`, after the port is read.
abbrev pub host_ip_at : List (Value × Value) → Host → Value → Result Host
host_ip_at ips h port_id = do
  ip ← ip_in ips port_id
  let attrs = set_ip ip h.attrs
  metadata_value ← item "metadata" attrs
  metadata ← as_dict metadata_value
  attrs' ← if is_text (get "use_access_ip" null metadata) "0" then pop_access_ip attrs else ok attrs
  ok (record h { attrs = attrs' })

unfoldable pub host_ip : List (Value × Value) → Host → Result Host
host_ip ips h = do port_id ← item "port_id" h.attrs; host_ip_at ips h port_id

unfoldable pub iter_host_ips : List Host → List (Value × Value) → Result (List Host)
iter_host_ips [] ips = ok []
iter_host_ips (h ∷ hs) ips = do h' ← host_ip ips h; hs' ← iter_host_ips hs ips; ok (h' ∷ hs')

-- `iter_host_ips` only where there are floating addresses.
abbrev pub with_floating : List (Value × Value) → List Host → Result (List Host)
with_floating [] hosts = ok hosts
with_floating (p ∷ ps) hosts = iter_host_ips hosts (p ∷ ps)

-- The mode of the command line; the parser wants exactly one.
pub data Mode : Type 0 where
  list version hostfile : Mode
  host : String → Mode

pub record Args : Type 0 where
  pub mode : Mode
  pub nometa : Bool
  pub pretty : Bool
  pub root : String

-- What is printed: the version, JSON with or without indentation, a text, or nothing.
pub data Output : Type 0 where
  version_line nothing : Output
  json_list : Bool → Dict Entry → Output
  json_host : Bool → Dict Value → Output
  text : String → Output

abbrev pub without_meta : Bool → Dict Entry → Dict Entry
without_meta nometa output = if nometa then remove "_meta" output else output

-- The answer for the hosts. The mode `version` has no hosts.
abbrev pub answer : Env → Args → Mode → List Host → Result Output
answer env args list hosts =
    ok (json_list args.pretty (without_meta args.nometa (query_list env.set_order hosts)))
answer env args (host name) hosts =
    ok (if name == "" then nothing else json_host args.pretty (query_host hosts name))
answer env args hostfile hosts = do output ← query_hostfile hosts; ok (text output)
answer env args version hosts = ok version_line

-- The pass for the floating addresses, the pass for the hosts, and the answer.
unfoldable pub run : Env → Args → Result Output
run env args = do
  let files = tfstates env args.root
  (resources₁, drawn₁) ← iterresources env files 0
  pairs ← iterips resources₁
  ips ← check_keys pairs
  (resources₂, drawn₂) ← iterresources env files drawn₁
  found ← iterhosts env resources₂
  hosts ← with_floating ips found
  answer env args args.mode hosts

-- An empty name of a host: the hosts are never made, and nothing is printed.
unfoldable pub run_ips : Env → Args → Result Output
run_ips env args = do
  (resources₁, drawn₁) ← iterresources env (tfstates env args.root) 0
  pairs ← iterips resources₁
  ips ← check_keys pairs
  ok nothing

-- The answer that no host is wanted for is given before anything is read.
abbrev pub main_by : Env → Args → Mode → Result Output
main_by env args version = ok version_line
main_by env args (host name) = if name == "" then run_ips env args else run env args
main_by env args list = run env args
main_by env args hostfile = run env args

unfoldable pub main : Env → Args → Result Output
main env args = main_by env args args.mode
