-- ===== src/Terraform/Hosts.antt =====
-- contrib/terraform/terraform.py: the parsers of resources, which make hosts of them. Texts are
-- taken for the name of a host and for the tags of a device, which are texts in every state.
pub mod Kubespray
use Prim.Native.Char.{Char, code}
use Prim.Native.String
use vagrant_portainer.Base.{
  ℕ, zero, suc, ◌+◌, String, Bool, true, false, not, ◌&&◌, ◌||◌, Option, none, some, List, [], ◌∷◌,
  ◌++◌, eqb, ltb, leb, ◌==◌, if◌then◌else◌,
}
use vagrant_portainer.Base.Result.{
  Error, Result, ok, raise, key_error, value_error, type_error, attribute_error, ◌>>=◌,
}
use vagrant_portainer.Base.Dict.{Dict, lookup, has_key, put}
use vagrant_portainer.Base.Text.{
  ◌⧺◌, first, rest_of, split, strip, starts_with, all_digits, is_digit,
}
use vagrant_portainer.Base.Text.Decimal.{show, value}
use vagrant_portainer.Terraform.Json.{
  Value, null, bool, num, str, arr, obj, Items, nil, cons, Fields, end, field, item, at, fields_of,
  items_of, dict_of_fields,
}
use vagrant_portainer.Terraform.Convert.{update}
use vagrant_portainer.Terraform.Parse.{parse_dict, parse_list, parse_attr_list, parse_bool, dict_of}
use vagrant_portainer.Terraform.Fields.{
  show_bool, text_of, as_text, as_texts, raw_attributes, get, is_text, ssh_user, address_of,
  try_address, add_devices, has_volumes, metadata_groups, split_text, copy_if, private_address,
  dicts_of,
}

-- `(name, attrs, groups)`
pub record Host : Type 0 where
  pub name : String
  pub attrs : Dict Value
  pub groups : List String

unfoldable pub metal_device : Value → Result Host
unfolding as_texts
metal_device resource = do
  raw_attrs ← raw_attributes resource
  name ← item "hostname" raw_attrs
  name' ← as_text name
  id ← item "id" raw_attrs
  system ← item "operating_system" raw_attrs
  locked_form ← item "locked" raw_attrs
  locked ← parse_bool locked_form
  plan ← item "plan" raw_attrs
  project_id ← item "project_id" raw_attrs
  state ← item "state" raw_attrs
  public ← item "network.0.address" raw_attrs
  ipv6 ← item "network.1.address" raw_attrs
  private ← item "network.2.address" raw_attrs
  let tags = parse_list raw_attrs "tags" b'.'
  let attrs =
      ("id", id)
      ∷ ("facilities", arr (items_of (parse_list raw_attrs "facilities" b'.')))
      ∷ ("hostname", name)
      ∷ ("operating_system", system)
      ∷ ("locked", bool locked)
      ∷ ("tags", arr (items_of tags))
      ∷ ("plan", plan)
      ∷ ("project_id", project_id)
      ∷ ("state", state)
      ∷ ("ansible_host", public)
      ∷ ("ansible_ssh_user", str "root")
      ∷ ("ipv4_address", public)
      ∷ ("public_ipv4", public)
      ∷ ("ipv6_address", ipv6)
      ∷ ("public_ipv6", ipv6)
      ∷ ("private_ipv4", private)
      ∷ ("provider", str "metal")
      ∷ []
  system_text ← as_text system
  state_text ← as_text state
  plan_text ← as_text plan
  tag_texts ← as_texts tags
  ok (record {
    name = name';
    attrs = ssh_user system attrs;
    groups =
        (("metal_operating_system=" ⧺ system_text)
          ∷ ("metal_locked=" ⧺ show_bool locked)
          ∷ ("metal_state=" ⧺ state_text)
          ∷ ("metal_plan=" ⧺ plan_text)
          ∷ [])
        ++ tag_texts;
  })

-- The second definition of this name, which replaces the first one: the port and its address.
unfoldable pub openstack_floating_ips : Value → Result (Value × Value)
openstack_floating_ips resource = do
  raw_attrs ← raw_attributes resource
  port_id ← item "port_id" raw_attrs
  floating_ip ← item "floating_ip" raw_attrs
  ok (port_id, floating_ip)

-- `openstack_host` before it is decorated.
unfoldable pub openstack_instance : (Value → String) → Value → Result Host
openstack_instance repr resource = do
  raw_attrs ← raw_attributes resource
  name ← item "name" raw_attrs
  name' ← as_text name
  access_ip_v4 ← item "access_ip_v4" raw_attrs
  access_ip_v6 ← item "access_ip_v6" raw_attrs
  fixed_ip ← item "network.0.fixed_ip_v4" raw_attrs
  id ← item "id" raw_attrs
  key_pair ← item "key_pair" raw_attrs
  network ← parse_attr_list raw_attrs "network" b'.'
  port_id ← item "network.0.port" raw_attrs
  let flavor = parse_dict raw_attrs "flavor" b'_'
  let image = parse_dict raw_attrs "image" b'_'
  let metadata = parse_dict raw_attrs "metadata" b'.'
  let region = get "region" (str "") raw_attrs
  let attrs =
      ("access_ip_v4", access_ip_v4)
      ∷ ("access_ip_v6", access_ip_v6)
      ∷ ("access_ip", access_ip_v4)
      ∷ ("ip", fixed_ip)
      ∷ ("flavor", obj (fields_of flavor))
      ∷ ("id", id)
      ∷ ("image", obj (fields_of image))
      ∷ ("key_pair", key_pair)
      ∷ ("metadata", obj (fields_of metadata))
      ∷ ("network", arr (dicts_of network))
      ∷ ("region", region)
      ∷ ("security_groups", arr (items_of (parse_list raw_attrs "security_groups" b'.')))
      ∷ ("ansible_ssh_port", num 22)
      ∷ ("host_domain", str "novalocal")
      ∷ ("use_host_domain", bool true)
      ∷ ("public_ipv4", access_ip_v4)
      ∷ ("private_ipv4", access_ip_v4)
      ∷ ("port_id", port_id)
      ∷ ("provider", str "openstack")
      ∷ []
  attrs₁ ← try_address (address_of raw_attrs) (private_address raw_attrs fixed_ip attrs)
  let attrs₂ = copy_if "metadata.ssh_user" "ansible_ssh_user" raw_attrs attrs₁
  volumes ← has_volumes raw_attrs
  let attrs₃ = if volumes then add_devices raw_attrs 1 attrs₂ else attrs₂
  image_id ← item "id" image
  flavor_name ← item "name" flavor
  kubespray_groups ← split_text (get "kubespray_groups" (str "") metadata)
  ok (record {
    name = name';
    attrs = put "role" (get "role" (str "none") metadata) attrs₃;
    groups =
        ("os_image=" ⧺ text_of repr image_id)
        ∷ ("os_flavor=" ⧺ text_of repr flavor_name)
        ∷ (metadata_groups repr metadata
            ++ ("os_region=" ⧺ text_of repr region) ∷ kubespray_groups);
  })

-- `if value`
abbrev pub is_true : Value → Bool
is_true null = false
is_true (bool b) = b
is_true (num n) = not (eqb n 0)
is_true (str s) = not (s == "")
is_true (arr nil) = false
is_true (obj end) = false
is_true _ = true

-- The decorator `calculate_mantl_vars`, on the result of the function.
unfoldable pub calculate_mantl_vars : Host → Host
calculate_mantl_vars h = record h {
  attrs = put "consul_is_server" (bool (is_text (get "role" (str "") h.attrs) "control")) h.attrs;
  groups =
      if is_true (get "publicly_routable" (bool false) h.attrs)
      then h.groups ++ "publicly_routable" ∷ []
      else h.groups;
}

unfoldable pub openstack_host : (Value → String) → Value → Result Host
openstack_host repr resource = do
  host ← openstack_instance repr resource
  ok (calculate_mantl_vars host)
