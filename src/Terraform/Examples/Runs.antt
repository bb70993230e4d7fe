-- ===== src/Terraform/Examples/Runs.antt =====
-- Runs of the model of contrib/terraform/terraform.py, and its theorems at inputs that meet their
-- hypotheses.
use vagrant_portainer.Base.{
  ℕ, String, ◌≡◌, refl, true, false, some, List, [], ◌∷◌, arith, eq_iff, if◌then◌else◌, Bool-cases,
  inl, inr,
}
use vagrant_portainer.Base.Result.{Result, ok, raise, key_error, attribute_error, fold_result}
use vagrant_portainer.Base.Lists.{elem, Nodup}
use vagrant_portainer.Base.Dict.{Dict, put, lookup}
use vagrant_portainer.Base.Text.{split, join, count}
use vagrant_portainer.Base.Text.Decimal.{show}
use vagrant_portainer.Terraform.Json.{
  Value, num, str, arr, obj, nil, cons, Fields, end, field, last, fields_of,
}
use vagrant_portainer.Terraform.Parse.{
  split_once, parse_prefix, parse_dict, parse_list, parse_attr_list, parse_bool, dict_of, values_of,
}
use vagrant_portainer.Terraform.Convert.{convert, convert_to_v3_structure, update, put_fields}
use vagrant_portainer.Terraform.Convert.Total.{is_convertible, convert_to_v3_structure-Decides}
use vagrant_portainer.Terraform.Hosts.{
  Host, metal_device, openstack_instance, openstack_host, calculate_mantl_vars,
  openstack_floating_ips,
}
use vagrant_portainer.Terraform.Fields.{metadata_groups, add_devices, ends_with, without_brackets}
use vagrant_portainer.Terraform.Hosts.Kubespray.{elem-openstack_host}
use vagrant_portainer.Terraform.Resources.{
  Env, tfstates, state_suffix, state_resources, iterresources,
}
use vagrant_portainer.Terraform.Queries.{
  hosts, query_host, query_list, query_hostfile, host_lines, spaces,
}
use vagrant_portainer.Terraform.Queries.Groups.{IsSetOrder, query_list-listed}
use vagrant_portainer.Terraform.Queries.Vars.{vars_in, query_list-query_host}
use vagrant_portainer.Terraform.Program.{
  find_ip, host_ip, iter_host_ips, iterhosts, iterips, check_keys, with_floating, hostfile, Args,
  text, run, main,
}
use vagrant_portainer.Terraform.Program.Floating.{query_list-with_floating}
use vagrant_portainer.Terraform.Program.Metal.{iter_host_ips-metal_device}

-- The elements of a list, each once.
each_once : List String → List String
each_once [] = []
each_once (g ∷ gs) = let rest = each_once gs in if elem g gs then rest else g ∷ rest

elem-each_once : (g : String) (gs : List String) → elem g (each_once gs) ≡ elem g gs
unfolding each_once
elem-each_once g [] = refl
elem-each_once g (h ∷ gs) = ground (arith, elem-each_once g gs, eq_iff g h)

each_once-Nodup : (gs : List String) → Nodup (each_once gs)
unfolding each_once
each_once-Nodup [] = tt
each_once-Nodup (h ∷ gs) = elim (Bool-cases (elem h gs)) [
  | inl again ↦ rw again (each_once-Nodup gs)
  | inr new ↦ rw new (ground (arith, elem-each_once h gs), each_once-Nodup gs)
]

each_once-IsSetOrder : IsSetOrder each_once
each_once-IsSetOrder = record { same = elem-each_once; once = each_once-Nodup }

-- An instance of version 4, with a dictionary and a list of dictionaries.
abbrev instance_attributes : Fields
instance_attributes = field "id" (str "i-1") (
    field "name" (str "node-1") (
      field "access_ip_v4" (str "10.0.0.1") (
        field "access_ip_v6" (str "[fe80::1]") (
          field "flavor_name" (str "small") (
            field "image_id" (str "img") (
              field "key_pair" (str "key") (
                field "network"
                  (arr (
                    cons (obj (field "fixed_ip_v4" (str "10.0.0.1") (field "port" (str "p-1") end)))
                      nil))
                  (field "metadata" (obj (field "kubespray_groups" (str "etcd,kube_node") end)) (
                    field "security_groups" (arr (cons (str "default") (cons (str "web") nil)))
                      end)))))))))

abbrev randint : ℕ → ℕ
randint drawn = 7

abbrev converted : Dict Value
converted =
    ("id", str "i-1")
    ∷ ("name", str "node-1")
    ∷ ("access_ip_v4", str "10.0.0.1")
    ∷ ("access_ip_v6", str "[fe80::1]")
    ∷ ("flavor_name", str "small")
    ∷ ("image_id", str "img")
    ∷ ("key_pair", str "key")
    ∷ ("network.#", num 1)
    ∷ ("network.0.fixed_ip_v4", str "10.0.0.1")
    ∷ ("network.0.port", str "p-1")
    ∷ ("metadata.%", num 1)
    ∷ ("metadata.kubespray_groups", str "etcd,kube_node")
    ∷ ("security_groups.#", num 2)
    ∷ ("security_groups.0.7", str "default")
    ∷ ("security_groups.1.7", str "web")
    ∷ []

converts : convert_to_v3_structure randint (obj instance_attributes) 0 ≡ ok (converted, 2)
unfolding convert_to_v3_structure convert update put_fields put show
converts = refl

abbrev numbers : Value
numbers = obj (field "ports" (arr (cons (num 80) nil)) end)

convert_to_v3_structure-Decides_example :
    convert_to_v3_structure randint numbers 0 ≡ raise attribute_error
unfolding is_convertible
convert_to_v3_structure-Decides_example = convert_to_v3_structure-Decides randint numbers 0

-- The converted attributes, as a resource.
abbrev resource : Value
resource = obj (field "primary" (obj (field "attributes" (obj (fields_of converted)) end)) end)

abbrev returned : Result Host → Host
returned (ok h) = h
returned (raise e) = record { name = ""; attrs = []; groups = [] }

abbrev repr : Value → String
repr v = "{}"

abbrev node : Host
node = returned (openstack_host repr resource)

node_runs : openstack_host repr resource ≡ ok node
unfolding openstack_host openstack_instance calculate_mantl_vars parse_dict parse_list
    parse_attr_list parse_prefix split_once dict_of values_of fold_result lookup put update
    add_devices metadata_groups without_brackets ends_with split
node_runs = refl

node_groups :
    node.groups
    ≡ "os_image=img" ∷ "os_flavor=small" ∷ "os_metadata_%=1"
      ∷ "os_metadata_kubespray_groups=etcd,kube_node" ∷ "os_region=" ∷ "etcd" ∷ "kube_node"
      ∷ "publicly_routable" ∷ []
unfolding openstack_host openstack_instance calculate_mantl_vars parse_dict parse_list
    parse_attr_list parse_prefix split_once dict_of values_of fold_result lookup put update
    add_devices metadata_groups without_brackets ends_with split show
node_groups = refl

elem-openstack_host_example : elem "kube_node" node.groups ≡ true
unfolding parse_dict parse_prefix split_once dict_of lookup put split
elem-openstack_host_example =
    elem-openstack_host repr resource converted "etcd,kube_node" "kube_node" node refl refl refl
      node_runs

abbrev plain_host : String → String → Host
plain_host name group = record {
  name = name;
  attrs =
      ("access_ip", str "10.0.0.2")
      ∷ ("port_id", str "p-2")
      ∷ ("metadata", obj (field "use_access_ip" (str "0") end))
      ∷ [];
  groups = "" ∷ group ∷ group ∷ [];
}

abbrev two : List Host
two = plain_host "a" "etcd" ∷ plain_host "b" "kube_node" ∷ []

query_list-listed_example : lookup "etcd" (query_list each_once two) ≡ some (hosts ("a" ∷ []))
query_list-listed_example = query_list-listed each_once "etcd" two each_once-IsSetOrder refl

query_list-query_host_example :
    vars_in (lookup "_meta" (query_list each_once two)) "b" ≡ some (query_host two "b")
query_list-query_host_example = query_list-query_host each_once two "b" (refl, (refl, tt))

abbrev ips : List (Value × Value)
ips = (str "p-1", str "192.0.2.1") ∷ (str "p-2", str "192.0.2.2") ∷ []

abbrev reached : Result (List Host) → List Host
reached (ok hs) = hs
reached (raise e) = []

two_runs : with_floating ips two ≡ ok (reached (with_floating ips two))
unfolding iter_host_ips host_ip find_ip lookup update put
two_runs = refl

query_list-with_floating_example :
    lookup "kube_node" (query_list each_once (reached (with_floating ips two)))
    ≡ lookup "kube_node" (query_list each_once two)
query_list-with_floating_example =
    query_list-with_floating each_once ips two (reached (with_floating ips two)) "kube_node"
      two_runs refl

-- A device of Metal, in the flat form of version 3.
abbrev device_attributes : Fields
device_attributes = field "hostname" (str "m1") (
    field "id" (str "d-1") (
      field "operating_system" (str "flatcar_stable") (
        field "locked" (str "False") (
          field "plan" (str "c3") (
            field "project_id" (str "p") (
              field "state" (str "active") (
                field "network.0.address" (str "192.0.2.9") (
                  field "network.1.address" (str "fe80::9") (
                    field "network.2.address" (str "10.0.0.9")
                      (field "tags.#" (str "1") (field "tags.0" (str "etcd") end)))))))))))

abbrev device_resource : Value
device_resource = obj (field "primary" (obj (field "attributes" (obj device_attributes) end)) end)

abbrev device : Host
device = returned (metal_device device_resource)

device_runs : metal_device device_resource ≡ ok device
unfolding metal_device parse_list parse_prefix split_once values_of parse_bool lookup put
device_runs = refl

iter_host_ips-metal_device_example : iter_host_ips (device ∷ two) ips ≡ raise key_error
iter_host_ips-metal_device_example =
    iter_host_ips-metal_device ips device_resource device two device_runs

-- A state file of version 4 with the instance and its floating address.
abbrev instances_of : Fields → Value
instances_of fs = arr (cons (obj (field "attributes" (obj fs) end)) nil)

abbrev state_file : Value
state_file = obj (
    field "version" (num 4) (
      field "resources"
        (arr (
          cons
            (obj (
              field "provider" (str "provider.openstack") (
                field "type" (str "openstack_compute_instance_v2") (
                  field "name" (str "node")
                    (field "instances" (instances_of instance_attributes) end)))))
            (cons
              (obj (
                field "provider" (str "provider.openstack") (
                  field "type" (str "openstack_networking_floatingip_associate_v2") (
                    field "name" (str "ip") (
                      field "instances"
                        (instances_of
                          (field "port_id" (str "p-1") (field "floating_ip" (str "192.0.2.1") end)))
                        end)))))
              nil)))
        end))

abbrev env : Env
env = record {
  getcwd = ".";
  walk = λ root. (".", "terraform.tfstate" ∷ ".tfstate" ∷ "notes.txt" ∷ []) ∷ [];
  read_json = λ f. ok state_file;
  randint = randint;
  repr = repr;
  set_order = each_once;
}

abbrev args : Args
args = record { mode = hostfile; nometa = false; pretty = false; root = "." }

-- The address of the file is the floating one.
hostfile_printed :
    main env args
    ≡ ok (
        text
          "## begin hosts generated by terraform.py ##\n192.0.2.1       \tnode-1\n## end hosts generated by terraform.py ##")
unfolding main run tfstates state_suffix state_resources iterresources iterhosts iterips check_keys
    openstack_floating_ips find_ip host_ip iter_host_ips query_hostfile host_lines spaces last join
    count convert_to_v3_structure convert put_fields show openstack_host openstack_instance
    calculate_mantl_vars parse_dict parse_list parse_attr_list parse_prefix split_once dict_of
    values_of fold_result lookup put update add_devices metadata_groups without_brackets ends_with
    split
hostfile_printed = refl
