-- ===== src/Aws.antt =====
-- contrib/aws_inventory/kubespray-aws-inventory.py: an inventory from the tags of the instances of
-- a cloud. The search for instances is a parameter; what is printed as JSON is kept as a value.
pub mod Listed
pub mod Decided
mod Examples
use vagrant_portainer.Base.{
  String, Bool, true, false, Option, none, some, List, [], ◌∷◌, ◌++◌, ◌==◌, if◌then◌else◌,
}
use vagrant_portainer.Base.Result.{Result, ok, raise, key_error, value_error, ◌>>=◌, fold_result}
use vagrant_portainer.Base.Dict.{Dict, put}
use vagrant_portainer.Base.Text.{◌⧺◌, strip, split}

pub record Instance : Type 0 where
  pub private_dns_name : String
  pub private_ip_address : String
  pub public_dns_name : String
  pub public_ip_address : String
  pub tags : List (String × String)

pub record Filter : Type 0 where
  pub name : String
  pub values : List String

-- The variables of a host: its address, and the labels where the instance has them.
pub record HostVars : Type 0 where
  pub ansible_ssh_host : String
  pub node_labels : Option (Dict String)

-- The environment variables, and the search for instances in a region.
pub record Env : Type 0 where
  pub vpc_visibility : Option String
  pub region : Option String
  pub cluster_name : Option String
  pub instances : String → List Filter → List Instance

-- `hosts`, but for the group `k8s_cluster`, which is always the same
pub record Inventory : Type 0 where
  pub kube_control_plane : List String
  pub kube_node : List String
  pub etcd : List String
  pub hostvars : Dict HostVars

-- `self.vpc_visibility == "public"`
abbrev pub is_public : Env → Bool
is_public env = elim env.vpc_visibility [ none ↦ false | some v ↦ v == "public" ]

-- `if cluster_name`
abbrev pub cluster_filter : Option String → List Filter
cluster_filter none = []
cluster_filter (some name) =
    if name == ""
    then []
    else record { name = "tag-key"; values = ("kubernetes.io/cluster/" ⧺ name) ∷ [] } ∷ []

abbrev pub filters : Env → String → List Filter
filters env group =
    record { name = "tag:kubespray-role"; values = ("*" ⧺ group ⧺ "*") ∷ [] }
    ∷ record { name = "instance-state-name"; values = "running" ∷ [] }
    ∷ cluster_filter env.cluster_name

abbrev pub dns_name : Env → Instance → String
dns_name env i = if is_public env then i.public_dns_name else i.private_dns_name

abbrev pub ip_address : Env → Instance → String
ip_address env i = if is_public env then i.public_ip_address else i.private_ip_address

-- The value of the first tag for labels.
unfoldable pub node_labels_tag : List (String × String) → Option String
node_labels_tag [] = none
node_labels_tag ((key, value) ∷ rest) =
    let later = node_labels_tag rest in if key == "kubespray-node-labels" then some value else later

-- An item of the list that `dict` takes, which has to have two parts.
abbrev pub put_label : Dict String → List String → Result (Dict String)
put_label d (key ∷ value ∷ []) = ok (put key value d)
put_label d _ = raise value_error

abbrev pub label_step : Dict String → String → Result (Dict String)
label_step d label = put_label d (split b'=' (strip label))

unfoldable pub parse_labels : Option String → Result (Option (Dict String))
parse_labels none = ok none
parse_labels (some value) = do
  labels ← fold_result label_step [] (split b',' value)
  ok (some labels)

-- One instance: the group's list and the variables of the hosts.
unfoldable pub add_instance :
    Env → List String × Dict HostVars → Instance → Result (List String × Dict HostVars)
add_instance env (listed, hostvars) i = do
  labels ← parse_labels (node_labels_tag i.tags)
  ok (
    listed ++ dns_name env i ∷ [],
    put (dns_name env i) (record { ansible_ssh_host = ip_address env i; node_labels = labels })
        hostvars,
  )

unfoldable pub search_group :
    Env → String → String → Dict HostVars → Result (List String × Dict HostVars)
search_group env region group hostvars =
    fold_result (add_instance env) ([], hostvars) (env.instances region (filters env group))

-- `os.environ['REGION']`
abbrev pub region_of : Option String → Result String
region_of none = raise key_error
region_of (some r) = ok r

-- The loop over the three groups.
unfoldable pub search_tags_in : Env → String → Result Inventory
search_tags_in env region = do
  (control_plane, vars₁) ← search_group env region "kube_control_plane" []
  (nodes, vars₂) ← search_group env region "kube_node" vars₁
  (etcd_nodes, vars₃) ← search_group env region "etcd" vars₂
  ok (record {
    kube_control_plane = control_plane;
    kube_node = nodes;
    etcd = etcd_nodes;
    hostvars = vars₃;
  })

unfoldable pub search_tags : Env → Result Inventory
search_tags env = region_of env.region >>= search_tags_in env

-- `json.dumps` of the inventory, and of the empty dictionary.
pub data Output : Type 0 where
  hosts_printed : Inventory → Output
  data_printed : Output

-- `if self.args.list`
abbrev pub listing : Env → Bool → Result (List Output)
listing env true = search_tags env >>= λ hosts. ok (hosts_printed hosts ∷ [])
listing env false = ok []

-- The constructor, with the flags `--list` and `--host`: what is printed.
unfoldable pub init : Env → Bool → Bool → Result (List Output)
init env list host = listing env list >>= λ out. ok (if host then out ++ data_printed ∷ [] else out)
