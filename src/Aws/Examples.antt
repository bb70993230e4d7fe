-- ===== src/Aws/Examples.antt =====
-- A run of the model of contrib/aws_inventory/kubespray-aws-inventory.py, and its theorem at it.
use vagrant_portainer.Base.{true, ◌≡◌, refl, none, some, [], ◌∷◌}
use vagrant_portainer.Base.Result.{ok, raise, value_error, fold_result}
use vagrant_portainer.Base.Dict.{put}
use vagrant_portainer.Base.Text.{strip, split}
use vagrant_portainer.Aws.{
  Instance, Env, Inventory, node_labels_tag, parse_labels, add_instance, search_group,
  search_tags_in, search_tags, hosts_printed, data_printed, init,
}
use vagrant_portainer.Aws.Decided.{Decides, all_labelled, search_tags-Decides}

abbrev labelled : Instance
labelled = record {
  private_dns_name = "a.internal";
  private_ip_address = "10.0.0.1";
  public_dns_name = "a.example";
  public_ip_address = "192.0.2.1";
  tags = ("kubespray-role", "etcd") ∷ ("kubespray-node-labels", "disk=ssd, zone=b") ∷ [];
}

-- Every search finds the same instance.
abbrev env : Env
env = record {
  vpc_visibility = none;
  region = some "eu-west-1";
  cluster_name = some "";
  instances = λ region filters. labelled ∷ [];
}

abbrev inventory : Inventory
inventory = record {
  kube_control_plane = "a.internal" ∷ [];
  kube_node = "a.internal" ∷ [];
  etcd = "a.internal" ∷ [];
  hostvars =
      (
        "a.internal",
        record {
          ansible_ssh_host = "10.0.0.1";
          node_labels = some (("disk", "ssd") ∷ ("zone", "b") ∷ []);
        },
      )
      ∷ [];
}

env_run : search_tags env ≡ ok inventory
unfolding search_tags search_tags_in search_group add_instance parse_labels node_labels_tag
    fold_result put strip split
env_run = refl

both_flags : init env true true ≡ ok (hosts_printed inventory ∷ data_printed ∷ [])
unfolding init search_tags search_tags_in search_group add_instance parse_labels node_labels_tag
    fold_result put strip split
both_flags = refl

-- One instance has a label without a value.
abbrev mistaken : Env
mistaken = record env {
  instances = λ region filters.
      labelled ∷ record labelled { tags = ("kubespray-node-labels", "disk") ∷ [] } ∷ [];
}

search_tags-Decides_example :
    Decides mistaken "eu-west-1" (all_labelled mistaken "eu-west-1") (search_tags mistaken)
search_tags-Decides_example = search_tags-Decides mistaken "eu-west-1" refl

mistaken_raises : search_tags mistaken ≡ raise value_error
unfolding node_labels_tag strip split
mistaken_raises = search_tags-Decides mistaken "eu-west-1" refl
