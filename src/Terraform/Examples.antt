-- ===== src/Terraform/Examples.antt =====
-- Runs of the model of contrib/terraform/terraform.py, and its theorem at a concrete input.
mod Runs
use vagrant_portainer.Base.{String, ◌≡◌, refl, [], ◌∷◌, ◌++◌}
use vagrant_portainer.Base.Dict.{Dict, put, lookup}
use vagrant_portainer.Base.Text.{◌⧺◌, contains_char}
use vagrant_portainer.Terraform.Parse.{
  split_once, parse_prefix, parse_dict, parse_list, dict_of, values_of,
}
use vagrant_portainer.Terraform.Attributes.{flat, parse_dict-flat}

abbrev state : Dict String
state =
    ("tags.#", "2")
    ∷ ("id", "i-1")
    ∷ ("tags.0", "etcd")
    ∷ ("tags.1", "node.a")
    ∷ ("net.0.ip", "10.0.0.1")
    ∷ []

tags : parse_list state "tags" b'.' ≡ "etcd" ∷ "node.a" ∷ []
unfolding parse_list values_of parse_prefix split_once
tags = refl

nets : parse_dict state "net" b'.' ≡ ("0.ip", "10.0.0.1") ∷ []
unfolding parse_dict dict_of parse_prefix split_once put
nets = refl

abbrev metadata : Dict String
metadata = ("role", "node") ∷ ("ssh_user", "core") ∷ []

parse_dict-flat_example :
    parse_dict
      (flat "network" (("0.ip", "10.0.0.1") ∷ [])
        ++ ("metadata" ⧺ "." ⧺ "#", "2") ∷ flat "metadata" metadata)
      "metadata"
      b'.'
    ≡ metadata
unfolding contains_char lookup
parse_dict-flat_example =
    parse_dict-flat "metadata" "network" "2" (("0.ip", "10.0.0.1") ∷ []) metadata refl refl refl
      (refl, (refl, tt)) (refl, (refl, tt))
