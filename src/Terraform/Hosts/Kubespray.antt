-- ===== src/Terraform/Hosts/Kubespray.antt =====
-- contrib/terraform/terraform.py: the groups that the metadata of an instance name.
use vagrant_portainer.Base.{
  String, ◌≡◌, sym, ap, ◌∙◌, Bool, true, false, List, [], ◌∷◌, ◌++◌, arith, if◌then◌else◌,
}
use vagrant_portainer.Base.Result.{ok, ok-injective, Ensures, Ensures-ok, Ensures-bind}
use vagrant_portainer.Base.Lists.{elem, elem-append}
use vagrant_portainer.Base.Dict.{Dict}
use vagrant_portainer.Base.Text.{◌⧺◌, split}
use vagrant_portainer.Terraform.Json.{Value, bool, str, item}
use vagrant_portainer.Terraform.Parse.{parse_dict, parse_attr_list}
use vagrant_portainer.Terraform.Hosts.{
  Host, is_true, openstack_instance, calculate_mantl_vars, openstack_host,
}
use vagrant_portainer.Terraform.Fields.{
  raw_attributes, as_text, get, address_of, try_address, has_volumes, split_text, metadata_groups,
  text_of,
}

elem-later : (g : String) (a b : List String) → elem g b ≡ true → elem g (a ++ b) ≡ true
elem-later g a b e = let h = elem-append g a b in ground (arith, h, e)

mantl-elem :
    (g : String) (h : Host) → elem g h.groups ≡ true → elem g (calculate_mantl_vars h).groups ≡ true
unfolding calculate_mantl_vars
mantl-elem g h e = kept (is_true (get "publicly_routable" (bool false) h.attrs))
  where
    kept : (b : Bool) → elem g (if b then h.groups ++ "publicly_routable" ∷ [] else h.groups) ≡ true
    kept true = let a = elem-append g h.groups ("publicly_routable" ∷ []) in ground (arith, a, e)
    kept false = e

-- The groups that the metadata name under "kubespray_groups".
abbrev pub kubespray_groups : Dict Value → Value
kubespray_groups raw = get "kubespray_groups" (str "") (parse_dict raw "metadata" b'.')

module _ (repr : Value → String) (resource : Value) (raw : Dict Value) (text g : String) where
  openstack_instance-elem :
      raw_attributes resource ≡ ok raw
      → kubespray_groups raw ≡ str text
      → elem g (split b',' text) ≡ true
      → Ensures (λ h. elem g h.groups ≡ true) (openstack_instance repr resource)
  unfolding openstack_instance
  openstack_instance-elem r k e = Ensures-bind (raw_attributes resource) _ λ raw' r'.
      Ensures-bind (item "name" raw') _ λ name _. Ensures-bind (as_text name) _ λ name' _.
        Ensures-bind (item "access_ip_v4" raw') _ λ v4 _.
          Ensures-bind (item "access_ip_v6" raw') _ λ v6 _.
            Ensures-bind (item "network.0.fixed_ip_v4" raw') _ λ fixed _.
              Ensures-bind (item "id" raw') _ λ id _.
                Ensures-bind (item "key_pair" raw') _ λ key_pair _.
                  Ensures-bind (parse_attr_list raw' "network" b'.') _ λ network _.
                    Ensures-bind (item "network.0.port" raw') _ λ port _.
                      Ensures-bind (try_address (address_of raw') _) _ λ attrs _.
                        Ensures-bind (has_volumes raw') _ λ volumes _.
                          Ensures-bind (item "id" (parse_dict raw' "image" b'_')) _ λ image _.
                            Ensures-bind (item "name" (parse_dict raw' "flavor" b'_')) _ λ flavor _.
                              Ensures-bind (split_text (kubespray_groups raw')) _ λ parts s.
                                Ensures-ok _ (
                                  let same : raw' ≡ raw = ok-injective (sym r' ∙ r) in
                                  let split_at : parts ≡ split b',' text = ok-injective (
                                    sym s
                                    ∙ ap (λ d. split_text (kubespray_groups d)) same
                                    ∙ ap split_text k) in
                                  let here : elem g parts ≡ true = ap (elem g) split_at ∙ e in
                                  let later =
                                    elem-later g
                                      (metadata_groups repr (parse_dict raw' "metadata" b'.'))
                                      (("os_region=" ⧺ text_of repr (get "region" (str "") raw'))
                                        ∷ parts)
                                      (ground (arith, here)) in
                                  ground (arith, later))

-- A host that `openstack_host` returns is in every group that its metadata name, separated by
-- commas, under "kubespray_groups".
pub elem-openstack_host :
    (repr : Value → String) (resource : Value) (raw : Dict Value) (text g : String) (h : Host)
    → raw_attributes resource ≡ ok raw
    → kubespray_groups raw ≡ str text
    → elem g (split b',' text) ≡ true
    → openstack_host repr resource ≡ ok h
    → elem g h.groups ≡ true
unfolding openstack_host
elem-openstack_host repr resource raw text g h r k e o = decorated.at h o
  where
    decorated : Ensures (λ h'. elem g h'.groups ≡ true) (openstack_host repr resource)
    decorated = Ensures-bind (openstack_instance repr resource) _ λ h' o'.
        Ensures-ok _
          (mantl-elem g h' ((openstack_instance-elem repr resource raw text g r k e).at h' o'))
