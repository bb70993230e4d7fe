-- ===== src/Terraform/Program/Metal.antt =====
-- contrib/terraform/terraform.py: devices of Metal beside floating addresses.
use vagrant_portainer.Base.{◌≡◌, refl, ap, none, List, ◌∷◌, Bool-cases, inl, inr}
use vagrant_portainer.Base.Result.{ok, raise, key_error, ◌>>=◌, Ensures, Ensures-ok, Ensures-bind}
use vagrant_portainer.Base.Dict.{Dict, lookup, lookup-put}
use vagrant_portainer.Terraform.Json.{Value, item, or_key_error}
use vagrant_portainer.Terraform.Parse.{parse_bool, parse_list}
use vagrant_portainer.Terraform.Hosts.{Host, metal_device}
use vagrant_portainer.Terraform.Fields.{ssh_user, is_text, raw_attributes, as_text, as_texts}
use vagrant_portainer.Terraform.Program.{host_ip, host_ip_at, iter_host_ips}

-- A host without a port.
record HasNoPort (h : Host) : Type 0 where
  port : lookup "port_id" h.attrs ≡ none

ssh_user-port :
    (system : Value) (attrs : Dict Value)
    → lookup "port_id" attrs ≡ none
    → lookup "port_id" (ssh_user system attrs) ≡ none
ssh_user-port system attrs e = elim (Bool-cases (is_text system "flatcar_stable")) [
  | inl core ↦ rw core (rw lookup-put e)
  | inr root ↦ rw root e
]

metal_device-HasNoPort : (resource : Value) → Ensures HasNoPort (metal_device resource)
unfolding metal_device lookup
metal_device-HasNoPort resource = Ensures-bind (raw_attributes resource) _ λ raw _.
    Ensures-bind (item "hostname" raw) _ λ name _. Ensures-bind (as_text name) _ λ name' _.
      Ensures-bind (item "id" raw) _ λ id _.
        Ensures-bind (item "operating_system" raw) _ λ system _.
          Ensures-bind (item "locked" raw) _ λ form _. Ensures-bind (parse_bool form) _ λ locked _.
            Ensures-bind (item "plan" raw) _ λ plan _.
              Ensures-bind (item "project_id" raw) _ λ project _.
                Ensures-bind (item "state" raw) _ λ state _.
                  Ensures-bind (item "network.0.address" raw) _ λ public _.
                    Ensures-bind (item "network.1.address" raw) _ λ ipv6 _.
                      Ensures-bind (item "network.2.address" raw) _ λ private _.
                        Ensures-bind (as_text system) _ λ system_text _.
                          Ensures-bind (as_text state) _ λ state_text _.
                            Ensures-bind (as_text plan) _ λ plan_text _.
                              Ensures-bind (as_texts (parse_list raw "tags" b'.')) _ λ tags _.
                                Ensures-ok _ (record { port = ssh_user-port system _ refl })

-- A device of Metal has no port, so `iter_host_ips` raises KeyError for it: where there is a
-- floating address and the first host is such a device, the inventory cannot be made.
pub iter_host_ips-metal_device :
    (ips : List (Value × Value)) (resource : Value) (h : Host) (hs : List Host)
    → metal_device resource ≡ ok h
    → iter_host_ips (h ∷ hs) ips ≡ raise key_error
unfolding iter_host_ips host_ip
iter_host_ips-metal_device ips resource h hs e =
    ap
      (λ o.
        or_key_error o >>= host_ip_at ips h >>= λ h'. iter_host_ips hs ips >>= λ hs'. ok (h' ∷ hs'))
      ((metal_device-HasNoPort resource).at h e).port
