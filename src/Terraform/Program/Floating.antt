-- ===== src/Terraform/Program/Floating.antt =====
-- contrib/terraform/terraform.py: what the floating addresses change of the hosts.
use vagrant_portainer.Base.{
  String, ◌≡◌, refl, sym, ap, ◌∙◌, Bool, false, none, some, List, [], ◌∷◌, arith, ◌==◌, eq_iff,
  if◌then◌else◌,
}
use vagrant_portainer.Base.Result.{Result, ok, Ensures, Ensures-ok, Ensures-bind}
use vagrant_portainer.Base.Dict.{Dict, lookup, put, lookup-put}
use vagrant_portainer.Terraform.Json.{Value, null, Fields, item}
use vagrant_portainer.Terraform.Hosts.{Host}
use vagrant_portainer.Terraform.Fields.{as_dict, get, is_text}
use vagrant_portainer.Terraform.Queries.{hostvars, add_groups, list_hosts, entries, query_list}
use vagrant_portainer.Terraform.Program.{
  ip_in, set_ip, pop_access_ip, host_ip, iter_host_ips, with_floating,
}

-- The name and the groups of a host stay.
record Keeps (h h' : Host) : Type 0 where
  name : h'.name ≡ h.name
  groups : h'.groups ≡ h.groups

host_ip-Keeps : (ips : List (Value × Value)) (h : Host) → Ensures (Keeps h) (host_ip ips h)
unfolding host_ip
host_ip-Keeps ips h = Ensures-bind (item "port_id" h.attrs) _ λ port_id e₁.
    Ensures-bind (ip_in ips port_id) _ λ ip e₂.
      Ensures-bind (item "metadata" (set_ip ip h.attrs)) _ λ m e₃.
        Ensures-bind (as_dict m) _ λ metadata e₄.
          Ensures-bind
            (if is_text (get "use_access_ip" null metadata) "0"
              then pop_access_ip (set_ip ip h.attrs)
              else ok (set_ip ip h.attrs))
            _ λ attrs' e₅. Ensures-ok _ (record { name = refl; groups = refl })

-- `hs'` lists the same groups as `hs`, for any lists that were made before.
abbrev SameLists : List Host → List Host → Type 0
SameLists hs hs' =
    (f : List String → List String) (groups : Dict (List String)) (meta meta' : Dict (Dict Value))
    → (list_hosts f hs' groups meta').0 ≡ (list_hosts f hs groups meta).0

iter_host_ips-SameLists :
    (hs : List Host) (ips : List (Value × Value)) → Ensures (SameLists hs) (iter_host_ips hs ips)
unfolding iter_host_ips list_hosts
iter_host_ips-SameLists [] ips = Ensures-ok [] (λ f groups meta meta'. refl)
iter_host_ips-SameLists (h ∷ hs) ips = Ensures-bind (host_ip ips h) _ λ h' e.
    Ensures-bind (iter_host_ips hs ips) _ λ hs' e'. Ensures-ok (h' ∷ hs') (λ f groups meta meta'.
      let keeps = (host_ip-Keeps ips h).at h' e in
      (iter_host_ips-SameLists hs ips).at hs' e' f (add_groups h'.name (f h'.groups) groups)
        (put h.name h.attrs meta) (put h'.name h'.attrs meta')
      ∙ ap (λ n. (list_hosts f hs (add_groups n (f h'.groups) groups) (put h.name h.attrs meta)).0)
          keeps.name
      ∙ ap (λ gs. (list_hosts f hs (add_groups h.name (f gs) groups) (put h.name h.attrs meta)).0)
          keeps.groups)

list_hosts-meta : (hs : List Host) → SameLists hs hs
unfolding list_hosts
list_hosts-meta [] f groups meta meta' = refl
list_hosts-meta (h ∷ hs) f groups meta meta' =
    list_hosts-meta hs f (add_groups h.name (f h.groups) groups) (put h.name h.attrs meta)
      (put h.name h.attrs meta')

with_floating-SameLists :
    (ips : List (Value × Value)) (hs : List Host) → Ensures (SameLists hs) (with_floating ips hs)
with_floating-SameLists [] hs = Ensures-ok hs (list_hosts-meta hs)
with_floating-SameLists (p ∷ ps) hs = iter_host_ips-SameLists hs (p ∷ ps)

-- Floating addresses change no group: where they are applied without an error, `query_list` lists
-- the same hosts under every name but "_meta" as before.
pub query_list-with_floating :
    (f : List String → List String) (ips : List (Value × Value)) (hs hs' : List Host) (g : String)
    → with_floating ips hs ≡ ok hs'
    → (g == "_meta") ≡ false
    → lookup g (query_list f hs') ≡ lookup g (query_list f hs)
unfolding query_list
query_list-with_floating f ips hs hs' g e n =
    let other : ("_meta" == g) ≡ false = ground (arith, eq_iff "_meta" g, eq_iff g "_meta") in
    let old = list_hosts f hs [] [] in
    let new = list_hosts f hs' [] [] in
    lookup-put "_meta" g (hostvars new.1) (entries new.0)
    ∙ ap (λ b. if b then some (hostvars new.1) else lookup g (entries new.0)) other
    ∙ ap (λ l. lookup g (entries l)) ((with_floating-SameLists ips hs).at hs' e f [] [] [])
    ∙ sym (ap (λ b. if b then some (hostvars old.1) else lookup g (entries old.0)) other)
    ∙ sym (lookup-put "_meta" g (hostvars old.1) (entries old.0))

-- What a floating address sets.
pub record Reached (ip : Value) (metadata : Dict Value) (attrs : Dict Value) : Type 0 where
  pub ansible_host : lookup "ansible_host" attrs ≡ some ip
  pub public_ipv4 : lookup "public_ipv4" attrs ≡ some ip
  pub access_ip_v4 : lookup "access_ip_v4" attrs ≡ some ip
  pub access_ip :
      lookup "access_ip" attrs
      ≡ (if is_text (get "use_access_ip" null metadata) "0" then none else some ip)

-- The end of a round, where it may take the access address away.
abbrev hide : Bool → Dict Value → Result (Dict Value)
hide hidden attrs = if hidden then pop_access_ip attrs else ok attrs
