-- ===== src/Inventory/Hosts/Deleted.antt =====
-- Deleting a host by its name or its address with contrib/inventory_builder/inventory.py.
use vagrant_portainer.Base.{
  ◌+◌, String, ◌≡◌, refl, sym, ap, ◌∙◌, true, false, Option, none, some, [], ◌∷◌, arith, eq_iff,
  ◌==◌, if◌then◌else◌, Bool-cases, inl, inr,
}
use mathlib.Core.Path.{subst}
use vagrant_portainer.Base.Result.{ok, Result-cases, fold_result, Ensures, Ensures-ok, Ensures-bind}
use vagrant_portainer.Base.Lists.{elem}
use vagrant_portainer.Base.Dict.{IsDict, has_key, remove, keys, has_key-keys, lookup-remove}
use vagrant_portainer.Inventory.Types.{Hosts, Config, Settings}
use vagrant_portainer.Inventory.Hosts.{
  get_ip_from_opts, delete_from, delete_host_by_ip, Build, step_delete, step_by, step,
  load_existing, or_exit, existing_hosts, build_hostnames,
}
use vagrant_portainer.Inventory.Hosts.Addresses.{has_ip, uses_ip, addressed, exists_ip_total}
use vagrant_portainer.Inventory.Hosts.Table.{hosts_before, load_existing-eq}
use vagrant_portainer.Inventory.Hosts.Keeps.{ok_of_or_exit}

some-injective : {s t : String} → some s ≡ some t → s ≡ t
some-injective e = cc

-- The argument that deletes the host with this name or address.
abbrev pub deletion : String → String
deletion text = String.◌∷◌ "-" text

-- The first host with the address.
abbrev first_with : String → Hosts → Option String
first_with ip [] = none
first_with ip ((h, o) ∷ d) = if has_ip ip (get_ip_from_opts o) then some h else first_with ip d

-- The host that the text stands for: the one with this name, or else the first with this address.
abbrev pub host_for : String → Hosts → Option String
host_for text d = if has_key text d then some text else first_with text d

uses_ip_of_first_with :
    (ip name : String) (d : Hosts) → first_with ip d ≡ some name → uses_ip ip d ≡ true
unfolding uses_ip
uses_ip_of_first_with ip name [] e = absurd cc
uses_ip_of_first_with ip name ((h, o) ∷ d) e = ground (arith, uses_ip_of_first_with ip name d)

delete_from-first_with :
    (d rest : Hosts) (ip name : String)
    → addressed rest ≡ true
    → first_with ip rest ≡ some name
    → delete_from d rest ip ≡ ok (remove name d)
unfolding delete_from addressed
delete_from-first_with d [] ip name a e = absurd cc
delete_from-first_with d ((h, o) ∷ rest) ip name a e = elim (Result-cases (get_ip_from_opts o)) [
  | inr (x, raises) ↦ absurd (ground arith)
  | inl (found, has) ↦ elim (Bool-cases (ip == found)) [
    | inl same ↦ rw (has, same) (ap (λ n. ok (remove n d)) (some-injective (rw (has, same) at e)))
    | inr differs ↦
        rw (has, differs)
          (delete_from-first_with d rest ip name (ground arith) (rw (has, differs) at e))
  ]
]

step-deletion :
    (s : Settings) (b : Build) (text name : String)
    → addressed b.all_hosts ≡ true
    → host_for text b.all_hosts ≡ some name
    → step s b (deletion text) ≡ ok (record b { all_hosts = remove name b.all_hosts })
unfolding step step_by step_delete delete_host_by_ip
step-deletion s b text name a e = elim (Bool-cases (has_key text b.all_hosts)) [
  | inl named ↦ rw named (
      ap (λ n. ok (record b { all_hosts = remove n b.all_hosts })) (some-injective (rw named at e)))
  | inr unnamed ↦
      let f : first_with text b.all_hosts ≡ some name = rw unnamed at e in
      let deleted = delete_from-first_with b.all_hosts b.all_hosts text name a f in
      let used = uses_ip_of_first_with text name b.all_hosts f in
      rw unnamed (rw (exists_ip_total b.all_hosts text a) (rw used (rw deleted refl)))
]

-- A deletion takes the entry of the host that is meant out.
pub build_hostnames-deletion :
    (s : Settings) (c : Config) (text name : String)
    → IsDict (hosts_before c)
    → addressed (hosts_before c) ≡ true
    → host_for text (hosts_before c) ≡ some name
    → Ensures
        (λ d. d ≡ remove name (hosts_before c))
        (build_hostnames s c (deletion text ∷ []) true)
unfolding build_hostnames existing_hosts fold_result
build_hostnames-deletion s c text name dict a e =
    Ensures-bind (or_exit (load_existing s c)) _ λ r e₁.
      let same = (load_existing-eq s c dict).at r (ok_of_or_exit (load_existing s c) r e₁) in
      let b : Build = record {
        all_hosts = r.0;
        next_host_id = r.1 + 1;
        hostname = none;
        ip = none;
        access_ip = none;
      } in
      let done =
        step-deletion s b text name (subst (λ d. addressed d ≡ true) (sym same) a)
          (subst (λ d. host_for text d ≡ some name) (sym same) e) in
      rw done (Ensures-ok _ (ap (remove name) same))

pub elem-remove : (name : String) (d : Hosts) → elem name (keys (remove name d)) ≡ false
elem-remove name d =
    has_key-keys name (remove name d) ∙ rw lookup-remove (ground (arith, eq_iff name name))
