-- ===== src/Inventory/Hosts/Repeated.antt =====
-- Adding addresses that are there with contrib/inventory_builder/inventory.py changes no host.
use mathlib.Core.Path.{subst}
use vagrant_portainer.Base.{
  String, ◌≡◌, sym, ◌∙◌, Bool, true, false, Option, none, some, List, [], ◌∷◌, arith, eqb,
}
use Prim.Native.Char.{Char, code}
use vagrant_portainer.Base.Result.{
  ok, all, Ensures, Ensures-ok, Ensures-if, Ensures-bind, fold_result,
}
use vagrant_portainer.Base.Dict.{IsDict, has_key}
use vagrant_portainer.Base.Text.{first, split}
use vagrant_portainer.Inventory.Types.{Hosts, Config, Settings}
use vagrant_portainer.Inventory.Hosts.{
  exists_ip, first_part, Build, step_ip, step_by, step, load_existing, or_exit, existing_hosts,
  build_hostnames,
}
use vagrant_portainer.Inventory.Hosts.Addresses.{uses_ip, exists_ip_lem}
use vagrant_portainer.Inventory.Hosts.Table.{hosts_before, load_existing-eq}
use vagrant_portainer.Inventory.Hosts.Keeps.{AllAddresses, starts_with_digit, ok_of_or_exit}
use vagrant_portainer.Inventory.Hosts.Added.{covers, ip-first_part}

-- The loop's state has this table.
abbrev HasHosts : Hosts → Build → Type 0
HasHosts d b = b.all_hosts ≡ d

module _ (s : Settings) (d : Hosts) where
  step_ip-HasHosts :
      (b : Build) (host : String)
      → covers d host ≡ true
      → HasHosts d b
      → Ensures (HasHosts d) (step_ip s b host)
  unfolding step_ip
  step_ip-HasHosts b host c same = Ensures-bind _ _ λ (ip, access_ip) e.
      let b' : Build = record b { ip = some ip; access_ip = some access_ip } in
      Ensures-if (has_key host b.all_hosts) (ok b') _ (λ named. Ensures-ok b' same)
        (λ unnamed. Ensures-bind (exists_ip b.all_hosts ip) _ λ there e₁.
          Ensures-if there (ok b') _ (λ used. Ensures-ok b' same)
            (λ unused. absurd (
              unseen b.all_hosts host ip there unnamed e₁ unused
                (ip-first_part host (ip, access_ip) e)
                (subst (λ x. covers x host ≡ true) (sym same) c))))
    where
      unseen :
          (x : Hosts) (host ip : String) (there : Bool)
          → has_key host x ≡ false
          → exists_ip x ip ≡ ok there
          → there ≡ false
          → first_part (split b',' host) ≡ ip
          → covers x host ≡ true
          → ⊥
      unseen x host ip there n e u f c =
          let not_used : uses_ip ip x ≡ false = exists_ip_lem x ip there e ∙ u in
          cc (sym (rw (f, n, not_used) at c))

  step_by-HasHosts :
      (b : Build) (host : String) (c : Option Char)
      → starts_with_digit c ≡ true
      → covers d host ≡ true
      → HasHosts d b
      → Ensures (HasHosts d) (step_by s b host c)
  unfolding step_by
  step_by-HasHosts b host none a v g = absurd cc
  step_by-HasHosts b host (some c) a v g =
      let no_dash : eqb (code c) b'-' ≡ false = ground arith in
      rw no_dash (simp a (step_ip-HasHosts b host v g))

  steps-HasHosts :
      (b : Build) (hosts : List String)
      → AllAddresses hosts
      → all (covers d) hosts ≡ true
      → HasHosts d b
      → Ensures (HasHosts d) (fold_result (step s) b hosts)
  unfolding fold_result step
  steps-HasHosts b [] a v g = Ensures-ok b g
  steps-HasHosts b (h ∷ hs) (a, as') v g = Ensures-bind (step s b h) _ λ b' e.
      steps-HasHosts b' hs as' (ground arith)
        ((step_by-HasHosts b h (first h) a (ground arith) g).at b' e)

-- Where each of the addresses is the name or the address of a host of the document, the table is
-- the hosts of the document.
pub build_hostnames-repeated :
    (s : Settings) (c : Config) (hosts : List String)
    → IsDict (hosts_before c)
    → AllAddresses hosts
    → all (covers (hosts_before c)) hosts ≡ true
    → Ensures (λ d. d ≡ hosts_before c) (build_hostnames s c hosts true)
unfolding build_hostnames existing_hosts
build_hostnames-repeated s c hosts dict addresses v =
    Ensures-bind (or_exit (load_existing s c)) _ λ r e.
      let same = (load_existing-eq s c dict).at r (ok_of_or_exit (load_existing s c) r e) in
      Ensures-bind _ _
        λ b e'. Ensures-ok _ ((steps-HasHosts s (hosts_before c) _ hosts addresses v same).at b e')
