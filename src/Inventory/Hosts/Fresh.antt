-- ===== src/Inventory/Hosts/Fresh.antt =====
-- A new inventory by contrib/inventory_builder/inventory.py: hosts numbered in the order of their
-- addresses.
use Prim.Native.Char.{Char, code}
use vagrant_portainer.Base.{
  ℕ, ◌+◌, String, ◌≡◌, refl, sym, ap, ◌∙◌, true, false, Option, none, some, List, [], ◌∷◌, ◌++◌,
  ◌||◌, arith, eqb, ◌==◌, eq_iff,
}
use mathlib.Core.List.{append_assoc, append-nil}
use vagrant_portainer.Base.Result.{ok, fold_result}
use vagrant_portainer.Base.Lists.{elem}
use vagrant_portainer.Base.Dict.{has_key, lookup, put_new, has_key-append}
use vagrant_portainer.Base.Text.{first, contains_char, starts_with, ◌⧺◌}
use vagrant_portainer.Base.Text.Decimal.{show}
use vagrant_portainer.Base.Text.Parts.{starts_with-append}
use vagrant_portainer.Inventory.Types.{vars, Hosts, Config, Settings}
use vagrant_portainer.Inventory.Hosts.{
  get_ip_from_opts, host_opts, Build, name_ip, step_ip, step_by, step, existing_hosts,
  build_hostnames,
}
use vagrant_portainer.Inventory.Hosts.Addresses.{
  uses_ip, addressed, exists_ip_total, uses_ip-append, addressed-append,
}
use vagrant_portainer.Inventory.Hosts.Names.{
  IsPlainPrefix, NamesBelow, NamesBelow-mono, put-NamesBelow, name_below-generated,
  generated_is_new, names_below,
}
use vagrant_portainer.Inventory.Hosts.Keeps.{IsAddress, starts_with_digit}

-- The hosts `prefix n`, `prefix (n + 1)`, ... with the addresses in order.
abbrev pub numbered : String → ℕ → List String → Hosts
numbered prefix n [] = []
numbered prefix n (ip ∷ ips) =
    (prefix ⧺ show n, vars (("ansible_host", ip) ∷ ("ip", ip) ∷ ("access_ip", ip) ∷ []))
    ∷ numbered prefix (n + 1) ips

-- An argument that is one address, and that no generated name could be.
abbrev pub IsPlainIp : String → String → Type 0
IsPlainIp prefix ip =
    IsAddress ip × (contains_char b',' ip ≡ false) × (starts_with ip prefix ≡ false)

-- Distinct plain addresses, none of them in the table.
abbrev pub AreNew : String → Hosts → List String → Type 0
AreNew prefix d [] = Unit
AreNew prefix d (ip ∷ ips) =
    IsPlainIp prefix ip
    × (uses_ip ip d ≡ false)
    × (has_key ip d ≡ false)
    × (elem ip ips ≡ false)
    × AreNew prefix d ips

-- The table with one more host, under a generated name.
abbrev grown : String → ℕ → String → Hosts → Hosts
grown prefix n ip d = d ++ (prefix ⧺ show n, host_opts ip ip) ∷ []

module _ (prefix : String) (n : ℕ) (ip : String) (d : Hosts) where
  uses_ip-grown : (j : String) → uses_ip j (grown prefix n ip d) ≡ (uses_ip j d || j == ip)
  unfolding uses_ip get_ip_from_opts lookup
  uses_ip-grown j = ground (arith, uses_ip-append j d ((prefix ⧺ show n, host_opts ip ip) ∷ []))

  has_key-grown :
      (j : String)
      → starts_with j prefix ≡ false
      → has_key j d ≡ false
      → has_key j (grown prefix n ip d) ≡ false
  unfolding lookup
  has_key-grown j other h = ground (
    arith,
    has_key-append j d ((prefix ⧺ show n, host_opts ip ip) ∷ []),
    eq_iff (prefix ⧺ show n) j,
    starts_with-append prefix (show n),
  )

  AreNew-grown :
      (ips : List String)
      → elem ip ips ≡ false
      → AreNew prefix d ips
      → AreNew prefix (grown prefix n ip d) ips
  AreNew-grown [] e h = tt
  AreNew-grown (j ∷ js) e (plain, unused, no_host, apart, rest) = (
    plain,
    ground (arith, uses_ip-grown j, eq_iff j ip, eq_iff ip j),
    has_key-grown j plain.2 no_host,
    apart,
    AreNew-grown js (ground arith) rest,
  )

  addressed-grown : addressed d ≡ true → addressed (grown prefix n ip d) ≡ true
  unfolding addressed get_ip_from_opts lookup
  addressed-grown h = rw addressed-append (rw h refl)

module _ (s : Settings) (generated : s.use_real_hostname ≡ false)
    (plain : IsPlainPrefix s.host_prefix) where
  -- The state after one more plain address.
  abbrev added : Build → String → Build
  added b ip = record b {
    all_hosts = grown s.host_prefix b.next_host_id ip b.all_hosts;
    next_host_id = b.next_host_id + 1;
    ip = some ip;
    access_ip = some ip;
  }

  step_ip-added :
      (b : Build) (ip : String)
      → addressed b.all_hosts ≡ true
      → NamesBelow s.host_prefix b.next_host_id b.all_hosts
      → IsPlainIp s.host_prefix ip
      → uses_ip ip b.all_hosts ≡ false
      → has_key ip b.all_hosts ≡ false
      → step_ip s b ip ≡ ok (added b ip)
  unfolding step_ip name_ip
  step_ip-added b ip a below p unused no_host = ground (
    arith,
    exists_ip_total b.all_hosts ip a,
    put_new (s.host_prefix ⧺ show b.next_host_id) (host_opts ip ip) b.all_hosts
        (generated_is_new s.host_prefix b.next_host_id b.all_hosts plain below),
  )

  step_by-added :
      (b : Build) (ip : String) (c : Option Char)
      → starts_with_digit c ≡ true
      → step_ip s b ip ≡ ok (added b ip)
      → step_by s b ip c ≡ ok (added b ip)
  unfolding step_by
  step_by-added b ip none d h = absurd cc
  step_by-added b ip (some c) d h =
      let no_dash : eqb (code c) b'-' ≡ false = ground arith in rw no_dash (simp d h)

  NamesBelow-added :
      (b : Build) (ip : String)
      → NamesBelow s.host_prefix b.next_host_id b.all_hosts
      → NamesBelow s.host_prefix (b.next_host_id + 1) (added b ip).all_hosts
  NamesBelow-added b ip h =
      let n = b.next_host_id in
      let new = generated_is_new s.host_prefix n b.all_hosts plain h in
      rw (← put_new (s.host_prefix ⧺ show n) (host_opts ip ip) b.all_hosts new) (
        put-NamesBelow s.host_prefix (n + 1) _ _ b.all_hosts
          (name_below-generated s.host_prefix n plain)
          (NamesBelow-mono s.host_prefix n (n + 1) b.all_hosts (omega arith) h))

  steps-added :
      (b : Build) (ips : List String)
      → addressed b.all_hosts ≡ true
      → NamesBelow s.host_prefix b.next_host_id b.all_hosts
      → AreNew s.host_prefix b.all_hosts ips
      → (b' : Build) × (fold_result (step s) b ips ≡ ok b')
        × (b'.all_hosts ≡ b.all_hosts ++ numbered s.host_prefix b.next_host_id ips)
  unfolding fold_result step
  steps-added b [] a below h = (b, refl, sym (append-nil b.all_hosts))
  steps-added b (ip ∷ ips) a below (p, unused, no_host, apart, rest) =
      let n = b.next_host_id in
      let one = step_by-added b ip (first ip) p.0 (step_ip-added b ip a below p unused no_host) in
      let (b', ran, same) =
        steps-added (added b ip) ips (addressed-grown s.host_prefix n ip b.all_hosts a)
          (NamesBelow-added b ip below)
          (AreNew-grown s.host_prefix n ip b.all_hosts ips apart rest) in
      (b', rw one ran, same ∙ append_assoc b.all_hosts _ (numbered s.host_prefix (n + 1) ips))

  -- With generated names and a plain prefix, distinct plain addresses that do not start with it
  -- make a new inventory without an error: the hosts are the prefix with
  -- the numbers from 1, in the order of the arguments, each with its own address.
  pub build_hostnames-numbered :
      (c : Config) (ips : List String)
      → AreNew s.host_prefix [] ips
      → build_hostnames s c ips false ≡ ok (numbered s.host_prefix 1 ips)
  unfolding build_hostnames existing_hosts
  build_hostnames-numbered c ips h =
      let (b', ran, same) =
        steps-added
          (record {
            all_hosts = [];
            next_host_id = 0 + 1;
            hostname = none;
            ip = none;
            access_ip = none;
          })
          ips (unfold addressed in refl) (unfold names_below in refl) h in
      rw ran (ap ok same)
