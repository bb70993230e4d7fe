-- ===== src/Inventory/Hosts/Total.antt =====
-- Arguments on which `build_hostnames` of contrib/inventory_builder/inventory.py raises no error.
use vagrant_portainer.Base.{
  ℕ, String, ◌≡◌, refl, Bool, true, false, not, ◌||◌, Bool-cases, inl, inr, Option, none, some,
  List, [], ◌∷◌, arith, eqb, ltb, if◌then◌else◌,
}
use Prim.Native.Char.{Char, code}
use vagrant_portainer.Base.Result.{
  Result-cases, ok, all, Returns, Returns-ok, Returns-if, Returns-next, Returns-fold_result,
  fold_result,
}
use vagrant_portainer.Base.Dict.{has_key, put}
use vagrant_portainer.Base.Text.{
  first, rest_of, is_digit, is_alpha, contains_char, starts_with, split, ◌⧺◌,
}
use vagrant_portainer.Base.Text.Decimal.{show}
use vagrant_portainer.Inventory.Types.{HostVars, Hosts, AllGroup, Config, Settings}
use vagrant_portainer.Inventory.Hosts.{
  get_host_id, Build, name_ip, step_ip, step_by, step, two_parts, scan_existing, load_existing,
  existing_hosts, build_hostnames,
}
use vagrant_portainer.Inventory.Hosts.Names.{IsPlainPrefix, get_host_id-show}
use vagrant_portainer.Inventory.Hosts.Readable.{
  has_id, readable, is_pair, starts_argument, is_argument, IsReadable, IsReadable-put,
  IsReadable-put_opts,
}
use vagrant_portainer.Inventory.Hosts.Steps.{
  Readable, step_delete-Readable, add_unless_used, step_name-Readable,
}

-- Where the hosts of a document are loaded, it has them, and they can be read.
abbrev pub LoadsFrom : String → Config → Hosts → Bool → Type 0
LoadsFrom prefix c d false = Unit
LoadsFrom prefix c d true =
    (a : AllGroup) × (c ≡ some a) × (a.hosts ≡ some d) × (readable prefix d ≡ true)

no_hosts-IsReadable : (prefix : String) → IsReadable prefix []
unfolding readable
no_hosts-IsReadable prefix = record { keys = tt; hosts = refl }

module _ (s : Settings) (generated : s.use_real_hostname ≡ false)
    (plain : IsPlainPrefix s.host_prefix) where
  name_ip-Readable :
      (b : Build) (ip access_ip : String)
      → Readable s.host_prefix b
      → Returns (Readable s.host_prefix) (name_ip s b ip access_ip)
  unfolding name_ip
  name_ip-Readable b ip access_ip h =
      let name = s.host_prefix ⧺ show b.next_host_id in
      let n : has_id s.host_prefix name ≡ true =
        ground (arith, get_host_id-show s.host_prefix b.next_host_id plain) in
      rw generated
        (Returns-ok _ (IsReadable-put_opts s.host_prefix name ip access_ip b.all_hosts n h))

  step_address-Readable :
      (b : Build) (host ip access_ip : String)
      → (if contains_char b',' host then two_parts (split b',' host) else ok (host, host))
        ≡ ok (ip, access_ip)
      → Readable s.host_prefix b
      → Returns (Readable s.host_prefix) (step_ip s b host)
  unfolding step_ip
  step_address-Readable b host ip access_ip e h =
      let b' : Build = record b { ip = some ip; access_ip = some access_ip } in
      Returns-next _ _ (ip, access_ip) e
        (Returns-if (has_key host b.all_hosts) (ok b') _ (λ _. Returns-ok b' h)
          (λ _. add_unless_used s.host_prefix b b' ip _ h h (name_ip-Readable b' ip access_ip h)))

  two_parts-is_pair :
      (parts : List String)
      → is_pair parts ≡ true
      → (p : String × String) × (two_parts parts ≡ ok p)
  two_parts-is_pair (ip ∷ a ∷ []) h = ((ip, a), refl)
  two_parts-is_pair [] h = absurd cc
  two_parts-is_pair (ip ∷ []) h = absurd cc
  two_parts-is_pair (ip ∷ a ∷ z ∷ zs) h = absurd cc

  step_ip-Readable :
      (b : Build) (host : String)
      → (not (contains_char b',' host) || is_pair (split b',' host)) ≡ true
      → Readable s.host_prefix b
      → Returns (Readable s.host_prefix) (step_ip s b host)
  step_ip-Readable b host f h = elim (Bool-cases (contains_char b',' host)) [
    | inl comma ↦
        let ((ip, a), e) = two_parts-is_pair (split b',' host) (ground arith) in
        step_address-Readable b host ip a (rw comma e) h
    | inr single ↦ step_address-Readable b host host host (rw single refl) h
  ]

  step_by-Readable :
      (b : Build) (host : String) (c : Option Char)
      → Readable s.host_prefix b
      → starts_argument s.host_prefix host c ≡ true
      → Returns (Readable s.host_prefix) (step_by s b host c)
  unfolding step_by
  step_by-Readable b host none h f = absurd cc
  step_by-Readable b host (some c) h f =
      Returns-if (eqb (code c) b'-') _ _
        (λ _. step_delete-Readable s.host_prefix b (rest_of host) h)
        (λ no_dash.
          Returns-if (is_digit c) _ _ (λ digit. step_ip-Readable b host (ground arith) h)
            (λ no_digit.
              Returns-if (is_alpha c) _ _
                (λ alpha. step_name-Readable s.host_prefix b host (ground arith) h)
                (λ other. Returns-ok b h)))

  step-Readable :
      (b : Build) (host : String)
      → Readable s.host_prefix b
      → is_argument s.host_prefix host ≡ true
      → Returns (Readable s.host_prefix) (step s b host)
  unfolding step
  step-Readable b host h f = step_by-Readable b host (first host) h f

  scan_existing-returns :
      (p : Hosts × ℕ) (h : String) (o : HostVars)
      → has_id s.host_prefix h ≡ true
      → (n : ℕ) × (scan_existing s p (h, o) ≡ ok (put h o p.0, n))
  unfolding scan_existing
  scan_existing-returns (d, n) h o i = elim (Bool-cases (starts_with h s.host_prefix)) [
    | inr other ↦ (n, rw other refl)
    | inl prefixed ↦ elim (Result-cases (get_host_id h)) [
      | inl (m, id) ↦ (if ltb n m then m else n, rw (prefixed, id) refl)
      | inr (e, raises) ↦ absurd (ground arith)
    ]
  ]

  scan-Readable :
      (p : Hosts × ℕ) (l : Hosts)
      → readable s.host_prefix l ≡ true
      → IsReadable s.host_prefix p.0
      → Returns (λ r. IsReadable s.host_prefix r.0) (fold_result (scan_existing s) p l)
  unfolding fold_result readable
  scan-Readable p [] h k = Returns-ok p k
  scan-Readable p ((host, o) ∷ l) h k =
      let (n, e) = scan_existing-returns p host o (ground arith) in
      Returns-next _ _ _ e (
        scan-Readable (put host o p.0, n) l (ground arith)
          (IsReadable-put s.host_prefix host o p.0 (ground arith) (ground arith) k))

  existing_hosts-Readable :
      (c : Config) (d : Hosts) (load : Bool)
      → LoadsFrom s.host_prefix c d load
      → Returns (λ r. IsReadable s.host_prefix r.0) (existing_hosts s c load)
  unfolding existing_hosts load_existing
  existing_hosts-Readable c d false h = Returns-ok _ (no_hosts-IsReadable s.host_prefix)
  existing_hosts-Readable c d true (a, is_a, there, h) =
      let loaded = scan-Readable ([], 0) d h (no_hosts-IsReadable s.host_prefix) in
      record {
        result = loaded.result;
        returns = rw (is_a, there, loaded.returns) refl;
        holds = loaded.holds;
      }

  pub build_hostnames-Readable :
      (c : Config) (d : Hosts) (changed_hosts : List String) (load : Bool)
      → LoadsFrom s.host_prefix c d load
      → all (is_argument s.host_prefix) changed_hosts ≡ true
      → Returns (IsReadable s.host_prefix) (build_hostnames s c changed_hosts load)
  unfolding build_hostnames
  build_hostnames-Readable c d changed_hosts load h f =
      let before = existing_hosts-Readable c d load h in
      Returns-next _ _ before.result before.returns (
        let b =
          Returns-fold_result (step s) (is_argument s.host_prefix) step-Readable _ changed_hosts
            before.holds f in
        Returns-next _ _ b.result b.returns (Returns-ok _ b.holds))
