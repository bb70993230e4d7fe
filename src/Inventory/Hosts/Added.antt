-- ===== src/Inventory/Hosts/Added.antt =====
-- Adding addresses with contrib/inventory_builder/inventory.py: each of them is a host's
-- afterwards.
use mathlib.Core.Path.{subst}
use text.Mathlib.TextPositions.{eq_refl}
use vagrant_portainer.Base.{
  ◌+◌, String, ◌≡◌, refl, sym, ◌∙◌, Bool, true, false, ◌||◌, Option, none, some, List, [], ◌∷◌,
  ◌++◌, arith, eqb, eq_iff, if◌then◌else◌, Bool-cases, Option-cases, inl, inr,
}
use Prim.Native.Char.{Char, code}
use vagrant_portainer.Base.Result.{
  ok, all, Ensures, Ensures-ok, Ensures-if, Ensures-bind, fold_result,
}
use vagrant_portainer.Base.Dict.{IsDict, has_key, lookup, has_key-append, put_new}
use vagrant_portainer.Base.Text.{first, contains_char, split, ◌⧺◌}
use vagrant_portainer.Base.Text.Decimal.{show}
use vagrant_portainer.Base.Text.Parts.{split-none}
use vagrant_portainer.Inventory.Types.{HostVars, Hosts, Config, Settings}
use vagrant_portainer.Inventory.Hosts.{
  get_ip_from_opts, host_opts, exists_ip, first_part, two_parts, Build, name_ip, step_ip, step_by,
  step, load_existing, or_exit, existing_hosts, build_hostnames,
}
use vagrant_portainer.Inventory.Hosts.Addresses.{uses_ip, has_ip, exists_ip_lem, uses_ip-append}
use vagrant_portainer.Inventory.Hosts.Names.{
  IsPlainPrefix, NamesBelow, NamesBelow-mono, put-NamesBelow, name_below-generated,
  generated_is_new, load_existing-NamesBelow,
}
use vagrant_portainer.Inventory.Hosts.Table.{get_ip-host_opts}
use vagrant_portainer.Inventory.Hosts.Keeps.{Keeps, ok_of_or_exit, AllAddresses, starts_with_digit}

-- Some host has the argument as its name, or the address before its comma.
abbrev pub covers : Hosts → String → Bool
covers d host = has_key host d || uses_ip (first_part (split b',' host)) d

covers-append : (d e : Hosts) (j : String) → covers (d ++ e) j ≡ (covers d j || covers e j)
covers-append d e j =
    ground (arith, has_key-append j d e, uses_ip-append (first_part (split b',' j)) d e)

module _ (prefix : String) where
  -- What the loop keeps, for the arguments that it has passed.
  record Covers (done : List String) (b : Build) : Type 0 where
    below : NamesBelow prefix b.next_host_id b.all_hosts
    covered : all (covers b.all_hosts) done ≡ true

  all-covers-append :
      (done : List String) (d e : Hosts)
      → all (covers d) done ≡ true
      → all (covers (d ++ e)) done ≡ true
  all-covers-append [] d e h = refl
  all-covers-append (j ∷ js) d e h =
      rw (covers-append d e j) (ground (arith, all-covers-append js d e))

-- A host with the address of the argument.
covers_new :
    (name host ip access_ip : String)
    → first_part (split b',' host) ≡ ip
    → covers ((name, host_opts ip access_ip) ∷ []) host ≡ true
unfolding uses_ip lookup
covers_new name host ip access_ip f = rw get_ip-host_opts (rw f (ground (arith, eq_iff ip ip)))

-- The address that `step_ip` takes from an argument is the one before its comma.
two_parts-first_part :
    (parts : List String) (p : String × String) → two_parts parts ≡ ok p → first_part parts ≡ p.0
two_parts-first_part (a ∷ b ∷ []) p e = cc
two_parts-first_part [] p e = absurd cc
two_parts-first_part (a ∷ []) p e = absurd cc
two_parts-first_part (a ∷ b ∷ c ∷ cs) p e = absurd cc

pub ip-first_part :
    (host : String) (p : String × String)
    → (if contains_char b',' host then two_parts (split b',' host) else ok (host, host)) ≡ ok p
    → first_part (split b',' host) ≡ p.0
ip-first_part host p e = elim (Bool-cases (contains_char b',' host)) [
  | inl comma ↦ two_parts-first_part (split b',' host) p (rw comma at e)
  | inr single ↦ rw (split-none b',' host single) (cc (rw single at e))
]

module _ (s : Settings) (generated : s.use_real_hostname ≡ false)
    (plain : IsPlainPrefix s.host_prefix) where
  name_ip-Covers :
      (b : Build) (done : List String) (host ip access_ip : String)
      → first_part (split b',' host) ≡ ip
      → Covers s.host_prefix done b
      → Ensures (Covers s.host_prefix (host ∷ done)) (name_ip s b ip access_ip)
  unfolding name_ip
  name_ip-Covers b done host ip access_ip f g =
      let n = b.next_host_id in
      let name = s.host_prefix ⧺ show n in
      let opts = host_opts ip access_ip in
      let new = generated_is_new s.host_prefix n b.all_hosts plain g.below in
      let grown = put_new name opts b.all_hosts new in
      let e : Hosts = (name, opts) ∷ [] in
      let both : (covers (b.all_hosts ++ e) host ≡ true)
          × (all (covers (b.all_hosts ++ e)) done ≡ true) =
        (
          covers-append b.all_hosts e host
              ∙ rw (covers_new name host ip access_ip f) (ground arith),
          all-covers-append s.host_prefix done b.all_hosts e g.covered,
        ) in
      rw generated (
        Ensures-ok _ (record {
          below =
              put-NamesBelow s.host_prefix (n + 1) name opts b.all_hosts
                (name_below-generated s.host_prefix n plain)
                (NamesBelow-mono s.host_prefix n (n + 1) b.all_hosts (omega arith) g.below);
          covered =
              subst (λ d. all (covers d) (host ∷ done) ≡ true) (sym grown)
                (rw (both.0, both.1) refl);
        }))

  step_ip-Covers :
      (b : Build) (done : List String) (host : String)
      → Covers s.host_prefix done b
      → Ensures (Covers s.host_prefix (host ∷ done)) (step_ip s b host)
  unfolding step_ip
  step_ip-Covers b done host g = Ensures-bind _ _ λ (ip, access_ip) e.
      let b' : Build = record b { ip = some ip; access_ip = some access_ip } in
      let f = ip-first_part host (ip, access_ip) e in
      Ensures-if (has_key host b.all_hosts) (ok b') _
        (λ named. Ensures-ok b' (record { below = g.below; covered = ground (arith, g.covered) }))
        (λ _. Ensures-bind (exists_ip b.all_hosts ip) _ λ there e₁.
          Ensures-if there (ok b') _
            (λ used. Ensures-ok b' (record {
              below = g.below;
              covered = ground (arith, f, exists_ip_lem b.all_hosts ip there e₁, g.covered);
            }))
            (λ _.
              name_ip-Covers b' done host ip access_ip f
                (record { below = g.below; covered = g.covered })))

  step_by-Covers :
      (b : Build) (done : List String) (host : String) (c : Option Char)
      → starts_with_digit c ≡ true
      → Covers s.host_prefix done b
      → Ensures (Covers s.host_prefix (host ∷ done)) (step_by s b host c)
  unfolding step_by
  step_by-Covers b done host none a g = absurd cc
  step_by-Covers b done host (some c) a g =
      let no_dash : eqb (code c) b'-' ≡ false = ground arith in
      rw no_dash (simp a (step_ip-Covers b done host g))

  steps-Covers :
      (b : Build) (done hosts : List String)
      → AllAddresses hosts
      → Covers s.host_prefix done b
      → Ensures
          (λ b'. all (covers b'.all_hosts) hosts ≡ true × all (covers b'.all_hosts) done ≡ true)
          (fold_result (step s) b hosts)
  unfolding fold_result step
  steps-Covers b done [] a g = Ensures-ok b (refl, g.covered)
  steps-Covers b done (h ∷ hs) (a, as') g = Ensures-bind (step s b h) _ λ b' e. record {
    at = λ b'' e'.
        let (rest, here) =
          (steps-Covers b' (h ∷ done) hs as' ((step_by-Covers b done h (first h) a g).at b' e)).at
            b'' e' in
        (ground arith, ground arith);
  }

  -- With generated names and a plain prefix, where addresses are added to a document and
  -- `build_hostnames` returns, each of them is the name of a host, or the address of one.
  pub build_hostnames-covers :
      (c : Config) (hosts : List String) (d : Hosts)
      → AllAddresses hosts
      → build_hostnames s c hosts true ≡ ok d
      → all (covers d) hosts ≡ true
  unfolding build_hostnames existing_hosts
  build_hostnames-covers c hosts d a e = (built.at d e)
    where
      built : Ensures (λ d'. all (covers d') hosts ≡ true) (build_hostnames s c hosts true)
      built = Ensures-bind (or_exit (load_existing s c)) _ λ r e₁. Ensures-bind _ _ λ b e₂.
          Ensures-ok _
            ((steps-Covers _ [] hosts a (record {
              below = (load_existing-NamesBelow s c).at r (ok_of_or_exit (load_existing s c) r e₁);
              covered = refl;
            })).at
              b e₂).0

-- A host with the address, in a table where no name stands twice.
pub uses_ip-lookup :
    (ip : String) (d : Hosts)
    → IsDict d
    → uses_ip ip d ≡ true
    → (h : String) × (o : HostVars) × (lookup h d ≡ some o)
      × (has_ip ip (get_ip_from_opts o) ≡ true)
unfolding uses_ip lookup
uses_ip-lookup ip [] dict u = absurd cc
uses_ip-lookup ip ((k, o) ∷ d) (new, dict) u = elim (Bool-cases (has_ip ip (get_ip_from_opts o))) [
  | inl here ↦ (k, o, rw eq_refl refl, here)
  | inr other ↦
      let (h, p, e, f) = uses_ip-lookup ip d dict (ground arith) in
      (h, p, ground (arith, eq_iff k h), f)
]

pub uses_ip_of_lookup :
    (ip h : String) (o : HostVars) (d : Hosts)
    → lookup h d ≡ some o
    → has_ip ip (get_ip_from_opts o) ≡ true
    → uses_ip ip d ≡ true
unfolding uses_ip lookup
uses_ip_of_lookup ip h o [] e f = absurd cc
uses_ip_of_lookup ip h o ((k, p) ∷ d) e f = ground (arith, uses_ip_of_lookup ip h o d)

-- A table that keeps the hosts of another one covers what the other one does.
pub covers_mono :
    (d d' : Hosts) (j : String) → IsDict d → Keeps d d' → covers d j ≡ true → covers d' j ≡ true
covers_mono d d' j dict keeps c = elim (Option-cases (lookup j d)) [
  | inr (o, e) ↦ rw (keeps j o e) refl
  | inl none_there ↦
      let (h, o, e, f) = uses_ip-lookup (first_part (split b',' j)) d dict (rw none_there at c) in
      ground (arith, uses_ip_of_lookup (first_part (split b',' j)) h o d' (keeps h o e) f)
]
