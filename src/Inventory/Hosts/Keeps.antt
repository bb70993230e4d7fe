-- ===== src/Inventory/Hosts/Keeps.antt =====
-- Adding addresses with contrib/inventory_builder/inventory.py changes no host that is there.
use mathlib.Core.Path.{subst}
use mathlib.Core.List.{append-nil, append_assoc}
use Prim.Native.Char.{Char, code}
use vagrant_portainer.Base.{
  ◌+◌, String, ◌≡◌, Bool, true, false, Option, none, some, List, [], ◌∷◌, ◌++◌, sym, ap, ◌∙◌, arith,
  eqb,
}
use vagrant_portainer.Base.Result.{
  Result, ok, raise, Ensures, Ensures-ok, Ensures-bind, ensures_rules, fold_result,
}
use vagrant_portainer.Base.Dict.{IsDict, has_key, lookup, put, put_new}
use vagrant_portainer.Base.Text.{first, is_digit, ◌⧺◌}
use vagrant_portainer.Base.Text.Decimal.{show}
use vagrant_portainer.Inventory.Types.{HostVars, Hosts, Config, Settings}
use vagrant_portainer.Inventory.Hosts.{
  host_opts, Build, name_ip, step_ip, step_by, step, load_existing, or_exit, existing_hosts,
  build_hostnames,
}
use vagrant_portainer.Inventory.Hosts.Names.{
  IsPlainPrefix, NamesBelow, NamesBelow-mono, put-NamesBelow, name_below-generated,
  generated_is_new, load_existing-NamesBelow,
}
use vagrant_portainer.Inventory.Hosts.Table.{hosts_before, load_existing-eq}

-- The second table has the hosts of the first, with the same values.
abbrev pub Keeps : Hosts → Hosts → Type 0
Keeps d d' = (h : String) (o : HostVars) → lookup h d ≡ some o → lookup h d' ≡ some o

lookup-append :
    (h : String) (o : HostVars) (d e : Hosts) → lookup h d ≡ some o → lookup h (d ++ e) ≡ some o
unfolding lookup
lookup-append h o [] e f = absurd cc
lookup-append h o ((k, p) ∷ d) e f = ground (arith, lookup-append h o d e)

-- The second table is the first one with more hosts behind it.
pub record Extends (d d' : Hosts) : Type 0 where
  pub added : Hosts
  pub same : d' ≡ d ++ added

Extends-refl : (d : Hosts) → Extends d d
Extends-refl d = record { added = []; same = sym (append-nil d) }

Extends-put :
    (k : String) (v : HostVars) (d₀ d : Hosts)
    → has_key k d ≡ false
    → Extends d₀ d
    → Extends d₀ (put k v d)
Extends-put k v d₀ d new x = record {
  added = x.added ++ (k, v) ∷ [];
  same = put_new k v d new ∙ ap (λ l. l ++ (k, v) ∷ []) x.same ∙ append_assoc d₀ x.added _;
}

-- What the loop keeps, from the table `d₀`, while names are generated.
record Grows (prefix : String) (d₀ : Hosts) (b : Build) : Type 0 where
  below : NamesBelow prefix b.next_host_id b.all_hosts
  extends : Extends d₀ b.all_hosts

-- An argument that is taken for an address.
abbrev pub starts_with_digit : Option Char → Bool
starts_with_digit none = false
starts_with_digit (some c) = is_digit c

abbrev pub IsAddress : String → Type 0
IsAddress host = starts_with_digit (first host) ≡ true

abbrev pub AllAddresses : List String → Type 0
AllAddresses [] = Unit
AllAddresses (h ∷ hs) = IsAddress h × AllAddresses hs

Grows-locals :
    (prefix : String) (d₀ : Hosts) (b : Build) (ip access_ip : Option String)
    → Grows prefix d₀ b
    → Grows prefix d₀ (record b { ip = ip; access_ip = access_ip })
Grows-locals prefix d₀ b ip access_ip g = record { below = g.below; extends = g.extends }

module _ (s : Settings) (generated : s.use_real_hostname ≡ false)
    (plain : IsPlainPrefix s.host_prefix) (d₀ : Hosts) where
  name_ip-Grows :
      (b : Build) (ip access_ip : String)
      → Grows s.host_prefix d₀ b
      → Ensures (Grows s.host_prefix d₀) (name_ip s b ip access_ip)
  unfolding name_ip
  name_ip-Grows b ip access_ip g =
      let n = b.next_host_id in
      let name = s.host_prefix ⧺ show n in
      let opts = host_opts ip access_ip in
      let new = generated_is_new s.host_prefix n b.all_hosts plain g.below in
      rw generated (
        Ensures-ok _ (record {
          below =
              put-NamesBelow s.host_prefix (n + 1) name opts b.all_hosts
                (name_below-generated s.host_prefix n plain)
                (NamesBelow-mono s.host_prefix n (n + 1) b.all_hosts (omega arith) g.below);
          extends = Extends-put name opts d₀ b.all_hosts new g.extends;
        }))

  step_ip-Grows :
      (b : Build) (host : String)
      → Grows s.host_prefix d₀ b
      → Ensures (Grows s.host_prefix d₀) (step_ip s b host)
  unfolding step_ip
  step_ip-Grows b host g = search (ensures_rules, name_ip-Grows, Grows-locals) depth 9

  step_by-Grows :
      (b : Build) (host : String) (c : Option Char)
      → starts_with_digit c ≡ true
      → Grows s.host_prefix d₀ b
      → Ensures (Grows s.host_prefix d₀) (step_by s b host c)
  unfolding step_by
  step_by-Grows b host none a g = absurd cc
  step_by-Grows b host (some c) a g =
      let no_dash : eqb (code c) b'-' ≡ false = ground arith in
      rw no_dash (simp a (step_ip-Grows b host g))

  step-Grows :
      (b : Build) (host : String)
      → IsAddress host
      → Grows s.host_prefix d₀ b
      → Ensures (Grows s.host_prefix d₀) (step s b host)
  unfolding step
  step-Grows b host a g = step_by-Grows b host (first host) a g

  steps-Grows :
      (b : Build) (hosts : List String)
      → AllAddresses hosts
      → Grows s.host_prefix d₀ b
      → Ensures (Grows s.host_prefix d₀) (fold_result (step s) b hosts)
  unfolding fold_result
  steps-Grows b [] a g = Ensures-ok b g
  steps-Grows b (h ∷ hs) (a, as') g =
      Ensures-bind (step s b h) _ (λ b' e. steps-Grows b' hs as' ((step-Grows b h a g).at b' e))

pub ok_of_or_exit {ℓ} : {A : Type ℓ} (m : Result A) (a : A) → or_exit m ≡ ok a → m ≡ ok a
ok_of_or_exit (ok b) a e = e
ok_of_or_exit (raise x) a e = absurd cc

-- With generated names and a plain prefix, where no name stands twice in the document, adding
-- addresses leaves its hosts as they are, and puts the new ones behind them.
pub build_hostnames-Extends :
    (s : Settings) (c : Config) (changed_hosts : List String)
    → s.use_real_hostname ≡ false
    → IsPlainPrefix s.host_prefix
    → IsDict (hosts_before c)
    → AllAddresses changed_hosts
    → Ensures (Extends (hosts_before c)) (build_hostnames s c changed_hosts true)
unfolding build_hostnames existing_hosts
build_hostnames-Extends s c changed_hosts generated plain dict addresses =
    Ensures-bind (or_exit (load_existing s c)) _ λ r e₁.
      let e₂ : load_existing s c ≡ ok r = ok_of_or_exit (load_existing s c) r e₁ in
      let same = (load_existing-eq s c dict).at r e₂ in
      Ensures-bind _ _ λ b e₃.
        Ensures-ok _
          ((steps-Grows s generated plain (hosts_before c) _ changed_hosts addresses (record {
            below = (load_existing-NamesBelow s c).at r e₂;
            extends = subst (λ d. Extends d r.0) same (Extends-refl r.0);
          })).at
            b e₃).extends

-- The hosts of the document keep their values.
pub build_hostnames-Keeps :
    (s : Settings) (c : Config) (changed_hosts : List String) (d : Hosts)
    → s.use_real_hostname ≡ false
    → IsPlainPrefix s.host_prefix
    → IsDict (hosts_before c)
    → AllAddresses changed_hosts
    → build_hostnames s c changed_hosts true ≡ ok d
    → Keeps (hosts_before c) d
build_hostnames-Keeps s c changed_hosts d generated plain dict addresses e h o there =
    let x = (build_hostnames-Extends s c changed_hosts generated plain dict addresses).at d e in
    rw x.same (lookup-append h o (hosts_before c) x.added there)
