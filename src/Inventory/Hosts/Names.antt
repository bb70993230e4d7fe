-- ===== src/Inventory/Hosts/Names.antt =====
-- Generated host names of contrib/inventory_builder/inventory.py: the prefix and a number, which
-- `get_host_id` reads back, and which is above the number of every host with the prefix.

use vagrant_portainer.Base.{
  ℕ, ◌+◌, ◌≤◌, String, ◌≡◌, refl, Bool, true, false, not, ◌&&◌, ◌||◌, Bool-cases, inl, inr, [], ◌∷◌,
  arith, ltb, ◌==◌, eq_iff, if◌then◌else◌,
}
use vagrant_portainer.Base.Result.{
  Result, ok, raise, Ensures, Ensures-ok, Ensures-bind, Ensures-fold_result,
}
use vagrant_portainer.Base.Dict.{has_key, lookup, put}
use vagrant_portainer.Base.Text.{◌⧺◌, contains_char, starts_with}
use vagrant_portainer.Base.Text.Decimal.{
  show, trailing, value-show, show-AllDigits, show-ne, trailing-append-digits,
}
use vagrant_portainer.Base.Text.Parts.{
  contains_char-append, contains_char-show, split-none, starts_with-append,
}
use vagrant_portainer.Inventory.Types.{HostVars, Hosts, Config, Settings, entries, all_of}
use vagrant_portainer.Inventory.Hosts.{get_host_id, scan_existing, load_existing}

-- A prefix whose generated names can be read back: no dot, and no digit at its end.
pub record IsPlainPrefix (prefix : String) : Type 0 where
  pub no_dot : contains_char b'.' prefix ≡ false
  pub no_digits : trailing "" prefix ≡ ""

-- `get_host_id` gives the number of a generated name.
pub get_host_id-show :
    (prefix : String) (n : ℕ) → IsPlainPrefix prefix → get_host_id (prefix ⧺ show n) ≡ ok n
unfolding get_host_id
get_host_id-show prefix n p =
    let no_dot : contains_char b'.' (prefix ⧺ show n) ≡ false = ground (
      arith,
      contains_char-append b'.' prefix (show n),
      contains_char-show b'.' n (omega arith),
      p.no_dot,
    ) in
    let run = trailing-append-digits prefix (show n) p.no_digits (show-AllDigits n) in
    rw (split-none b'.' (prefix ⧺ show n) no_dot) (rw (run, show-ne, value-show))

abbrev pub id_below : ℕ → Result ℕ → Bool
id_below n (ok i) = ltb i n
id_below n (raise e) = false

-- A host with the prefix has a number, which is below `n`.
abbrev pub name_below : String → ℕ → String → Bool
name_below prefix n host = not (starts_with host prefix) || id_below n (get_host_id host)

unfoldable pub names_below : String → ℕ → Hosts → Bool
names_below prefix n [] = true
names_below prefix n ((h, _) ∷ d) = name_below prefix n h && names_below prefix n d

-- Every host with the prefix has a number below `n`.
abbrev pub NamesBelow : String → ℕ → Hosts → Type 0
NamesBelow prefix n d = names_below prefix n d ≡ true

id_below_mono : (m n : ℕ) (r : Result ℕ) → m ≤ n → id_below m r ≡ true → id_below n r ≡ true
id_below_mono m n (ok i) l h = ground arith
id_below_mono m n (raise e) l h = cc

pub NamesBelow-mono :
    (prefix : String) (m n : ℕ) (d : Hosts) → m ≤ n → NamesBelow prefix m d → NamesBelow prefix n d
unfolding names_below
NamesBelow-mono prefix m n [] l h = refl
NamesBelow-mono prefix m n ((k, _) ∷ d) l h =
    ground (arith, id_below_mono m n (get_host_id k) l, NamesBelow-mono prefix m n d l)

pub put-NamesBelow :
    (prefix : String) (n : ℕ) (h : String) (o : HostVars) (d : Hosts)
    → name_below prefix n h ≡ true
    → NamesBelow prefix n d
    → NamesBelow prefix n (put h o d)
unfolding names_below put
put-NamesBelow prefix n h o [] b k = ground arith
put-NamesBelow prefix n h o ((i, w) ∷ d) b k = ground (arith, put-NamesBelow prefix n h o d b)

-- A generated name is no host's yet.
pub generated_is_new :
    (prefix : String) (n : ℕ) (d : Hosts)
    → IsPlainPrefix prefix
    → NamesBelow prefix n d
    → has_key (prefix ⧺ show n) d ≡ false
unfolding names_below lookup
generated_is_new prefix n [] p h = refl
generated_is_new prefix n ((k, _) ∷ d) p h = elim (Bool-cases (k == prefix ⧺ show n)) [
  | inl same ↦ absurd (
      ground (
        arith,
        eq_iff k (prefix ⧺ show n),
        starts_with-append prefix (show n),
        get_host_id-show prefix n p,
      ))
  | inr differs ↦ rw differs (generated_is_new prefix n d p (ground arith))
]

pub name_below-generated :
    (prefix : String) (n : ℕ)
    → IsPlainPrefix prefix
    → name_below prefix (n + 1) (prefix ⧺ show n) ≡ true
name_below-generated prefix n p = rw (get_host_id-show prefix n p) (ground arith)

-- The number that is kept after a host with the number `i`.
abbrev higher : ℕ → ℕ → ℕ
higher highest i = if ltb highest i then i else highest

higher_bounds : (highest i : ℕ) → (highest ≤ higher highest i) × (i ≤ higher highest i)
higher_bounds highest i = ground arith

-- One host of the document: the number that is kept is at least its own.
scan_existing-NamesBelow :
    (s : Settings) (q : Hosts × ℕ) (e : String × HostVars)
    → NamesBelow s.host_prefix (q.1 + 1) q.0
    → Ensures (λ r. NamesBelow s.host_prefix (r.1 + 1) r.0) (scan_existing s q e)
unfolding scan_existing
scan_existing-NamesBelow s (d, n) (host, o) h = elim (Bool-cases (starts_with host s.host_prefix)) [
  | inl prefixed ↦ rw prefixed (
      Ensures-bind (get_host_id host) _ (λ i got. Ensures-ok _ (
        put-NamesBelow s.host_prefix (higher n i + 1) host o d
          (rw got (ground (arith, higher_bounds n i)))
          (NamesBelow-mono s.host_prefix (n + 1) (higher n i + 1) d
            (omega (arith, higher_bounds n i)) h))))
  | inr other ↦
      rw other (Ensures-ok _ (put-NamesBelow s.host_prefix (n + 1) host o d (rw other refl) h))
]

-- After the scan of a document the next number is above that of every host with the prefix.
pub load_existing-NamesBelow :
    (s : Settings) (c : Config)
    → Ensures (λ r. NamesBelow s.host_prefix (r.1 + 1) r.0) (load_existing s c)
unfolding load_existing
load_existing-NamesBelow s c = Ensures-bind (all_of c) _ (λ a _.
    Ensures-bind (entries a.hosts) _ (λ l _.
      Ensures-fold_result (scan_existing s) (scan_existing-NamesBelow s) ([], 0) l
        (unfold names_below in refl)))
