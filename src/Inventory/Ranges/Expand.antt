-- ===== src/Inventory/Ranges/Expand.antt =====
-- What `range2ips` of contrib/inventory_builder/inventory.py makes of ranges and of other
-- arguments.
use native.Mathlib.Decide.{ℕ_discrete}
use mathlib.Core.List.{append-nil, append_assoc}
use text.Mathlib.TextLemmas.{nil-append, cons-append, append_assoc as text_assoc}
use vagrant_portainer.Base.{
  ℕ, zero, suc, ◌+◌, ◌-◌, ◌*◌, ◌/◌, ◌%◌, ◌^◌, ◌<◌, String, ◌≡◌, refl, ap, ◌∙◌, Bool, true, false,
  ◌&&◌, some, List, [], ◌∷◌, ◌++◌, arith,
}
use vagrant_portainer.Base.Result.{ok, fold_result}
use vagrant_portainer.Base.Text.{split, ◌⧺◌, all_digits, count}
use vagrant_portainer.Base.Text.Decimal.{show, value, value-show}
use vagrant_portainer.Base.Text.Parts.{split-none, split-first, contains_char-show}
use vagrant_portainer.Inventory.Types.{Settings}
use vagrant_portainer.Inventory.Ranges.{
  octet, is_octet, four_octets, ipv4_int, ipv4_exploded, is_range, range_round, range2ips,
}

-- No argument is a range of addresses.
abbrev pub NoRanges : List String → Type 0
NoRanges [] = Unit
NoRanges (h ∷ hs) = (is_range h ≡ false) × NoRanges hs

ranges-none :
    (s : Settings) (acc hosts : List String)
    → NoRanges hosts
    → fold_result (range_round s) acc hosts ≡ ok (acc ++ hosts)
unfolding fold_result range_round
ranges-none s acc [] n = rw append-nil
ranges-none s acc (h ∷ hs) (n, ns) =
    rw n (rw (ranges-none s (acc ++ h ∷ []) hs ns) (rw append_assoc))

-- Arguments without a range are left as they are.
pub range2ips-none :
    (s : Settings) (hosts : List String) → NoRanges hosts → range2ips s hosts ≡ ok hosts
unfolding range2ips
range2ips-none s hosts n = ranges-none s [] hosts n

-- The addresses from `start`, as many as `n`.
abbrev pub addresses_from : ℕ → ℕ → List String
addresses_from zero start = []
addresses_from (suc n) start = ipv4_exploded start ∷ addresses_from n (start + 1)

-- Numbers below 256 have at most three digits, and no zero in front.
all_octets : ℕ → Bool
all_octets zero = true
all_octets (suc n) = is_octet (show n) && all_octets n

all_octets_sound : (n m : ℕ) → all_octets n ≡ true → m < n → is_octet (show m) ≡ true
unfolding all_octets
all_octets_sound zero m h l = absurd (omega arith)
all_octets_sound (suc n) m h l = elim (ℕ_discrete m n) [
  | yes e ↦ rw e (ground arith)
  | no ne ↦ all_octets_sound n m (ground arith) (omega arith)
]

octet_table : all_octets 256 ≡ true
unfolding all_octets show all_digits count value
octet_table = refl

octet-show : (m : ℕ) → m < 256 → octet (show m) ≡ some m
unfolding octet
octet-show m h = rw (all_octets_sound 256 m octet_table h) (rw value-show refl)

dot_cons : (t : String) → "." ⧺ t ≡ String.◌∷◌ "." t
dot_cons t = cons-append "." String.[] t ∙ ap (λ u. String.◌∷◌ "." u) (nil-append t)

split-dotted : (a : ℕ) (t : String) → split b'.' (show a ⧺ "." ⧺ t) ≡ show a ∷ split b'.' t
split-dotted a t =
    ap (λ u. split b'.' (show a ⧺ u)) (dot_cons t)
    ∙ split-first b'.' (show a) "." t (contains_char-show b'.' a (omega arith)) refl

four_octets-show :
    (a b c d : ℕ)
    → a < 256
    → b < 256
    → c < 256
    → d < 256
    → four_octets (show a ∷ show b ∷ show c ∷ show d ∷ [])
      ≡ some (((a * 256 + b) * 256 + c) * 256 + d)
four_octets-show a b c d p q r t =
    rw (octet-show a p, octet-show b q, octet-show c r, octet-show d t) refl

split-address :
    (a b c d : ℕ)
    → split b'.' (show a ⧺ "." ⧺ show b ⧺ "." ⧺ show c ⧺ "." ⧺ show d)
      ≡ show a ∷ show b ∷ show c ∷ show d ∷ []
split-address a b c d =
    split-dotted a _
    ∙ ap (λ l. show a ∷ l)
        (split-dotted b _
          ∙ ap (λ l. show b ∷ l)
              (split-dotted c _
                ∙ ap (λ l. show c ∷ l)
                    (split-none b'.' (show d) (contains_char-show b'.' d (omega arith)))))

-- The text of an address is read back as the address.
pub ipv4_int-exploded : (n : ℕ) → n < 2 ^ 32 → ipv4_int (ipv4_exploded n) ≡ some n
unfolding ipv4_int ipv4_exploded
ipv4_int-exploded n h =
    ap four_octets (split-address (n / 2 ^ 24) (n / 2 ^ 16 % 256) (n / 2 ^ 8 % 256) (n % 256))
    ∙ four_octets-show (n / 2 ^ 24) (n / 2 ^ 16 % 256) (n / 2 ^ 8 % 256) (n % 256) (omega arith)
        (omega arith) (omega arith) (omega arith)
    ∙ ap some (omega arith)

-- The argument "a-b".
abbrev pub range_text : ℕ → ℕ → String
range_text a b = ipv4_exploded a ⧺ "-" ⧺ ipv4_exploded b

-- An argument that is no range, or one that is.
pub data Argument : Type 0 where
  plain : String → Argument
  range : ℕ → ℕ → Argument

abbrev pub text_of : Argument → String
text_of (plain h) = h
text_of (range a b) = range_text a b

abbrev pub IsArgument : Argument → Type 0
IsArgument (plain h) = is_range h ≡ false
IsArgument (range a b) = (a < 2 ^ 32) × (b < 2 ^ 32)

abbrev pub AreArguments : List Argument → Type 0
AreArguments [] = Unit
AreArguments (g ∷ gs) = IsArgument g × AreArguments gs

-- What an argument stands for.
abbrev pub meant : Argument → List String
meant (plain h) = h ∷ []
meant (range a b) = addresses_from (b + 1 - a) a

abbrev pub all_meant : List Argument → List String
all_meant [] = []
all_meant (g ∷ gs) = meant g ++ all_meant gs
