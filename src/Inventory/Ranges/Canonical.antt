-- ===== src/Inventory/Ranges/Canonical.antt =====
-- Which texts contrib/inventory_builder/inventory.py takes for version 4 addresses.

use mathlib.Core.Logic.{◌↔◌}
use mathlib.Core.Path.{subst}
use vagrant_portainer.Base.{
  ℕ, ◌+◌, ◌*◌, ◌/◌, ◌%◌, ◌^◌, ◌<◌, String, ◌≡◌, refl, sym, ap, ◌∙◌, true, Option, none, some, List,
  [], ◌∷◌, arith, Bool-cases, inl, inr,
}
use vagrant_portainer.Base.Text.{◌⧺◌, split, join, all_digits, count}
use vagrant_portainer.Base.Text.Decimal.{show, value}
use vagrant_portainer.Base.Text.Canonical.{
  join-split, show-value_cons, show-value_one, AllDigits-all_digits,
}
use vagrant_portainer.Inventory.Ranges.Expand.{ipv4_int-exploded}
use vagrant_portainer.Inventory.Ranges.{
  octet, is_octet, join_octets, four_octets, ipv4_int, ipv4_exploded,
}

-- A number of an address is at most 255, and its text is the one that `str` gives.
Octet : String → ℕ → Type 0
Octet t n = (n < 256) × (show n ≡ t)

is_octet-show : (t : String) → is_octet t ≡ true → show (value 0 t) ≡ t
unfolding all_digits count
is_octet-show String.[] h = absurd cc
is_octet-show (String.◌∷◌ c String.[]) h = show-value_one c (ground arith)
is_octet-show (String.◌∷◌ c (String.◌∷◌ d s)) h =
    show-value_cons c (String.◌∷◌ d s) (ground arith) (ground arith)
      (AllDigits-all_digits (String.◌∷◌ d s) (ground arith))

octet-Octet : (t : String) (n : ℕ) → octet t ≡ some n → Octet t n
unfolding octet Octet
octet-Octet t n e = elim (Bool-cases (is_octet t)) [
  | inl is ↦
      let v : value 0 t ≡ n = ground arith in (ground arith, ap show (sym v) ∙ is_octet-show t is)
  | inr isnt ↦ absurd (ground arith)
]

abbrev Address : String → ℕ → Type 0
Address t n = (n < 2 ^ 32) × (ipv4_exploded n ≡ t)

-- Four bytes, and their number.
four-Address :
    (a b c d : ℕ) (t u v w : String)
    → Octet t a
    → Octet u b
    → Octet v c
    → Octet w d
    → Address (t ⧺ "." ⧺ u ⧺ "." ⧺ v ⧺ "." ⧺ w) (((a * 256 + b) * 256 + c) * 256 + d)
unfolding ipv4_exploded Octet
four-Address a b c d t u v w (p, p') (q, q') (r, r') (s, s') =
    let n = ((a * 256 + b) * 256 + c) * 256 + d in
    let e : n / 2 ^ 24 ≡ a = omega arith in
    let f : n / 2 ^ 16 % 256 ≡ b = omega arith in
    let g : n / 2 ^ 8 % 256 ≡ c = omega arith in
    let h : n % 256 ≡ d = omega arith in (omega arith, rw (e, f, g, h, p', q', r', s') refl)

joined-Address :
    (t u v w : String) (o p q r : Option ℕ) (n : ℕ)
    → octet t ≡ o
    → octet u ≡ p
    → octet v ≡ q
    → octet w ≡ r
    → join_octets o p q r ≡ some n
    → Address (t ⧺ "." ⧺ u ⧺ "." ⧺ v ⧺ "." ⧺ w) n
joined-Address t u v w (some a) (some b) (some c) (some d) n e f g h k =
    let m : ((a * 256 + b) * 256 + c) * 256 + d ≡ n = cc in
    subst (Address _) m (
      four-Address a b c d t u v w (octet-Octet t a e) (octet-Octet u b f) (octet-Octet v c g)
        (octet-Octet w d h))
joined-Address t u v w none p q r n e f g h k = absurd cc
joined-Address t u v w (some a) none q r n e f g h k = absurd cc
joined-Address t u v w (some a) (some b) none r n e f g h k = absurd cc
joined-Address t u v w (some a) (some b) (some c) none n e f g h k = absurd cc

four_octets-Address : (l : List String) (n : ℕ) → four_octets l ≡ some n → Address (join "." l) n
unfolding join
four_octets-Address (t ∷ u ∷ v ∷ w ∷ []) n e =
    joined-Address t u v w (octet t) (octet u) (octet v) (octet w) n refl refl refl refl e
four_octets-Address [] n e = absurd cc
four_octets-Address (t ∷ []) n e = absurd cc
four_octets-Address (t ∷ u ∷ []) n e = absurd cc
four_octets-Address (t ∷ u ∷ v ∷ []) n e = absurd cc
four_octets-Address (t ∷ u ∷ v ∷ w ∷ x ∷ l) n e = absurd cc

ipv4_int-Bounded :
    (text : String) (n : ℕ) → ipv4_int text ≡ some n → (n < 2 ^ 32) × (ipv4_exploded n ≡ text)
unfolding ipv4_int
ipv4_int-Bounded text n e =
    subst (λ t. Address t n) (join-split "." text) (four_octets-Address (split b'.' text) n e)

-- A text is read as the version 4 address with the number `n` exactly where `n` is below 2^32 and
-- the text is the one that `exploded` gives for it.
pub ipv4_int_iff-Bounded :
    (text : String) (n : ℕ) → (ipv4_int text ≡ some n) ↔ ((n < 2 ^ 32) × (ipv4_exploded n ≡ text))
ipv4_int_iff-Bounded text n = (
  ipv4_int-Bounded text n,
  λ (small, same). subst (λ t. ipv4_int t ≡ some n) same (ipv4_int-exploded n small),
)
