-- ===== src/Base/Text/Canonical.antt =====
-- A text of digits without a zero in front is what `str` makes of its value; and `join` undoes
-- `split`.
use Prim.Native.Char.{Char, code}
use text.Mathlib.TextLemmas.{nil-append, cons-append, append-nil}
use text.Mathlib.TextEquality.{Char-path}
use vagrant_portainer.Base.{
  ℕ, zero, suc, ◌+◌, ◌-◌, ◌*◌, ◌/◌, ◌%◌, ◌≤◌, ◌<◌, String, ◌≡◌, refl, sym, ap, ◌∙◌, true,
  Bool-cases, inl, inr, ◌∷◌, arith, leb, eqb,
}
use vagrant_portainer.Base.Text.{◌⧺◌, push, is_digit, all_digits, split_from, split, join}
use vagrant_portainer.Base.Text.Decimal.{
  AllDigits, show, value, digits, digit_char, code-digit_char,
}
use vagrant_portainer.Base.Text.Parts.{push-append}

-- Fuel that is enough gives the same digits.
digits-fuel : (f g n : ℕ) → n ≤ f → n ≤ g → digits f n ≡ digits g n
unfolding digits
digits-fuel zero zero n p q = refl
digits-fuel zero (suc g) n p q = ground arith
digits-fuel (suc f) zero n p q = ground arith
digits-fuel (suc f) (suc g) n p q = elim (Bool-cases (leb n 9)) [
  | inl small ↦ rw small refl
  | inr large ↦ rw large (
      ap (λ s. push s (digit_char (n % 10)))
        (digits-fuel f g (n / 10) (ground arith) (ground arith)))
]

-- A number of several digits ends in the last one.
last : (m : ℕ) → 9 < m → show m ≡ push (show (m / 10)) (digit_char (m % 10))
unfolding show digits
last zero h = absurd (omega arith)
last (suc m) h =
    rw (digits-fuel (suc m / 10) m (suc m / 10) (omega arith) (omega arith)) (ground arith)

-- The last digit.
show-push : (n d : ℕ) → 0 < n → d < 10 → show (n * 10 + d) ≡ push (show n) (digit_char d)
unfolding show digits
show-push n d p q =
    let e : (n * 10 + d) / 10 ≡ n = omega arith in
    let f : (n * 10 + d) % 10 ≡ d = omega arith in last (n * 10 + d) (omega arith) ∙ rw (e, f) refl

digit_char-code : (c : Char) → is_digit c ≡ true → digit_char (code c - b'0') ≡ c
digit_char-code c h = Char-path _ c (code-digit_char (code c - b'0') (ground arith) ∙ ground arith)

show-value : (n : ℕ) (s : String) → 0 < n → AllDigits s → show (value n s) ≡ show n ⧺ s
unfolding value
show-value n String.[] p h = sym (append-nil (show n))
show-value n (String.◌∷◌ c s) p h =
    show-value (n * 10 + (code c - b'0')) s (ground arith) h.1
    ∙ ap (λ t. t ⧺ s)
        (show-push n (code c - b'0') p (ground arith) ∙ ap (push (show n)) (digit_char-code c h.0))
    ∙ push-append (show n) c s

show-digit : (d : ℕ) → d < 10 → show d ≡ push "" (digit_char d)
unfolding show digits
show-digit zero h = refl
show-digit (suc d) h = ground arith

-- What is split is not empty.
join-cons :
    (sep cur : String) (k : ℕ) (r s : String)
    → join sep (cur ∷ split_from k r s) ≡ cur ⧺ sep ⧺ join sep (split_from k r s)
unfolding join split_from
join-cons sep cur k r String.[] = refl
join-cons sep cur k r (String.◌∷◌ d s) = elim (Bool-cases (eqb (code d) k)) [
  | inl same ↦ rw same refl
  | inr other ↦ rw other (join-cons sep cur k (push r d) s)
]

join-split_from :
    (c : Char) (cur s : String) → join (String.◌∷◌ c "") (split_from (code c) cur s) ≡ cur ⧺ s
unfolding join split_from
join-split_from c cur String.[] = sym (append-nil cur)
join-split_from c cur (String.◌∷◌ d s) = elim (Bool-cases (eqb (code d) (code c))) [
  | inl same ↦ rw same (
      join-cons _ cur (code c) "" s
      ∙ ap (λ t. cur ⧺ String.◌∷◌ c "" ⧺ t) (join-split_from c "" s ∙ nil-append s)
      ∙ ap (λ t. cur ⧺ t) (cons-append c "" s ∙ ap (λ t. String.◌∷◌ c t) (nil-append s))
      ∙ ap (λ x. cur ⧺ String.◌∷◌ x s) (Char-path c d (ground arith)))
  | inr other ↦ rw other (join-split_from c (push cur d) s ∙ push-append cur d s)
]

-- `sep.join(s.split(sep))` is `s`.
pub join-split : (c : Char) (s : String) → join (String.◌∷◌ c "") (split (code c) s) ≡ s
unfolding split
join-split c s = join-split_from c "" s ∙ nil-append s

-- A digit that is not zero, and more digits.
pub show-value_cons :
    (c : Char) (s : String)
    → is_digit c ≡ true
    → b'0' < code c
    → AllDigits s
    → show (value 0 (String.◌∷◌ c s)) ≡ String.◌∷◌ c s
unfolding value
show-value_cons c s h p a =
    let e : 0 + (code c - b'0') ≡ code c - b'0' = omega arith in
    ap (λ n. show (value n s)) e
    ∙ show-value (code c - b'0') s (omega arith) a
    ∙ ap (λ t. t ⧺ s)
        (show-digit (code c - b'0') (ground arith) ∙ ap (push "") (digit_char-code c h))
    ∙ push-append "" c s
    ∙ nil-append _

pub show-value_one :
    (c : Char) → is_digit c ≡ true → show (value 0 (String.◌∷◌ c "")) ≡ String.◌∷◌ c ""
unfolding value
show-value_one c h =
    let e : 0 + (code c - b'0') ≡ code c - b'0' = omega arith in
    ap show e
    ∙ show-digit (code c - b'0') (ground arith)
    ∙ ap (push "") (digit_char-code c h)
    ∙ nil-append _

pub AllDigits-all_digits : (s : String) → all_digits s ≡ true → AllDigits s
unfolding all_digits
AllDigits-all_digits String.[] h = tt
AllDigits-all_digits (String.◌∷◌ c s) h = (ground arith, AllDigits-all_digits s (ground arith))
