-- ===== src/Base/Text/Decimal.antt =====
-- Decimal numbers as texts: `str(n)`, `int(s)`, and the run of digits that ends a text.
use Prim.Native.Char.{Char, code}
use text.Mathlib.TextLemmas.{nil-append, cons-append, append-nil, append_assoc, cons≢nil}
use vagrant_portainer.Base.{
  ℕ, zero, suc, ◌+◌, ◌-◌, ◌*◌, ◌/◌, ◌%◌, ◌≤◌, ◌<◌, String, sym, ap, ◌∙◌, Bool-cases, inl, inr, ◌≡◌,
  refl, true, leb, if◌then◌else◌, ◌==◌, eq_iff, false, arith,
}
use vagrant_portainer.Base.Text.{is_digit, push, ◌⧺◌}

-- The digit `d`, for `d < 10`.
pub digit_char : ℕ → Char
digit_char zero = "0"
digit_char (suc zero) = "1"
digit_char (suc (suc zero)) = "2"
digit_char (suc (suc (suc zero))) = "3"
digit_char (suc (suc (suc (suc zero)))) = "4"
digit_char (suc (suc (suc (suc (suc zero))))) = "5"
digit_char (suc (suc (suc (suc (suc (suc zero)))))) = "6"
digit_char (suc (suc (suc (suc (suc (suc (suc zero))))))) = "7"
digit_char (suc (suc (suc (suc (suc (suc (suc (suc zero)))))))) = "8"
digit_char (suc (suc (suc (suc (suc (suc (suc (suc (suc _))))))))) = "9"

pub code-digit_char : (d : ℕ) → d < 10 → code (digit_char d) ≡ b'0' + d
unfolding digit_char
code-digit_char zero h = refl
code-digit_char (suc zero) h = refl
code-digit_char (suc (suc zero)) h = refl
code-digit_char (suc (suc (suc zero))) h = refl
code-digit_char (suc (suc (suc (suc zero)))) h = refl
code-digit_char (suc (suc (suc (suc (suc zero))))) h = refl
code-digit_char (suc (suc (suc (suc (suc (suc zero)))))) h = refl
code-digit_char (suc (suc (suc (suc (suc (suc (suc zero))))))) h = refl
code-digit_char (suc (suc (suc (suc (suc (suc (suc (suc zero)))))))) h = refl
code-digit_char (suc (suc (suc (suc (suc (suc (suc (suc (suc n))))))))) h = omega arith

-- The digits of `n`, most significant first: at most `suc fuel` of them.
unfoldable pub digits : ℕ → ℕ → String
digits zero n = push String.[] (digit_char (n % 10))
digits (suc fuel) n =
    let longer = push (digits fuel (n / 10)) (digit_char (n % 10)) in
    if leb n 9 then push String.[] (digit_char (n % 10)) else longer

-- `str(n)`; a number has at most as many digits as its value, and one more.
unfoldable pub show : ℕ → String
unfolding digits digit_char
show n = digits n n

-- The value of a run of digits, read from the left: `int(s)` for a text of digits.
unfoldable pub value : ℕ → String → ℕ
value acc String.[] = acc
value acc (String.◌∷◌ c s) = value (acc * 10 + (code c - b'0')) s

-- The run of digits that ends a text: the only match of `\d+$`, or "" where there is none.
unfoldable pub trailing : String → String → String
trailing run String.[] = run
trailing run (String.◌∷◌ c s) = trailing (if is_digit c then push run c else String.[]) s

abbrev pub AllDigits : String → Type 0
AllDigits String.[] = Unit
AllDigits (String.◌∷◌ c s) = (is_digit c ≡ true) × AllDigits s

show_307 : show 307 ≡ "307"
unfolding show
show_307 = refl

trailing_example : trailing "" "kube2node13" ≡ "13"
unfolding trailing
trailing_example = refl

value-push :
    (acc : ℕ) (s : String) (c : Char) → value acc (push s c) ≡ value acc s * 10 + (code c - b'0')
unfolding value
value-push acc String.[] c = rw nil-append
value-push acc (String.◌∷◌ d s) c = rw cons-append (value-push (acc * 10 + (code d - b'0')) s c)

AllDigits-push : (s : String) (c : Char) → AllDigits s → is_digit c ≡ true → AllDigits (push s c)
AllDigits-push String.[] c h d = rw nil-append (d, tt)
AllDigits-push (String.◌∷◌ e s) c h d = rw cons-append (h.0, AllDigits-push s c h.1 d)

is_digit-digit_char : (n : ℕ) → is_digit (digit_char (n % 10)) ≡ true
is_digit-digit_char n = ground (arith, code-digit_char (n % 10))

digits-AllDigits : (fuel n : ℕ) → AllDigits (digits fuel n)
unfolding digits
digits-AllDigits zero n = AllDigits-push String.[] _ tt (is_digit-digit_char n)
digits-AllDigits (suc fuel) n = elim (Bool-cases (leb n 9)) [
  | inl small ↦ rw small (AllDigits-push String.[] _ tt (is_digit-digit_char n))
  | inr large ↦
      rw large (AllDigits-push _ _ (digits-AllDigits fuel (n / 10)) (is_digit-digit_char n))
]

value-digit :
    (s : String) (n : ℕ) → value 0 (push s (digit_char (n % 10))) ≡ value 0 s * 10 + n % 10
value-digit s n = rw value-push (rw (code-digit_char (n % 10) (omega arith)) (omega arith))

value-digits : (fuel n : ℕ) → n ≤ fuel → value 0 (digits fuel n) ≡ n
unfolding digits value
value-digits zero n h = rw value-digit (omega arith)
value-digits (suc fuel) n h = elim (Bool-cases (leb n 9)) [
  | inl small ↦ rw small (rw value-digit (ground arith))
  | inr large ↦ rw large (rw value-digit (ground (arith, value-digits fuel (n / 10))))
]

-- What `str(n)` prints is read back as `n`.
pub value-show : (n : ℕ) → value 0 (show n) ≡ n
unfolding show
value-show n = value-digits n n (omega arith)

pub show-AllDigits : (n : ℕ) → AllDigits (show n)
unfolding show
show-AllDigits n = digits-AllDigits n n

-- Distinct numbers have distinct texts.
pub show-injective : (m n : ℕ) → show m ≡ show n → m ≡ n
show-injective m n e = sym (value-show m) ∙ ap (value 0) e ∙ value-show n

trailing-append : (run p s : String) → trailing run (p ⧺ s) ≡ trailing (trailing run p) s
unfolding trailing
trailing-append run String.[] s = rw nil-append
trailing-append run (String.◌∷◌ c p) s =
    rw cons-append (trailing-append (if is_digit c then push run c else String.[]) p s)

trailing_of_AllDigits : (run s : String) → AllDigits s → trailing run s ≡ run ⧺ s
unfolding trailing
trailing_of_AllDigits run String.[] h = sym (append-nil run)
trailing_of_AllDigits run (String.◌∷◌ c s) h = rw h.0 (
    trailing_of_AllDigits (push run c) s h.1
    ∙ append_assoc run _ s
    ∙ ap (λ t. run ⧺ t) (cons-append c String.[] s ∙ ap (λ t. String.◌∷◌ c t) (nil-append s)))

-- Digits appended to a text that ends in none are the run that ends the whole.
pub trailing-append-digits :
    (p s : String) → trailing "" p ≡ "" → AllDigits s → trailing "" (p ⧺ s) ≡ s
trailing-append-digits p s e h =
    trailing-append "" p s ∙ ap (λ r. trailing r s) e ∙ trailing_of_AllDigits "" s h ∙ nil-append s

cons-ne : (c : Char) (s : String) → (String.◌∷◌ c s == "") ≡ false
cons-ne c s = elim (Bool-cases (String.◌∷◌ c s == "")) [
  | inl e ↦ absurd (cons≢nil ((eq_iff (String.◌∷◌ c s) "").0 e))
  | inr n ↦ n
]

push-ne : (s : String) (c : Char) → (push s c == "") ≡ false
push-ne String.[] c = rw nil-append (cons-ne c String.[])
push-ne (String.◌∷◌ d s) c = rw cons-append (cons-ne d _)

digits-ne : (fuel n : ℕ) → (digits fuel n == "") ≡ false
unfolding digits
digits-ne zero n = push-ne String.[] _
digits-ne (suc fuel) n = elim (Bool-cases (leb n 9)) [
  | inl small ↦ rw small (push-ne String.[] _)
  | inr large ↦ rw large (push-ne _ _)
]

-- A printed number is not empty.
pub show-ne : (n : ℕ) → (show n == "") ≡ false
unfolding show
show-ne n = digits-ne n n
