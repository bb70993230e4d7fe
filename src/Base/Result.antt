-- ===== src/Base/Result.antt =====
-- Python code that may raise: the exceptions of the modelled programs, and `sys.exit`.
use mathlib.Core.Path.{subst}
use vagrant_portainer.Base.{
  ℕ, ◌≡◌, refl, ◌⊎◌, inl, inr, List, [], ◌∷◌, Bool, true, false, ◌&&◌, if◌then◌else◌, arith,
  Bool-cases,
}

-- `unbound_local` is UnboundLocalError, `generic` any other exception, `exit` SystemExit.
pub data Error : Type 0 where
  value_error key_error type_error index_error attribute_error unbound_local os_error overflow_error
        generic :
      Error
  exit : ℕ → Error

pub data Result {ℓ} (A : Type ℓ) : Type ℓ where
  ok : A → Result A
  raise : Error → Result A

-- The two ways that a call ends.
pub Result-cases {ℓ} :
    {A : Type ℓ} (m : Result A) → ((a : A) × (m ≡ ok a)) ⊎ ((e : Error) × (m ≡ raise e))
Result-cases (ok a) = inl (a, refl)
Result-cases (raise e) = inr (e, refl)

module _ {ℓ κ} {S : Type ℓ} {T : Type κ} where
  infixl 5 ◌>>=◌
  -- One statement after another: an exception ends both.
  abbrev pub ◌>>=◌ : Result S → (S → Result T) → Result T
  raise x >>= next = raise x
  ok s >>= next = next s

  -- What holds of the value of two statements that return.
  pub >>=-eq-ok :
      (first : Result S) (next : S → Result T) {t : T}
      → (first >>= next) ≡ ok t
      → (s : S) × (first ≡ ok s) × (next s ≡ ok t)
  >>=-eq-ok (raise x) next e = cc
  >>=-eq-ok (ok s) next e = (s, refl, e)

pub ok-injective {ℓ} : {A : Type ℓ} {a b : A} → ok a ≡ ok b → a ≡ b
ok-injective e = cc

-- A `for` loop whose body updates a state and may raise.
unfoldable pub fold_result {ℓ κ} :
    {S : Type ℓ} {A : Type κ} → (S → A → Result S) → S → List A → Result S
fold_result step s [] = ok s
fold_result step s (a ∷ rest) = step s a >>= λ s'. fold_result step s' rest

-- What holds of the value of a call, if it returns one.
pub record Ensures {ℓ κ} {A : Type ℓ} (P : A → Type κ) (m : Result A) : Type (ℓ ⊔ κ) where
  pub at : (a : A) → m ≡ ok a → P a

module _ {ℓ κ} {A : Type ℓ} {P : A → Type κ} where
  pub Ensures-ok : (a : A) → P a → Ensures P (ok a)
  Ensures-ok a p = record { at = λ b e. subst P (ok-injective e) p }

  pub Ensures-raise : (e : Error) → Ensures P (raise e)
  Ensures-raise e = record { at = λ b h. absurd cc }

  pub Ensures-if :
      (b : Bool) (m n : Result A)
      → (b ≡ true → Ensures P m)
      → (b ≡ false → Ensures P n)
      → Ensures P (if b then m else n)
  Ensures-if true m n f g = f refl
  Ensures-if false m n f g = g refl

  pub Ensures-bind {μ} :
      {B : Type μ} (m : Result B) (f : B → Result A)
      → ((b : B) → m ≡ ok b → Ensures P (f b))
      → Ensures P (m >>= f)
  Ensures-bind (ok b) f h = h b refl
  Ensures-bind (raise e) f h = Ensures-raise e

  -- The rule for a loop.
  pub Ensures-fold_result {μ} :
      {B : Type μ} (step : A → B → Result A)
      → ((a : A) (b : B) → P a → Ensures P (step a b))
      → (a : A) (l : List B) → P a
      → Ensures P (fold_result step a l)
  unfolding fold_result
  Ensures-fold_result step keep a [] p = Ensures-ok a p
  Ensures-fold_result step keep a (b ∷ l) p =
      Ensures-bind (step a b) _ (λ a' e. Ensures-fold_result step keep a' l ((keep a b p).at a' e))

pub ruleset ensures_rules = (Ensures-ok, Ensures-raise, Ensures-if, Ensures-bind)

-- `all(p(x) for x in xs)`
abbrev pub all {ℓ} : {A : Type ℓ} → (A → Bool) → List A → Bool
all p [] = true
all p (x ∷ xs) = p x && all p xs

abbrev pub is_ok {ℓ} : {A : Type ℓ} → Result A → Bool
is_ok (ok a) = true
is_ok (raise e) = false

-- The call returns, and its value has the property.
pub record Returns {ℓ κ} {A : Type ℓ} (P : A → Type κ) (m : Result A) : Type (ℓ ⊔ κ) where
  pub result : A
  pub returns : m ≡ ok result
  pub holds : P result

module _ {ℓ κ} {A : Type ℓ} {P : A → Type κ} where
  pub Returns-ok : (a : A) → P a → Returns P (ok a)
  Returns-ok a p = record { result = a; returns = refl; holds = p }

  pub Returns-if :
      (b : Bool) (m n : Result A)
      → (b ≡ true → Returns P m)
      → (b ≡ false → Returns P n)
      → Returns P (if b then m else n)
  Returns-if true m n f g = f refl
  Returns-if false m n f g = g refl

  -- The next statement runs on the value of a call that returns.
  pub Returns-next {μ} :
      {B : Type μ} (m : Result B) (f : B → Result A) (b : B)
      → m ≡ ok b
      → Returns P (f b)
      → Returns P (m >>= f)
  Returns-next m f b e h = record { result = h.result; returns = rw e h.returns; holds = h.holds }

  pub Returns-fold_result {μ} :
      {B : Type μ} (step : A → B → Result A) (allowed : B → Bool)
      → ((a : A) (b : B) → P a → allowed b ≡ true → Returns P (step a b))
      → (a : A) (l : List B) → P a
      → all allowed l ≡ true
      → Returns P (fold_result step a l)
  unfolding fold_result
  Returns-fold_result step allowed keep a [] p h = Returns-ok a p
  Returns-fold_result step allowed keep a (b ∷ l) p h =
      let one = keep a b p (ground arith) in
      Returns-next (step a b) _ one.result one.returns
        (Returns-fold_result step allowed keep one.result l one.holds (ground arith))

-- A loop in which a round is sure to raise the error, and those before it return or raise it too.
pub fold_result-raises {ℓ κ} :
    {A : Type ℓ} {B : Type κ} (e : Error) (step : A → B → Result A) (allowed : B → Bool)
    → ((a : A) (b : B) → allowed b ≡ true → Returns (λ _. Unit {0}) (step a b))
    → ((a : A) (b : B) → allowed b ≡ false → step a b ≡ raise e)
    → (a : A) (l : List B) → all allowed l ≡ false
    → fold_result step a l ≡ raise e
unfolding fold_result
fold_result-raises e step allowed keep bad a [] h = absurd cc
fold_result-raises e step allowed keep bad a (b ∷ l) h = elim (Bool-cases (allowed b)) [
  | inr not_allowed ↦ rw (bad a b not_allowed) refl
  | inl is_allowed ↦
      let one = keep a b is_allowed in
      rw one.returns (fold_result-raises e step allowed keep bad one.result l (ground arith))
]
