-- ===== src/Base/Lists.antt =====
-- Python lists measured by native numbers; slices with bounds that are not negative.
use Prim.Native.Nat.{min}
use vagrant_portainer.Base.{
  ℕ, zero, suc, ◌+◌, String, ◌≡◌, refl, Bool, true, false, ◌||◌, eq_iff, List, [], ◌∷◌, ◌++◌, arith,
  ◌==◌,
}

module _ {ℓ} {A : Type ℓ} where
  abbrev pub length : List A → ℕ
  length [] = 0
  length (x ∷ xs) = suc (length xs)

  -- `xs[:n]`
  abbrev pub take : ℕ → List A → List A
  take zero xs = []
  take (suc n) [] = []
  take (suc n) (x ∷ xs) = x ∷ take n xs

  -- `xs[n:]`
  abbrev pub drop : ℕ → List A → List A
  drop zero xs = xs
  drop (suc n) [] = []
  drop (suc n) (x ∷ xs) = drop n xs

  pub length-append : (xs ys : List A) → length (xs ++ ys) ≡ length xs + length ys
  length-append [] ys = omega arith
  length-append (x ∷ xs) ys = omega (arith, length-append xs ys)

  pub length-take : (n : ℕ) (xs : List A) → length (take n xs) ≡ min n (length xs)
  length-take zero xs = omega arith
  length-take (suc n) [] = omega arith
  length-take (suc n) (x ∷ xs) = omega (arith, length-take n xs)

-- `x in xs` on texts
abbrev pub elem : String → List String → Bool
elem x [] = false
elem x (y ∷ ys) = x == y || elem x ys

-- `elem` as a proposition of the two ways to be in a list.
pub elem-append : (x : String) (ys zs : List String) → elem x (ys ++ zs) ≡ (elem x ys || elem x zs)
elem-append x [] zs = refl
elem-append x (y ∷ ys) zs = ground (arith, elem-append x ys zs)

pub elem-take :
    (x : String) (n : ℕ) (ys : List String) → elem x (take n ys) ≡ true → elem x ys ≡ true
elem-take x zero ys h = absurd cc
elem-take x (suc n) [] h = h
elem-take x (suc n) (y ∷ ys) h = ground (arith, elem-take x n ys)

pub elem-drop :
    (x : String) (n : ℕ) (ys : List String) → elem x (drop n ys) ≡ true → elem x ys ≡ true
elem-drop x zero ys h = h
elem-drop x (suc n) [] h = h
elem-drop x (suc n) (y ∷ ys) h = ground (arith, elem-drop x n ys)

-- No text is in the list twice.
abbrev pub Nodup : List String → Type 0
Nodup [] = Unit
Nodup (y ∷ ys) = (elem y ys ≡ false) × Nodup ys

-- The first texts are not among the others.
pub take-drop_disjoint :
    (x : String) (n : ℕ) (ys : List String)
    → Nodup ys
    → elem x (take n ys) ≡ true
    → elem x (drop n ys) ≡ false
take-drop_disjoint x zero ys d h = absurd cc
take-drop_disjoint x (suc n) [] d h = absurd cc
take-drop_disjoint x (suc n) (y ∷ ys) (new, d) h =
    ground (arith, take-drop_disjoint x n ys d, eq_iff x y, elem-drop x n ys)
