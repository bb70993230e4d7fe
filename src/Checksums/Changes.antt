-- ===== src/Checksums/Changes.antt =====
-- scripts/download_hash.py: one change of the file, and loops of changes.
use vagrant_portainer.Base.{
  String, ◌≡◌, refl, sym, ap, ◌∙◌, Bool, false, ◌&&◌, ◌||◌, Option, none, some, List, [], ◌∷◌,
  arith, ◌==◌, eq_iff, if◌then◌else◌, Bool-cases, inl, inr,
}
use vagrant_portainer.Base.Result.{Result, fold_result, Ensures, Ensures-ok, Ensures-bind}
use vagrant_portainer.Base.Dict.{Dict, lookup, put, lookup-put}
use vagrant_portainer.Checksums.{Table, Tables}

abbrev pub in_versions : Option (Dict String) → String → Option String
in_versions none v = none
in_versions (some versions) v = lookup v versions

abbrev pub in_table : Option Table → String → String → Option String
in_table none a v = none
in_table (some table) a v = in_versions (lookup a table) v

-- The checksum in the file.
abbrev pub sum_in : Tables → String → String → String → Option String
sum_in d name a v = in_table (lookup name d) a v

pub sum_in-put :
    (name a v x : String) (d : Tables) (table : Table) (versions : Dict String) (n b w : String)
    → lookup name d ≡ some table
    → lookup a table ≡ some versions
    → sum_in (put name (put a (put v x versions) table) d) n b w
      ≡ (if name == n && (a == b && v == w) then some x else sum_in d n b w)
sum_in-put name a v x d table versions n b w e f = elim (Bool-cases (name == n)) [
  | inl same ↦
      let e' : lookup n d ≡ some table = ap (λ k. lookup k d) (sym ((eq_iff name n).0 same)) ∙ e in
      elim (Bool-cases (a == b)) [
        | inl same' ↦
            let f' : lookup b table ≡ some versions =
              ap (λ k. lookup k table) (sym ((eq_iff a b).0 same')) ∙ f in
            rw (lookup-put, same, e', lookup-put, same', f', lookup-put) refl
        | inr other ↦ rw (lookup-put, same, e', lookup-put, other) refl
      ]
  | inr other ↦ rw (lookup-put, other) refl
]

-- A change of the file: the places of `P` have the checksums `S`, all others are as before.
abbrev pub Changed :
    (String → String → String → Option String)
    → (String → String → String → Bool)
    → Tables
    → Tables
    → Type 0
Changed S P d d' =
    (n b w : String) → sum_in d' n b w ≡ (if P n b w then S n b w else sum_in d n b w)

module _ (S : String → String → String → Option String) where
  Changed-trans :
      (P Q : String → String → String → Bool) (d d' d'' : Tables)
      → Changed S P d d'
      → Changed S Q d' d''
      → Changed S (λ n b w. P n b w || Q n b w) d d''
  Changed-trans P Q d d' d'' p q n b w = let e = p n b w in let f = q n b w in ground arith

  module _ {ℓ} {A : Type ℓ} (step : Tables → A → Result Tables)
      (P : A → String → String → String → Bool) where
    -- Each round changes the places of its element.
    abbrev Rounds : List A → Type ℓ
    Rounds [] = Unit
    Rounds (x ∷ l) = ((d : Tables) → Ensures (Changed S (P x) d) (step d x)) × Rounds l

    pub all-Rounds :
        ((d : Tables) (x : A) → Ensures (Changed S (P x) d) (step d x)) → (l : List A) → Rounds l
    all-Rounds one [] = tt
    all-Rounds one (x ∷ l) = ((λ d. one d x), all-Rounds one l)

    -- The loop changes the places of all elements.
    pub fold-Changed :
        (any : List A → String → String → String → Bool)
        → ((n b w : String) → any [] n b w ≡ false)
        → ((x : A) (l : List A) (n b w : String) → any (x ∷ l) n b w ≡ (P x n b w || any l n b w))
        → (l : List A) (d : Tables) → Rounds l
        → Ensures (Changed S (any l) d) (fold_result step d l)
    unfolding fold_result
    fold-Changed any none_of one_of [] d r =
        Ensures-ok d (λ n b w. let e = none_of n b w in ground arith)
    fold-Changed any none_of one_of (x ∷ l) d (one, r) = Ensures-bind (step d x) _ λ d' e. record {
      at = λ d'' f n b w.
          let t =
            Changed-trans (P x) (any l) d d' d'' ((one d).at d' e)
              ((fold-Changed any none_of one_of l d' r).at d'' f) n b w in
          let o = one_of x l n b w in ground arith;
    }
