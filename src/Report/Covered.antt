-- ===== src/Report/Covered.antt =====
-- tests/scripts/md-table/main.py: which cells of the table are checked.
use mathlib.Core.Path.{subst}
use text.Mathlib.TextPositions.{eq_refl}
use vagrant_portainer.Base.{
  ℕ, ◌≡◌, refl, sym, ap, ◌∙◌, ◌↔◌, ◌⊎◌, Bool, true, false, ◌&&◌, Option, none, some, List, [], ◌∷◌,
  arith, eqb, eq_iff, if◌then◌else◌, Bool-cases, inl, inr,
}
use vagrant_portainer.Base.Result.{ok, >>=-eq-ok, ok-injective, fold_result}
use vagrant_portainer.Report.{
  container_manager, network_plugin, operating_system, Row, Pydblite, is_row, IsPydblite, File,
  row_of, exists, add_file, load,
}

-- The row is that of one of the files.
abbrev pub Says : List File → Row → Type 0
Says [] r = ⊥
Says (f ∷ files) r = (row_of f ≡ ok r) ⊎ Says files r

module _ (b : Pydblite) (is : IsPydblite b) where
  -- A record of the database is the row.
  abbrev pub Has : b.Db → Row → Type 0
  Has d r = (k : ℕ) × (is.record_at d k ≡ some r)

  is_row-all :
      (o : Option Row) (r : Row)
      → ((is_row o container_manager r.container && is_row o network_plugin r.network)
          && is_row o operating_system r.system)
        ≡ true
      → o ≡ some r
  is_row-all none r h = absurd cc
  is_row-all (some q) r h =
      let c : q.container ≡ r.container = (eq_iff q.container r.container).0 (ground arith) in
      let n : q.network ≡ r.network = (eq_iff q.network r.network).0 (ground arith) in
      let s : q.system ≡ r.system = (eq_iff q.system r.system).0 (ground arith) in
      λ i. some (record { container = c i; network = n i; system = s i })

  is_row-same :
      (o : Option Row) (r : Row)
      → o ≡ some r
      → ((is_row o container_manager r.container && is_row o network_plugin r.network)
          && is_row o operating_system r.system)
        ≡ true
  is_row-same o r e =
      rw e (ground (arith, eq_refl r.container, eq_refl r.network, eq_refl r.system))

  -- The cell of the table.
  picked : b.Db → Row → b.Ids
  picked d r =
      b.both
        (b.both (b.select d container_manager r.container) (b.select d network_plugin r.network))
        (b.select d operating_system r.system)

  selected-picked :
      (d : b.Db) (r : Row) (k : ℕ)
      → is.selected (picked d r) k ≡ (
          (is_row (is.record_at d k) container_manager r.container
            && is_row (is.record_at d k) network_plugin r.network)
          && is_row (is.record_at d k) operating_system r.system)
  unfolding picked
  selected-picked d r k =
      rw
        (
          is.selected-both, is.selected-both, is.selected-select, is.selected-select,
          is.selected-select,
        )
        refl

  exists-Has : (d : b.Db) (r : Row) → (exists b d r ≡ true) ↔ Has d r
  unfolding picked
  exists-Has d r = (
    (λ e.
        let (k, s) = (is.len-selected (picked d r)).0 e in
        (k, is_row-all (is.record_at d k) r (sym (selected-picked d r k) ∙ s))),
    (λ h. (is.len-selected (picked d r)).1 (h.0, selected-picked d r h.0 ∙ is_row-same _ r h.1)),
  )

  one_of_two :
      (new : Bool) (q r : Row) (o : Option Row)
      → (if new then some q else o) ≡ some r
      → (q ≡ r) ⊎ (o ≡ some r)
  one_of_two true q r o e = inl cc
  one_of_two false q r o e = inr e

  from_insert : (q r : Row) (d : b.Db) → Has (b.insert q d) r → (q ≡ r) ⊎ Has d r
  from_insert q r d (k, e) =
      elim (one_of_two (eqb k (is.next d)) q r (is.record_at d k)
        (sym (is.record_at-insert q d k) ∙ e)) [ inl same ↦ inl same | inr old ↦ inr (k, old) ]

  to_insert : (q r : Row) (d : b.Db) → (q ≡ r) ⊎ Has d r → Has (b.insert q d) r
  to_insert q r d (inl e) =
      let n = is.next d in
      let same : eqb n n ≡ true = ground arith in
      (n, is.record_at-insert q d n ∙ rw same (ap some e))
  to_insert q r d (inr (k, e)) = elim (Bool-cases (eqb k (is.next d))) [
    | inl same ↦
        let n : k ≡ is.next d = ground arith in
        let f = sym (is.record_at-next d) ∙ ap (is.record_at d) (sym n) ∙ e in absurd cc
    | inr other ↦ (k, is.record_at-insert q d k ∙ rw other e)
  ]

  -- A round of the loop.
  from_round :
      (f : File) (files : List File) (q r : Row) (d d₁ : b.Db)
      → row_of f ≡ ok q
      → b.insert q d ≡ d₁
      → Says files r ⊎ Has d₁ r
      → Says (f ∷ files) r ⊎ Has d r
  from_round f files q r d d₁ e g (inl s) = inl (inr s)
  from_round f files q r d d₁ e g (inr h) =
      elim (from_insert q r d (subst (λ x. Has x r) (sym g) h)) [
        | inl same ↦ inl (inl (e ∙ ap ok same))
        | inr old ↦ inr old
      ]

  to_round :
      (f : File) (files : List File) (q r : Row) (d d₁ : b.Db)
      → row_of f ≡ ok q
      → b.insert q d ≡ d₁
      → Says (f ∷ files) r ⊎ Has d r
      → Says files r ⊎ Has d₁ r
  to_round f files q r d d₁ e g (inl (inl x)) =
      inr (subst (λ x. Has x r) g (to_insert q r d (inl (ok-injective (sym e ∙ x)))))
  to_round f files q r d d₁ e g (inl (inr s)) = inl s
  to_round f files q r d d₁ e g (inr old) = inr (subst (λ x. Has x r) g (to_insert q r d (inr old)))

  is_old : (d d' : b.Db) (r : Row) → d ≡ d' → (Says [] r ⊎ Has d r) → Has d' r
  is_old d d' r e (inl h) = absurd h
  is_old d d' r e (inr h) = subst (λ x. Has x r) e h

  load-Has :
      (files : List File) (d d' : b.Db) (r : Row)
      → fold_result (add_file b) d files ≡ ok d'
      → Has d' r ↔ (Says files r ⊎ Has d r)
  unfolding fold_result
  load-Has [] d d' r e =
      ((λ h. inr (subst (λ x. Has x r) (sym (ok-injective e)) h)), is_old d d' r (ok-injective e))
  load-Has (f ∷ files) d d' r e =
      let (d₁, e₁, e₂) = >>=-eq-ok (add_file b d f) _ e in
      let (q, e₃, e₄) = >>=-eq-ok (row_of f) _ e₁ in
      let g = ok-injective e₄ in
      let rest = load-Has files d₁ d' r e₂ in
      (
        (λ h. from_round f files q r d d₁ e₃ g (rest.0 h)),
        λ s. rest.1 (to_round f files q r d d₁ e₃ g s),
      )

  none_created : (r : Row) → Has b.create r → ⊥
  none_created r (k, e) = let f = sym (is.record_at-create k) ∙ e in absurd cc

-- The records of the database are the rows of the files.
pub load-HasRows :
    (b : Pydblite) (is : IsPydblite b) (files : List File) (d : b.Db) (r : Row)
    → load b files ≡ ok d
    → Has b is d r ↔ Says files r
unfolding load
load-HasRows b is files d r e =
    let rows = load-Has b is files b.create d r e in
    (
      (λ h. elim (rows.0 h) [ inl s ↦ s | inr h' ↦ absurd (none_created b is r h') ]),
      (λ s. rows.1 (inl s)),
    )

-- Where the files are loaded without an error, a cell of the table is checked exactly if one of the
-- files is for its container manager, network plugin and operating system.
pub load-Says :
    (b : Pydblite)
    → IsPydblite b
    → (files : List File) (d : b.Db) (r : Row) → load b files ≡ ok d
    → (exists b d r ≡ true) ↔ Says files r
load-Says b is files d r e =
    let cell = exists-Has b is d r in
    let rows = load-HasRows b is files d r e in ((λ h. rows.0 (cell.0 h)), λ s. cell.1 (rows.1 s))
