-- ===== src/Branches/Deleted.antt =====
-- scripts/gitlab-branch-cleanup/main.py: which branches a run deletes.
use mathlib.Core.List.{append_assoc, append-nil}
use vagrant_portainer.Base.{
  ℕ, String, ◌≡◌, refl, sym, ap, ◌∙◌, Bool, true, false, not, ◌&&◌, List, [], ◌∷◌, ◌++◌, arith, ltb,
  if◌then◌else◌, Bool-cases, inl, inr,
}
use vagrant_portainer.Base.Result.{Result, Result-cases, ok, raise, type_error}
use vagrant_portainer.Base.Text.{starts_with}
use vagrant_portainer.Branches.{
  Moment, Branch, Event, token_required, deleting, called, Env, Outcome, returned, raised, after,
  finished, limit_of, date_of, delete_branch, delete_if, branch_at, clean_up, listed, is_unset,
  main_with, main,
}

abbrev pub is_old : ℕ → Result Moment → Bool
is_old limit (raise e) = false
is_old limit (ok date) = date.is_aware && ltb date.at limit

-- The branches to clean up: older than the limit, neither protected nor the default branch, with a
-- name of the prefix.
abbrev pub is_stale : Env → ℕ → Branch → Bool
is_stale env limit b =
    is_old limit (date_of env b)
    && not b.protected
    && not b.default
    && starts_with b.name env.prefix

abbrev pub stale : Env → ℕ → List Branch → List Branch
stale env limit [] = []
stale env limit (b ∷ bs) =
    let rest = stale env limit bs in if is_stale env limit b then b ∷ rest else rest

-- The branches to delete: none in a dry run.
abbrev pub doomed : Env → ℕ → List Branch → List Branch
doomed env limit bs = if env.dry_run then [] else stale env limit bs

abbrev pub events : Outcome → List Event
events (returned h) = h
events (raised e h) = h

-- The branches that were deleted, or tried to, in order.
abbrev pub calls : List Event → List Branch
calls [] = []
calls (called b ∷ h) = b ∷ calls h
calls (_ ∷ h) = calls h

-- The names that were printed.
abbrev pub announced : List Event → List String
announced [] = []
announced (deleting name _ ∷ h) = name ∷ announced h
announced (_ ∷ h) = announced h

calls-append : (h h' : List Event) → calls (h ++ h') ≡ calls h ++ calls h'
calls-append [] h' = refl
calls-append (token_required ∷ h) h' = calls-append h h'
calls-append (deleting n d ∷ h) h' = calls-append h h'
calls-append (called b ∷ h) h' = ap (λ l. b ∷ l) (calls-append h h')

pub announced-append : (h h' : List Event) → announced (h ++ h') ≡ announced h ++ announced h'
announced-append [] h' = refl
announced-append (token_required ∷ h) h' = announced-append h h'
announced-append (deleting n d ∷ h) h' = ap (λ l. n ∷ l) (announced-append h h')
announced-append (called b ∷ h) h' = announced-append h h'

-- What a round does: it deletes its branch if that is to be deleted, or raises before or after.
abbrev pub Round : List Branch → List Event → Outcome → Type 0
Round due h (returned h') = calls h' ≡ calls h ++ due
Round due h (raised e h') = (rest : List Branch) × (calls h' ++ rest ≡ calls h ++ due)

module _ (env : Env) (limit : ℕ) where
  finished-Round :
      (b : Branch) (h h' : List Event) (m : Result (Unit {0}))
      → calls h' ≡ calls h ++ b ∷ []
      → Round (b ∷ []) h (finished h' m)
  finished-Round b h h' (ok u) e = e
  finished-Round b h h' (raise x) e = ([], append-nil (calls h') ∙ e)

  delete_branch-Round :
      (b : Branch) (date : Moment) (h : List Event)
      → Round (if env.dry_run then [] else b ∷ []) h (delete_branch env b date h)
  unfolding delete_branch
  delete_branch-Round b date h = elim (Bool-cases env.dry_run) [
    | inl dry ↦ rw dry (calls-append h _)
    | inr wet ↦ rw wet (
        finished-Round b h _ _
          (rw (calls-append, calls-append) (append_assoc (calls h) [] (b ∷ []))))
  ]

  pub none_due : (h : List Event) → calls h ≡ calls h ++ (if env.dry_run then [] else [])
  none_due h = elim (Bool-cases env.dry_run) [
    | inl dry ↦ rw dry (sym (append-nil (calls h)))
    | inr wet ↦ rw wet (sym (append-nil (calls h)))
  ]

  if-Round :
      (stale' : Bool) (b : Branch) (date : Moment) (h : List Event)
      → Round
          (if env.dry_run then [] else if stale' then b ∷ [] else [])
          h
          (if stale' then delete_branch env b date h else returned h)
  if-Round true b date h = delete_branch-Round b date h
  if-Round false b date h = none_due h

  read-Round :
      (b : Branch) (date : Moment) (h : List Event) (aware : Bool)
      → Round
          (if env.dry_run
            then []
            else if (aware && ltb date.at limit)
                && not b.protected
                && not b.default
                && starts_with b.name env.prefix
            then b ∷ []
            else [])
          h
          (delete_if env b date (if aware then ok (ltb date.at limit) else raise type_error) h)
  read-Round b date h true = if-Round _ b date h
  read-Round b date h false = (if env.dry_run then [] else [], refl)

  pub branch_at-Round :
      (b : Branch) (h : List Event)
      → Round (doomed env limit (b ∷ [])) h (branch_at env limit b (date_of env b) h)
  branch_at-Round b h = elim (Result-cases (date_of env b)) [
    | inl (date, e) ↦ rw e (read-Round b date h date.is_aware)
    | inr (x, e) ↦ rw e (if env.dry_run then [] else [], refl)
  ]

  pub doomed-cons :
      (b : Branch) (bs : List Branch)
      → doomed env limit (b ∷ bs) ≡ doomed env limit (b ∷ []) ++ doomed env limit bs
  doomed-cons b bs = ground arith

  -- What the loop deletes is what is to be deleted, up to where it raises.
  after-Round :
      (b : Branch) (bs : List Branch) (h : List Event) (o : Outcome) (next : List Event → Outcome)
      → Round (doomed env limit (b ∷ [])) h o
      → ((h' : List Event)
          → (rest : List Branch) × (calls (events (next h')) ++ rest
              ≡ calls h' ++ doomed env limit bs))
      → (rest : List Branch) × (calls (events (after o next)) ++ rest
          ≡ calls h ++ doomed env limit (b ∷ bs))
  after-Round b bs h (returned h') next r f =
      let (rest, e) = f h' in
      (
        rest,
        e
            ∙ ap (λ l. l ++ doomed env limit bs) r
            ∙ append_assoc (calls h) _ _
            ∙ ap (λ l. calls h ++ l) (sym (doomed-cons b bs)),
      )
  after-Round b bs h (raised x h') next (rest, e) f = (
    rest ++ doomed env limit bs,
    sym (append_assoc (calls h') _ _)
        ∙ ap (λ l. l ++ doomed env limit bs) e
        ∙ append_assoc (calls h) _ _
        ∙ ap (λ l. calls h ++ l) (sym (doomed-cons b bs)),
  )

  clean_up-calls :
      (bs : List Branch) (h : List Event)
      → (rest : List Branch) × (calls (events (clean_up env limit bs h)) ++ rest
          ≡ calls h ++ doomed env limit bs)
  unfolding clean_up
  clean_up-calls [] h = (doomed env limit [], refl)
  clean_up-calls (b ∷ bs) h = after-Round b bs h _ _ (branch_at-Round b h) (clean_up-calls bs)

main_with-calls :
    (env : Env) (limit : ℕ) (bs : List Branch)
    → listed env ≡ ok bs
    → (rest : List Branch) × (calls (events (main_with env (ok limit))) ++ rest
        ≡ doomed env limit bs)
main_with-calls env limit bs e = elim (Bool-cases (is_unset env.token)) [
  | inl unset ↦ rw unset (doomed env limit bs, refl)
  | inr set' ↦ rw (set', e) (clean_up-calls env limit bs [])
]

-- The branches that a run deletes, in order, begin the list of those that are older than the limit,
-- neither protected nor the default branch, and have a name of the prefix; in a dry run there are
-- none.
pub main-calls :
    (env : Env) (limit : ℕ) (bs : List Branch)
    → limit_of env.now env.age ≡ ok limit
    → listed env ≡ ok bs
    → (rest : List Branch) × (calls (events (main env)) ++ rest ≡ doomed env limit bs)
unfolding main
main-calls env limit bs e f = rw e (main_with-calls env limit bs f)
