-- ===== src/Branches/Finished.antt =====
-- scripts/gitlab-branch-cleanup/main.py: a run that raises nothing.
use mathlib.Core.List.{append_assoc, append-nil}
use mathlib.Core.Path.{subst}
use mathlib.Core.List.{map-append}
use vagrant_portainer.Base.{
  ℕ, ◌≡◌, refl, sym, ap, ◌∙◌, Bool, true, false, not, ◌&&◌, List, [], ◌∷◌, ◌++◌, map, arith, ltb,
  if◌then◌else◌, Bool-cases, inl, inr,
}
use vagrant_portainer.Base.Result.{Result, Result-cases, ok, raise, is_ok, type_error}
use vagrant_portainer.Base.Text.{starts_with}
use vagrant_portainer.Branches.{
  Moment, Branch, Event, deleting, called, Env, Outcome, returned, after, finished, limit_of,
  date_of, delete_branch, delete_if, branch_at, clean_up, listed, is_unset, main,
}
use vagrant_portainer.Branches.Deleted.{
  stale, doomed, calls, announced, announced-append, none_due, Round, branch_at-Round, doomed-cons,
}

-- The date of the branch's commit can be read, and has a time zone.
abbrev pub is_dated : Result Moment → Bool
is_dated (raise e) = false
is_dated (ok date) = date.is_aware

abbrev pub all_dated : Env → List Branch → Bool
all_dated env [] = true
all_dated env (b ∷ bs) = is_dated (date_of env b) && all_dated env bs

joined {ℓ} :
    {A : Type ℓ} (x p q : List A) {x' x'' d : List A}
    → x' ≡ x ++ p
    → x'' ≡ x' ++ q
    → d ≡ p ++ q
    → x'' ≡ x ++ d
joined x p q e f g = f ∙ ap (λ l. l ++ q) e ∙ append_assoc x p q ∙ ap (λ l. x ++ l) (sym g)

module _ (env : Env) (limit : ℕ) where
  -- A part of the loop that returns, with what it prints.
  abbrev Returned : List Branch → List Event → Outcome → Type 0
  Returned bs h o =
      (h' : List Event) × (o ≡ returned h')
      × (announced h' ≡ announced h ++ map (λ b. b.name) (stale env limit bs))
      × (calls h' ≡ calls h ++ doomed env limit bs)

  module _ (answers : (h : List Event) (b : Branch) → is_ok (env.delete h b) ≡ true) where
    finished-ok :
        (h : List Event) (m : Result (Unit {0})) → is_ok m ≡ true → finished h m ≡ returned h
    finished-ok h (ok u) e = refl
    finished-ok h (raise x) e = absurd cc

    delete_branch-returned :
        (b : Branch) (date : Moment) (h : List Event)
        → (h' : List Event) × (delete_branch env b date h ≡ returned h')
          × (announced h' ≡ announced h ++ b.name ∷ [])
    unfolding delete_branch
    delete_branch-returned b date h =
        let h' = h ++ deleting b.name date.isoformat ∷ [] in
        elim (Bool-cases env.dry_run) [
          | inl dry ↦ rw dry (h', refl, announced-append h _)
          | inr wet ↦ rw wet (
            h' ++ called b ∷ [],
            finished-ok _ _ (answers h' b),
            announced-append h' _ ∙ append-nil _ ∙ announced-append h _,
          )
        ]

    if-returned :
        (stale' : Bool) (b : Branch) (date : Moment) (h : List Event)
        → (h' : List Event) × ((if stale' then delete_branch env b date h else returned h)
            ≡ returned h')
          × (announced h' ≡ announced h ++ map (λ b. b.name) (if stale' then b ∷ [] else []))
    if-returned true b date h = delete_branch-returned b date h
    if-returned false b date h = (h, refl, sym (append-nil _))

    read-returned :
        (b : Branch) (date : Moment) (h : List Event) (aware : Bool)
        → aware ≡ true
        → (h' : List Event) × (delete_if env b date
              (if aware then ok (ltb date.at limit) else raise type_error)
              h
            ≡ returned h')
          × (announced h'
              ≡ announced h
                ++ map
                    (λ b. b.name)
                    (if (aware && ltb date.at limit)
                        && not b.protected
                        && not b.default
                        && starts_with b.name env.prefix
                      then b ∷ []
                      else []))
    read-returned b date h true e = if-returned _ b date h
    read-returned b date h false e = absurd cc

    branch_at-returned :
        (b : Branch) (h : List Event)
        → is_dated (date_of env b) ≡ true
        → (h' : List Event) × (branch_at env limit b (date_of env b) h ≡ returned h')
          × (announced h' ≡ announced h ++ map (λ b. b.name) (stale env limit (b ∷ [])))
    branch_at-returned b h = elim (Result-cases (date_of env b)) [
      | inl (date, e) ↦ rw e (λ dated. read-returned b date h date.is_aware dated)
      | inr (x, e) ↦ rw e (λ dated. absurd cc)
    ]

    stale-cons :
        (b : Branch) (bs : List Branch)
        → stale env limit (b ∷ bs) ≡ stale env limit (b ∷ []) ++ stale env limit bs
    stale-cons b bs = ground arith

    clean_up-Returned :
        (bs : List Branch) (h : List Event)
        → all_dated env bs ≡ true
        → Returned bs h (clean_up env limit bs h)
    unfolding clean_up
    clean_up-Returned [] h d = (h, refl, sym (append-nil _), none_due env limit h)
    clean_up-Returned (b ∷ bs) h d =
        let (h', e, a) = branch_at-returned b h (ground arith) in
        let (h'', f, a', c') = clean_up-Returned bs h' (ground arith) in
        let c = subst (Round (doomed env limit (b ∷ [])) h) e (branch_at-Round env limit b h) in
        let names =
          ap (map (λ b. b.name)) (stale-cons b bs) ∙ map-append _ (stale env limit (b ∷ [])) _ in
        (
          h'',
          ap (λ o. after o (clean_up env limit bs)) e ∙ f,
          joined _ _ _ a a' names,
          joined _ _ _ c c' (doomed-cons env limit b bs),
        )

-- Where the token is set, the limit is a date, signing in, finding the project and listing its
-- branches raise nothing, the date of each branch can be read and has a time zone, and no deletion
-- fails, the run ends without an exception. It has printed the branches that are older than the limit, neither
-- protected nor the default branch, and have a name of the prefix, in order; and has deleted those,
-- or none in a dry run.
pub main-returned :
    (env : Env) (limit : ℕ) (bs : List Branch)
    → limit_of env.now env.age ≡ ok limit
    → listed env ≡ ok bs
    → is_unset env.token ≡ false
    → all_dated env bs ≡ true
    → ((h : List Event) (b : Branch) → is_ok (env.delete h b) ≡ true)
    → (h : List Event) × (main env ≡ returned h)
      × (announced h ≡ map (λ b. b.name) (stale env limit bs))
      × (calls h ≡ doomed env limit bs)
unfolding main
main-returned env limit bs e f set' dated answers =
    rw (e, set', f) (clean_up-Returned env limit answers bs [] dated)
