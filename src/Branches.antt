-- ===== src/Branches.antt =====
-- scripts/gitlab-branch-cleanup/main.py: deletes old branches of a GitLab project. The server and
-- the reading of dates are parameters. Times are microseconds since the start of year 1, UTC.
pub mod Deleted
pub mod Finished
mod Examples
use vagrant_portainer.Base.{
  ℕ, ◌-◌, ◌*◌, String, Bool, true, false, not, ◌&&◌, Option, none, some, List, [], ◌∷◌, ◌++◌, ltb,
  ◌==◌, if◌then◌else◌,
}
use vagrant_portainer.Base.Result.{
  Error, key_error, type_error, overflow_error, exit, Result, ok, raise, ◌>>=◌,
}
use vagrant_portainer.Base.Text.{starts_with}

-- A datetime: its time, whether it has a time zone, and the text of its date. Without a time zone
-- the time is not used.
pub record Moment : Type 0 where
  pub at : ℕ
  pub is_aware : Bool
  pub isoformat : String

-- `created_at` is that of the branch's commit.
pub record Branch : Type 0 where
  pub name : String
  pub created_at : Option String
  pub protected : Bool
  pub default : Bool

-- Two lines that are printed, and `b.delete()`.
pub data Event : Type 0 where
  token_required : Event
  deleting : String → String → Event
  called : Branch → Event

-- The arguments, GITLAB_API_TOKEN, the clock, and the server; `auth` and `get` are the first two
-- calls, and the reply to a deletion may depend on all that was done before.
pub record Env : Type 0 where
  pub age : ℕ
  pub prefix : String
  pub dry_run : Bool
  pub token : Option String
  pub now : ℕ
  pub fromisoformat : String → Result Moment
  pub auth : Result (Unit {0})
  pub get : Result (Unit {0})
  pub branches : Result (List Branch)
  pub delete : List Event → Branch → Result (Unit {0})

-- The program returns or raises, with all events.
pub data Outcome : Type 0 where
  returned : List Event → Outcome
  raised : Error → List Event → Outcome

abbrev pub after : Outcome → (List Event → Outcome) → Outcome
after (returned h) next = next h
after (raised e h) next = raised e h

abbrev pub finished : List Event → Result (Unit {0}) → Outcome
finished h (ok _) = returned h
finished h (raise e) = raised e h

abbrev pub day : ℕ
day = 24 * 60 * 60 * 1000000

-- `now - timedelta(days=age)`, which has no value before year 1.
unfoldable pub limit_of : ℕ → ℕ → Result ℕ
limit_of now age = if ltb now (age * day) then raise overflow_error else ok (now - age * day)

abbrev pub created : Option String → Result String
created none = raise key_error
created (some text) = ok text

unfoldable pub date_of : Env → Branch → Result Moment
date_of env b = created b.created_at >>= env.fromisoformat

-- `date < limit`, where the limit has a time zone
abbrev pub is_before : Moment → ℕ → Result Bool
is_before date limit = if date.is_aware then ok (ltb date.at limit) else raise type_error

-- The two statements under the condition.
unfoldable pub delete_branch : Env → Branch → Moment → List Event → Outcome
delete_branch env b date h =
    let h' = h ++ deleting b.name date.isoformat ∷ [] in
    if env.dry_run then returned h' else finished (h' ++ called b ∷ []) (env.delete h' b)

abbrev pub delete_if : Env → Branch → Moment → Result Bool → List Event → Outcome
delete_if env b date (raise e) h = raised e h
delete_if env b date (ok old) h =
    if old && not b.protected && not b.default && starts_with b.name env.prefix
    then delete_branch env b date h
    else returned h

abbrev pub branch_at : Env → ℕ → Branch → Result Moment → List Event → Outcome
branch_at env limit b (raise e) h = raised e h
branch_at env limit b (ok date) h = delete_if env b date (is_before date limit) h

-- The loop over the branches.
unfoldable pub clean_up : Env → ℕ → List Branch → List Event → Outcome
clean_up env limit [] h = returned h
clean_up env limit (b ∷ bs) h =
    after (branch_at env limit b (date_of env b) h) (clean_up env limit bs)

abbrev pub clean_up_listed : Env → ℕ → Result (List Branch) → Outcome
clean_up_listed env limit (raise e) = raised e []
clean_up_listed env limit (ok bs) = clean_up env limit bs []

-- The three calls before the loop.
unfoldable pub listed : Env → Result (List Branch)
listed env = do _ ← env.auth; _ ← env.get; env.branches

abbrev pub is_unset : Option String → Bool
is_unset none = true
is_unset (some token) = token == ""

abbrev pub main_with : Env → Result ℕ → Outcome
main_with env (raise e) = raised e []
main_with env (ok limit) =
    if is_unset env.token
    then raised (exit 2) (token_required ∷ [])
    else clean_up_listed env limit (listed env)

unfoldable pub main : Env → Outcome
main env = main_with env (limit_of env.now env.age)
