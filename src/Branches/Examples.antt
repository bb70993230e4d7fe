-- ===== src/Branches/Examples.antt =====
-- scripts/gitlab-branch-cleanup/main.py: a project with an old branch, a new one, and a protected
-- one.
use vagrant_portainer.Base.{
  ◌*◌, String, ◌≡◌, refl, Bool, true, false, Option, none, some, List, [], ◌∷◌, ◌++◌, map,
  if◌then◌else◌, ◌==◌,
}
use vagrant_portainer.Base.Result.{exit, Result, ok, raise, value_error}
use vagrant_portainer.Base.Text.{starts_with}
use vagrant_portainer.Branches.{
  Moment, Branch, Event, token_required, deleting, called, Env, returned, raised, day, limit_of,
  date_of, delete_branch, clean_up, listed, main,
}
use vagrant_portainer.Branches.Deleted.{stale, doomed, events, calls, announced, main-calls}
use vagrant_portainer.Branches.Finished.{main-returned}

abbrev branch : String → String → Bool → Branch
branch name created_at protected = record {
  name = name;
  created_at = some created_at;
  protected = protected;
  default = false;
}

abbrev old_branch : Branch
old_branch = branch "pr-1" "2020-01-01T00:00:00+00:00" false

abbrev branches : List Branch
branches =
    old_branch
    ∷ branch "pr-2" "2020-04-01T00:00:00+00:00" false
    ∷ branch "pr-3" "2020-01-01T00:00:00+00:00" true
    ∷ branch "v2" "2020-01-01T00:00:00+00:00" false
    ∷ []

abbrev fromisoformat : String → Result Moment
fromisoformat text =
    if text == "2020-01-01T00:00:00+00:00"
    then ok (record { at = 1000 * day; is_aware = true; isoformat = "2020-01-01" })
    else if text == "2020-04-01T00:00:00+00:00"
    then ok (record { at = 1091 * day; is_aware = true; isoformat = "2020-04-01" })
    else raise value_error

abbrev project : Bool → Option String → Env
project dry_run token = record {
  age = 30;
  prefix = "pr-";
  dry_run = dry_run;
  token = token;
  now = 1095 * day;
  fromisoformat = fromisoformat;
  auth = ok tt;
  get = ok tt;
  branches = ok branches;
  delete = λ h b. ok tt;
}

abbrev env : Env
env = project false (some "secret")

one_deleted : main env ≡ returned (deleting "pr-1" "2020-01-01" ∷ called old_branch ∷ [])
unfolding main limit_of listed clean_up date_of delete_branch starts_with
one_deleted = refl

no_token : main (project false none) ≡ raised (exit 2) (token_required ∷ [])
unfolding main limit_of
no_token = refl

main-calls_example :
    (rest : List Branch) × (calls (events (main env)) ++ rest ≡ doomed env (1065 * day) branches)
unfolding limit_of listed
main-calls_example = main-calls env (1065 * day) branches refl refl

main-returned_example :
    (h : List Event) × (main env ≡ returned h)
    × (announced h ≡ map (λ b. b.name) (stale env (1065 * day) branches))
    × (calls h ≡ doomed env (1065 * day) branches)
unfolding limit_of listed date_of
main-returned_example = main-returned env (1065 * day) branches refl refl refl refl (λ h b. refl)
