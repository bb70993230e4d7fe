-- ===== src/Kube/Runs.antt =====
-- library/kube.py: a run of the module does no more than the relation on runs allows.
use vagrant_portainer.Base.{
  arith, zero, suc, String, ◌≡◌, refl, Bool, true, false, not, ◌&&◌, ◌||◌, Option, none, some, List,
  [], ◌∷◌, ◌++◌, ap, ◌∙◌, ◌==◌, if◌then◌else◌, inl, inr,
}
use vagrant_portainer.Base.Dict.{is_some}
use vagrant_portainer.Base.Text.{join}
use vagrant_portainer.Kube.{
  exists, create, replace, goes_on, delete, stop, show_bool, success, run_state, finished, main,
}
use vagrant_portainer.Kube.Commands.{
  is_empty, file_names, filename_flag, Command, Reply, completed, raised, Module, End, exit_json,
  Outcome, returned, Action, continue, ◌>>=◌, pure, KubeManager, manager_at, manager_by, answered,
  execute, target, recursive_flag, flag_if, or_fail,
}
use vagrant_portainer.Kube.Relation.{
  is_given, has_target, needs, program, path_by, asks_first, is_found, verb, eqb-suc, target-cases,
  to_equal, full, Ready, unasked, found, IsRun, refused, broken, looked, missing, done, failed,
}
use vagrant_portainer.Kube.Looked.{Looked, bad, threw, saw, exists-Looked}

some-injective : {s t : String} → some s ≡ some t → s ≡ t
some-injective e = cc

module _ (m : Module) (path : String) where
  -- The relation on what an action of the module does.
  abbrev Runs : Outcome End → Type 0
  Runs o = IsRun m path (finished o).1 (finished o).0

  abbrev k : KubeManager
  k = manager_at m.params path

  answered-Runs :
      (before : List Command) (v : String) (args : List String) (reply : Reply)
      → Ready m path before
      → verb m.params.state ≡ some v
      → m.run_command before (full m path v args) ≡ reply
      → is_given m.params ≡ true
      → Runs (
          continue
            (answered (full m path v args) reply (before ++ full m path v args ∷ []))
            success)
  answered-Runs before v args (raised exc) r n e g = failed before v args _ _ r n e refl g
  answered-Runs before v args (completed zero out err) r n e g = done before v args out err r n e g
  answered-Runs before v args (completed (suc rc) out err) r n e g =
      rw (eqb-suc rc)
        (failed before v args (completed (suc rc) out err) _ r n e (rw (eqb-suc rc) refl) g)

  execute-Runs :
      (before : List Command) (v : String) (args : List String)
      → Ready m path before
      → verb m.params.state ≡ some v
      → is_given m.params ≡ true
      → Runs (continue (execute m k (v ∷ args) before) success)
  execute-Runs before v args r n g = answered-Runs before v args _ r n refl g

  exists_only-Runs :
      (o : Outcome Bool)
      → Looked m path o
      → m.params.state ≡ "exists"
      → is_given m.params ≡ has_target m.params
      → Runs (continue o (λ result. pure (exit_json false (show_bool result))))
  exists_only-Runs _ (bad msg t) e n = refused msg (n ∙ t)
  exists_only-Runs _ (threw args exc e' t) e n = broken args exc e' (n ∙ t)
  exists_only-Runs _ (saw args rc out err there e' f t) e n =
      looked args rc out err there e e' f (n ∙ t)

  -- A change that waits for `exists`: `change` is what follows where the resource is there.
  waiting-Runs :
      (o : Outcome Bool) (change : Action (List String))
      → Looked m path o
      → asks_first m.params ≡ true
      → is_given m.params ≡ has_target m.params
      → ((before : List Command) → Ready m path before → Runs (continue (change before) success))
      → Runs (continue (continue o (λ there. if there then change else pure [])) success)
  unfolding join
  waiting-Runs _ change (bad msg t) a n c = refused msg (n ∙ t)
  waiting-Runs _ change (threw args exc e t) a n c = broken args exc e (n ∙ t)
  waiting-Runs _ change (saw args rc out err true e f t) a n c =
      c (full m path "get" args ∷ []) (found args a (ap is_found e ∙ f))
  waiting-Runs _ change (saw args rc out err false e f t) a n c =
      missing args rc out err a e f (n ∙ t)

  -- A change whose arguments are there.
  change-Runs :
      (args : Option (List String)) (msg v : String)
      → verb m.params.state ≡ some v
      → is_given m.params ≡ true
      → (a : List String) × (args ≡ some a)
      → (before : List Command) → Ready m path before
      → Runs (continue ((or_fail msg args >>= λ a. execute m k (v ∷ a)) before) success)
  change-Runs args msg v e g (a, there) before r = rw there (execute-Runs before v a r e g)

  -- `delete` and `stop`, where `force` is the parameter.
  guarded_if-Runs :
      (force : Bool) (msg v : String) (more : List String)
      → verb m.params.state ≡ some v
      → asks_first m.params ≡ not force
      → is_given m.params ≡ has_target m.params
      → Runs (
          continue
            (((if force then pure true else exists m k) >>= λ there.
                if there
                then (or_fail msg (target k more) >>= λ a. execute m k (v ∷ a))
                else pure [])
              [])
            success)
  unfolding exists
  guarded_if-Runs true msg v more e asks n = elim (target-cases k) [
    | inl (lacks, nothing) ↦ rw (nothing more) (refused _ (n ∙ lacks))
    | inr (has, target') ↦
        change-Runs (target k more) msg v e (n ∙ has) (target' more) [] (unasked asks)
  ]
  guarded_if-Runs false msg v more e asks n = elim (target-cases k) [
    | inl (lacks, nothing) ↦ rw (nothing (flag_if k.all "--all-namespaces")) (refused _ (n ∙ lacks))
    | inr (has, target') ↦
        waiting-Runs _ _ (exists-Looked m path) asks n
          (change-Runs (target k more) msg v e (n ∙ has) (target' more))
  ]

  -- `create` without a check, and `replace`
  apply-Runs :
      (force : Bool) (msg : String) (filename : Option String)
      → verb m.params.state ≡ some "apply"
      → asks_first m.params ≡ false
      → is_given m.params ≡ is_some filename
      → Runs (
          continue
            ((or_fail msg filename >>= λ f. execute m k (
                "apply" ∷ flag_if force "--force"
                ++ flag_if k.wait "--wait"
                ++ recursive_flag k
                ++ f ∷ []))
              [])
            success)
  apply-Runs force msg none e asks g = refused msg g
  apply-Runs force msg (some f) e asks g = execute-Runs [] "apply" _ (unasked asks) e g

  abbrev has_files : Bool
  has_files = not (is_empty (file_names m.params.filename))

  given_for :
      {state : String}
      → m.params.state ≡ state
      → is_given m.params ≡ needs state has_files (has_target m.params)
  given_for e = ap (λ s. needs s has_files (has_target m.params)) e

  files_there : (b : Bool) → not b ≡ is_some (if b then none else some (filename_flag k))
  files_there true = refl
  files_there false = refl

  -- Not one of the states that ask.
  no_question :
      {state : String}
      → m.params.state ≡ state
      → (state == "absent" || state == "stopped") ≡ false
      → asks_first m.params ≡ false
  no_question e f =
      ap (λ s. (s == "absent" || s == "stopped") && not m.params.force) e
      ∙ ap (λ b. b && not m.params.force) f

  if-Runs :
      (b : Bool) (x y : Action End)
      → (b ≡ true → Runs (x []))
      → (b ≡ false → Runs (y []))
      → Runs ((if b then x else y) [])
  if-Runs true x y t f = t refl
  if-Runs false x y t f = f refl

  -- One state of `main`, with what its name says.
  applies :
      (name msg : String)
      → m.params.state ≡ name
      → verb name ≡ some "apply"
      → (name == "absent" || name == "stopped") ≡ false
      → needs name has_files (has_target m.params) ≡ has_files
      → Runs (
          continue
            ((or_fail msg (if is_empty k.filename then none else some (filename_flag k)) >>= λ f.
                execute m k (
                  "apply" ∷ flag_if true "--force"
                  ++ flag_if k.wait "--wait"
                  ++ recursive_flag k
                  ++ f ∷ []))
              [])
            success)
  applies name msg e v n g =
      apply-Runs true msg _ (ap verb e ∙ v) (no_question e n)
        (given_for e ∙ g ∙ files_there (is_empty k.filename))

  guarded :
      (name v msg : String) (more : List String)
      → m.params.state ≡ name
      → verb name ≡ some v
      → (name == "absent" || name == "stopped") ≡ true
      → needs name has_files (has_target m.params) ≡ has_target m.params
      → Runs (
          continue
            ((goes_on m k >>= λ there.
                if there
                then (or_fail msg (target k more) >>= λ a. execute m k (v ∷ a))
                else pure [])
              [])
            success)
  guarded name v msg more e same asks n =
      guarded_if-Runs m.params.force msg v more (ap verb e ∙ same)
        (ap (λ s. (s == "absent" || s == "stopped") && not m.params.force) e
          ∙ ap (λ b. b && not m.params.force) asks)
        (given_for e ∙ n)

  run_state-Runs : (state : String) → m.params.state ≡ state → Runs (run_state m k state [])
  unfolding create replace delete stop
  run_state-Runs state e =
      if-Runs (state == "present") _ _ (λ p. applies "present" _ (e ∙ to_equal p) refl refl refl)
        λ not_present.
          if-Runs (state == "absent") _ _
            (λ p. guarded "absent" "delete" _ _ (e ∙ to_equal p) refl refl refl)
            λ not_absent.
              if-Runs (state == "reloaded") _ _
                (λ p. applies "reloaded" _ (e ∙ to_equal p) refl refl refl)
                λ not_reloaded.
                  if-Runs (state == "stopped") _ _
                    (λ p. guarded "stopped" "stop" _ _ (e ∙ to_equal p) refl refl refl)
                    λ not_stopped.
                      if-Runs (state == "latest") _ _
                        (λ p. applies "latest" _ (e ∙ to_equal p) refl refl refl)
                        λ not_latest.
                          if-Runs (state == "exists") _ _
                            (λ p.
                              exists_only-Runs _ (exists-Looked m path) (e ∙ to_equal p)
                                (given_for (e ∙ to_equal p)))
                            λ not_exists. refused _ (given_for e ∙ ground arith)

  pub manager_by-found :
      (given in_path : Option String)
      → path_by given in_path ≡ some path
      → manager_by m.params given in_path [] ≡ returned k []
  manager_by-found (some p) in_path e =
      ap (λ q. returned (manager_at m.params q) []) (some-injective e)
  manager_by-found none (some p) e =
      ap (λ q. returned (manager_at m.params q) []) (some-injective e)
  manager_by-found none none e = absurd cc

-- Where kubectl is found, a run of the module is one of these. Without what the state acts on, which
-- is files for the states that apply them and files or a resource for "absent", "stopped" and
-- "exists", or with another state, it fails before any command. Else the state "exists" only asks; "absent" and "stopped", unless forced, ask first, change
-- something only if `get` succeeds with at least one line, and else succeed; every other end with
-- success is after one change that was answered with return code 0, and a change that was not ends
-- in `fail_json`. Only an exception of the first `get` is not caught. Every command has the
-- arguments for server, verbosity and namespace before its verb, no run has more than two commands,
-- and none reports `changed`.
pub main-IsRun :
    (m : Module) (path : String) → program m ≡ some path → IsRun m path (main m).1 (main m).0
unfolding main
main-IsRun m path e = rw (manager_by-found m path _ _ e) (run_state-Runs m path m.params.state refl)
