-- ===== src/Kube/Answered.antt =====
-- library/kube.py where kubectl answers every command without a failure.
use vagrant_portainer.Base.{
  String, ◌≡◌, refl, ap, ◌∙◌, Bool, true, false, not, ◌&&◌, ◌||◌, Option, none, some, List, [], ◌∷◌,
  ◌++◌, arith, ◌==◌, if◌then◌else◌, Bool-cases, inl, inr,
}
use vagrant_portainer.Kube.{
  exists, create, replace, goes_on, delete, stop, show_bool, success, run_state, main,
}
use vagrant_portainer.Kube.Commands.{
  recursive_flag, Command, Reply, completed, raised, Module, End, exit_json, returned, Action,
  continue, ◌>>=◌, pure, KubeManager, manager_at, is_missing, answered, execute, answered_nofail,
  execute_nofail, is_empty, target, or_fail, flag_if, filename_flag, has_lines, splitlines,
}
use vagrant_portainer.Kube.Relation.{program, is_success, is_given, by_files, by_resource}
use vagrant_portainer.Kube.Runs.{manager_by-found}

-- The action returns, whatever was run before.
record Answers {ℓ} {A : Type ℓ} (a : Action A) : Type ℓ where
  at : (h : List Command) → (v : A) × (h' : List Command) × (a h ≡ returned v h')

-- The action returns an end with success.
record Exits (a : Action End) : Type 0 where
  at :
      (h : List Command)
      → (msg : String) × (h' : List Command) × (a h ≡ returned (exit_json false msg) h')

module _ {ℓ} {A : Type ℓ} where
  pure-Answers : (v : A) → Answers (pure v)
  pure-Answers v = record { at = λ h. (v, h, refl) }

  Answers-if : (b : Bool) (x y : Action A) → Answers x → Answers y → Answers (if b then x else y)
  Answers-if true x y f g = f
  Answers-if false x y f g = g

  Answers-bind {κ} :
      {B : Type κ} (x : Action B) (f : B → Action A)
      → Answers x
      → ((v : B) → Answers (f v))
      → Answers (x >>= f)
  Answers-bind x f a g = record {
    at = λ h.
        let (v, h', e) = a.at h in
        let (u, h'', e') = (g v).at h' in (u, h'', ap (λ o. continue o f) e ∙ e');
  }

  or_fail-Answers : (msg : String) (o : Option A) (v : A) → o ≡ some v → Answers (or_fail msg o)
  or_fail-Answers msg none v e = absurd cc
  or_fail-Answers msg (some u) v e = pure-Answers u

  Exits-bind :
      (x : Action A) (f : A → Action End) → Answers x → ((v : A) → Exits (f v)) → Exits (x >>= f)
  Exits-bind x f a g = record {
    at = λ h.
        let (v, h', e) = a.at h in
        let (msg, h'', e') = (g v).at h' in (msg, h'', ap (λ o. continue o f) e ∙ e');
  }

success-Exits : (lines : List String) → Exits (success lines)
success-Exits lines = record { at = λ h. (_, h, refl) }

module _ (m : Module)
    (replies : (h : List Command) → (c : Command) → is_success (m.run_command h c) ≡ true)
    (k : KubeManager) where
  answered-Answers : (args : Command) (r : Reply) → is_success r ≡ true → Answers (answered args r)
  answered-Answers args (raised exc) s = absurd cc
  answered-Answers args (completed rc out err) s = rw s (pure-Answers (splitlines out))

  answered_nofail-Answers : (r : Reply) → is_success r ≡ true → Answers (answered_nofail r)
  answered_nofail-Answers (raised exc) s = absurd cc
  answered_nofail-Answers (completed rc out err) s = pure-Answers _

  execute-Answers : (cmd : Command) → Answers (execute m k cmd)
  execute-Answers cmd = record {
    at = λ h.
        (answered-Answers (k.base_cmd ++ cmd) (m.run_command h (k.base_cmd ++ cmd))
            (replies h (k.base_cmd ++ cmd))).at
          (h ++ (k.base_cmd ++ cmd) ∷ []);
  }

  execute_nofail-Answers : (cmd : Command) → Answers (execute_nofail m k cmd)
  execute_nofail-Answers cmd = record {
    at = λ h.
        (answered_nofail-Answers (m.run_command h (k.base_cmd ++ cmd))
            (replies h (k.base_cmd ++ cmd))).at
          (h ++ (k.base_cmd ++ cmd) ∷ []);
  }

  -- Files, or a resource.
  target-there :
      (more : List String)
      → (not (is_empty k.filename) || not (is_missing k.resource)) ≡ true
      → (args : List String) × (target k more ≡ some args)
  target-there more t = elim (Bool-cases (is_empty k.filename)) [
    | inr files ↦ (_, by_files k more files)
    | inl no_files ↦
        let resource : is_missing k.resource ≡ false = ground arith in
        (_, by_resource k more no_files resource)
  ]

  exists-Answers :
      (not (is_empty k.filename) || not (is_missing k.resource)) ≡ true → Answers (exists m k)
  unfolding exists
  exists-Answers t =
      let (args, e) = target-there (flag_if k.all "--all-namespaces") t in
      Answers-bind _ _ (or_fail-Answers _ _ args e) λ found.
        Answers-bind _ _ (execute_nofail-Answers _) λ result. pure-Answers (has_lines result)

  apply-Answers :
      (force : Bool) (msg : String)
      → is_empty k.filename ≡ false
      → Answers (
          or_fail msg (if is_empty k.filename then none else some (filename_flag k)) >>= λ f.
          execute m k (
            "apply" ∷ flag_if force "--force"
            ++ flag_if k.wait "--wait"
            ++ recursive_flag k
            ++ f ∷ []))
  apply-Answers force msg files =
      Answers-bind _ _ (or_fail-Answers msg _ (filename_flag k) (rw files refl))
        λ filename. execute-Answers _

  -- What `delete` and `stop` share: the question, unless it is forced, and then the change.
  guarded-Answers :
      (msg verb : String) (more : List String)
      → (not (is_empty k.filename) || not (is_missing k.resource)) ≡ true
      → Answers (
          goes_on m k >>= λ there.
          if there
          then (or_fail msg (target k more) >>= λ args. execute m k (verb ∷ args))
          else pure [])
  guarded-Answers msg verb more t =
      let (args, e) = target-there more t in
      Answers-bind _ _ (Answers-if k.force _ _ (pure-Answers true) (exists-Answers t)) λ there.
        Answers-if there _ _
          (Answers-bind _ _ (or_fail-Answers msg _ args e) λ found. execute-Answers _)
          (pure-Answers [])

  -- The files and the resource are what the state needs.
  abbrev suits : String → Bool
  suits state =
      if state == "present" || state == "latest" || state == "reloaded"
      then not (is_empty k.filename)
      else (state == "absent" || state == "stopped" || state == "exists")
        && (not (is_empty k.filename) || not (is_missing k.resource))

  Exits-if :
      (b : Bool) (x y : Action End)
      → (b ≡ true → Exits x)
      → (b ≡ false → Exits y)
      → Exits (if b then x else y)
  Exits-if true x y f g = f refl
  Exits-if false x y f g = g refl

  run_state-Exits : (state : String) → suits state ≡ true → Exits (run_state m k state)
  unfolding create replace delete stop
  run_state-Exits state n =
      Exits-if (state == "present") _ _
        (λ p. Exits-bind _ _ (apply-Answers true _ (ground arith)) success-Exits)
        λ not_present.
          Exits-if (state == "absent") _ _
            (λ p. Exits-bind _ _ (guarded-Answers _ "delete" _ (ground arith)) success-Exits)
            λ not_absent.
              Exits-if (state == "reloaded") _ _
                (λ p. Exits-bind _ _ (apply-Answers true _ (ground arith)) success-Exits)
                λ not_reloaded.
                  Exits-if (state == "stopped") _ _
                    (λ p. Exits-bind _ _ (guarded-Answers _ "stop" _ (ground arith)) success-Exits)
                    λ not_stopped.
                      Exits-if (state == "latest") _ _
                        (λ p. Exits-bind _ _ (apply-Answers true _ (ground arith)) success-Exits)
                        λ not_latest.
                          Exits-if (state == "exists") _ _
                            (λ p.
                              Exits-bind _ _ (exists-Answers (ground arith))
                                (λ r. record { at = λ h. (show_bool r, h, refl) }))
                            λ not_exists. absurd (ground arith)

-- Where kubectl is found, every command is answered with return code 0, and the state has what it
-- acts on, the module ends with success: it neither fails nor raises an exception, and reports no
-- change.
pub main-exits :
    (m : Module) (path : String)
    → program m ≡ some path
    → ((h : List Command) → (c : Command) → is_success (m.run_command h c) ≡ true)
    → is_given m.params ≡ true
    → (msg : String) × ((main m).0 ≡ exit_json false msg)
unfolding main
main-exits m path found replies given =
    let k = manager_at m.params path in
    let (msg, h, e) = (run_state-Exits m replies k m.params.state given).at [] in
    (msg, rw (manager_by-found m path _ _ found, e) refl)
