-- ===== src/Kube/Relation.antt =====
-- library/kube.py: what a run of the module may do, as a relation on its commands and its end.
use vagrant_portainer.Base.{
  ℕ, suc, String, ◌≡◌, refl, Bool, true, false, not, ◌&&◌, ◌||◌, Option, none, some, List, [], ◌∷◌,
  ◌++◌, arith, eq_iff, eqb, ◌==◌, if◌then◌else◌, Bool-cases, ◌⊎◌, inl, inr,
}
use vagrant_portainer.Base.Text.{◌⧺◌, join}
use vagrant_portainer.Base.Text.Decimal.{show}
use vagrant_portainer.Kube.{show_bool}
use vagrant_portainer.Kube.Commands.{
  Command, Reply, completed, raised, Params, Module, End, fail_json, exit_json, uncaught,
  splitlines, argument, KubeManager, is_missing, is_empty, target, filename_flag, recursive_flag,
  file_names,
}

-- The program of the module: the parameter, or else the one that is found.
abbrev pub path_by : Option String → Option String → Option String
path_by (some path) found = some path
path_by none found = found

abbrev pub program : Module → Option String
program m = path_by m.params.kubectl (m.get_bin_path "kubectl")

-- The states that look for the resource before they change it, unless they are forced.
abbrev pub asks_first : Params → Bool
asks_first p = (p.state == "absent" || p.state == "stopped") && not p.force

-- A reply to `get` that says that the resource is there: no failure, and at least one line.
abbrev pub is_found : Reply → Bool
is_found (raised exc) = false
is_found (completed rc out err) = eqb rc 0 && not (is_empty (splitlines out))

-- The verb of a state that changes something.
abbrev pub verb : String → Option String
verb state =
    if state == "absent"
    then some "delete"
    else if state == "stopped"
    then some "stop"
    else if state == "present" || state == "latest" || state == "reloaded"
    then some "apply"
    else none

-- A reply with return code 0.
abbrev pub is_success : Reply → Bool
is_success (raised exc) = false
is_success (completed rc out err) = eqb rc 0

-- An argument for a parameter that is given and not empty.
abbrev pub given : String → Option String → List String
given flag none = []
given flag (some value) = if value == "" then [] else (flag ⧺ value) ∷ []

-- The arguments that each command has before its verb: server, verbosity and namespace.
abbrev pub flags : Params → List String
flags p =
    given "--server=" p.server
    ++ (if eqb p.log_level 0 then [] else ("--v=" ⧺ show p.log_level) ∷ [])
    ++ given "--namespace=" p.namespace

-- The state has what it acts on: files for the states that apply them, files or a resource for the
-- others.
abbrev pub needs : String → Bool → Bool → Bool
needs state files target' =
    if state == "present" || state == "latest" || state == "reloaded"
    then files
    else (state == "absent" || state == "stopped" || state == "exists") && target'

abbrev pub has_target : Params → Bool
has_target p = not (is_empty (file_names p.filename)) || not (is_missing p.resource)

abbrev pub is_given : Params → Bool
is_given p = needs p.state (not (is_empty (file_names p.filename))) (has_target p)

pub eqb-suc : (n : ℕ) → eqb (suc n) 0 ≡ false
eqb-suc n = ground arith

module _ (k : KubeManager) (more : List String) where
  pub by_files :
      is_empty k.filename ≡ false → target k more ≡ some (filename_flag k ∷ recursive_flag k)
  by_files e = rw e refl

  pub no_target : is_empty k.filename ≡ true → is_missing k.resource ≡ true → target k more ≡ none
  no_target e f = rw (e, f) refl

  pub by_resource :
      is_empty k.filename ≡ true
      → is_missing k.resource ≡ false
      → target k more
        ≡ some
            (argument "" k.resource ++ argument "" k.name ++ argument "--selector=" k.label ++ more)
  by_resource e f = rw (e, f) refl

-- The arguments of a target are there for every use of it, or for none.
pub target-cases :
    (k : KubeManager)
    → (((not (is_empty k.filename) || not (is_missing k.resource)) ≡ false)
        × ((more : List String) → target k more ≡ none))
      ⊎ (((not (is_empty k.filename) || not (is_missing k.resource)) ≡ true)
          × ((more : List String) → (args : List String) × (target k more ≡ some args)))
target-cases k = elim (Bool-cases (is_empty k.filename)) [
  | inr files ↦ inr (rw files refl, λ more. (_, by_files k more files))
  | inl no_files ↦ elim (Bool-cases (is_missing k.resource)) [
    | inl none' ↦ inl (rw (no_files, none') refl, λ more. no_target k more no_files none')
    | inr there ↦ inr (rw (no_files, there) refl, λ more. (_, by_resource k more no_files there))
  ]
]

pub to_equal : {s t : String} → (s == t) ≡ true → s ≡ t
to_equal {s = s} {t = t} e = (eq_iff s t).0 e

module _ (m : Module) (path : String) where
  abbrev pub full : String → List String → Command
  full v args = path ∷ (flags m.params ++ v ∷ args)

  -- The commands before a change: none, or a `get` that found the resource.
  pub data Ready : List Command → Type 0 where
    unasked : asks_first m.params ≡ false → Ready []
    found :
        (args : List String)
        → asks_first m.params ≡ true
        → is_found (m.run_command [] (full "get" args)) ≡ true
        → Ready (full "get" args ∷ [])

  -- What a run may do: its commands in order, and how it ends.
  pub data IsRun : List Command → End → Type 0 where
    refused : (msg : String) → is_given m.params ≡ false → IsRun [] (fail_json msg)
    broken :
        (args : List String) (exc : String)
        → m.run_command [] (full "get" args) ≡ raised exc
        → is_given m.params ≡ true
        → IsRun (full "get" args ∷ []) (uncaught exc)
    looked :
        (args : List String) (rc : ℕ) (out err : String) (there : Bool)
        → m.params.state ≡ "exists"
        → m.run_command [] (full "get" args) ≡ completed rc out err
        → is_found (completed rc out err) ≡ there
        → is_given m.params ≡ true
        → IsRun (full "get" args ∷ []) (exit_json false (show_bool there))
    missing :
        (args : List String) (rc : ℕ) (out err : String)
        → asks_first m.params ≡ true
        → m.run_command [] (full "get" args) ≡ completed rc out err
        → is_found (completed rc out err) ≡ false
        → is_given m.params ≡ true
        → IsRun (full "get" args ∷ []) (exit_json false "success: ")
    done :
        (before : List Command) (v : String) (args : List String) (out err : String)
        → Ready before
        → verb m.params.state ≡ some v
        → m.run_command before (full v args) ≡ completed 0 out err
        → is_given m.params ≡ true
        → IsRun
            (before ++ full v args ∷ [])
            (exit_json false ("success: " ⧺ join " " (splitlines out)))
    failed :
        (before : List Command) (v : String) (args : List String) (reply : Reply) (msg : String)
        → Ready before
        → verb m.params.state ≡ some v
        → m.run_command before (full v args) ≡ reply
        → is_success reply ≡ false
        → is_given m.params ≡ true
        → IsRun (before ++ full v args ∷ []) (fail_json msg)
