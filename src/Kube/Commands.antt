-- ===== src/Kube/Commands.antt =====
-- library/kube.py: the parameters, actions, KubeManager and its commands, up to the first that
-- asks.
use Prim.Native.Char.{Char, code}
use vagrant_portainer.Base.{
  ℕ, String, Bool, true, false, not, ◌&&◌, ◌||◌, Option, none, some, List, [], ◌∷◌, ◌++◌, eqb, leb,
  ◌==◌, if◌then◌else◌,
}
use vagrant_portainer.Base.Text.{◌⧺◌, push, strip, join}
use vagrant_portainer.Base.Text.Decimal.{show}

abbrev pub Command : Type 0
Command = List String

-- What `run_command` gives: return code, output and errors, or the text of an exception. Return
-- codes are natural numbers.
pub data Reply : Type 0 where
  completed : ℕ → String → String → Reply
  raised : String → Reply

-- `module.params`, as AnsibleModule has read them by `argument_spec`
pub record Params : Type 0 where
  pub name : Option String
  pub filename : Option (List String)
  pub namespace : Option String
  pub resource : Option String
  pub label : Option String
  pub server : Option String
  pub kubectl : Option String
  pub force : Bool
  pub wait : Bool
  pub all : Bool
  pub log_level : ℕ
  pub state : String
  pub recursive : Bool

-- The AnsibleModule: `get_bin_path` is `none` where it does not find the program and fails, and
-- `run_command` answers by the commands that were run before.
pub record Module : Type 0 where
  pub params : Params
  pub get_bin_path : String → Option String
  pub run_command : List Command → Command → Reply

-- How the module ends: `fail_json`, `exit_json` with `changed` and `msg`, or an exception.
pub data End : Type 0 where
  fail_json : String → End
  exit_json : Bool → String → End
  uncaught : String → End

-- What an action does: it returns, or it ends the module; with all commands that were run.
pub data Outcome {ℓ} (A : Type ℓ) : Type ℓ where
  returned : A → List Command → Outcome A
  ended : End → List Command → Outcome A

abbrev pub Action {ℓ} : Type ℓ → Type ℓ
Action A = List Command → Outcome A

abbrev pub continue {ℓ κ} : {A : Type ℓ} {B : Type κ} → Outcome A → (A → Action B) → Outcome B
continue (returned a h) f = f a h
continue (ended e h) f = ended e h

infixl 5 ◌>>=◌
abbrev pub ◌>>=◌ {ℓ κ} : {A : Type ℓ} {B : Type κ} → Action A → (A → Action B) → Action B
(m >>= f) h = continue (m h) f

abbrev pub pure {ℓ} : {A : Type ℓ} → A → Action A
pure a h = returned a h

abbrev pub end_with {ℓ} : {A : Type ℓ} → End → Action A
end_with e h = ended e h

-- A character that ends a line for `splitlines`.
abbrev ends_line : Char → Bool
ends_line c =
    (leb 10 (code c) && leb (code c) 13)
    || (leb 28 (code c) && leb (code c) 30)
    || eqb (code c) 133
    || eqb (code c) 8232
    || eqb (code c) 8233

-- `out.splitlines()`: whether a carriage return is before, whether a line is begun, and the line.
unfoldable lines_from : Bool → Bool → String → String → List String
lines_from after_return begun line String.[] = if begun then line ∷ [] else []
lines_from after_return begun line (String.◌∷◌ c s) =
    let skipped = after_return && eqb (code c) 10 in
    let closes = ends_line c in
    let rest =
      lines_from (not skipped && eqb (code c) 13) (not closes) (if closes then "" else push line c)
        s in
    if closes && not skipped then line ∷ rest else rest

unfoldable pub splitlines : String → List String
unfolding lines_from
splitlines out = lines_from false false "" out

-- An argument that is given only where the parameter is there and not empty.
abbrev pub argument : String → Option String → List String
argument flag none = []
argument flag (some s) = if s == "" then [] else (flag ⧺ s) ∷ []

abbrev pub flag_if : Bool → String → List String
flag_if b flag = if b then flag ∷ [] else []

-- The attributes of the class.
pub record KubeManager : Type 0 where
  pub base_cmd : Command
  pub all : Bool
  pub force : Bool
  pub wait : Bool
  pub name : Option String
  pub filename : List String
  pub resource : Option String
  pub label : Option String
  pub recursive : Bool

abbrev pub stripped : List String → List String
stripped [] = []
stripped (f ∷ fs) = strip f ∷ stripped fs

abbrev pub file_names : Option (List String) → List String
file_names none = []
file_names (some fs) = stripped fs

-- The arguments of `base_cmd` after the program.
abbrev pub base_flags : Params → List String
base_flags p =
    argument "--server=" p.server
    ++ (if eqb p.log_level 0 then [] else ("--v=" ⧺ show p.log_level) ∷ [])
    ++ argument "--namespace=" p.namespace

abbrev pub manager_at : Params → String → KubeManager
manager_at p kubectl = record {
  base_cmd = kubectl ∷ base_flags p;
  all = p.all;
  force = p.force;
  wait = p.wait;
  name = p.name;
  filename = file_names p.filename;
  resource = p.resource;
  label = p.label;
  recursive = p.recursive;
}

-- The path of the parameter, or else the one that `get_bin_path` finds.
abbrev pub manager_by : Params → Option String → Option String → Action KubeManager
manager_by p (some path) _ = pure (manager_at p path)
manager_by p none (some path) = pure (manager_at p path)
manager_by p none none = end_with (fail_json "Failed to find required executable kubectl")

-- `KubeManager(module)`
abbrev pub kube_manager : Module → Action KubeManager
kube_manager m = manager_by m.params m.params.kubectl (m.get_bin_path "kubectl")

-- What `_execute` does with a reply: a failure ends the module.
abbrev pub answered : Command → Reply → Action (List String)
answered args (raised exc) =
    end_with (fail_json ("error running kubectl (" ⧺ join " " args ⧺ ") command: " ⧺ exc))
answered args (completed rc out err) =
    if eqb rc 0
    then pure (splitlines out)
    else end_with (
        fail_json (
          "error running kubectl ("
          ⧺ join " " args
          ⧺ ") command (rc="
          ⧺ show rc
          ⧺ "), out='"
          ⧺ out
          ⧺ "', err='"
          ⧺ err
          ⧺ "'"))

-- `_execute`
abbrev pub execute : Module → KubeManager → Command → Action (List String)
execute m k cmd h =
    let args = k.base_cmd ++ cmd in answered args (m.run_command h args) (h ++ args ∷ [])

-- What `_execute_nofail` does with a reply: an exception is not caught.
abbrev pub answered_nofail : Reply → Action (Option (List String))
answered_nofail (raised exc) = end_with (uncaught exc)
answered_nofail (completed rc out err) = pure (if eqb rc 0 then some (splitlines out) else none)

-- `_execute_nofail`
abbrev pub execute_nofail : Module → KubeManager → Command → Action (Option (List String))
execute_nofail m k cmd h =
    let args = k.base_cmd ++ cmd in answered_nofail (m.run_command h args) (h ++ args ∷ [])

abbrev pub is_empty : List String → Bool
is_empty [] = true
is_empty (f ∷ fs) = false

-- A parameter that is null or the empty text.
abbrev pub is_missing : Option String → Bool
is_missing none = true
is_missing (some s) = s == ""

abbrev pub recursive_flag : KubeManager → List String
recursive_flag k = flag_if k.recursive "--recursive=True"

abbrev pub filename_flag : KubeManager → String
filename_flag k = "--filename=" ⧺ join "," k.filename

-- The arguments that `get`, `delete` and `stop` share: files, or else a resource with a name and a
-- label, where `more` are the arguments that only the second form has. `none` without a resource.
abbrev pub target : KubeManager → List String → Option (List String)
target k more =
    if is_empty k.filename
    then (if is_missing k.resource
        then none
        else some (
            argument "" k.resource ++ argument "" k.name ++ argument "--selector=" k.label ++ more))
    else some (filename_flag k ∷ recursive_flag k)

-- The list of an action that needs one, or else `fail_json`.
abbrev pub or_fail {ℓ} : {A : Type ℓ} → String → Option A → Action A
or_fail msg none = end_with (fail_json msg)
or_fail msg (some a) = pure a

-- `not result`, turned around
abbrev pub has_lines : Option (List String) → Bool
has_lines none = false
has_lines (some lines) = not (is_empty lines)
