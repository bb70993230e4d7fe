-- ===== src/Kube.antt =====
-- library/kube.py: the Ansible module that runs kubectl. A command can change the cluster, so the
-- answer to a command depends on the commands before it: an action takes the commands that were run
-- and gives them back with its own. What AnsibleModule does is a parameter.
pub mod Commands
pub mod Relation
pub mod Looked
pub mod Runs
pub mod Scope
pub mod Present
pub mod Answered
mod Examples
use Prim.Native.Char.{Char, code}
use Prim.Native.String
use vagrant_portainer.Base.{
  ℕ, String, ◌≡◌, refl, Bool, true, false, not, ◌&&◌, ◌||◌, Option, none, some, List, [], ◌∷◌, ◌++◌,
  eqb, leb, ◌==◌, if◌then◌else◌,
}
use vagrant_portainer.Base.Text.{◌⧺◌, push, strip, join}
use vagrant_portainer.Base.Text.Decimal.{show}
use vagrant_portainer.Kube.Commands.{
  ◌>>=◌, Command, Module, End, fail_json, exit_json, Outcome, returned, ended, Action, pure,
  end_with, flag_if, KubeManager, kube_manager, execute, execute_nofail, is_empty, recursive_flag,
  filename_flag, target, or_fail, has_lines,
}

unfoldable pub exists : Module → KubeManager → Action Bool
exists m k = do
  args ← or_fail "resource required without filename" (target k (flag_if k.all "--all-namespaces"))
  result ← execute_nofail m k ("get" ∷ args ++ "--no-headers" ∷ [])
  pure (has_lines result)

unfoldable pub create : Module → KubeManager → Bool → Bool → Action (List String)
create m k check force = do
  there ← if check then exists m k else pure false
  if there then pure [] else (do
    filename ←
        or_fail "filename required to create"
          (if is_empty k.filename then none else some (filename_flag k))
    execute m k (
        "apply" ∷ flag_if force "--force"
        ++ flag_if k.wait "--wait"
        ++ recursive_flag k
        ++ filename ∷ []))

unfoldable pub replace : Module → KubeManager → Bool → Action (List String)
replace m k force = do
  filename ←
      or_fail "filename required to reload"
        (if is_empty k.filename then none else some (filename_flag k))
  execute m k (
      "apply" ∷ flag_if force "--force"
      ++ flag_if k.wait "--wait"
      ++ recursive_flag k
      ++ filename ∷ [])

-- `not self.force and not self.exists()`, turned around
abbrev pub goes_on : Module → KubeManager → Action Bool
goes_on m k = if k.force then pure true else exists m k

unfoldable pub delete : Module → KubeManager → Action (List String)
delete m k = do
  there ← goes_on m k
  if there
      then (do
        args ← or_fail "resource required to delete without filename" (
            target k
              (flag_if k.all "--all" ++ flag_if k.force "--ignore-not-found" ++ recursive_flag k))
        execute m k ("delete" ∷ args))
      else pure []

unfoldable pub stop : Module → KubeManager → Action (List String)
stop m k = do
  there ← goes_on m k
  if there
      then (do
        args ←
            or_fail "resource required to stop without filename"
              (target k (flag_if k.all "--all" ++ flag_if k.force "--ignore-not-found"))
        execute m k ("stop" ∷ args))
      else pure []

-- `'%s' % result` of a Boolean
abbrev pub show_bool : Bool → String
show_bool true = "True"
show_bool false = "False"

abbrev pub success : List String → Action End
success result = pure (exit_json false ("success: " ⧺ join " " result))

-- The states of `main`, each with what it ends with.
abbrev pub run_state : Module → KubeManager → String → Action End
run_state m k state =
    if state == "present"
    then create m k false true >>= success
    else if state == "absent"
    then delete m k >>= success
    else if state == "reloaded"
    then replace m k true >>= success
    else if state == "stopped"
    then stop m k >>= success
    else if state == "latest"
    then replace m k true >>= success
    else if state == "exists"
    then exists m k >>= (λ result. pure (exit_json false (show_bool result)))
    else end_with (fail_json ("Unrecognized state " ⧺ state ⧺ "."))

-- The end, and the commands in order.
abbrev finished : Outcome End → End × List Command
finished (returned e h) = (e, h)
finished (ended e h) = (e, h)

unfoldable pub main : Module → End × List Command
main m = finished ((kube_manager m >>= λ k. run_state m k m.params.state) [])
