-- ===== src/Kube/Examples.antt =====
-- Runs of the model of library/kube.py, and its theorems at inputs that meet their hypotheses.
use vagrant_portainer.Base.{String, ◌≡◌, refl, true, false, none, some, List, [], ◌∷◌}
use vagrant_portainer.Base.Text.{◌⧺◌, strip, join}
use vagrant_portainer.Kube.{exists, delete, main}
use vagrant_portainer.Kube.Commands.{
  Command, Reply, completed, Params, Module, exit_json, splitlines,
}
use vagrant_portainer.Kube.Relation.{IsRun, is_success}
use vagrant_portainer.Kube.Runs.{main-IsRun}
use vagrant_portainer.Kube.Answered.{main-exits}
use vagrant_portainer.Kube.Present.{with_state, applied, main-present}
use vagrant_portainer.Kube.Scope.{AllHave, main-AllHave}

-- A namespace, and a resource without files.
abbrev params : Params
params = record {
  name = some "nginx";
  filename = none;
  namespace = some "web";
  resource = some "rc";
  label = none;
  server = none;
  kubectl = none;
  force = false;
  wait = false;
  all = false;
  log_level = 0;
  state = "absent";
  recursive = false;
}

-- The first command finds one line, and the others succeed.
abbrev replies : List Command → Command → Reply
replies [] c = completed 0 "nginx 1\n" ""
replies (c ∷ cs) c' = completed 0 "deleted" ""

abbrev module_ : Module
module_ = record { params = params; get_bin_path = λ name. some "kubectl"; run_command = replies }

abbrev with_files : Module
with_files = record module_ {
  params = record params { filename = some ("a.yml " ∷ "b.yml" ∷ []); force = true };
}

split_lines : splitlines "a\r\n\nb" ≡ "a" ∷ "" ∷ "b" ∷ []
unfolding splitlines
split_lines = refl

deletes_found : main module_ ≡ (
  exit_json false "success: deleted",
  ("kubectl" ∷ "--namespace=web" ∷ "get" ∷ "rc" ∷ "nginx" ∷ "--no-headers" ∷ [])
      ∷ ("kubectl" ∷ "--namespace=web" ∷ "delete" ∷ "rc" ∷ "nginx" ∷ [])
      ∷ [],
)
unfolding main exists delete splitlines join
deletes_found = refl

-- Forced, a deletion of files does not have the argument that lets them be absent.
forced_files : main with_files ≡ (
  exit_json false "success: nginx 1",
  ("kubectl" ∷ "--namespace=web" ∷ "delete" ∷ "--filename=a.yml,b.yml" ∷ []) ∷ [],
)
unfolding main exists delete splitlines join strip
forced_files = refl

main-IsRun_example : IsRun module_ "kubectl" (main module_).1 (main module_).0
main-IsRun_example = main-IsRun module_ "kubectl" refl

main-present_example :
    (main (with_state with_files "present") ≡ main (with_state with_files "latest"))
    × (main (with_state with_files "present") ≡ main (with_state with_files "reloaded"))
    × ((main (with_state with_files "present")).1 ≡ applied with_files)
main-present_example = main-present with_files refl

main-AllHave_example : AllHave ("--namespace=" ⧺ "web") (main module_).1
main-AllHave_example = main-AllHave module_ "kubectl" "web" refl refl refl

all_succeed : (h : List Command) → (c : Command) → is_success (replies h c) ≡ true
all_succeed [] c = refl
all_succeed (x ∷ xs) c = refl

main-exits_example : (msg : String) × ((main module_).0 ≡ exit_json false msg)
main-exits_example = main-exits module_ "kubectl" refl all_succeed refl
