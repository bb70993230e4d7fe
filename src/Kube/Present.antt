-- ===== src/Kube/Present.antt =====
-- library/kube.py: the states that apply files.
use vagrant_portainer.Base.{
  zero, suc, String, ◌≡◌, refl, sym, ap, ◌∙◌, Bool, true, false, Option, none, some, List, [], ◌∷◌,
  ◌++◌, if◌then◌else◌,
}
use vagrant_portainer.Base.Text.{◌⧺◌, join}
use vagrant_portainer.Kube.{success, finished, create, replace, main}
use vagrant_portainer.Kube.Commands.{
  Command, Reply, completed, raised, Params, Module, End, fail_json, KubeManager, ◌>>=◌, continue,
  answered, execute, manager_at, manager_by, file_names, is_empty,
}
use vagrant_portainer.Kube.Relation.{program, path_by, flags, eqb-suc}

-- The module with another state.
abbrev pub with_state : Module → String → Module
with_state m state = record m { params = record m.params { state = state } }

abbrev pub has_files : Option (List String) → Bool
has_files none = false
has_files (some []) = false
has_files (some (f ∷ fs)) = true

has_files-stripped :
    (o : Option (List String)) → has_files o ≡ true → is_empty (file_names o) ≡ false
has_files-stripped none e = absurd cc
has_files-stripped (some []) e = absurd cc
has_files-stripped (some (f ∷ fs)) e = refl

-- The command that the parameters ask for, after the flags of every command.
abbrev pub applying : Params → List String
applying p =
    "apply" ∷ "--force" ∷ (if p.wait then "--wait" ∷ [] else [])
    ++ (if p.recursive then "--recursive=True" ∷ [] else [])
    ++ ("--filename=" ⧺ join "," (file_names p.filename)) ∷ []

-- That one command; none where kubectl is not found.
abbrev applied_at : Module → Option String → List Command
applied_at m none = []
applied_at m (some path) = (path ∷ (flags m.params ++ applying m.params)) ∷ []

abbrev pub applied : Module → List Command
applied m = applied_at m (program m)

-- The commands of a change, however it is answered.
commands-answered :
    (args : Command) (reply : Reply) (h : List Command)
    → (finished (continue (answered args reply h) success)).1 ≡ h
commands-answered args (raised exc) h = refl
commands-answered args (completed zero out err) h = refl
commands-answered args (completed (suc rc) out err) h = rw (eqb-suc rc) refl

module _ (m : Module) (files : has_files m.params.filename ≡ true) where
  abbrev k : String → KubeManager
  k path = manager_at m.params path

  there : is_empty (file_names m.params.filename) ≡ false
  there = has_files-stripped m.params.filename files

  -- A state that applies the files.
  abbrev after_apply : Option String → End × List Command
  after_apply none = (fail_json "Failed to find required executable kubectl", [])
  after_apply (some path) = finished (continue (execute m (k path) (applying m.params) []) success)

  create-applies :
      (given' in_path : Option String)
      → finished
          ((manager_by m.params given' in_path >>= λ k. create m k false true >>= success) [])
        ≡ after_apply (path_by given' in_path)
  unfolding create
  create-applies (some path) in_path = rw there refl
  create-applies none (some path) = rw there refl
  create-applies none none = refl

  replace-applies :
      (given' in_path : Option String)
      → finished ((manager_by m.params given' in_path >>= λ k. replace m k true >>= success) [])
        ≡ after_apply (path_by given' in_path)
  unfolding replace
  replace-applies (some path) in_path = rw there refl
  replace-applies none (some path) = rw there refl
  replace-applies none none = refl

  commands-after_apply : (found : Option String) → (after_apply found).1 ≡ applied_at m found
  commands-after_apply none = refl
  commands-after_apply (some path) =
      let command = path ∷ (flags m.params ++ applying m.params) in
      commands-answered command (m.run_command [] command) (command ∷ [])

-- With at least one file, the states "present", "latest" and "reloaded" do the same in every
-- respect: where kubectl is found they run exactly one command, which applies the files with force
-- and with the flags for waiting and recursion that are asked for, and no `get`; where it is not
-- found they run none; and they end in the same way.
pub main-present :
    (m : Module)
    → has_files m.params.filename ≡ true
    → (main (with_state m "present") ≡ main (with_state m "latest"))
      × (main (with_state m "present") ≡ main (with_state m "reloaded"))
      × ((main (with_state m "present")).1 ≡ applied m)
unfolding main create replace
main-present m files =
    let given' = m.params.kubectl in
    let in_path = m.get_bin_path "kubectl" in
    let created = create-applies m files given' in_path in
    let same = created ∙ sym (replace-applies m files given' in_path) in
    (same, same, ap (λ r. r.1) created ∙ commands-after_apply m files (path_by given' in_path))
