-- ===== src/Kube/Scope.antt =====
-- library/kube.py: where the commands of a run apply.
use vagrant_portainer.Base.{
  String, ◌≡◌, ap, ◌∙◌, true, false, Option, some, List, [], ◌∷◌, ◌++◌, arith, ◌==◌, eq_iff,
}
use vagrant_portainer.Base.Lists.{elem, elem-append}
use vagrant_portainer.Base.Text.{◌⧺◌}
use vagrant_portainer.Kube.{main}
use vagrant_portainer.Kube.Commands.{Command, Module, Params, End, base_flags, argument}
use vagrant_portainer.Kube.Relation.{
  program, full, IsRun, refused, broken, looked, missing, done, failed, Ready, unasked, found,
}
use vagrant_portainer.Kube.Runs.{main-IsRun}

-- Every command of the list has the argument.
abbrev pub AllHave : String → List Command → Type 0
AllHave arg [] = Unit
AllHave arg (c ∷ cs) = (elem arg c ≡ true) × AllHave arg cs

full-has :
    (m : Module) (path v arg : String) (args : List String)
    → elem arg (base_flags m.params) ≡ true
    → elem arg (full m path v args) ≡ true
full-has m path v arg args e =
    let h = elem-append arg (base_flags m.params) (v ∷ args) in ground (arith, h, e)

module _ (m : Module) (path arg : String) (given : elem arg (base_flags m.params) ≡ true) where
  Ready-AllHave :
      (before : List Command) (c : Command)
      → Ready m path before
      → elem arg c ≡ true
      → AllHave arg (before ++ c ∷ [])
  Ready-AllHave _ c (unasked _) h = (h, tt)
  Ready-AllHave _ c (found args _ _) h = (full-has m path "get" arg args given, (h, tt))

  IsRun-AllHave : (cs : List Command) (e : End) → IsRun m path cs e → AllHave arg cs
  IsRun-AllHave _ _ (refused msg _) = tt
  IsRun-AllHave _ _ (broken args exc _ _) = (full-has m path "get" arg args given, tt)
  IsRun-AllHave _ _ (looked args rc out err there _ _ _ _) =
      (full-has m path "get" arg args given, tt)
  IsRun-AllHave _ _ (missing args rc out err _ _ _ _) = (full-has m path "get" arg args given, tt)
  IsRun-AllHave _ _ (done before v args out err r _ _ _) =
      Ready-AllHave before _ r (full-has m path v arg args given)
  IsRun-AllHave _ _ (failed before v args reply msg r _ _ _ _) =
      Ready-AllHave before _ r (full-has m path v arg args given)

argument-given :
    (flag : String) (o : Option String) (s : String)
    → o ≡ some s
    → (s == "") ≡ false
    → elem (flag ⧺ s) (argument flag o) ≡ true
argument-given flag o s e n =
    ap (λ o'. elem (flag ⧺ s) (argument flag o')) e
    ∙ rw n (ground (arith, eq_iff (flag ⧺ s) (flag ⧺ s)))

elem-last : (x : String) (ys ts : List String) → elem x ts ≡ true → elem x (ys ++ ts) ≡ true
elem-last x ys ts e = let outer = elem-append x ys ts in ground (arith, outer, e)

flag-last :
    (arg : String) (p : Params)
    → elem arg (argument "--namespace=" p.namespace) ≡ true
    → elem arg (base_flags p) ≡ true
flag-last arg p e = elem-last arg _ (argument "--namespace=" p.namespace) e

-- Where a namespace is given that is not the empty text, every command of a run has the argument
-- for it, whatever the state and the replies.
pub main-AllHave :
    (m : Module) (path namespace : String)
    → program m ≡ some path
    → m.params.namespace ≡ some namespace
    → (namespace == "") ≡ false
    → AllHave ("--namespace=" ⧺ namespace) (main m).1
main-AllHave m path namespace p e n =
    IsRun-AllHave m path _
      (flag-last _ m.params (argument-given "--namespace=" m.params.namespace namespace e n)) _ _
      (main-IsRun m path p)
