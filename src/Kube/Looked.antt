-- ===== src/Kube/Looked.antt =====
-- library/kube.py: what `exists` does as the first action of a run.
use vagrant_portainer.Base.{
  ℕ, zero, suc, String, ◌≡◌, refl, Bool, false, List, [], ◌∷◌, true, inl, inr,
}
use vagrant_portainer.Kube.{exists}
use vagrant_portainer.Kube.Commands.{
  Reply, completed, raised, Module, fail_json, uncaught, Outcome, returned, ended, continue, pure,
  KubeManager, manager_at, answered_nofail, has_lines, flag_if,
}
use vagrant_portainer.Kube.Relation.{full, is_found, eqb-suc, has_target, target-cases}

module _ (m : Module) (path : String) where
  abbrev k : KubeManager
  k = manager_at m.params path

  -- What `exists` does as the first action.
  pub data Looked : Outcome Bool → Type 0 where
    bad : (msg : String) → has_target m.params ≡ false → Looked (ended (fail_json msg) [])
    threw :
        (args : List String) (exc : String)
        → m.run_command [] (full m path "get" args) ≡ raised exc
        → has_target m.params ≡ true
        → Looked (ended (uncaught exc) (full m path "get" args ∷ []))
    saw :
        (args : List String) (rc : ℕ) (out err : String) (there : Bool)
        → m.run_command [] (full m path "get" args) ≡ completed rc out err
        → is_found (completed rc out err) ≡ there
        → has_target m.params ≡ true
        → Looked (returned there (full m path "get" args ∷ []))

  answered_nofail-Looked :
      (args : List String) (reply : Reply)
      → m.run_command [] (full m path "get" args) ≡ reply
      → has_target m.params ≡ true
      → Looked (
          continue
            (answered_nofail reply (full m path "get" args ∷ []))
            (λ result. pure (has_lines result)))
  answered_nofail-Looked args (raised exc) e t = threw args exc e t
  answered_nofail-Looked args (completed zero out err) e t = saw args zero out err _ e refl t
  answered_nofail-Looked args (completed (suc rc) out err) e t =
      rw (eqb-suc rc) (saw args (suc rc) out err false e (rw (eqb-suc rc) refl) t)

  pub exists-Looked : Looked (exists m k [])
  unfolding exists
  exists-Looked = elim (target-cases k) [
    | inl (lacks, nothing) ↦ rw (nothing (flag_if k.all "--all-namespaces")) (bad _ lacks)
    | inr (has, target') ↦
        let (args, e) = target' (flag_if k.all "--all-namespaces") in
        rw e (answered_nofail-Looked _ _ refl has)
  ]
