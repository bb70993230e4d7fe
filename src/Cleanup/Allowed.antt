-- ===== src/Cleanup/Allowed.antt =====
-- scripts/openstack-cleanup/main.py: which calls a run makes.
use vagrant_portainer.Base.{
  ◌≡◌, refl, Bool, true, false, not, ◌&&◌, List, [], ◌∷◌, ◌++◌, arith, if◌then◌else◌,
}
use vagrant_portainer.Cleanup.{
  Resource, delete_server, delete_security_group, delete_port, delete_subnet, delete_network,
  remove_interface_from_router, Event, deleting, failed_to_delete, conflict_exception, value_error,
  other_exception, Outcome, returned, raised, Env, call, fn_if_old, tried, remove_from_routers,
  or_remove, release, or_release, delete_networks, say, clean_up, clean_up_networks,
  clean_up_subnets, clean_up_ports, clean_up_groups, greeting, main,
}
use vagrant_portainer.Cleanup.Items.{
  is_old, all_fine, events, Fine, Step, after-Fine, call-Step, clean_up-Fine, fn_if_before-Step,
  map_if_old-Fine, more-IsFine, said,
}

module _ (env : Env) where
  tried-Fine : (o : Outcome) → Fine env o → Fine env (tried o)
  tried-Fine (returned h) p = p
  tried-Fine (raised e h) p = more-IsFine env h failed_to_delete p refl

  remove_from_routers-Fine :
      (sn : Resource) (rs : List Resource) (h : List Event)
      → all_fine env h ≡ true
      → (not env.dry_run && is_old env sn) ≡ true
      → Fine env (remove_from_routers env sn rs h)
  unfolding remove_from_routers
  remove_from_routers-Fine sn [] h p q = p
  remove_from_routers-Fine sn (r ∷ rs) h p q =
      let tried_call =
        call-Step env (remove_interface_from_router r sn) true (h ++ deleting sn r ∷ [])
          (more-IsFine env h (deleting sn r) p refl) q refl in
      after-Fine env
        (tried (call env (remove_interface_from_router r sn) (h ++ deleting sn r ∷ []))) _
        (tried-Fine (call env (remove_interface_from_router r sn) (h ++ deleting sn r ∷ []))
          tried_call.fine_events)
        (λ h' p'. remove_from_routers-Fine sn rs h' p' q)

  or_remove-Fine :
      (sn : Resource) (o : Outcome)
      → Step env (not env.dry_run && is_old env sn) o
      → Fine env (or_remove env sn o)
  or_remove-Fine sn (returned h) s = s.fine_events
  or_remove-Fine sn (raised conflict_exception h) s =
      remove_from_routers-Fine sn (env.routers h) h s.fine_events (s.caused h refl)
  or_remove-Fine sn (raised value_error h) s = s.fine_events
  or_remove-Fine sn (raised other_exception h) s = s.fine_events

  release-Fine :
      (sns : List Resource) (h : List Event) → all_fine env h ≡ true → Fine env (release env sns h)
  unfolding release
  release-Fine [] h p = p
  release-Fine (sn ∷ sns) h p =
      after-Fine env (or_remove env sn (fn_if_old env delete_subnet sn h)) _
        (or_remove-Fine sn (fn_if_old env delete_subnet sn h)
          (fn_if_before-Step env delete_subnet sn sn.created_at h p (λ e. e)))
        (release-Fine sns)

  or_release-Fine : (o : Outcome) → Fine env o → Fine env (or_release env o)
  or_release-Fine (returned h) p = p
  or_release-Fine (raised conflict_exception h) p =
      after-Fine env (release env (env.subnets h) h) _ (release-Fine (env.subnets h) h p)
        (λ h' p'. map_if_old-Fine env delete_port (λ item e. e) (env.ports h') h' p')
  or_release-Fine (raised value_error h) p = p
  or_release-Fine (raised other_exception h) p = p

  network-Fine :
      (n : Resource) (external : Bool) (h : List Event)
      → n.is_router_external ≡ external
      → all_fine env h ≡ true
      → Fine env (if external then returned h else fn_if_old env delete_network n h)
  network-Fine n true h e p = p
  network-Fine n false h e p =
      (fn_if_before-Step env delete_network n n.created_at h p
        (λ c. inner env.dry_run (is_old env n) n.is_router_external c e)).fine_events
    where
      inner : (d o x : Bool) → (not d && o) ≡ true → x ≡ false → (not d && o && not x) ≡ true
      inner d o x f g = ground arith

  delete_networks-Fine :
      (ns : List Resource) (h : List Event)
      → all_fine env h ≡ true
      → Fine env (delete_networks env ns h)
  unfolding delete_networks
  delete_networks-Fine [] h p = p
  delete_networks-Fine (n ∷ ns) h p =
      after-Fine env (if n.is_router_external then returned h else fn_if_old env delete_network n h)
        _ (network-Fine n n.is_router_external h refl p) (delete_networks-Fine ns)

  networks-Fine : (h : List Event) → all_fine env h ≡ true → Fine env (clean_up_networks env h)
  unfolding clean_up_networks
  networks-Fine h p =
      delete_networks-Fine (env.networks (say "Networks..." h)) (say "Networks..." h)
        (said env "Networks..." h p)

  subnets-Fine : (h : List Event) → all_fine env h ≡ true → Fine env (clean_up_subnets env h)
  unfolding clean_up_subnets
  subnets-Fine h p =
      after-Fine env (clean_up env "Subnets..." delete_subnet (λ e. e.subnets) h)
        (clean_up_networks env)
        (clean_up-Fine env "Subnets..." delete_subnet (λ e. e.subnets) (λ i e. e) h p) networks-Fine

  ports-Fine : (h : List Event) → all_fine env h ≡ true → Fine env (clean_up_ports env h)
  unfolding clean_up_ports
  ports-Fine h p =
      let ports = clean_up env "Ports..." delete_port (λ e. e.ports) h in
      after-Fine env (or_release env ports) (clean_up_subnets env)
        (or_release-Fine ports
          (clean_up-Fine env "Ports..." delete_port (λ e. e.ports) (λ i e. e) h p))
        subnets-Fine

  groups-Fine : (h : List Event) → all_fine env h ≡ true → Fine env (clean_up_groups env h)
  unfolding clean_up_groups
  groups-Fine h p =
      after-Fine env
        (clean_up env "Security groups..." delete_security_group (λ e. e.security_groups) h)
        (clean_up_ports env)
        (clean_up-Fine env "Security groups..." delete_security_group (λ e. e.security_groups)
          (λ i e. e) h p)
        ports-Fine

-- However the cloud answers and whatever it lists, a run makes only calls that are allowed: in a
-- dry run none, and else deletions of resources that are older than the limit and not named
-- "default", of the networks only those that are not external, and removals of such a subnet from a
-- router.
pub all_fine-main : (env : Env) → all_fine env (events (main env)) ≡ true
unfolding main
all_fine-main env =
    after-Fine env (clean_up env "Servers..." delete_server (λ e. e.servers) (greeting env))
      (clean_up_groups env)
      (clean_up-Fine env "Servers..." delete_server (λ e. e.servers) (λ i e. e) (greeting env) refl)
      (groups-Fine env)
