-- ===== src/Cleanup/Complete.antt =====
-- scripts/openstack-cleanup/main.py: a run in which every call succeeds.

use mathlib.Core.List.{append-nil}
use vagrant_portainer.Base.{String, ◌≡◌, refl, ap, ◌∙◌, true, not, ◌&&◌, List, ◌++◌, map}
use vagrant_portainer.Cleanup.{
  Resource, Call, delete_server, delete_security_group, delete_port, delete_subnet, delete_network,
  done, Event, Outcome, returned, Env, after, or_release, say, clean_up, clean_up_networks,
  clean_up_subnets, clean_up_ports, clean_up_groups, greeting, main,
}
use vagrant_portainer.Cleanup.Items.{is_old, is_allowed}
use vagrant_portainer.Cleanup.Made.{
  calls, allowed, all_dated, calls-append, Makes, map_if_old-Makes, delete_networks-Makes,
}

module _ (env : Env) (answers : (h : List Event) (c : Call) → env.answer h c ≡ done) where
  say-Makes :
      (line : String) (cs : List Call) (h : List Event) (o : Outcome)
      → Makes cs (say line h) o
      → Makes cs h o
  say-Makes line cs h o (h', e, f) =
      (h', e, f ∙ ap (λ l. l ++ cs) (calls-append h _ ∙ append-nil (calls h)))

  clean_up-Makes :
      (line : String) (fn : Resource → Call) (items : Env → List Event → List Resource)
      → ((r : Resource) → is_allowed env (fn r) ≡ (not env.dry_run && is_old env r))
      → ((h : List Event) → all_dated (items env h) ≡ true)
      → (h : List Event)
      → Makes (allowed env (map fn (items env (say line h)))) h (clean_up env line fn items h)
  unfolding clean_up
  clean_up-Makes line fn items is_fn d h =
      say-Makes line _ h _ (
        map_if_old-Makes env answers fn is_fn (items env (say line h)) (say line h)
          (d (say line h)))

  ports-Makes :
      ((h : List Event) → all_dated (env.ports h) ≡ true)
      → (h : List Event)
      → Makes
          (allowed env (map delete_port (env.ports (say "Ports..." h))))
          h
          (or_release env (clean_up env "Ports..." delete_port (λ e. e.ports) h))
  ports-Makes d h =
      let (h', e, f) = clean_up-Makes "Ports..." delete_port (λ e. e.ports) (λ r. refl) d h in
      (h', ap (or_release env) e, f)

  networks-Makes :
      ((h : List Event) → all_dated (env.networks h) ≡ true)
      → (h : List Event)
      → Makes
          (allowed env (map delete_network (env.networks (say "Networks..." h))))
          h
          (clean_up_networks env h)
  unfolding clean_up_networks
  networks-Makes d h =
      let l = say "Networks..." h in
      say-Makes "Networks..." _ h _ (delete_networks-Makes env answers (env.networks l) l (d l))

-- From one history to the next, the calls are the allowed ones for what is listed after the line.
abbrev pub Stage :
    Env
    → String
    → (Resource → Call)
    → (Env → List Event → List Resource)
    → List Event
    → List Event
    → Type 0
Stage env line fn items h h' = calls h' ≡ calls h ++ allowed env (map fn (items env (say line h)))

-- Where every call is answered without an exception and every time that is listed can be read, the
-- run returns. It goes through the servers, security groups, ports, subnets and networks, and makes
-- for each kind, in the order of its list, exactly the deletions that are allowed: in a dry run
-- none, and else those of the old resources, of the networks only those that are not external.
pub main-Stage :
    (env : Env)
    → ((h : List Event) (c : Call) → env.answer h c ≡ done)
    → ((h : List Event) → all_dated (env.servers h) ≡ true)
    → ((h : List Event) → all_dated (env.security_groups h) ≡ true)
    → ((h : List Event) → all_dated (env.ports h) ≡ true)
    → ((h : List Event) → all_dated (env.subnets h) ≡ true)
    → ((h : List Event) → all_dated (env.networks h) ≡ true)
    → (h₁ h₂ h₃ h₄ h₅ : List Event) × Stage env "Servers..." delete_server
        (λ e. e.servers)
        (greeting env)
        h₁
      × Stage env "Security groups..." delete_security_group (λ e. e.security_groups) h₁ h₂
      × Stage env "Ports..." delete_port (λ e. e.ports) h₂ h₃
      × Stage env "Subnets..." delete_subnet (λ e. e.subnets) h₃ h₄
      × Stage env "Networks..." delete_network (λ e. e.networks) h₄ h₅
      × (main env ≡ returned h₅)
unfolding main clean_up_groups clean_up_ports clean_up_subnets clean_up_networks
main-Stage env answers d₁ d₂ d₃ d₄ d₅ =
    let by = clean_up-Makes env answers in
    let (h₁, e₁, s₁) =
      by "Servers..." delete_server (λ e. e.servers) (λ r. refl) d₁ (greeting env) in
    let (h₂, e₂, s₂) =
      by "Security groups..." delete_security_group (λ e. e.security_groups) (λ r. refl) d₂ h₁ in
    let (h₃, e₃, s₃) = ports-Makes env answers d₃ h₂ in
    let (h₄, e₄, s₄) = by "Subnets..." delete_subnet (λ e. e.subnets) (λ r. refl) d₄ h₃ in
    let (h₅, e₅, s₅) = networks-Makes env answers d₅ h₄ in
    (
      h₁,
      h₂,
      h₃,
      h₄,
      h₅,
      s₁,
      s₂,
      s₃,
      s₄,
      s₅,
      ap (λ o. after o (clean_up_groups env)) e₁
          ∙ ap (λ o. after o (clean_up_ports env)) e₂
          ∙ ap (λ o. after o (clean_up_subnets env)) e₃
          ∙ ap (λ o. after o (clean_up_networks env)) e₄
          ∙ e₅,
    )
