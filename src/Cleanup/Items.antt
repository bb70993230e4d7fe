-- ===== src/Cleanup/Items.antt =====
-- scripts/openstack-cleanup/main.py: the calls for the items of one kind.
use vagrant_portainer.Base.{
  ℕ, String, ◌≡◌, refl, Bool, true, false, not, ◌&&◌, Option, none, some, List, [], ◌∷◌, ◌++◌,
  arith, ltb, ◌==◌, if◌then◌else◌,
}
use vagrant_portainer.Cleanup.{
  Resource, Call, delete_server, delete_security_group, delete_port, delete_subnet, delete_network,
  remove_interface_from_router, Answer, done, conflict, other, Event, printed, will_delete, called,
  conflict_exception, Outcome, returned, raised, Env, after, answered, call, fn_if_before,
  fn_if_old, map_if_old, say, clean_up,
}

abbrev pub is_before : ℕ → Option ℕ → Bool
is_before limit none = false
is_before limit (some t) = ltb t limit

-- Older than allowed, and not the default security group.
abbrev pub is_old : Env → Resource → Bool
is_old env item = is_before env.oldest_allowed item.created_at && not (item.name == "default")

-- The calls that are allowed: none in a dry run, and else those for old resources, of the networks
-- only those that are not external. A subnet that is detached from a router is old, too.
abbrev pub is_allowed : Env → Call → Bool
is_allowed env (delete_server r) = not env.dry_run && is_old env r
is_allowed env (delete_security_group r) = not env.dry_run && is_old env r
is_allowed env (delete_port r) = not env.dry_run && is_old env r
is_allowed env (delete_subnet r) = not env.dry_run && is_old env r
is_allowed env (delete_network r) = not env.dry_run && is_old env r && not r.is_router_external
is_allowed env (remove_interface_from_router router sn) = not env.dry_run && is_old env sn

abbrev pub fine : Env → Event → Bool
fine env (called c) = is_allowed env c
fine env _ = true

abbrev pub all_fine : Env → List Event → Bool
all_fine env [] = true
all_fine env (e ∷ es) = fine env e && all_fine env es

abbrev pub events : Outcome → List Event
events (returned h) = h
events (raised e h) = h

module _ (env : Env) where
  all_fine-append :
      (h h' : List Event) → all_fine env (h ++ h') ≡ (all_fine env h && all_fine env h')
  all_fine-append [] h' = refl
  all_fine-append (e ∷ es) h' = ground (arith, all_fine-append es h')

  pub more-IsFine :
      (h : List Event) (e : Event)
      → all_fine env h ≡ true
      → fine env e ≡ true
      → all_fine env (h ++ e ∷ []) ≡ true
  more-IsFine h e p q = let a = all_fine-append h (e ∷ []) in ground (arith, a, p, q)

  -- What holds of a step: its events are fine, and where it ends with a conflict, `b` is true.
  pub record Step (b : Bool) (o : Outcome) : Type 0 where
    pub fine_events : all_fine env (events o) ≡ true
    pub caused : (h : List Event) → o ≡ raised conflict_exception h → b ≡ true

  abbrev pub Fine : Outcome → Type 0
  Fine o = all_fine env (events o) ≡ true

  pub after-Fine :
      (o : Outcome) (next : List Event → Outcome)
      → Fine o
      → ((h : List Event) → all_fine env h ≡ true → Fine (next h))
      → Fine (after o next)
  after-Fine (returned h) next p q = q h p
  after-Fine (raised e h) next p q = p

  returned-Step : (b : Bool) (h : List Event) → all_fine env h ≡ true → Step b (returned h)
  returned-Step b h p = record { fine_events = p; caused = λ h' e. absurd cc }

  answered-Step :
      (a : Answer) (b : Bool) (h : List Event)
      → all_fine env h ≡ true
      → b ≡ true
      → Step b (answered a h)
  answered-Step done b h p q = returned-Step b h p
  answered-Step conflict b h p q = record { fine_events = p; caused = λ h' e. q }
  answered-Step other b h p q = record { fine_events = p; caused = λ h' e. q }

  pub call-Step :
      (c : Call) (b : Bool) (h : List Event)
      → all_fine env h ≡ true
      → is_allowed env c ≡ true
      → b ≡ true
      → Step b (call env c h)
  call-Step c b h p q r = answered-Step (env.answer h c) b _ (more-IsFine h (called c) p q) r

  announced-Step :
      (dry b : Bool) (c : Call) (item : Resource) (h : List Event)
      → all_fine env h ≡ true
      → (dry ≡ false → is_allowed env c ≡ true)
      → (dry ≡ false → b ≡ true)
      → Step b (
          if dry
          then returned (h ++ will_delete item ∷ [])
          else call env c (h ++ will_delete item ∷ []))
  announced-Step true b c item h p q r = returned-Step b _ (more-IsFine h (will_delete item) p refl)
  announced-Step false b c item h p q r =
      call-Step c b _ (more-IsFine h (will_delete item) p refl) (q refl) (r refl)

  if-Step :
      (b t : Bool) (o o' : Outcome)
      → (t ≡ true → Step b o)
      → (t ≡ false → Step b o')
      → Step b (if t then o else o')
  if-Step b true o o' p q = p refl
  if-Step b false o o' p q = q refl

  -- The item of a call that is not passed over.
  abbrev chosen : Resource → Option ℕ → Bool
  chosen item t =
      not env.dry_run && (is_before env.oldest_allowed t && not (item.name == "default"))

  pub fn_if_before-Step :
      (fn : Resource → Call) (item : Resource) (t : Option ℕ) (h : List Event)
      → all_fine env h ≡ true
      → (chosen item t ≡ true → is_allowed env (fn item) ≡ true)
      → Step (chosen item t) (fn_if_before env fn item t h)
  fn_if_before-Step fn item none h p q = record { fine_events = p; caused = λ h' e. absurd cc }
  fn_if_before-Step fn item (some t) h p q =
      if-Step _ (item.name == "default") _ _ (λ _. returned-Step _ h p)
        λ named.
          if-Step _ (ltb t env.oldest_allowed) _ _
            (λ old.
              announced-Step env.dry_run _ (fn item) item h p (λ d. q (all_three d old named))
                (λ d. all_three d old named))
            (λ _. returned-Step _ h p)
    where
      all_three : {d o n : Bool} → d ≡ false → o ≡ true → n ≡ false → (not d && (o && not n)) ≡ true
      all_three e f g = ground arith

  -- A call that is allowed for every old item.
  abbrev Applies : (Resource → Call) → Type 0
  Applies fn =
      (item : Resource)
      → (not env.dry_run && is_old env item) ≡ true
      → is_allowed env (fn item) ≡ true

  pub map_if_old-Fine :
      (fn : Resource → Call)
      → Applies fn
      → (items : List Resource) (h : List Event) → all_fine env h ≡ true
      → Fine (map_if_old env fn items h)
  unfolding map_if_old
  map_if_old-Fine fn a [] h p = p
  map_if_old-Fine fn a (item ∷ items) h p =
      after-Fine (fn_if_old env fn item h) _
        (fn_if_before-Step fn item item.created_at h p (a item)).fine_events
        (map_if_old-Fine fn a items)

  pub said :
      (line : String) (h : List Event) → all_fine env h ≡ true → all_fine env (say line h) ≡ true
  said line h p = more-IsFine h (printed line) p refl

  pub clean_up-Fine :
      (line : String) (fn : Resource → Call) (items : Env → List Event → List Resource)
      → Applies fn
      → (h : List Event) → all_fine env h ≡ true
      → Fine (clean_up env line fn items h)
  unfolding clean_up
  clean_up-Fine line fn items a h p =
      map_if_old-Fine fn a (items env (say line h)) (say line h) (said line h p)
