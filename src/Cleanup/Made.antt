-- ===== src/Cleanup/Made.antt =====
-- scripts/openstack-cleanup/main.py: the calls for the items of one kind when every call succeeds.
use mathlib.Core.Path.{subst}
use mathlib.Core.List.{append_assoc, append-nil}
use vagrant_portainer.Base.{
  ℕ, ◌≡◌, refl, sym, ap, ◌∙◌, Bool, true, false, not, ◌&&◌, Option, none, some, List, [], ◌∷◌, ◌++◌,
  map, arith, ltb, ◌==◌, if◌then◌else◌, Bool-cases, inl, inr,
}
use vagrant_portainer.Base.Dict.{is_some}
use vagrant_portainer.Cleanup.{
  Resource, Call, delete_network, done, Event, printed, will_delete, deleting, failed_to_delete,
  called, Outcome, returned, Env, after, call, announce, fn_if_before, fn_if_old, map_if_old,
  delete_networks,
}
use vagrant_portainer.Cleanup.Items.{is_before, is_old, is_allowed}

-- The calls among the events.
abbrev pub calls : List Event → List Call
calls [] = []
calls (called c ∷ h) = c ∷ calls h
calls (_ ∷ h) = calls h

-- Those of the calls that are allowed.
abbrev pub allowed : Env → List Call → List Call
allowed env [] = []
allowed env (c ∷ cs) = let rest = allowed env cs in if is_allowed env c then c ∷ rest else rest

abbrev pub all_dated : List Resource → Bool
all_dated [] = true
all_dated (r ∷ rs) = is_some r.created_at && all_dated rs

pub calls-append : (h h' : List Event) → calls (h ++ h') ≡ calls h ++ calls h'
calls-append [] h' = refl
calls-append (printed s ∷ h) h' = calls-append h h'
calls-append (will_delete r ∷ h) h' = calls-append h h'
calls-append (deleting r s ∷ h) h' = calls-append h h'
calls-append (failed_to_delete ∷ h) h' = calls-append h h'
calls-append (called c ∷ h) h' = ap (λ l. c ∷ l) (calls-append h h')

-- The step returns, and has made these calls.
abbrev pub Makes : List Call → List Event → Outcome → Type 0
Makes cs h o = (h' : List Event) × (o ≡ returned h') × (calls h' ≡ calls h ++ cs)

module _ (env : Env) (answers : (h : List Event) (c : Call) → env.answer h c ≡ done) where
  call-Makes : (c : Call) (h : List Event) → Makes (c ∷ []) h (call env c h)
  call-Makes c h = rw (answers h c) (h ++ called c ∷ [], refl, calls-append h _)

  returned-Makes : (h : List Event) → Makes [] h (returned h)
  returned-Makes h = (h, refl, sym (append-nil (calls h)))

  announce-Makes :
      (c : Call) (item : Resource) (h : List Event)
      → Makes (if not env.dry_run then c ∷ [] else []) h (announce env c item h)
  announce-Makes c item h = elim (Bool-cases env.dry_run) [
    | inl dry ↦ rw dry (h ++ will_delete item ∷ [], refl, calls-append h _)
    | inr wet ↦
        let (h', e, f) = call-Makes c (h ++ will_delete item ∷ []) in
        rw wet (h', e, f ∙ ap (λ l. l ++ c ∷ []) (calls-append h _ ∙ append-nil (calls h)))
  ]

  not-Makes :
      (b : Bool) (c : Call) (h : List Event)
      → Makes (if b && false then c ∷ [] else []) h (returned h)
  not-Makes true c h = returned-Makes h
  not-Makes false c h = returned-Makes h

  both : (b : Bool) → (b && true) ≡ b
  both true = refl
  both false = refl

  -- The conditions of `fn_if_old`.
  if-Makes :
      (default old : Bool) (c : Call) (item : Resource) (h : List Event)
      → Makes
          (if not env.dry_run && (old && not default) then c ∷ [] else [])
          h
          (if default then returned h else if old then announce env c item h else returned h)
  if-Makes true true c item h = not-Makes (not env.dry_run) c h
  if-Makes true false c item h = not-Makes (not env.dry_run) c h
  if-Makes false true c item h = rw (both (not env.dry_run)) (announce-Makes c item h)
  if-Makes false false c item h = not-Makes (not env.dry_run) c h

  fn_if_before-Makes :
      (fn : Resource → Call) (item : Resource) (o : Option ℕ) (h : List Event)
      → is_some o ≡ true
      → Makes
          (if not env.dry_run && (is_before env.oldest_allowed o && not (item.name == "default"))
            then fn item ∷ []
            else [])
          h
          (fn_if_before env fn item o h)
  fn_if_before-Makes fn item none h d = absurd cc
  fn_if_before-Makes fn item (some t) h d =
      if-Makes (item.name == "default") (ltb t env.oldest_allowed) (fn item) item h

  after-Makes :
      (cs ds : List Call) (h : List Event) (o : Outcome) (next : List Event → Outcome)
      → Makes cs h o
      → ((h' : List Event) → Makes ds h' (next h'))
      → Makes (cs ++ ds) h (after o next)
  after-Makes cs ds h o next (h', e, f) g =
      let (h'', e', f') = g h' in
      (h'', ap (λ o. after o next) e ∙ e', f' ∙ ap (λ l. l ++ ds) f ∙ append_assoc (calls h) cs ds)

  allowed-cons :
      (c : Call) (cs : List Call)
      → allowed env (c ∷ cs) ≡ (if is_allowed env c then c ∷ [] else []) ++ allowed env cs
  allowed-cons c cs = ground arith

  pub map_if_old-Makes :
      (fn : Resource → Call)
      → ((r : Resource) → is_allowed env (fn r) ≡ (not env.dry_run && is_old env r))
      → (items : List Resource) (h : List Event) → all_dated items ≡ true
      → Makes (allowed env (map fn items)) h (map_if_old env fn items h)
  unfolding map_if_old
  map_if_old-Makes fn is_fn [] h d = returned-Makes h
  map_if_old-Makes fn is_fn (r ∷ rs) h d =
      rw (allowed-cons (fn r) (map fn rs), is_fn r)
        (after-Makes _ _ h _ _ (fn_if_before-Makes fn r r.created_at h (ground arith))
          (λ h'. map_if_old-Makes fn is_fn rs h' (ground arith)))

  external-Makes :
      (external a b : Bool) (c : Call) (h : List Event) (o : Outcome)
      → Makes (if a && b then c ∷ [] else []) h o
      → Makes
          (if a && (b && not external) then c ∷ [] else [])
          h
          (if external then returned h else o)
  external-Makes true a true c h o m = not-Makes a c h
  external-Makes true a false c h o m = not-Makes a c h
  external-Makes false a b c h o m = rw (both b) m

  network-Makes :
      (r : Resource) (h : List Event)
      → is_some r.created_at ≡ true
      → Makes
          (if is_allowed env (delete_network r) then delete_network r ∷ [] else [])
          h
          (if r.is_router_external then returned h else fn_if_old env delete_network r h)
  network-Makes r h d =
      let e : is_allowed env (delete_network r)
          ≡ (not env.dry_run && (is_old env r && not r.is_router_external)) =
        ground arith in
      subst
        (λ b.
          Makes (if b then delete_network r ∷ [] else []) h
            (if r.is_router_external then returned h else fn_if_old env delete_network r h))
        (sym e)
        (external-Makes r.is_router_external (not env.dry_run) (is_old env r) (delete_network r) h
          (fn_if_old env delete_network r h) (fn_if_before-Makes delete_network r r.created_at h d))

  pub delete_networks-Makes :
      (items : List Resource) (h : List Event)
      → all_dated items ≡ true
      → Makes (allowed env (map delete_network items)) h (delete_networks env items h)
  unfolding delete_networks
  delete_networks-Makes [] h d = returned-Makes h
  delete_networks-Makes (r ∷ rs) h d =
      rw (allowed-cons (delete_network r) (map delete_network rs)) (
        after-Makes _ _ h _ _ (network-Makes r h (ground arith))
          (λ h'. delete_networks-Makes rs h' (ground arith)))
