-- ===== src/Inventory/Groups/Entries.antt =====
-- The hosts of `all` with their values, as contrib/inventory_builder/inventory.py leaves them:
-- those that a purge keeps, and the hosts of a table put over them.
use mathlib.Core.Path.{subst}
use mathlib.Core.List.{append-nil}
use text.Mathlib.TextPositions.{eq_refl}
use vagrant_portainer.Base.{
  String, ◌≡◌, refl, sym, ap, ◌∙◌, true, Option, none, some, List, [], ◌∷◌, ◌++◌, arith, eq_iff,
  ◌==◌, if◌then◌else◌, Bool-cases, inl, inr,
}
use vagrant_portainer.Base.Dict.{
  IsDict, has_key, lookup, put, put-IsDict, lookup-put, put_next, keys, has_key-keys,
  has_key-append,
}
use vagrant_portainer.Base.Lists.{elem}
use vagrant_portainer.Inventory.Types.{roles, HostVars, Hosts}
use vagrant_portainer.Inventory.Hosts.Readable.{readable, readable-put}
use vagrant_portainer.Inventory.Groups.{purge_hosts}
use vagrant_portainer.Inventory.Groups.Purge.{is_kept, put_all}

module _ (hostnames protected : List String) where
  pub lookup-purge_hosts :
      (h : String) (d : Hosts)
      → lookup h (purge_hosts hostnames protected d)
        ≡ (if is_kept hostnames protected h then lookup h d else none)
  unfolding purge_hosts lookup
  lookup-purge_hosts h [] = ground arith
  lookup-purge_hosts h ((k, o) ∷ d) = ground (arith, eq_iff k h, lookup-purge_hosts h d)

  pub purge_hosts-IsDict : (d : Hosts) → IsDict d → IsDict (purge_hosts hostnames protected d)
  unfolding purge_hosts
  purge_hosts-IsDict [] h = tt
  purge_hosts-IsDict ((k, o) ∷ d) h =
      ground (arith, lookup-purge_hosts k d, purge_hosts-IsDict d h.1)

  pub purge_hosts-readable :
      (prefix : String) (d : Hosts)
      → readable prefix d ≡ true
      → readable prefix (purge_hosts hostnames protected d) ≡ true
  unfolding purge_hosts readable
  purge_hosts-readable prefix [] h = refl
  purge_hosts-readable prefix ((k, o) ∷ d) h = ground (arith, purge_hosts-readable prefix d)

abbrev pub or_else : {A : Type 0} → Option A → Option A → Option A
or_else (some a) o = some a
or_else none o = o

pub put_all-IsDict : (hosts d : Hosts) → IsDict d → IsDict (put_all hosts d)
put_all-IsDict [] d h = h
put_all-IsDict ((k, o) ∷ hosts) d h = put_all-IsDict hosts (put k o d) (put-IsDict k o d h)

pub put_all-readable :
    (prefix : String) (hosts d : Hosts)
    → readable prefix hosts ≡ true
    → readable prefix d ≡ true
    → readable prefix (put_all hosts d) ≡ true
unfolding readable
put_all-readable prefix [] d h k = k
put_all-readable prefix ((host, o) ∷ hosts) d h k =
    put_all-readable prefix hosts (put host o d) (ground arith)
      (readable-put prefix host o d (ground arith) (ground arith) k)

-- The value in the table comes before the one that was there.
pub lookup-put_all :
    (h : String) (hosts d : Hosts)
    → IsDict hosts
    → lookup h (put_all hosts d) ≡ or_else (lookup h hosts) (lookup h d)
unfolding lookup
lookup-put_all h [] d dict = refl
lookup-put_all h ((k, o) ∷ hosts) d (new, dict) =
    lookup-put_all h hosts (put k o d) dict ∙ ground (arith, lookup-put k h o d, eq_iff k h, new)

some-injective : {A : Type 0} {a b : A} → some a ≡ some b → a ≡ b
some-injective e = cc

put-same : (k : String) (v : HostVars) (d : Hosts) → lookup k d ≡ some v → put k v d ≡ d
unfolding lookup put
put-same k v [] e = absurd cc
put-same k v ((j, w) ∷ d) e = elim (Bool-cases (j == k)) [
  | inl same ↦ rw same (ap (λ x. (j, x) ∷ d) (sym (some-injective (rw same at e))))
  | inr other ↦ rw other (ap (λ x. (j, w) ∷ x) (put-same k v d (rw other at e)))
]

-- Entries that are there change nothing.
pub put_all-same :
    (hosts d : Hosts)
    → IsDict hosts
    → ((k : String) (v : HostVars) → lookup k hosts ≡ some v → lookup k d ≡ some v)
    → put_all hosts d ≡ d
unfolding lookup
put_all-same [] d dict f = refl
put_all-same ((k, o) ∷ hosts) d (new, dict) f =
    ap (put_all hosts) (put-same k o d (f k o (rw eq_refl refl)))
    ∙ put_all-same hosts d dict (λ j v e. f j v (ground (arith, eq_iff k j, new, e)))

put_all-next : (hosts d : Hosts) → IsDict (d ++ hosts) → put_all hosts d ≡ d ++ hosts
put_all-next [] d dict = sym (append-nil d)
put_all-next ((k, o) ∷ hosts) d dict =
    let moved = put_next k o d hosts dict in
    put_all-next hosts (put k o d) (subst IsDict (sym moved) dict) ∙ moved

put_all-append : (x y d : Hosts) → put_all (x ++ y) d ≡ put_all y (put_all x d)
put_all-append [] y d = refl
put_all-append ((k, o) ∷ x) y d = put_all-append x y (put k o d)

module _ (hostnames protected : List String) where
  purge_hosts-none :
      (d : Hosts)
      → ((h : String) → has_key h d ≡ true → elem h hostnames ≡ true)
      → purge_hosts hostnames protected d ≡ d
  unfolding purge_hosts lookup
  purge_hosts-none [] f = refl
  purge_hosts-none ((k, o) ∷ d) f =
      rw (f k (rw eq_refl refl))
        (ap (λ x. (k, o) ∷ x) (purge_hosts-none d (λ h e. f h (ground (arith, e)))))

IsDict-front : (d e : Hosts) → IsDict (d ++ e) → IsDict d
IsDict-front [] e h = tt
IsDict-front ((k, o) ∷ d) e (new, h) =
    (ground (arith, has_key-append k d e, new), IsDict-front d e h)

-- A table that extends the hosts of the document is what the document has afterwards.
pub put_all-extended :
    (d e : Hosts)
    → IsDict (d ++ e)
    → put_all (d ++ e) (purge_hosts (keys (d ++ e)) roles d) ≡ d ++ e
put_all-extended d e dict =
    ap (put_all (d ++ e)) (
      purge_hosts-none (keys (d ++ e)) roles d
        (λ h there. has_key-keys h (d ++ e) ∙ ground (arith, has_key-append h d e, there)))
    ∙ put_all-append d e d
    ∙ ap (put_all e) (put_all-same d d (IsDict-front d e dict) (λ k v x. x))
    ∙ put_all-next e d dict
