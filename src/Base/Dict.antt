-- ===== src/Base/Dict.antt =====
-- Python's `dict` with text keys, in insertion order. A real dict holds a key once (`IsDict`).
use text.Mathlib.TextPositions.{eq_refl}
use mathlib.Core.List.{append_assoc}
use vagrant_portainer.Base.{
  String, ◌≡◌, refl, ◌∙◌, ap, suc, Bool, true, false, ◌||◌, Option, none, some, List, [], ◌∷◌, ◌++◌,
  arith, ◌==◌, eq_iff, if◌then◌else◌,
}
use vagrant_portainer.Base.Lists.{elem, Nodup, length}

abbrev pub Dict {ℓ} : Type ℓ → Type ℓ
Dict V = List (String × V)

abbrev pub is_some {ℓ} : {V : Type ℓ} → Option V → Bool
is_some none = false
is_some (some v) = true

module _ {ℓ} {V : Type ℓ} where
  -- `d.get(k)`
  unfoldable pub lookup : String → Dict V → Option V
  lookup k [] = none
  lookup k ((j, v) ∷ d) = if j == k then some v else lookup k d

  -- `k in d`
  abbrev pub has_key : String → Dict V → Bool
  has_key k d = is_some (lookup k d)

  -- `d[k] = v`: in place for a key that is there, else at the end
  unfoldable pub put : String → V → Dict V → Dict V
  put k v [] = (k, v) ∷ []
  put k v ((j, w) ∷ d) = if j == k then (j, v) ∷ d else (j, w) ∷ put k v d

  -- `del d[k]` and `d.pop(k)` for a key that is there
  unfoldable pub remove : String → Dict V → Dict V
  remove k [] = []
  remove k ((j, w) ∷ d) = let rest = remove k d in if j == k then rest else (j, w) ∷ rest

  abbrev pub keys : Dict V → List String
  keys [] = []
  keys ((k, _) ∷ d) = k ∷ keys d

  -- No key is there twice.
  abbrev pub IsDict : Dict V → Type 0
  IsDict [] = Unit
  IsDict ((k, _) ∷ d) = (has_key k d ≡ false) × IsDict d

  pub lookup-put :
      (k j : String) (v : V) (d : Dict V)
      → lookup j (put k v d) ≡ (if k == j then some v else lookup j d)
  unfolding lookup put
  lookup-put k j v [] = refl
  lookup-put k j v ((i, w) ∷ d) =
      ground (arith, eq_iff k j, eq_iff i k, eq_iff i j, lookup-put k j v d)

  pub lookup-remove :
      (k j : String) (d : Dict V) → lookup j (remove k d) ≡ (if k == j then none else lookup j d)
  unfolding lookup remove
  lookup-remove k j [] = ground arith
  lookup-remove k j ((i, w) ∷ d) =
      ground (arith, eq_iff k j, eq_iff i k, eq_iff i j, lookup-remove k j d)

  pub has_key-keys : (k : String) (d : Dict V) → elem k (keys d) ≡ has_key k d
  unfolding lookup
  has_key-keys k [] = refl
  has_key-keys k ((j, v) ∷ d) = ground (arith, eq_iff j k, eq_iff k j, has_key-keys k d)

  pub put-IsDict : (k : String) (v : V) (d : Dict V) → IsDict d → IsDict (put k v d)
  unfolding lookup put
  put-IsDict k v [] h = (refl, tt)
  put-IsDict k v ((j, w) ∷ d) h =
      ground (arith, eq_iff j k, eq_iff k j, lookup-put k j v d, put-IsDict k v d h.1)

  pub remove-IsDict : (k : String) (d : Dict V) → IsDict d → IsDict (remove k d)
  unfolding lookup remove
  remove-IsDict k [] h = tt
  remove-IsDict k ((j, w) ∷ d) h = ground (arith, lookup-remove k j d, remove-IsDict k d h.1)

  -- A key that is not there is put at the end.
  pub put_new :
      (k : String) (v : V) (d : Dict V) → has_key k d ≡ false → put k v d ≡ d ++ (k, v) ∷ []
  unfolding lookup put
  put_new k v [] h = refl
  put_new k v ((j, w) ∷ d) h = ground (arith, put_new k v d)

  pub lookup-put_self : (k : String) (v : V) (d : Dict V) → lookup k (put k v d) ≡ some v
  lookup-put_self k v d = ground (arith, lookup-put k k v d, eq_refl k)

  pub has_key-append :
      (k : String) (d e : Dict V) → has_key k (d ++ e) ≡ (has_key k d || has_key k e)
  unfolding lookup
  has_key-append k [] e = refl
  has_key-append k ((j, w) ∷ d) e = ground (arith, has_key-append k d e)

  -- A key that stands further on is not among the entries before it.
  pub has_key_before :
      (k : String) (v : V) (d e : Dict V) → IsDict (d ++ (k, v) ∷ e) → has_key k d ≡ false
  unfolding lookup
  has_key_before k v [] e h = refl
  has_key_before k v ((j, w) ∷ d) e h =
      ground
        (arith, has_key-append j d ((k, v) ∷ e), has_key_before k v d e h.1, eq_iff j k, eq_iff k j)

  -- A dict that is copied entry by entry is the dict.
  pub put_next :
      (k : String) (v : V) (d e : Dict V)
      → IsDict (d ++ (k, v) ∷ e)
      → put k v d ++ e ≡ d ++ (k, v) ∷ e
  put_next k v d e h = rw (put_new k v d (has_key_before k v d e h)) (append_assoc d _ e)

  pub keys-Nodup : (d : Dict V) → IsDict d → Nodup (keys d)
  keys-Nodup [] h = tt
  keys-Nodup ((k, v) ∷ d) (new, h) = (has_key-keys k d ∙ new, keys-Nodup d h)

  pub length-keys : (d : Dict V) → length (keys d) ≡ length d
  length-keys [] = refl
  length-keys ((k, v) ∷ d) = ap suc (length-keys d)
