-- ===== src/Terraform/Attributes.antt =====
-- contrib/terraform/terraform.py: a group of attributes is read back from its flat form.

use mathlib.Core.Path.{subst}
use text.Mathlib.TextLemmas.{nil-append, cons-append}
use mathlib.Core.List.{append-nil}
use vagrant_portainer.Base.{
  String, ◌≡◌, refl, sym, ap, ◌∙◌, false, some, [], ◌∷◌, ◌++◌, arith, ◌==◌, eq_iff,
}
use vagrant_portainer.Base.Dict.{Dict, IsDict, put, put_next}
use vagrant_portainer.Base.Text.{◌⧺◌, contains_char}
use vagrant_portainer.Terraform.Parse.{split_once, parse_prefix, dict_of, parse_dict}

split_once-here : (t : String) → split_once b'.' ("." ⧺ t) ≡ some ("", t)
unfolding split_once
split_once-here t = rw cons-append (ap (λ u. some ("", u)) (nil-append t))

split_once-dot :
    (s t : String) → contains_char b'.' s ≡ false → split_once b'.' (s ⧺ "." ⧺ t) ≡ some (s, t)
unfolding split_once contains_char
split_once-dot String.[] t h = rw nil-append (split_once-here t)
split_once-dot (String.◌∷◌ c s) t h = rw cons-append (ground (arith, split_once-dot s t))

module _ {ℓ} {V : Type ℓ} where
  -- The flat form of a group of attributes.
  abbrev pub flat : String → Dict V → Dict V
  flat prefix [] = []
  flat prefix ((k, v) ∷ d) = (prefix ⧺ "." ⧺ k, v) ∷ flat prefix d

  -- No key is the one of a count.
  abbrev pub HasNoCount : Dict V → Type 0
  HasNoCount [] = Unit
  HasNoCount ((k, v) ∷ d) = ((k == "#") ≡ false) × HasNoCount d

  parse_prefix-flat :
      (prefix : String) (d : Dict V)
      → contains_char b'.' prefix ≡ false
      → HasNoCount d
      → parse_prefix (flat prefix d) prefix b'.' ≡ d
  unfolding parse_prefix
  parse_prefix-flat prefix [] p h = refl
  parse_prefix-flat prefix ((k, v) ∷ d) p (h, hs) =
      rw (split_once-dot prefix k p, parse_prefix-flat prefix d p hs, h)
        (ground (arith, eq_iff prefix prefix))

  -- A group under another prefix is passed over.
  parse_prefix-other :
      (prefix other : String) (e d : Dict V)
      → contains_char b'.' other ≡ false
      → (other == prefix) ≡ false
      → parse_prefix (flat other e ++ d) prefix b'.' ≡ parse_prefix d prefix b'.'
  unfolding parse_prefix
  parse_prefix-other prefix other [] d p n = refl
  parse_prefix-other prefix other ((k, v) ∷ e) d p n =
      rw (split_once-dot other k p, n) (parse_prefix-other prefix other e d p n)

  dict_of-new : (acc items : Dict V) → IsDict (acc ++ items) → dict_of acc items ≡ acc ++ items
  unfolding dict_of
  dict_of-new acc [] h = sym (append-nil acc)
  dict_of-new acc ((k, v) ∷ items) h =
      dict_of-new (put k v acc) items (subst IsDict (sym (put_next k v acc items h)) h)
      ∙ put_next k v acc items h

  -- The count of a group is passed over, too.
  parse_prefix-count :
      (prefix : String) (n : V) (d : Dict V)
      → contains_char b'.' prefix ≡ false
      → parse_prefix ((prefix ⧺ "." ⧺ "#", n) ∷ d) prefix b'.' ≡ parse_prefix d prefix b'.'
  unfolding parse_prefix
  parse_prefix-count prefix n d p = rw (split_once-dot prefix "#" p) (ground arith)

  -- After the attributes of another group and the group's own count, a group of attributes is read
  -- back from its flat form by `parse_dict`, with its keys in order, where no name of a group has a
  -- dot, the names differ, no key is there twice, and none is "#".
  pub parse_dict-flat :
      (prefix other : String) (n : V) (e d : Dict V)
      → contains_char b'.' prefix ≡ false
      → contains_char b'.' other ≡ false
      → (other == prefix) ≡ false
      → IsDict d
      → HasNoCount d
      → parse_dict (flat other e ++ (prefix ⧺ "." ⧺ "#", n) ∷ flat prefix d) prefix b'.' ≡ d
  unfolding parse_dict
  parse_dict-flat prefix other n e d p q differ dict h =
      ap (dict_of []) (
        parse_prefix-other prefix other e _ q differ
        ∙ parse_prefix-count prefix n (flat prefix d) p
        ∙ parse_prefix-flat prefix d p h)
      ∙ dict_of-new [] d dict
