-- ===== src/Base/Text/Parts.antt =====
-- Splitting at a character, and prefixes.
use Prim.Native.Char.{Char, code}
use text.Mathlib.TextLemmas.{nil-append, cons-append, append-nil, append_assoc}
use vagrant_portainer.Base.{ℕ, String, ◌≡◌, refl, ap, ◌∙◌, true, false, ◌||◌, [], ◌∷◌, ◌<◌, arith}
use vagrant_portainer.Base.Text.{◌⧺◌, push, contains_char, starts_with, split_from, split}
use vagrant_portainer.Base.Text.Decimal.{AllDigits, show, show-AllDigits}

pub contains_char-append :
    (k : ℕ) (s t : String) → contains_char k (s ⧺ t) ≡ (contains_char k s || contains_char k t)
unfolding contains_char
contains_char-append k String.[] t = rw nil-append
contains_char-append k (String.◌∷◌ c s) t =
    rw cons-append (ground (arith, contains_char-append k s t))

-- A run of digits holds no character below "0".
pub contains_char_of_AllDigits :
    (k : ℕ) (s : String) → k < b'0' → AllDigits s → contains_char k s ≡ false
unfolding contains_char
contains_char_of_AllDigits k String.[] l h = refl
contains_char_of_AllDigits k (String.◌∷◌ c s) l h = ground (arith, contains_char_of_AllDigits k s)

pub contains_char-show : (k n : ℕ) → k < b'0' → contains_char k (show n) ≡ false
contains_char-show k n h = contains_char_of_AllDigits k (show n) h (show-AllDigits n)

pub push-append : (cur : String) (c : Char) (s : String) → push cur c ⧺ s ≡ cur ⧺ String.◌∷◌ c s
push-append cur c s =
    append_assoc cur _ s
    ∙ ap (λ t. cur ⧺ t) (cons-append c String.[] s ∙ ap (λ t. String.◌∷◌ c t) (nil-append s))

split_from-none :
    (k : ℕ) (cur s : String) → contains_char k s ≡ false → split_from k cur s ≡ (cur ⧺ s) ∷ []
unfolding split_from contains_char
split_from-none k cur String.[] h = rw append-nil
split_from-none k cur (String.◌∷◌ c s) h =
    ground (arith, split_from-none k (push cur c) s, push-append cur c s)

split_from-first :
    (k : ℕ) (cur s : String) (c : Char) (t : String)
    → contains_char k s ≡ false
    → code c ≡ k
    → split_from k cur (s ⧺ String.◌∷◌ c t) ≡ (cur ⧺ s) ∷ split_from k String.[] t
unfolding split_from contains_char
split_from-first k cur String.[] c t h e = rw (nil-append, append-nil) (ground arith)
split_from-first k cur (String.◌∷◌ d s) c t h e =
    rw cons-append (ground (arith, split_from-first k (push cur d) s c t, push-append cur d s))

-- A text without the separator is one part.
pub split-none : (k : ℕ) (s : String) → contains_char k s ≡ false → split k s ≡ s ∷ []
unfolding split
split-none k s h = split_from-none k "" s h ∙ ap (λ t. t ∷ []) (nil-append s)

-- The part before the first separator.
pub split-first :
    (k : ℕ) (s : String) (c : Char) (t : String)
    → contains_char k s ≡ false
    → code c ≡ k
    → split k (s ⧺ String.◌∷◌ c t) ≡ s ∷ split k t
unfolding split
split-first k s c t h e =
    split_from-first k "" s c t h e ∙ ap (λ u. u ∷ split_from k "" t) (nil-append s)

pub starts_with-append : (p s : String) → starts_with (p ⧺ s) p ≡ true
unfolding starts_with
starts_with-append String.[] String.[] = refl
starts_with-append String.[] (String.◌∷◌ c s) =
    ap (λ t. starts_with t String.[]) (nil-append (String.◌∷◌ c s))
starts_with-append (String.◌∷◌ c p) s = rw cons-append (ground (arith, starts_with-append p s))
