-- ===== src/Base/Text/Strip.antt =====
-- Texts without white space, which `strip` leaves as they are.
use text.Mathlib.TextLemmas.{nil-append, cons-append}
use vagrant_portainer.Base.{ℕ, String, ◌≡◌, refl, ap, ◌∙◌, Bool, true, not, ◌&&◌, arith}
use vagrant_portainer.Base.Text.{strip, strip_left, strip_right, is_space, ◌⧺◌}
use vagrant_portainer.Base.Text.Decimal.{show, AllDigits, show-AllDigits}

unfoldable pub no_space : String → Bool
no_space String.[] = true
no_space (String.◌∷◌ c s) = not (is_space c) && no_space s

pub no_space-append : (s t : String) → no_space (s ⧺ t) ≡ (no_space s && no_space t)
unfolding no_space
no_space-append String.[] t = rw nil-append
no_space-append (String.◌∷◌ c s) t = rw cons-append (ground (arith, no_space-append s t))

no_space_of_AllDigits : (s : String) → AllDigits s → no_space s ≡ true
unfolding no_space
no_space_of_AllDigits String.[] h = refl
no_space_of_AllDigits (String.◌∷◌ c s) h = ground (arith, no_space_of_AllDigits s)

strip_left-none : (s : String) → no_space s ≡ true → strip_left s ≡ s
unfolding strip_left no_space
strip_left-none String.[] h = refl
strip_left-none (String.◌∷◌ c s) h = ground arith

strip_right-none : (s : String) → no_space s ≡ true → strip_right s ≡ s
unfolding strip_right no_space
strip_right-none String.[] h = refl
strip_right-none (String.◌∷◌ c s) h = ground (arith, strip_right-none s)

pub strip-none : (s : String) → no_space s ≡ true → strip s ≡ s
unfolding strip
strip-none s h = ap strip_right (strip_left-none s h) ∙ strip_right-none s h

pub no_space-show : (n : ℕ) → no_space (show n) ≡ true
no_space-show n = no_space_of_AllDigits (show n) (show-AllDigits n)
