-- ===== src/Base/Text.antt =====
-- Python's `str` methods that the programs use, over native texts. The classes of characters are
-- those of ASCII, to which the host names, addresses and keys of the programs belong.
pub mod Decimal
pub mod Parts
pub mod Canonical
pub mod Strip
use Prim.Native.Char.{Char, code}
use Prim.Native.String
use vagrant_portainer.Base.{
  ℕ, zero, suc, ◌+◌, ◌-◌, ◌*◌, ◌/◌, ◌%◌, String, ◌≡◌, refl, Bool, true, false, ◌&&◌, ◌||◌, Option,
  none, some, List, [], ◌∷◌, leb, eqb, if◌then◌else◌, ◌==◌,
}

infixr 65 ◌⧺◌
-- `s + t` on texts
abbrev pub ◌⧺◌ : String → String → String
s ⧺ t = String.◌++◌ s t

-- `s + c` for one character
abbrev pub push : String → Char → String
push s c = s ⧺ String.◌∷◌ c String.[]

-- `c.isdigit()`
abbrev pub is_digit : Char → Bool
is_digit c = leb b'0' (code c) && leb (code c) b'9'

-- `c.isalpha()`
abbrev pub is_alpha : Char → Bool
is_alpha c = (leb b'a' (code c) && leb (code c) b'z') || (leb b'A' (code c) && leb (code c) b'Z')

-- `s[0] == c`, and false for the empty text, for which the programs raise before
unfoldable pub starts : (Char → Bool) → String → Bool
starts p String.[] = false
starts p (String.◌∷◌ c s) = p c

-- `s[0]`, which raises for the empty text
abbrev pub first : String → Option Char
first String.[] = none
first (String.◌∷◌ c s) = some c

-- `s[1:]`
abbrev pub rest_of : String → String
rest_of String.[] = String.[]
rest_of (String.◌∷◌ c s) = s

-- `c in s` for one character, given by its code
unfoldable pub contains_char : ℕ → String → Bool
contains_char k String.[] = false
contains_char k (String.◌∷◌ c s) = eqb (code c) k || contains_char k s

-- `s.startswith(prefix)`
unfoldable pub starts_with : String → String → Bool
starts_with s String.[] = true
starts_with String.[] (String.◌∷◌ k prefix) = false
starts_with (String.◌∷◌ c s) (String.◌∷◌ k prefix) = eqb (code c) (code k) && starts_with s prefix

-- The loop of `split`: `cur` is the part that is being read.
unfoldable pub split_from : ℕ → String → String → List String
split_from k cur String.[] = cur ∷ []
split_from k cur (String.◌∷◌ c s) =
    let closed = cur ∷ split_from k String.[] s in
    let longer = split_from k (push cur c) s in if eqb (code c) k then closed else longer

-- `s.split(sep)` for one character, given by its code
unfoldable pub split : ℕ → String → List String
unfolding split_from
split k s = split_from k String.[] s

-- `sep.join(parts)`
unfoldable pub join : String → List String → String
join sep [] = String.[]
join sep (p ∷ []) = p
join sep (p ∷ q ∷ ps) = p ⧺ sep ⧺ join sep (q ∷ ps)

split-comma : split b',' "first,10.0.0.1,x" ≡ "first" ∷ "10.0.0.1" ∷ "x" ∷ []
unfolding split
split-comma = refl

join-space : join " " ("a" ∷ "b" ∷ []) ≡ "a b"
unfolding join
join-space = refl

-- A character that `strip` takes off: the white space of ASCII.
abbrev pub is_space : Char → Bool
is_space c = (leb 9 (code c) && leb (code c) 13) || (leb 28 (code c) && leb (code c) 32)

-- `s.lstrip()`
unfoldable pub strip_left : String → String
strip_left String.[] = String.[]
strip_left (String.◌∷◌ c s) = let rest = strip_left s in if is_space c then rest else String.◌∷◌ c s

-- `s.rstrip()`
unfoldable pub strip_right : String → String
strip_right String.[] = String.[]
strip_right (String.◌∷◌ c s) =
    let rest = strip_right s in
    if is_space c && rest == String.[] then String.[] else String.◌∷◌ c rest

-- `s.strip()`
unfoldable pub strip : String → String
unfolding strip_left strip_right
strip s = strip_right (strip_left s)

-- `s.isdigit()`, but true for the empty text
unfoldable pub all_digits : String → Bool
all_digits String.[] = true
all_digits (String.◌∷◌ c s) = is_digit c && all_digits s

-- `len(s)`
unfoldable pub count : String → ℕ
count String.[] = 0
count (String.◌∷◌ c s) = suc (count s)

strip-spaces : strip "  a b " ≡ "a b"
unfolding strip
strip-spaces = refl
