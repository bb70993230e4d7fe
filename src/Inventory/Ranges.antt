-- ===== src/Inventory/Ranges.antt =====
-- contrib/inventory_builder/inventory.py: `range2ips`, with what it uses of Python's `ipaddress`.
-- Version 4 is written out; the texts of version 6 are the functions of the settings.
pub mod Expand
pub mod Canonical
use Prim.Native.Char.{Char, code}
use vagrant_portainer.Base.{
  ℕ, zero, suc, ◌+◌, ◌-◌, ◌*◌, ◌/◌, ◌%◌, ◌^◌, String, ◌≡◌, refl, Bool, true, false, not, ◌&&◌, ◌||◌,
  Option, none, some, List, [], ◌∷◌, ◌++◌, eqb, leb, ltb, ◌==◌, if◌then◌else◌,
}
use vagrant_portainer.Base.Result.{Result, ok, raise, value_error, generic, ◌>>=◌, fold_result}
use vagrant_portainer.Base.Lists.{length}
use vagrant_portainer.Base.Text.{
  first, is_digit, is_alpha, contains_char, split, strip, all_digits, count, ◌⧺◌,
}
use vagrant_portainer.Base.Text.Decimal.{show, value}
use vagrant_portainer.Inventory.Types.{Settings}

abbrev pub leads_zero : Option Char → Bool
leads_zero none = false
leads_zero (some c) = eqb (code c) b'0'

-- What `ipaddress` wants of a number of an address: one to three digits, no zero in front.
abbrev pub is_octet : String → Bool
is_octet t =
    all_digits t
    && leb 1 (count t)
    && leb (count t) 3
    && (leb (count t) 1 || not (leads_zero (first t)))
    && leb (value 0 t) 255

unfoldable pub octet : String → Option ℕ
octet t = if is_octet t then some (value 0 t) else none

abbrev pub join_octets : Option ℕ → Option ℕ → Option ℕ → Option ℕ → Option ℕ
join_octets (some a) (some b) (some c) (some d) = some (((a * 256 + b) * 256 + c) * 256 + d)
join_octets _ _ _ _ = none

abbrev pub four_octets : List String → Option ℕ
four_octets (a ∷ b ∷ c ∷ d ∷ []) = join_octets (octet a) (octet b) (octet c) (octet d)
four_octets _ = none

-- `int(IPv4Address(text))`
unfoldable pub ipv4_int : String → Option ℕ
unfolding octet
ipv4_int text = four_octets (split b'.' text)

-- `IPv4Address(n).exploded`
unfoldable pub ipv4_exploded : ℕ → String
ipv4_exploded n =
    show (n / 2 ^ 24)
    ⧺ "."
    ⧺ show (n / 2 ^ 16 % 256)
    ⧺ "."
    ⧺ show (n / 2 ^ 8 % 256)
    ⧺ "."
    ⧺ show (n % 256)

-- `int(ip_address(text))`: version 4, then version 6
unfoldable pub address_int : Settings → String → Result ℕ
address_int s text = elim (ipv4_int text) [
  | some n ↦ ok n
  | none ↦ elim (s.ipv6_int text) [ some n ↦ ok n | none ↦ raise value_error ]
]

-- `ip_address(n).exploded` for a number
unfoldable pub address_exploded : Settings → ℕ → Result String
address_exploded s n =
    if ltb n (2 ^ 32)
    then ok (ipv4_exploded n)
    else if ltb n (2 ^ 128)
    then ok (s.ipv6_exploded n)
    else raise value_error

-- The comprehension over `range(start, start + n)`.
unfoldable pub explode_from : Settings → ℕ → ℕ → Result (List String)
explode_from s zero start = ok []
explode_from s (suc n) start = do
  ip ← address_exploded s start
  rest ← explode_from s n (start + 1)
  ok (ip ∷ rest)

unfoldable pub ips : Settings → String → String → Result (List String)
unfolding address_int explode_from address_exploded
ips s start_address end_address = do
  start ← address_int s start_address
  end' ← address_int s end_address
  explode_from s (end' + 1 - start) start

-- `'-' in host and not (host.startswith('-') or host[0].isalpha())`
abbrev pub starts_range : Option Char → Bool
starts_range none = false
starts_range (some c) = not (eqb (code c) b'-' || is_alpha c)

abbrev pub is_range : String → Bool
is_range host = contains_char b'-' host && starts_range (first host)

-- `except ValueError: raise Exception(...)`
abbrev as_generic {ℓ} : {A : Type ℓ} → Result A → Result A
as_generic (raise value_error) = raise generic
as_generic m = m

-- `start, end = host.strip().split('-')`, outside of the `try`
abbrev pub range_ips : Settings → List String → Result (List String)
range_ips s (start ∷ end' ∷ []) = as_generic (ips s start end')
range_ips s _ = raise value_error

pub range_round : Settings → List String → String → Result (List String)
range_round s reworked host =
    if is_range host
    then (do expanded ← range_ips s (split b'-' (strip host)); ok (reworked ++ expanded))
    else ok (reworked ++ host ∷ [])

unfoldable pub range2ips : Settings → List String → Result (List String)
unfolding range_round
range2ips s hosts = fold_result (range_round s) [] hosts

ipv4_int-dotted : ipv4_int "10.90.0.2" ≡ some 173670402
unfolding ipv4_int split all_digits count value
ipv4_int-dotted = refl

ipv4_exploded-dotted : ipv4_exploded 173670402 ≡ "10.90.0.2"
unfolding ipv4_exploded show
ipv4_exploded-dotted = refl
