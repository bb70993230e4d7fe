-- ===== src/Inventory/Hosts/Addresses.antt =====
-- Addresses in the host table of contrib/inventory_builder/inventory.py: what `exists_ip` finds,
-- and tables in which no two hosts have one address.

use vagrant_portainer.Base.{
  String, ◌≡◌, refl, Bool, true, false, not, ◌&&◌, ◌||◌, [], ◌∷◌, ◌++◌, arith, ◌==◌, eq_iff,
}
use vagrant_portainer.Base.Result.{Result, ok, raise, is_ok}
use vagrant_portainer.Base.Dict.{put, remove}
use vagrant_portainer.Inventory.Types.{HostVars, Hosts}
use vagrant_portainer.Inventory.Hosts.{get_ip_from_opts, exists_ip}

-- The address of a host is `ip`.
abbrev pub has_ip : String → Result String → Bool
has_ip ip (ok found) = ip == found
has_ip ip (raise e) = false

-- Some host of the table has the address.
unfoldable pub uses_ip : String → Hosts → Bool
uses_ip ip [] = false
uses_ip ip ((_, o) ∷ d) = has_ip ip (get_ip_from_opts o) || uses_ip ip d

abbrev pub is_unused : Result String → Hosts → Bool
is_unused (ok ip) d = not (uses_ip ip d)
is_unused (raise e) d = true

unfoldable pub distinct_ips : Hosts → Bool
distinct_ips [] = true
distinct_ips ((_, o) ∷ d) = is_unused (get_ip_from_opts o) d && distinct_ips d

-- No two hosts of the table have one address.
abbrev pub DistinctIps : Hosts → Type 0
DistinctIps d = distinct_ips d ≡ true

-- When `exists_ip` returns, it has the answer.
pub exists_ip_lem : (d : Hosts) (ip : String) (b : Bool) → exists_ip d ip ≡ ok b → uses_ip ip d ≡ b
unfolding exists_ip uses_ip
exists_ip_lem [] ip b e = ground arith
exists_ip_lem ((_, o) ∷ d) ip b e = ground (arith, exists_ip_lem d ip b)

uses_ip-put :
    (ip k : String) (o : HostVars) (d : Hosts)
    → uses_ip ip d ≡ false
    → has_ip ip (get_ip_from_opts o) ≡ false
    → uses_ip ip (put k o d) ≡ false
unfolding uses_ip put
uses_ip-put ip k o [] h n = ground arith
uses_ip-put ip k o ((i, w) ∷ d) h n = ground (arith, uses_ip-put ip k o d)

uses_ip-remove :
    (ip k : String) (d : Hosts) → uses_ip ip d ≡ false → uses_ip ip (remove k d) ≡ false
unfolding uses_ip remove
uses_ip-remove ip k [] h = refl
uses_ip-remove ip k ((i, w) ∷ d) h = ground (arith, uses_ip-remove ip k d)

is_unused-remove :
    (r : Result String) (k : String) (d : Hosts)
    → is_unused r d ≡ true
    → is_unused r (remove k d) ≡ true
is_unused-remove (ok ip) k d h = ground (arith, uses_ip-remove ip k d)
is_unused-remove (raise e) k d h = refl

is_unused-put :
    (r : Result String) (k ip : String) (o : HostVars) (d : Hosts)
    → get_ip_from_opts o ≡ ok ip
    → has_ip ip r ≡ false
    → is_unused r d ≡ true
    → is_unused r (put k o d) ≡ true
is_unused-put (ok j) k ip o d e n h = ground (arith, uses_ip-put j k o d, eq_iff ip j, eq_iff j ip)
is_unused-put (raise e') k ip o d e n h = refl

pub remove-DistinctIps : (k : String) (d : Hosts) → DistinctIps d → DistinctIps (remove k d)
unfolding distinct_ips remove
remove-DistinctIps k [] h = refl
remove-DistinctIps k ((i, w) ∷ d) h =
    ground (arith, is_unused-remove (get_ip_from_opts w) k d, remove-DistinctIps k d)

-- A host with an address that no host has may be put.
pub put-DistinctIps :
    (k ip : String) (o : HostVars) (d : Hosts)
    → get_ip_from_opts o ≡ ok ip
    → uses_ip ip d ≡ false
    → DistinctIps d
    → DistinctIps (put k o d)
unfolding distinct_ips uses_ip put
put-DistinctIps k ip o [] e u h = ground arith
put-DistinctIps k ip o ((i, w) ∷ d) e u h =
    ground (arith, is_unused-put (get_ip_from_opts w) k ip o d e, put-DistinctIps k ip o d e)

-- Every host of the table has an address.
unfoldable pub addressed : Hosts → Bool
addressed [] = true
addressed ((_, o) ∷ d) = is_ok (get_ip_from_opts o) && addressed d

-- Where every host has an address, `exists_ip` returns, and says whether one has this one.
pub exists_ip_total :
    (d : Hosts) (ip : String) → addressed d ≡ true → exists_ip d ip ≡ ok (uses_ip ip d)
unfolding addressed exists_ip uses_ip
exists_ip_total [] ip h = refl
exists_ip_total ((_, o) ∷ d) ip h = ground (arith, exists_ip_total d ip)

pub uses_ip-append :
    (ip : String) (d e : Hosts) → uses_ip ip (d ++ e) ≡ (uses_ip ip d || uses_ip ip e)
unfolding uses_ip
uses_ip-append ip [] e = refl
uses_ip-append ip ((_, o) ∷ d) e = ground (arith, uses_ip-append ip d e)

pub addressed-append : (d e : Hosts) → addressed (d ++ e) ≡ (addressed d && addressed e)
unfolding addressed
addressed-append [] e = refl
addressed-append ((_, o) ∷ d) e = ground (arith, addressed-append d e)
