-- ===== src/Inventory/Hosts/Readable.antt =====
-- Host tables of contrib/inventory_builder/inventory.py that a later use can load, and the forms of
-- arguments that it knows.
use vagrant_portainer.Base.{
  String, ◌≡◌, refl, Bool, true, false, not, ◌&&◌, ◌||◌, Bool-cases, inl, inr, Option, none, some,
  List, [], ◌∷◌, arith, eqb, ◌==◌, if◌then◌else◌,
}
use Prim.Native.Char.{Char, code}
use vagrant_portainer.Base.Result.{Result-cases, ok, is_ok}
use vagrant_portainer.Base.Dict.{IsDict, put, remove, put-IsDict, remove-IsDict}
use vagrant_portainer.Base.Text.{first, is_digit, is_alpha, contains_char, starts_with, split}
use vagrant_portainer.Inventory.Types.{HostVars, Hosts}
use vagrant_portainer.Inventory.Hosts.{get_ip_from_opts, get_host_id, host_opts, delete_from}
use vagrant_portainer.Inventory.Hosts.Addresses.{uses_ip, addressed}
use vagrant_portainer.Inventory.Hosts.Table.{get_ip-host_opts}

-- A name that a later use can load: where it starts with the prefix, it ends in a number.
abbrev pub has_id : String → String → Bool
has_id prefix h = not (starts_with h prefix) || is_ok (get_host_id h)

-- Every host has an address, and a name that a later use can load.
unfoldable pub readable : String → Hosts → Bool
readable prefix [] = true
readable prefix ((h, o) ∷ d) = is_ok (get_ip_from_opts o) && has_id prefix h && readable prefix d

-- "hostname,ip" or "hostname,ip,access_ip", with a name that a later use can load.
abbrev pub names_host : String → List String → Bool
names_host prefix (h ∷ ip ∷ []) = has_id prefix h
names_host prefix (h ∷ ip ∷ access_ip ∷ []) = has_id prefix h
names_host prefix _ = false

abbrev pub is_pair : List String → Bool
is_pair (ip ∷ access_ip ∷ []) = true
is_pair _ = false

abbrev pub starts_argument : String → String → Option Char → Bool
starts_argument prefix host none = false
starts_argument prefix host (some c) =
    if eqb (code c) b'-'
    then true
    else if is_digit c
    then not (contains_char b',' host) || is_pair (split b',' host)
    else if is_alpha c
    then names_host prefix (split b',' host)
    else true

-- An argument on which a round raises no error, and that names no host that a later use cannot load:
-- "-host" and "-ip"; "ip" and "ip,access_ip" with a digit in front; a host name with one or two
-- addresses, which ends in a number if it starts with the prefix; or a word that starts with another
-- character, which is passed over.
abbrev pub is_argument : String → String → Bool
is_argument prefix host = starts_argument prefix host (first host)

module _ (prefix : String) where
  pub addressed-readable : (d : Hosts) → readable prefix d ≡ true → addressed d ≡ true
  unfolding readable addressed
  addressed-readable [] h = refl
  addressed-readable ((k, o) ∷ d) h = ground (arith, addressed-readable d)

  pub readable-put :
      (k : String) (o : HostVars) (d : Hosts)
      → is_ok (get_ip_from_opts o) ≡ true
      → has_id prefix k ≡ true
      → readable prefix d ≡ true
      → readable prefix (put k o d) ≡ true
  unfolding readable put
  readable-put k o [] i n h = ground arith
  readable-put k o ((j, w) ∷ d) i n h = ground (arith, readable-put k o d i n)

  pub readable-remove :
      (k : String) (d : Hosts) → readable prefix d ≡ true → readable prefix (remove k d) ≡ true
  unfolding readable remove
  readable-remove k [] h = refl
  readable-remove k ((j, w) ∷ d) h = ground (arith, readable-remove k d)

-- A host table that a later use can load, in which no name stands twice.
pub record IsReadable (prefix : String) (d : Hosts) : Type 0 where
  pub keys : IsDict d
  pub hosts : readable prefix d ≡ true

module _ (prefix : String) where
  pub IsReadable-put :
      (k : String) (o : HostVars) (d : Hosts)
      → is_ok (get_ip_from_opts o) ≡ true
      → has_id prefix k ≡ true
      → IsReadable prefix d
      → IsReadable prefix (put k o d)
  IsReadable-put k o d i n h = record {
    keys = put-IsDict k o d h.keys;
    hosts = readable-put prefix k o d i n h.hosts;
  }

  pub IsReadable-put_opts :
      (k ip access_ip : String) (d : Hosts)
      → has_id prefix k ≡ true
      → IsReadable prefix d
      → IsReadable prefix (put k (host_opts ip access_ip) d)
  IsReadable-put_opts k ip access_ip d n h =
      IsReadable-put k _ d (rw (get_ip-host_opts ip access_ip) refl) n h

  pub IsReadable-remove :
      (k : String) (d : Hosts) → IsReadable prefix d → IsReadable prefix (remove k d)
  IsReadable-remove k d h = record {
    keys = remove-IsDict k d h.keys;
    hosts = readable-remove prefix k d h.hosts;
  }

-- A host with the address is there to be deleted.
pub delete_from-remove :
    (d rest : Hosts) (ip : String)
    → addressed rest ≡ true
    → uses_ip ip rest ≡ true
    → (k : String) × (delete_from d rest ip ≡ ok (remove k d))
unfolding delete_from addressed uses_ip
delete_from-remove d [] ip a u = absurd cc
delete_from-remove d ((k, o) ∷ rest) ip a u = elim (Result-cases (get_ip_from_opts o)) [
  | inr (e, raises) ↦ absurd (ground arith)
  | inl (found, has) ↦ elim (Bool-cases (ip == found)) [
    | inl same ↦ (k, rw (has, same) refl)
    | inr differs ↦
        let (k', e) = delete_from-remove d rest ip (ground arith) (ground arith) in
        (k', rw (has, differs) e)
  ]
]
