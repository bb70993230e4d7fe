-- ===== src/Inventory/Hosts.antt =====
-- contrib/inventory_builder/inventory.py: the host table, `build_hostnames` and what it calls.
-- The loop's local variables are a record, since an argument without a comma leaves `hostname`,
-- `ip` and `access_ip` as an earlier round set them, or unbound.
pub mod Steps
pub mod Addresses
pub mod Table
pub mod Names
pub mod Keeps
pub mod Readable
pub mod Fresh
pub mod Total
pub mod Added
pub mod Deleted
pub mod Repeated
use Prim.Native.Char.{Char, code}
use vagrant_portainer.Base.{
  ℕ, ◌+◌, String, ◌≡◌, refl, Bool, true, false, Option, none, some, List, [], ◌∷◌, eqb, ltb, ◌==◌,
  if◌then◌else◌,
}
use vagrant_portainer.Base.Result.{
  Result, ok, raise, value_error, type_error, index_error, unbound_local, exit, ◌>>=◌, fold_result,
}
use vagrant_portainer.Base.Dict.{Dict, has_key, lookup, put, remove}
use vagrant_portainer.Base.Text.{
  first, rest_of, is_digit, is_alpha, contains_char, starts_with, split, ◌⧺◌,
}
use vagrant_portainer.Base.Text.Decimal.{show, trailing, value}
use vagrant_portainer.Inventory.Types.{
  HostVars, null, blank, vars, Hosts, Config, all_of, entries, Settings,
}

-- `'ip' in optstring` raises for null and is false for the empty text.
unfoldable pub get_ip_from_opts : HostVars → Result String
get_ip_from_opts null = raise type_error
get_ip_from_opts blank = raise value_error
get_ip_from_opts (vars d) = elim (lookup "ip" d) [ none ↦ raise value_error | some ip ↦ ok ip ]

abbrev pub first_part : List String → String
first_part [] = ""
first_part (p ∷ ps) = p

unfoldable pub get_host_id : String → Result ℕ
get_host_id host =
    let run = trailing "" (first_part (split b'.' host)) in
    if run == "" then raise value_error else ok (value 0 run)

abbrev pub exists_hostname : Hosts → String → Bool
exists_hostname existing_hosts hostname = has_key hostname existing_hosts

unfoldable pub exists_ip : Hosts → String → Result Bool
exists_ip [] ip = ok false
exists_ip ((_, opts) ∷ rest) ip = do
  found ← get_ip_from_opts opts
  if ip == found then ok true else exists_ip rest ip

-- The loop of `delete_host_by_ip` over the items that are left.
pub delete_from : Hosts → Hosts → String → Result Hosts
delete_from existing_hosts [] ip = raise value_error
delete_from existing_hosts ((hostname, opts) ∷ rest) ip = do
  found ← get_ip_from_opts opts
  if ip == found then ok (remove hostname existing_hosts) else delete_from existing_hosts rest ip

unfoldable pub delete_host_by_ip : Hosts → String → Result Hosts
unfolding delete_from
delete_host_by_ip existing_hosts ip = delete_from existing_hosts existing_hosts ip

-- `{'ansible_host': access_ip, 'ip': ip, 'access_ip': access_ip}`
abbrev pub host_opts : String → String → HostVars
host_opts ip access_ip =
    vars (("ansible_host", access_ip) ∷ ("ip", ip) ∷ ("access_ip", access_ip) ∷ [])

-- The local variables of the loop over `changed_hosts`.
pub record Build : Type 0 where
  pub all_hosts : Hosts
  pub next_host_id : ℕ
  pub hostname : Option String
  pub ip : Option String
  pub access_ip : Option String

abbrev read_local : Option String → Result String
read_local none = raise unbound_local
read_local (some s) = ok s

-- `ip, access_ip = host.split(',')`
abbrev pub two_parts : List String → Result (String × String)
two_parts (a ∷ b ∷ []) = ok (a, b)
two_parts _ = raise value_error

-- The `try` of the third branch: three parts, else two with the address for both.
abbrev pub three_parts : List String → Result (String × String × String)
three_parts (a ∷ b ∷ c ∷ []) = ok (a, b, c)
three_parts (a ∷ b ∷ []) = ok (a, b, b)
three_parts _ = raise value_error

-- "-host" or "-ip"
pub step_delete : Build → String → Result Build
step_delete b realhost =
    if exists_hostname b.all_hosts realhost
    then ok (record b { all_hosts = remove realhost b.all_hosts })
    else do
      there ← exists_ip b.all_hosts realhost
      if there
          then (do
            left ← delete_host_by_ip b.all_hosts realhost
            ok (record b { all_hosts = left }))
          else ok b

-- A new entry for an address: its name is the host's own, or the prefix with the next number.
name_ip : Settings → Build → String → String → Result Build
name_ip s b ip access_ip =
    if s.use_real_hostname
    then (do
      next_host ← s.hostname_of access_ip
      ok (record b { all_hosts = put next_host (host_opts ip access_ip) b.all_hosts }))
    else ok (record b {
      all_hosts = put (s.host_prefix ⧺ show b.next_host_id) (host_opts ip access_ip) b.all_hosts;
      next_host_id = b.next_host_id + 1;
    })

-- "ip" or "ip,access_ip"
step_ip : Settings → Build → String → Result Build
step_ip s b host = do
  (ip, access_ip) ← if contains_char b',' host then two_parts (split b',' host) else ok (host, host)
  let b' = record b { ip = some ip; access_ip = some access_ip }
  if exists_hostname b.all_hosts host
      then ok b'
      else do there ← exists_ip b.all_hosts ip; if there then ok b' else name_ip s b' ip access_ip

-- The locals after `hostname, ip, access_ip = host.split(',')`; without a comma they stay.
bind_names : Build → String → Result Build
bind_names b host =
    if contains_char b',' host
    then (do
      (hostname, ip, access_ip) ← three_parts (split b',' host)
      ok (record b { hostname = some hostname; ip = some ip; access_ip = some access_ip }))
    else ok b

-- The rest of the third branch, which reads the locals.
step_bound : Build → String → Result Build
step_bound b host = if exists_hostname b.all_hosts host then ok b else do
  ip ← read_local b.ip
  there ← exists_ip b.all_hosts ip
  if there then ok b else do
    access_ip ← read_local b.access_ip
    hostname ← read_local b.hostname
    ok (record b { all_hosts = put hostname (host_opts ip access_ip) b.all_hosts })

-- "hostname,ip" or "hostname,ip,access_ip"
pub step_name : Build → String → Result Build
step_name b host = do b' ← bind_names b host; step_bound b' host

-- One round, by the first character; an argument that starts with another one is passed over.
step_by : Settings → Build → String → Option Char → Result Build
step_by s b host none = raise index_error
step_by s b host (some c) =
    if eqb (code c) b'-'
    then step_delete b (rest_of host)
    else if is_digit c
    then step_ip s b host
    else if is_alpha c
    then step_name b host
    else ok b

unfoldable pub step : Settings → Build → String → Result Build
unfolding step_by step_delete step_ip step_name step_bound name_ip bind_names
step s b host = step_by s b host (first host)

-- The loop over the hosts of the document: their copy, and the highest number of a name that
-- starts with the prefix.
pub scan_existing : Settings → Hosts × ℕ → String × HostVars → Result (Hosts × ℕ)
scan_existing s (existing, highest) (host, host_config) =
    let existing' = put host host_config existing in
    if starts_with host s.host_prefix
    then (do
      host_id ← get_host_id host
      ok (existing', if ltb highest host_id then host_id else highest))
    else ok (existing', highest)

pub load_existing : Settings → Config → Result (Hosts × ℕ)
load_existing s c = do
  a ← all_of c
  hosts ← entries a.hosts
  fold_result (scan_existing s) ([], 0) hosts

-- `except Exception`: whatever the loop raises ends the program with status 1.
abbrev or_exit {ℓ} : {A : Type ℓ} → Result A → Result A
or_exit (ok a) = ok a
or_exit (raise e) = raise (exit 1)

unfoldable pub existing_hosts : Settings → Config → Bool → Result (Hosts × ℕ)
unfolding load_existing scan_existing
existing_hosts s c false = ok ([], 0)
existing_hosts s c true = or_exit (load_existing s c)

unfoldable pub build_hostnames : Settings → Config → List String → Bool → Result Hosts
unfolding existing_hosts
build_hostnames s c changed_hosts load_previous_config = do
  (existing, highest_host_id) ← existing_hosts s c load_previous_config
  b ←
      fold_result (step s)
        (record {
          all_hosts = existing;
          next_host_id = highest_host_id + 1;
          hostname = none;
          ip = none;
          access_ip = none;
        })
        changed_hosts
  ok b.all_hosts
