-- ===== src/Inventory/Hosts/Table.antt =====
-- `build_hostnames` of contrib/inventory_builder/inventory.py keeps the host table well formed.
use mathlib.Core.Path.{subst}
use mathlib.Core.List.{append-nil}
use vagrant_portainer.Base.{
  ℕ, String, ◌≡◌, refl, Bool, true, false, Bool-cases, inl, inr, Option, none, some, List, [], ◌∷◌,
  ◌++◌, ◌==◌, ap, ◌∙◌, sym,
}
use Prim.Native.Char.{Char}
use vagrant_portainer.Base.Result.{
  Result, ok, raise, ◌>>=◌, >>=-eq-ok, ok-injective, fold_result, Ensures, Ensures-ok,
  Ensures-raise, Ensures-bind, Ensures-fold_result, ensures_rules,
}
use vagrant_portainer.Base.Dict.{IsDict, lookup, put, remove, put-IsDict, remove-IsDict, put_next}
use vagrant_portainer.Base.Text.{first}
use vagrant_portainer.Inventory.Types.{HostVars, Hosts, Config, Settings, entries, or_empty}
use vagrant_portainer.Inventory.Hosts.{
  get_ip_from_opts, exists_ip, delete_from, delete_host_by_ip, host_opts, Build, step_delete,
  name_ip, step_ip, bind_names, step_bound, step_name, step_by, step, scan_existing, load_existing,
  or_exit, existing_hosts, build_hostnames,
}
use vagrant_portainer.Inventory.Hosts.Addresses.{
  uses_ip, distinct_ips, DistinctIps, exists_ip_lem, put-DistinctIps, remove-DistinctIps,
}

-- A host table: no host name and no address is there twice.
pub record IsTable (d : Hosts) : Type 0 where
  pub keys : IsDict d
  pub ips : DistinctIps d

pub get_ip-host_opts : (ip access_ip : String) → get_ip_from_opts (host_opts ip access_ip) ≡ ok ip
unfolding get_ip_from_opts lookup
get_ip-host_opts ip access_ip = refl

remove-IsTable : (k : String) (d : Hosts) → IsTable d → IsTable (remove k d)
remove-IsTable k d h = record {
  keys = remove-IsDict k d h.keys;
  ips = remove-DistinctIps k d h.ips;
}

put-IsTable :
    (k ip access_ip : String) (d : Hosts)
    → uses_ip ip d ≡ false
    → IsTable d
    → IsTable (put k (host_opts ip access_ip) d)
put-IsTable k ip access_ip d u h = record {
  keys = put-IsDict k _ d h.keys;
  ips = put-DistinctIps k ip (host_opts ip access_ip) d (get_ip-host_opts ip access_ip) u h.ips;
}

-- The table of the loop's state.
abbrev HasTable : Build → Type 0
HasTable b = IsTable b.all_hosts

-- `delete_host_by_ip` takes one host out.
delete_from-remove :
    (d rest : Hosts) (ip : String) (d' : Hosts)
    → delete_from d rest ip ≡ ok d'
    → (h : String) × (d' ≡ remove h d)
unfolding delete_from
delete_from-remove d [] ip d' e = absurd cc
delete_from-remove d ((h, o) ∷ rest) ip d' e =
    let (found, _, e') = >>=-eq-ok (get_ip_from_opts o) _ e in
    elim (Bool-cases (ip == found)) [
      | inl same ↦ (h, sym (ok-injective (rw same at e')))
      | inr differs ↦ delete_from-remove d rest ip d' (rw differs at e')
    ]

delete_host_by_ip-IsTable :
    (d : Hosts) (ip : String) (d' : Hosts) → delete_host_by_ip d ip ≡ ok d' → IsTable d → IsTable d'
unfolding delete_host_by_ip
delete_host_by_ip-IsTable d ip d' e h =
    let (k, same) = delete_from-remove d d ip d' e in
    subst IsTable (sym same) (remove-IsTable k d h)

step_delete-IsTable : (b : Build) (r : String) → HasTable b → Ensures HasTable (step_delete b r)
unfolding step_delete
step_delete-IsTable b r h =
    search (ensures_rules, remove-IsTable, delete_host_by_ip-IsTable) depth 8

name_ip-IsTable :
    (s : Settings) (b : Build) (ip access_ip : String)
    → uses_ip ip b.all_hosts ≡ false
    → HasTable b
    → Ensures HasTable (name_ip s b ip access_ip)
unfolding name_ip
name_ip-IsTable s b ip access_ip u h = search (ensures_rules, put-IsTable)

unused_of_exists_ip :
    (d : Hosts) (ip : String) (b : Bool) → exists_ip d ip ≡ ok b → b ≡ false → uses_ip ip d ≡ false
unused_of_exists_ip d ip b e n = exists_ip_lem d ip b e ∙ n

step_ip-IsTable :
    (s : Settings) (b : Build) (host : String) → HasTable b → Ensures HasTable (step_ip s b host)
unfolding step_ip
step_ip-IsTable s b host h = search (ensures_rules, name_ip-IsTable, unused_of_exists_ip) depth 9

all_hosts-bind_names :
    (b : Build) (host : String) → Ensures (λ b'. b.all_hosts ≡ b'.all_hosts) (bind_names b host)
unfolding bind_names
all_hosts-bind_names b host = search ensures_rules

HasTable-bind_names :
    (b : Build) (host : String)
    → HasTable b
    → (b' : Build) → bind_names b host ≡ ok b'
    → HasTable b'
HasTable-bind_names b host h b' e = subst IsTable ((all_hosts-bind_names b host).at b' e) h

step_bound-IsTable : (b : Build) (host : String) → HasTable b → Ensures HasTable (step_bound b host)
unfolding step_bound
step_bound-IsTable b host h = search (ensures_rules, put-IsTable, unused_of_exists_ip) depth 12

step_name-IsTable : (b : Build) (host : String) → HasTable b → Ensures HasTable (step_name b host)
unfolding step_name
step_name-IsTable b host h =
    Ensures-bind (bind_names b host) _
      (λ b' e. step_bound-IsTable b' host (HasTable-bind_names b host h b' e))

step_by-IsTable :
    (s : Settings) (b : Build) (host : String) (c : Option Char)
    → HasTable b
    → Ensures HasTable (step_by s b host c)
unfolding step_by
step_by-IsTable s b host none h = search ensures_rules
step_by-IsTable s b host (some c) h =
    search (ensures_rules, step_delete-IsTable, step_ip-IsTable, step_name-IsTable) depth 8

-- Every argument keeps the table well formed, whatever the locals of earlier rounds hold.
pub step-IsTable :
    (s : Settings) (b : Build) (host : String) → HasTable b → Ensures HasTable (step s b host)
unfolding step
step-IsTable s b host h = step_by-IsTable s b host (first host) h

scan_existing-put :
    (s : Settings) (p : Hosts × ℕ) (h : String) (o : HostVars)
    → Ensures (λ r. r.0 ≡ put h o p.0) (scan_existing s p (h, o))
unfolding scan_existing
scan_existing-put s p h o = search ensures_rules

-- The copy of the hosts of the document is the hosts of the document.
pub scan_existing-eq :
    (s : Settings) (p : Hosts × ℕ) (l : Hosts) (r : Hosts × ℕ)
    → IsDict (p.0 ++ l)
    → fold_result (scan_existing s) p l ≡ ok r
    → r.0 ≡ p.0 ++ l
unfolding fold_result
scan_existing-eq s p [] r d e = rw append-nil (sym (ap (λ q. q.0) (ok-injective e)))
scan_existing-eq s p ((h, o) ∷ l) r d e =
    let (t, e₁, e₂) = >>=-eq-ok (scan_existing s p (h, o)) _ e in
    let same : t.0 ++ l ≡ p.0 ++ (h, o) ∷ l =
      ap (λ q. q ++ l) ((scan_existing-put s p h o).at t e₁) ∙ put_next h o p.0 l d in
    scan_existing-eq s t l r (subst IsDict (sym same) d) e₂ ∙ same

-- The hosts of the document before; a null has none.
abbrev pub hosts_before : Config → Hosts
hosts_before none = []
hosts_before (some a) = or_empty a.hosts

load_entries :
    (s : Settings) (m : Option Hosts)
    → IsDict (or_empty m)
    → Ensures (λ r. r.0 ≡ or_empty m) (entries m >>= fold_result (scan_existing s) ([], 0))
load_entries s none d = search ensures_rules
load_entries s (some h) d = record { at = λ r e. scan_existing-eq s ([], 0) h r d e }

pub load_existing-eq :
    (s : Settings) (c : Config)
    → IsDict (hosts_before c)
    → Ensures (λ r. r.0 ≡ hosts_before c) (load_existing s c)
unfolding load_existing
load_existing-eq s none d = search ensures_rules
load_existing-eq s (some a) d = load_entries s a.hosts d

Ensures-or_exit {ℓ κ} :
    {A : Type ℓ} {P : A → Type κ} (m : Result A) → Ensures P m → Ensures P (or_exit m)
Ensures-or_exit (ok a) h = h
Ensures-or_exit (raise e) h = Ensures-raise _

pub no_hosts-IsTable : IsTable []
unfolding distinct_ips
no_hosts-IsTable = record { keys = tt; ips = refl }

existing_hosts-IsTable :
    (s : Settings) (c : Config) (load : Bool)
    → IsTable (hosts_before c)
    → Ensures (λ r. IsTable r.0) (existing_hosts s c load)
unfolding existing_hosts
existing_hosts-IsTable s c false h = Ensures-ok _ no_hosts-IsTable
existing_hosts-IsTable s c true h =
    Ensures-or_exit (load_existing s c)
      (record { at = λ r e. subst IsTable (sym ((load_existing-eq s c h.keys).at r e)) h })

-- Where no host name and no address stands twice in the document, none does in the host table that
-- is returned, for any arguments: additions, deletions, repeated hosts, and arguments that read
-- what an earlier round left in the local variables.
pub build_hostnames-IsTable :
    (s : Settings) (c : Config) (changed_hosts : List String) (load : Bool) (d : Hosts)
    → IsTable (hosts_before c)
    → build_hostnames s c changed_hosts load ≡ ok d
    → IsTable d
unfolding build_hostnames
build_hostnames-IsTable s c changed_hosts load d h e = (built.at d e)
  where
    built : Ensures IsTable (build_hostnames s c changed_hosts load)
    built = Ensures-bind (existing_hosts s c load) _ λ r e₁. Ensures-bind _ _ λ b e₂. Ensures-ok _ (
        (Ensures-fold_result (step s) (step-IsTable s) _ changed_hosts
            ((existing_hosts-IsTable s c load h).at r e₁)).at
          b e₂)
