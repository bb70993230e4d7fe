-- ===== src/Inventory/Session/New.antt =====
-- A new inventory by contrib/inventory_builder/inventory.py, from the arguments to the file.
use Prim.Native.Char.{Char, code}
use vagrant_portainer.Base.{
  String, ◌≡◌, refl, ap, ◌∙◌, Bool, true, false, ◌&&◌, Option, none, some, List, [], ◌∷◌, arith,
  ◌==◌, eq_iff, eqb, if◌then◌else◌, Bool-cases, inl, inr,
}
use vagrant_portainer.Base.Result.{Error, Result, ok, raise, fold_result}
use vagrant_portainer.Base.Text.{first}
use vagrant_portainer.Inventory.Types.{roles, AllGroup, Config}
use vagrant_portainer.Inventory.Hosts.Names.{IsPlainPrefix}
use vagrant_portainer.Inventory.Hosts.Keeps.{IsAddress, starts_with_digit}
use vagrant_portainer.Inventory.Hosts.Fresh.{AreNew, numbered, build_hostnames-numbered}
use vagrant_portainer.Inventory.Ranges.Expand.{NoRanges, range2ips-none}
use vagrant_portainer.Inventory.Groups.{no_hosts, ensure_required_groups}
use vagrant_portainer.Inventory.Groups.Shape.{distribute-Succeeds}
use vagrant_portainer.Inventory.Groups.Shaped.{Shape, all_shaped}
use vagrant_portainer.Inventory.Groups.Members.{all_hosts}
use vagrant_portainer.Inventory.Hosts.Table.{no_hosts-IsTable, build_hostnames-IsTable}
use vagrant_portainer.Inventory.Groups.Distributed.{IsDistributed, distribute-Distribution}
use vagrant_portainer.Base.Dict.{lookup, put}
use vagrant_portainer.Inventory.Session.{
  Run, World, configure, with_config, dispatch_if, deletes, dispatch, init, write_config,
}

-- The document with the groups of the roles, and no hosts.
abbrev pub fresh : AllGroup
fresh = record {
  hosts = some [];
  children =
      ("kube_control_plane", no_hosts)
      ∷ ("kube_node", no_hosts)
      ∷ ("etcd", no_hosts)
      ∷ ("k8s_cluster", no_hosts)
      ∷ ("calico_rr", no_hosts)
      ∷ [];
}

pub ensure_fresh : ensure_required_groups none roles ≡ ok (some fresh)
unfolding ensure_required_groups fold_result lookup put
ensure_fresh = refl

pub fresh-Shape : Shape fresh
unfolding all_shaped lookup
fresh-Shape = record {
  hosts = refl;
  groups = refl;
  etcd = refl;
  control_plane = refl;
  node = refl;
  calico = refl;
}

-- A text that starts with a digit is no word that starts with another character.
pub not_word :
    (ip word : String)
    → IsAddress ip
    → starts_with_digit (first word) ≡ false
    → (ip == word) ≡ false
not_word ip word a n = elim (Bool-cases (ip == word)) [
  | inl same ↦ absurd (
      ground
        (arith, eq_iff ip word, ap (λ t. starts_with_digit (first t)) ((eq_iff ip word).0 same)))
  | inr differs ↦ differs
]

pub deletes-false : (ip : String) (ips : List String) → IsAddress ip → deletes (ip ∷ ips) ≡ ok false
deletes-false ip ips a = starts (first ip) a
  where
    starts :
        (c : Option Char)
        → starts_with_digit c ≡ true
        → elim c as (λ x. Result Bool) [
          | none ↦ raise Error.index_error
          | some k ↦ ok (eqb (code k) b'-')
        ]
          ≡ ok false
    starts none h = absurd cc
    starts (some k) h = ground arith

pub no_load : {A : Type 0} (b : Bool) (x y : A) → (if b && false then x else y) ≡ y
no_load true x y = refl
no_load false x y = refl

-- The arguments make a new document.
pub init_dispatch :
    (w : World) (ip : String) (ips : List String)
    → IsAddress ip
    → init w (ip ∷ ips) ≡ configure w none (ip ∷ ips) false
unfolding init dispatch dispatch_if with_config
init_dispatch w ip ips a =
    rw
      (
        not_word ip "add" a refl,
        not_word ip "print_hostnames" a refl,
        not_word ip "help" a refl,
        not_word ip "print_cfg" a refl,
        not_word ip "print_ips" a refl,
        not_word ip "load" a refl,
        deletes-false ip ips a,
        no_load w.has_config_file w.previous (some none),
      )
      refl

-- The file is written once, with the document `c`.
abbrev pub written_once : World → Config → Run
written_once w c = record { events = write_config w c ∷ []; ended = ok tt }

-- For distinct plain addresses, none of them a range, with generated names and a plain prefix, the
-- program ends without an error, and all that it does is one call of `write_config`. The hosts of
-- the document are the prefix with the numbers from 1, in the order of the arguments, each with its
-- address for `ansible_host`, `ip` and `access_ip`, and the roles are distributed over them.
pub init_new :
    (w : World) (ip : String) (ips : List String)
    → w.settings.use_real_hostname ≡ false
    → IsPlainPrefix w.settings.host_prefix
    → AreNew w.settings.host_prefix [] (ip ∷ ips)
    → NoRanges (ip ∷ ips)
    → (c : Config) × (init w (ip ∷ ips) ≡ written_once w c)
      × (all_hosts c ≡ numbered w.settings.host_prefix 1 (ip ∷ ips))
      × IsDistributed w.settings (numbered w.settings.host_prefix 1 (ip ∷ ips)) (some fresh) c
unfolding configure
init_new w ip ips generated plain new no_range =
    let s = w.settings in
    let hosts = numbered s.host_prefix 1 (ip ∷ ips) in
    let built = build_hostnames-numbered s generated plain (some fresh) (ip ∷ ips) new in
    let table =
      build_hostnames-IsTable s (some fresh) (ip ∷ ips) false hosts no_hosts-IsTable built in
    let done = distribute-Succeeds s fresh hosts fresh-Shape in
    let given = (distribute-Distribution s (some fresh) hosts).at (some done.result) done.returns in
    (
      some done.result,
      init_dispatch w ip ips new.0.0
          ∙ rw (ensure_fresh, range2ips-none s (ip ∷ ips) no_range) (rw (built, done.returns) refl),
      given.exact refl table.keys,
      given.distributed,
    )
