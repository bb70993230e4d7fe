-- ===== src/Inventory/Session/Use.antt =====
-- One use of contrib/inventory_builder/inventory.py on a document that it can go on from.
use vagrant_portainer.Base.{
  String, ◌≡◌, refl, sym, ap, Bool, true, false, Option, none, some, List, ◌∷◌, arith,
}
use mathlib.Core.Path.{subst}
use vagrant_portainer.Base.Result.{ok, all}
use vagrant_portainer.Base.Lists.{elem}
use vagrant_portainer.Base.Dict.{IsDict, is_some, lookup, keys}
use vagrant_portainer.Inventory.Types.{
  roles, available_commands, Hosts, AllGroup, Config, Settings, or_empty,
}
use vagrant_portainer.Inventory.Hosts.{build_hostnames}
use vagrant_portainer.Inventory.Hosts.Names.{IsPlainPrefix}
use vagrant_portainer.Inventory.Hosts.Table.{hosts_before}
use vagrant_portainer.Inventory.Hosts.Readable.{readable, is_argument, IsReadable}
use vagrant_portainer.Inventory.Hosts.Total.{LoadsFrom, build_hostnames-Readable}
use vagrant_portainer.Inventory.Ranges.{range2ips}
use vagrant_portainer.Inventory.Groups.{ensure_required_groups, distribute}
use vagrant_portainer.Inventory.Groups.Ensured.{ensure_required_groups-Ensured}
use vagrant_portainer.Inventory.Groups.Members.{is_member}
use vagrant_portainer.Inventory.Groups.Shaped.{Shape, all_shaped}
use vagrant_portainer.Inventory.Groups.Shape.{distribute-Succeeds}
use vagrant_portainer.Inventory.Groups.Distributed.{distribute-Distribution}
use vagrant_portainer.Inventory.Groups.Entries.{
  put_all-IsDict, put_all-readable, purge_hosts-IsDict, purge_hosts-readable,
}
use vagrant_portainer.Inventory.Session.{
  World, deletes, configure, with_config, dispatch_if, dispatch, init,
}
use vagrant_portainer.Inventory.Session.New.{fresh, ensure_fresh, fresh-Shape, written_once}

-- A document that the program can load: its hosts are a mapping, in which every one has an address
-- and a name that can be read, and every group but `k8s_cluster` has a mapping of hosts.
pub record IsInventory (prefix : String) (a : AllGroup) : Type 0 where
  pub hosts : is_some a.hosts ≡ true
  pub groups : all_shaped a.children ≡ true
  pub keys : IsDict (or_empty a.hosts)
  pub loadable : readable prefix (or_empty a.hosts) ≡ true

-- The arguments are of the forms of `is_argument`, once the ranges among them are expanded. This
-- leaves out a word without a comma that starts with a letter, and a host name that starts with the
-- prefix and does not end in a number.
pub record AreHosts (s : Settings) (changed_hosts : List String) : Type 0 where
  pub is_deletion : Bool
  pub starts : deletes changed_hosts ≡ ok is_deletion
  pub expanded : List String
  pub expands : range2ips s changed_hosts ≡ ok expanded
  pub forms : all (is_argument s.host_prefix) expanded ≡ true

-- A command line that changes the hosts: with `add`, or with hosts only. The commands that load a
-- file or print are none.
pub data IsUse (s : Settings) : List String → Type 0 where
  adds : (h : String) (hs : List String) → AreHosts s (h ∷ hs) → IsUse s ("add" ∷ h ∷ hs)
  lists :
      (h : String) (hs : List String)
      → elem h available_commands ≡ false
      → AreHosts s (h ∷ hs)
      → IsUse s (h ∷ hs)

-- What `ensure_required_groups` makes of a document that the program can load.
pub record Prepared (prefix : String) (c : Config) (a : AllGroup) : Type 0 where
  ensures : ensure_required_groups c roles ≡ ok (some a)
  shape : Shape a
  pub same : or_empty a.hosts ≡ hosts_before c
  pub members : (g h : String) → is_member (some a) g h ≡ is_member c g h
  pub keys : IsDict (or_empty a.hosts)
  pub loadable : readable prefix (or_empty a.hosts) ≡ true

pub Prepared-fresh : (prefix : String) → Prepared prefix none fresh
unfolding readable lookup
Prepared-fresh prefix = record {
  ensures = ensure_fresh;
  shape = fresh-Shape;
  same = refl;
  members = λ g h. ground arith;
  keys = tt;
  loadable = refl;
}

pub Prepared-again :
    (prefix : String) (a : AllGroup)
    → IsInventory prefix a
    → (a' : AllGroup) × Prepared prefix (some a) a'
Prepared-again prefix a i =
    let (a', e, h) = ensure_required_groups-Ensured a roles i.groups in
    (
      a',
      record {
        ensures = e;
        shape = record {
          hosts = rw h.hosts i.hosts;
          groups = h.shaped;
          etcd = h.there "etcd" refl;
          control_plane = h.there "kube_control_plane" refl;
          node = h.there "kube_node" refl;
          calico = h.there "calico_rr" refl;
        };
        same = ap or_empty h.hosts;
        members = h.member;
        keys = subst (λ m. IsDict (or_empty m)) (sym h.hosts) i.keys;
        loadable = rw h.hosts i.loadable;
      },
    )

-- What a use makes of the hosts of a document, step by step.
pub record Makes (w : World) (before : AllGroup) (load : Bool) (expanded : List String)
    (after : AllGroup) : Type 0 where
  pub table : Hosts
  pub keys : IsDict table
  pub builds : build_hostnames w.settings (some before) expanded load ≡ ok table
  pub distributes : distribute w.settings (some before) table ≡ ok (some after)

module _ (w : World) (generated : w.settings.use_real_hostname ≡ false)
    (plain : IsPlainPrefix w.settings.host_prefix) where
  -- The document after the distribution can be loaded again.
  distribute-IsInventory :
      (c : Config) (a : AllGroup) (table : Hosts)
      → Prepared w.settings.host_prefix c a
      → IsReadable w.settings.host_prefix table
      → (a' : AllGroup) × (distribute w.settings (some a) table ≡ ok (some a'))
        × IsInventory w.settings.host_prefix a'
  distribute-IsInventory c a table p t =
      let s = w.settings in
      let done = distribute-Succeeds s a table p.shape in
      let same =
        ((distribute-Distribution s (some a) table).at (some done.result)
          done.returns).all_entries in
      (
        done.result,
        done.returns,
        record {
          hosts = done.shape.hosts;
          groups = done.shape.groups;
          keys =
              subst IsDict (sym same)
                (put_all-IsDict table _ (purge_hosts-IsDict (keys table) roles _ p.keys));
          loadable = rw same (
              put_all-readable s.host_prefix table _ t.hosts
                (purge_hosts-readable (keys table) roles s.host_prefix _ p.loadable));
        },
      )

  pub configure_returns :
      (c : Config) (a : AllGroup) (h : String) (hs : List String) (load : Bool)
      → Prepared w.settings.host_prefix c a
      → (hosts : AreHosts w.settings (h ∷ hs))
      → (a' : AllGroup) × (configure w c (h ∷ hs) load ≡ written_once w (some a'))
        × IsInventory w.settings.host_prefix a'
        × Makes w a load hosts.expanded a'
  unfolding configure
  configure_returns c a h hs load p hosts =
      let s = w.settings in
      let built =
        build_hostnames-Readable s generated plain (some a) (or_empty a.hosts) hosts.expanded load
          (loaded load) hosts.forms in
      let (a', done, again) = distribute-IsInventory c a built.result p built.holds in
      (
        a',
        rw (p.ensures, hosts.expands) (rw (built.returns, done) refl),
        again,
        record {
          table = built.result;
          keys = built.holds.keys;
          builds = built.returns;
          distributes = done;
        },
      )
    where
      loaded : (load : Bool) → LoadsFrom w.settings.host_prefix (some a) (or_empty a.hosts) load
      loaded false = tt
      loaded true = (a, refl, some_hosts a.hosts p.shape.hosts, p.loadable)
        where
          some_hosts : (m : Option Hosts) → is_some m ≡ true → m ≡ some (or_empty m)
          some_hosts (some d) e = refl
          some_hosts none e = absurd cc

-- The program where CONFIG_FILE is given, with the document that is there.
abbrev pub with_file : World → Option Config → World
with_file w previous = record w { has_config_file = true; previous = previous }

-- The document that a use starts from, and what `ensure_required_groups` makes of it.
abbrev pub start : Bool → AllGroup → Config
start true a = some a
start false a = none

pub init_adds :
    (w : World) (a : AllGroup) (h : String) (hs : List String) (d : Bool)
    → deletes (h ∷ hs) ≡ ok d
    → init (with_file w (some (some a))) ("add" ∷ h ∷ hs)
      ≡ configure (with_file w (some (some a))) (some a) (h ∷ hs) true
unfolding init dispatch dispatch_if with_config
init_adds w a h hs d e = rw e refl

pub init_lists :
    (w : World) (a : AllGroup) (h : String) (hs : List String) (d : Bool)
    → elem h available_commands ≡ false
    → deletes (h ∷ hs) ≡ ok d
    → init (with_file w (some (some a))) (h ∷ hs)
      ≡ configure (with_file w (some (some a))) (start d a) (h ∷ hs) d
unfolding init dispatch dispatch_if with_config
init_lists w a h hs true n e = ground (arith, e)
init_lists w a h hs false n e = ground (arith, e)
