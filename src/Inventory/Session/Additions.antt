-- ===== src/Inventory/Session/Additions.antt =====
-- `inventory.py add ...` on a document of contrib/inventory_builder/inventory.py.
use vagrant_portainer.Base.{
  String, ◌≡◌, refl, ap, ◌∙◌, Bool, true, false, ◌&&◌, none, some, List, [], ◌∷◌, if◌then◌else◌,
}
use vagrant_portainer.Base.Result.{all}
use vagrant_portainer.Base.Dict.{lookup, keys}
use vagrant_portainer.Inventory.Types.{roles, Hosts, AllGroup, or_empty}
use vagrant_portainer.Inventory.Hosts.Names.{IsPlainPrefix}
use vagrant_portainer.Inventory.Hosts.Keeps.{Keeps, AllAddresses, build_hostnames-Keeps}
use vagrant_portainer.Inventory.Hosts.Added.{covers, build_hostnames-covers, covers_mono}
use vagrant_portainer.Inventory.Groups.Distributed.{distribute-Distribution}
use vagrant_portainer.Inventory.Groups.Entries.{or_else, lookup-put_all, lookup-purge_hosts}
use vagrant_portainer.Inventory.Groups.Purge.{is_kept}
use vagrant_portainer.Inventory.Session.{World}
use vagrant_portainer.Inventory.Session.Use.{
  IsInventory, AreHosts, Prepared-again, Makes, configure_returns, with_file, init_adds,
}
use vagrant_portainer.Inventory.Session.Lifetime.{Writes}

-- What a host is in the document after a use: what the table has for it, else what the document had
-- where the purge keeps it.
pub lookup-Makes :
    (w : World) (a : AllGroup) (load : Bool) (expanded : List String) (a' : AllGroup)
    → (m : Makes w a load expanded a') → (h : String)
    → lookup h (or_empty a'.hosts)
      ≡ or_else
          (lookup h m.table)
          (if is_kept (keys m.table) roles h then lookup h (or_empty a.hosts) else none)
lookup-Makes w a load expanded a' m h =
    ap (lookup h)
      ((distribute-Distribution w.settings (some a) m.table).at (some a') m.distributes).all_entries
    ∙ lookup-put_all h m.table _ m.keys
    ∙ ap (or_else (lookup h m.table)) (lookup-purge_hosts (keys m.table) roles h (or_empty a.hosts))

pub Keeps-Makes :
    (w : World) (a : AllGroup) (load : Bool) (expanded : List String) (a' : AllGroup)
    → (m : Makes w a load expanded a') → Keeps m.table (or_empty a'.hosts)
Keeps-Makes w a load expanded a' m h o e = lookup-Makes w a load expanded a' m h ∙ rw e refl

pub both : (b c : Bool) → (b && c) ≡ true → (b ≡ true) × (c ≡ true)
both true true h = (refl, refl)
both true false h = absurd cc
both false c h = absurd cc

all_mono :
    (d d' : Hosts) (l : List String)
    → ((j : String) → covers d j ≡ true → covers d' j ≡ true)
    → all (covers d) l ≡ true
    → all (covers d') l ≡ true
all_mono d d' [] f h = refl
all_mono d d' (j ∷ l) f h =
    let (here, rest) = both (covers d j) (all (covers d) l) h in
    rw (f j here) (all_mono d d' l f rest)

-- With generated names and a plain prefix, `add` with addresses on a document that the program can
-- load ends without an error and writes the file once. The new document has every host of the old
-- one with its values, each address is the name or the address of one of its hosts, and the program
-- can load it.
pub init_add-Keeps :
    (w : World) (a : AllGroup) (h : String) (hs : List String)
    → w.settings.use_real_hostname ≡ false
    → IsPlainPrefix w.settings.host_prefix
    → IsInventory w.settings.host_prefix a
    → (hosts : AreHosts w.settings (h ∷ hs)) → AllAddresses hosts.expanded
    → (a' : AllGroup) × Writes (with_file w (some (some a))) ("add" ∷ h ∷ hs) a'
      × IsInventory w.settings.host_prefix a'
      × Keeps (or_empty a.hosts) (or_empty a'.hosts)
      × (all (covers (or_empty a'.hosts)) hosts.expanded ≡ true)
init_add-Keeps w a h hs generated plain i hosts addresses =
    let s = w.settings in
    let w' = with_file w (some (some a)) in
    let (b, p) = Prepared-again s.host_prefix a i in
    let (a', e, i', m) = configure_returns w' generated plain (some a) b h hs true p hosts in
    let keeps = Keeps-Makes w' b true hosts.expanded a' m in
    (
      a',
      init_adds w a h hs hosts.is_deletion hosts.starts ∙ e,
      i',
      λ k o there. keeps k o (
          build_hostnames-Keeps s (some b) hosts.expanded m.table generated plain p.keys addresses
            m.builds k o (ap (lookup k) p.same ∙ there)),
      all_mono m.table (or_empty a'.hosts) hosts.expanded
          (λ j. covers_mono m.table (or_empty a'.hosts) j m.keys keeps)
          (build_hostnames-covers s generated plain (some b) hosts.expanded m.table addresses
            m.builds),
    )
