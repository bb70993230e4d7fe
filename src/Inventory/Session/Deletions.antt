-- ===== src/Inventory/Session/Deletions.antt =====
-- `inventory.py -host` on a document of contrib/inventory_builder/inventory.py.
use vagrant_portainer.Base.{
  String, ◌≡◌, refl, sym, ap, ◌∙◌, Bool, true, false, not, ◌&&◌, ◌||◌, Option, none, some, [], ◌∷◌,
  arith, ◌==◌, eq_iff, if◌then◌else◌, Bool-cases, inl, inr,
}
use mathlib.Core.Path.{subst}
use text.Mathlib.TextPositions.{eq_refl}
use vagrant_portainer.Base.Result.{ok}
use vagrant_portainer.Base.Lists.{elem}
use vagrant_portainer.Base.Dict.{lookup, remove, keys, lookup-remove}
use vagrant_portainer.Base.Text.{contains_char}
use vagrant_portainer.Inventory.Types.{
  roles, available_commands, HostVars, Hosts, AllGroup, Config, Settings, or_empty,
}
use vagrant_portainer.Inventory.Hosts.Deleted.{
  deletion, host_for, build_hostnames-deletion, elem-remove,
}
use vagrant_portainer.Inventory.Hosts.Readable.{addressed-readable}
use vagrant_portainer.Inventory.Hosts.Names.{IsPlainPrefix}
use vagrant_portainer.Inventory.Ranges.Expand.{range2ips-none}
use vagrant_portainer.Inventory.Groups.Members.{is_member}
use vagrant_portainer.Inventory.Groups.Entries.{or_else}
use vagrant_portainer.Inventory.Groups.Purge.{is_kept}
use vagrant_portainer.Inventory.Groups.Nodes.{is_dedicated}
use vagrant_portainer.Inventory.Groups.Roles.{
  distribute-IsDistributed, elem-first_hosts, elem-first_control_plane,
}
use vagrant_portainer.Inventory.Groups.Distributed.{IsDistributed, etcd_hosts, first_control_plane}
use vagrant_portainer.Inventory.Session.{World, deletes}
use vagrant_portainer.Inventory.Session.Use.{
  IsInventory, AreHosts, Prepared-again, configure_returns, with_file, init_lists,
}
use vagrant_portainer.Inventory.Session.Lifetime.{Writes}
use vagrant_portainer.Inventory.Session.Additions.{lookup-Makes, both}

deletion-AreHosts : (s : Settings) (name : String) → AreHosts s (deletion name ∷ [])
unfolding contains_char
deletion-AreHosts s name = record {
  is_deletion = true;
  starts = refl;
  expanded = deletion name ∷ [];
  expands = range2ips-none s (deletion name ∷ []) (refl, tt);
  forms = refl;
}

-- A deletion is no word that does not start with a dash.
deletion_ne :
    (name word : String) → deletes (word ∷ []) ≡ ok false → (deletion name == word) ≡ false
deletion_ne name word d = elim (Bool-cases (deletion name == word)) [
  | inl same ↦
      absurd (
        cc (subst (λ t. deletes (t ∷ []) ≡ ok true) ((eq_iff (deletion name) word).0 same) refl, d))
  | inr differs ↦ differs
]

no_command : (name : String) → elem (deletion name) available_commands ≡ false
no_command name =
    rw
      (
        deletion_ne name "help" refl,
        deletion_ne name "print_cfg" refl,
        deletion_ne name "print_ips" refl,
        deletion_ne name "print_hostnames" refl,
        deletion_ne name "load" refl,
        deletion_ne name "add" refl,
      )
      refl

-- The host is in no group of the roles.
pub record IsGone (name : String) (c : Config) : Type 0 where
  pub etcd : is_member c "etcd" name ≡ false
  pub control_plane : is_member c "kube_control_plane" name ≡ false
  pub node : is_member c "kube_node" name ≡ false

-- A member of a group (`x`) of the table (`k`), or one that stays.
not_in :
    (x y k r : Bool)
    → (x ≡ true → k ≡ true)
    → k ≡ false
    → r ≡ false
    → (x || (y && (k || r))) ≡ false
not_in x y k r f g h = ground arith

IsDistributed-IsGone :
    (s : Settings) (name : String) (table : Hosts) (c c' : Config)
    → elem name (keys table) ≡ false
    → elem name roles ≡ false
    → IsDistributed s table c c'
    → IsGone name c'
IsDistributed-IsGone s name table c c' new other d = record {
  etcd =
      d.etcd name
      ∙ not_in (elem name (etcd_hosts table)) _ _ _ (elem-first_hosts name (keys table)) new other;
  control_plane =
      d.control_plane name
      ∙ not_in (elem name (first_control_plane s (keys table))) _ _ _
          (elem-first_control_plane s name (keys table)) new other;
  node =
      d.node name
      ∙ not_in (elem name (keys table) && not (is_dedicated s c' name)) _ _ _ (λ e. (both _ _ e).0)
          new other;
}

-- The entries that a deletion leaves.
lookup-remaining :
    (name h : String) (table d : Hosts)
    → table ≡ remove name d
    → elem name roles ≡ false
    → or_else (lookup h table) (if is_kept (keys table) roles h then lookup h d else none)
      ≡ (if name == h then none else lookup h d)
lookup-remaining name h table d e other = elim (Bool-cases (name == h)) [
  | inl same ↦
      subst
        (λ k.
          or_else (lookup k table) (if is_kept (keys table) roles k then lookup k d else none)
          ≡ (if name == k then none else lookup k d))
        ((eq_iff name h).0 same)
        (rw (e, lookup-remove name name d, elem-remove name d, other, eq_refl) refl)
  | inr differs ↦
      rw (e, lookup-remove name h d, differs)
        (stays_there (lookup h d) (is_kept (keys (remove name d)) roles h))
]
  where
    stays_there : (o : Option HostVars) (b : Bool) → or_else o (if b then o else none) ≡ o
    stays_there (some v) b = refl
    stays_there none true = refl
    stays_there none false = refl

-- With generated names and a plain prefix, the deletion of a host from a document that the program
-- can load, by its name or, where no host has that name, by an address of which it is the first
-- host, ends without an error and writes the file once, where the name is not that of a role. The
-- new document has all hosts of the old one but this, with their values; the host is in none of
-- etcd, the control plane and `kube_node`, and the program can load the document.
pub init_delete-IsGone :
    (w : World) (a : AllGroup) (text name : String)
    → w.settings.use_real_hostname ≡ false
    → IsPlainPrefix w.settings.host_prefix
    → IsInventory w.settings.host_prefix a
    → host_for text (or_empty a.hosts) ≡ some name
    → elem name roles ≡ false
    → (a' : AllGroup) × Writes (with_file w (some (some a))) (deletion text ∷ []) a'
      × IsInventory w.settings.host_prefix a'
      × ((h : String)
          → lookup h (or_empty a'.hosts)
            ≡ (if name == h then none else lookup h (or_empty a.hosts)))
      × IsGone name (some a')
unfolding deletion-AreHosts
init_delete-IsGone w a text name generated plain i there other =
    let s = w.settings in
    let w' = with_file w (some (some a)) in
    let hosts = deletion-AreHosts s text in
    let (b, p) = Prepared-again s.host_prefix a i in
    let (a', e, i', m) =
      configure_returns w' generated plain (some a) b (deletion text) [] true p hosts in
    let readable = addressed-readable s.host_prefix (or_empty b.hosts) p.loadable in
    let same = subst (λ d. host_for text d ≡ some name) (sym p.same) there in
    let table : m.table ≡ remove name (or_empty b.hosts) =
      (build_hostnames-deletion s (some b) text name p.keys readable same).at m.table m.builds in
    let gone : elem name (keys m.table) ≡ false =
      ap (λ d. elem name (keys d)) table ∙ elem-remove name (or_empty b.hosts) in
    (
      a',
      init_lists w a (deletion text) [] true (no_command text) refl ∙ e,
      i',
      λ h.
          lookup-Makes w' b true (deletion text ∷ []) a' m h
          ∙ lookup-remaining name h m.table (or_empty b.hosts) table other
          ∙ ap (λ d. if name == h then none else lookup h d) p.same,
      IsDistributed-IsGone s name m.table (some b) (some a') gone other
          (distribute-IsDistributed s (some b) m.table (some a') m.distributes),
    )
