-- ===== src/Inventory/Session/Loaded.antt =====
-- The command `load` of contrib/inventory_builder/inventory.py: what `load_file` makes of a file.

use vagrant_portainer.Base.{
  String, ◌≡◌, refl, ap, ◌∙◌, true, not, ◌&&◌, ◌||◌, none, some, List, [], ◌∷◌, arith, ◌==◌,
}
use vagrant_portainer.Base.Result.{ok, raise, exit}
use vagrant_portainer.Base.Dict.{has_key, lookup}
use vagrant_portainer.Inventory.Types.{roles, AllGroup, Config, or_empty}
use vagrant_portainer.Inventory.Groups.{ensure_required_groups}
use vagrant_portainer.Inventory.Groups.Members.{is_member, all_hosts}
use vagrant_portainer.Inventory.Groups.Shaped.{Shape}
use vagrant_portainer.Inventory.Groups.Shape.{set_k8s_cluster-Succeeds}
use vagrant_portainer.Inventory.Groups.Purge.{set_k8s_cluster-member}
use vagrant_portainer.Inventory.Groups.Distributed.{all_hosts-set_k8s_cluster}
use vagrant_portainer.Inventory.Groups.Ensured.{ensure_required_groups-Ensured, Ensured-Shape}
use vagrant_portainer.Inventory.Session.{
  Event, World, Inventory, load_one, load_files, load_file, parse_command, init, write_config,
  after, then_exit,
}
use vagrant_portainer.Inventory.Session.New.{fresh, ensure_fresh, fresh-Shape}
use vagrant_portainer.Inventory.Session.Files.{lists, names, is_file, load_groups-Loads}

-- What a file adds to a document: its hosts, to its groups and to `all`. `k8s_cluster` has no hosts
-- of its own afterwards.
pub record AddsFile (d : Inventory) (c : Config) (a : AllGroup) : Type 0 where
  pub member :
      (g h : String)
      → is_member (some a) g h ≡ (lists d g h || (not (g == "k8s_cluster") && is_member c g h))
  pub hosts : (h : String) → has_key h (or_empty a.hosts) ≡ (names d h || has_key h (all_hosts c))

load_one-AddsFile :
    (w : World) (c : Config) (a : AllGroup) (filename : String) (d : Inventory)
    → ensure_required_groups c roles ≡ ok (some a)
    → Shape a
    → ((g h : String) → is_member (some a) g h ≡ is_member c g h)
    → or_empty a.hosts ≡ all_hosts c
    → w.read_json filename ≡ ok (some d)
    → is_file d ≡ true
    → (a' : AllGroup) × (load_one w c filename ≡ ok (some a')) × Shape a' × AddsFile d c a'
unfolding load_one
load_one-AddsFile w c a filename d e s same same_hosts reads f =
    let cluster = set_k8s_cluster-Succeeds a s in
    let member = (set_k8s_cluster-member (some a)).at (some cluster.result) cluster.returns in
    let all_same = (all_hosts-set_k8s_cluster (some a)).at (some cluster.result) cluster.returns in
    let done = load_groups-Loads cluster.result d f cluster.shape in
    (
      done.result,
      rw (reads, e) (rw cluster.returns done.returns),
      done.shape,
      record {
        member = λ g h. ground (arith, done.member g h, member g h, same g h);
        hosts = λ h. done.hosts h ∙ ap (λ x. names d h || has_key h x) (all_same ∙ same_hosts);
      },
    )

-- The documents that are written for some files, each from the one before it.
pub data IsLoaded : Config → List Inventory → List AllGroup → Type 0 where
  no_files : (c : Config) → IsLoaded c [] []
  one_more :
      (c : Config) (d : Inventory) (a : AllGroup) (ds : List Inventory) (documents : List AllGroup)
      → AddsFile d c a
      → IsLoaded (some a) ds documents
      → IsLoaded c (d ∷ ds) (a ∷ documents)

-- The files can be read as the inventories, which give every host an address, and put hosts only
-- into groups that take some.
abbrev pub AreFiles : World → List String → List Inventory → Type 0
AreFiles w [] [] = Unit
AreFiles w (f ∷ fs) (d ∷ ds) = (w.read_json f ≡ ok (some d)) × (is_file d ≡ true) × AreFiles w fs ds
AreFiles w _ _ = ⊥

abbrev pub writes : World → List AllGroup → List Event
writes w [] = []
writes w (a ∷ documents) = write_config w (some a) ∷ writes w documents

load_files-next :
    (w : World) (c c' : Config) (f : String) (fs : List String)
    → load_one w c f ≡ ok c'
    → load_files w c (f ∷ fs) ≡ after (write_config w c') (load_files w c' fs)
unfolding load_files
load_files-next w c c' f fs e = rw (load_files, e) refl

load_files-IsLoaded :
    (w : World) (a : AllGroup) (files : List String) (ds : List Inventory)
    → Shape a
    → AreFiles w files ds
    → (documents : List AllGroup) × (load_files w (some a) files
        ≡ record { events = writes w documents; ended = ok tt })
      × IsLoaded (some a) ds documents
unfolding load_files
load_files-IsLoaded w a [] [] s r = ([], refl, no_files (some a))
load_files-IsLoaded w a [] (d ∷ ds) s r = absurd r
load_files-IsLoaded w a (f ∷ fs) [] s r = absurd r
load_files-IsLoaded w a (f ∷ fs) (d ∷ ds) s (reads, file, rest) =
    let (b, e, h) = ensure_required_groups-Ensured a roles s.groups in
    let (a', e', s', adds) =
      load_one-AddsFile w (some a) b f d e (Ensured-Shape roles a b h s) h.member
        (ap or_empty h.hosts) reads file in
    let (documents, e'', loaded) = load_files-IsLoaded w a' fs ds s' rest in
    (
      a' ∷ documents,
      load_files-next w (some a) (some a') f fs e' ∙ ap (after (write_config w (some a'))) e'',
      one_more (some a) d a' ds documents adds loaded,
    )

no_members : (g h : String) → is_member (some fresh) g h ≡ is_member none g h
unfolding lookup
no_members g h = ground arith

-- `load` with files that are read as inventories, where every host has an address and no group is
-- `all`, `k8s_cluster` or "k8s_cluster:children", writes one document for each file, in their
-- order, and exits with status 0. The first starts from a document without hosts, and each further
-- one from the one before it: it has the members of its file in its groups and its hosts in `all`,
-- with those that were there.
pub init_load-IsLoaded :
    (w : World) (f : String) (fs : List String) (ds : List Inventory)
    → AreFiles w (f ∷ fs) ds
    → (documents : List AllGroup) × (init w ("load" ∷ f ∷ fs)
        ≡ record { events = writes w documents; ended = raise (exit 0) })
      × IsLoaded none ds documents
unfolding init parse_command load_file
init_load-IsLoaded w f fs [] r = absurd r
init_load-IsLoaded w f fs (d ∷ ds) (reads, file, rest) =
    let (a, e, s, adds) =
      load_one-AddsFile w none fresh f d ensure_fresh fresh-Shape no_members refl reads file in
    let (documents, e', loaded) = load_files-IsLoaded w a fs ds s rest in
    (
      a ∷ documents,
      ap then_exit
          (load_files-next w none (some a) f fs e ∙ ap (after (write_config w (some a))) e'),
      one_more none d a ds documents adds loaded,
    )
