-- ===== src/Inventory/Session/Lifetime.antt =====
-- The document of contrib/inventory_builder/inventory.py through a sequence of uses of the program.
use vagrant_portainer.Base.{String, ◌≡◌, ap, ◌∙◌, arith, false, none, some, List, ◌∷◌}
use vagrant_portainer.Base.Result.{ok}
use vagrant_portainer.Base.Lists.{elem}
use vagrant_portainer.Inventory.Types.{available_commands, AllGroup}
use vagrant_portainer.Inventory.Hosts.Names.{IsPlainPrefix}
use vagrant_portainer.Inventory.Groups.Roles.{IsBalanced}
use vagrant_portainer.Inventory.Session.{
  World, deletes, configure, with_config, dispatch_if, dispatch, init,
}
use vagrant_portainer.Inventory.Session.New.{fresh, written_once}
use vagrant_portainer.Inventory.Session.Use.{
  IsInventory, AreHosts, IsUse, lists, Prepared-fresh, configure_returns, with_file,
}

-- The use writes the file once, with the document `a`, and ends without an error.
abbrev pub Writes : World → List String → AllGroup → Type 0
Writes w args a = init w args ≡ written_once w (some a)

-- The documents that the program makes: by a first use, where there is no file, and by further
-- uses, each on the file that the one before it wrote.
pub data IsMade (w : World) : AllGroup → Type 0 where
  made_first :
      (args : List String) (a : AllGroup)
      → IsUse w.settings args
      → Writes (with_file w none) args a
      → IsMade w a
  made_again :
      (before : AllGroup) (args : List String) (a : AllGroup)
      → IsMade w before
      → IsUse w.settings args
      → Writes (with_file w (some (some before))) args a
      → IsMade w a

-- A first use on new hosts does not look at the file.
init_new_file :
    (w : World) (h : String) (hs : List String)
    → elem h available_commands ≡ false
    → deletes (h ∷ hs) ≡ ok false
    → init (with_file w none) (h ∷ hs) ≡ configure (with_file w none) none (h ∷ hs) false
unfolding init dispatch dispatch_if with_config
init_new_file w h hs n e = ground (arith, e)

-- A document that the program can load, with its hosts in the groups of the roles.
record IsSound (prefix : String) (a : AllGroup) : Type 0 where
  inventory : IsInventory prefix a
  balanced : IsBalanced (some a)

module _ (w : World) (generated : w.settings.use_real_hostname ≡ false)
    (plain : IsPlainPrefix w.settings.host_prefix) where
  -- A first use on hosts, where there is no file, makes a document.
  pub IsMade-starts :
      (h : String) (hs : List String)
      → elem h available_commands ≡ false
      → (hosts : AreHosts w.settings (h ∷ hs)) → hosts.is_deletion ≡ false
      → (a : AllGroup) × Writes (with_file w none) (h ∷ hs) a × IsMade w a
  IsMade-starts h hs n hosts d =
      let (a, e, _, _) =
        configure_returns (with_file w none) generated plain none fresh h hs false
          (Prepared-fresh w.settings.host_prefix) hosts in
      let written = init_new_file w h hs n (hosts.starts ∙ ap ok d) ∙ e in
      (a, written, made_first (h ∷ hs) a (lists h hs n hosts) written)
