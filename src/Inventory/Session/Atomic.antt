-- ===== src/Inventory/Session/Atomic.antt =====
-- When contrib/inventory_builder/inventory.py writes its file.
use vagrant_portainer.Base.{
  String, ◌≡◌, refl, Bool, true, false, not, ◌||◌, Option, none, some, List, [], ◌∷◌, arith, ◌==◌,
  if◌then◌else◌,
}
use vagrant_portainer.Base.Result.{Result, ok, raise, is_ok}
use vagrant_portainer.Inventory.Types.{roles, available_commands, Config}
use vagrant_portainer.Base.Lists.{elem}
use vagrant_portainer.Inventory.Groups.{ensure_required_groups}
use vagrant_portainer.Inventory.Session.{
  Event, printed, dumped, written, help_text, Run, World, print_line, parse_command, configure,
  with_config, dispatch_if, configured, helped, names_of, deletes, dispatch, init,
}

-- The file is written in the course of the events.
abbrev pub writes : List Event → Bool
writes [] = false
writes (written c ∷ es) = true
writes (printed s ∷ es) = writes es
writes (dumped c ∷ es) = writes es
writes (help_text ∷ es) = writes es

-- A run that ends with an error or an exit has not come to write the file.
pub record IsAtomic (r : Run) : Type 0 where
  pub at : (is_ok r.ended || not (writes r.events)) ≡ true

-- A run that does not write.
record IsQuiet (r : Run) : Type 0 where
  at : writes r.events ≡ false

quiet-IsAtomic : (r : Run) → IsQuiet r → IsAtomic r
quiet-IsAtomic r q = record { at = ground (arith, q.at) }

if-IsAtomic : (b : Bool) (m n : Run) → IsAtomic m → IsAtomic n → IsAtomic (if b then m else n)
if-IsAtomic true m n h k = h
if-IsAtomic false m n h k = k

if-IsQuiet : (b : Bool) (m n : Run) → IsQuiet m → IsQuiet n → IsQuiet (if b then m else n)
if-IsQuiet true m n h k = h
if-IsQuiet false m n h k = k

print_line-IsQuiet : (m : Result String) → IsQuiet (print_line m)
print_line-IsQuiet (ok s) = record { at = refl }
print_line-IsQuiet (raise e) = record { at = refl }

configured-IsAtomic : (w : World) (m : Result Config) → IsAtomic (configured w m)
configured-IsAtomic w (ok c) = record { at = refl }
configured-IsAtomic w (raise e) = record { at = refl }

helped-IsQuiet : (m : Result Config) → IsQuiet (helped m)
helped-IsQuiet (ok c) = record { at = refl }
helped-IsQuiet (raise e) = record { at = refl }

configure-IsAtomic :
    (w : World) (c : Config) (hosts : List String) (load : Bool)
    → IsAtomic (configure w c hosts load)
unfolding configure
configure-IsAtomic w c [] load = quiet-IsAtomic _ (helped-IsQuiet (ensure_required_groups c roles))
configure-IsAtomic w c (h ∷ hs) load = configured-IsAtomic w _

with_config-IsAtomic :
    (w : World) (hosts : List String) (load print : Bool) (m : Option Config)
    → IsAtomic (with_config w hosts load print m)
unfolding with_config
with_config-IsAtomic w hosts load print none = record { at = refl }
with_config-IsAtomic w hosts load true (some c) =
    quiet-IsAtomic _ (record { at = (print_line-IsQuiet (names_of c)).at })
with_config-IsAtomic w hosts load false (some c) = configure-IsAtomic w c hosts load

dispatch_if-IsAtomic :
    (w : World) (hosts : List String) (load print : Bool) (m : Result Bool)
    → IsAtomic (dispatch_if w hosts load print m)
unfolding dispatch_if
dispatch_if-IsAtomic w hosts load print (raise e) = record { at = refl }
dispatch_if-IsAtomic w hosts load print (ok d) = with_config-IsAtomic w hosts (load || d) print _

command-IsQuiet :
    (w : World) (command : String) (args : List String)
    → (command == "load") ≡ false
    → IsQuiet (parse_command w command args)
unfolding parse_command
command-IsQuiet w command args h = rw h (
    if-IsQuiet (command == "help") _ _ (record { at = refl })
      (if-IsQuiet (command == "print_cfg") _ _ (record { at = refl })
        (if-IsQuiet (command == "print_ips") _ _ (record { at = refl })
          (if-IsQuiet (command == "print_hostnames") _ _ (record { at = refl })
            (record { at = refl })))))

-- The command `load`.
abbrev pub loads : List String → Bool
loads [] = false
loads (command ∷ args) = command == "load"

-- Every use of the program but the command `load`, also one without arguments, that ends with an
-- error or an exit status has not come to open the file for writing, where opening and writing
-- raise no error themselves.
pub init-IsAtomic : (w : World) (args : List String) → loads args ≡ false → IsAtomic (init w args)
unfolding init dispatch
init-IsAtomic w [] h = dispatch_if-IsAtomic w [] false false (deletes [])
init-IsAtomic w (command ∷ args) h =
    if-IsAtomic (command == "add") _ _ (dispatch_if-IsAtomic w args true false _) (
      if-IsAtomic (command == "print_hostnames") _ _
        (dispatch_if-IsAtomic w (command ∷ args) true true _)
        (if-IsAtomic (elem command available_commands) _ _
          (quiet-IsAtomic _ (record { at = (command-IsQuiet w command args h).at }))
          (dispatch_if-IsAtomic w (command ∷ args) false false _)))
