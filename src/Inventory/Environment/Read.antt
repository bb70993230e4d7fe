-- ===== src/Inventory/Environment/Read.antt =====
-- contrib/inventory_builder/inventory.py: the numbers that the program reads, and a run without any
-- shell variable.

use vagrant_portainer.Base.{ℕ, String, ◌≡◌, refl, ◌⊎◌, Option, none, some, List, [], ◌∷◌}
use vagrant_portainer.Base.Result.{ok}
use vagrant_portainer.Base.Dict.{lookup}
use vagrant_portainer.Base.Text.{contains_char}
use vagrant_portainer.Base.Text.Decimal.{trailing, show}
use vagrant_portainer.Inventory.Types.{Config}
use vagrant_portainer.Inventory.Hosts.Names.{IsPlainPrefix}
use vagrant_portainer.Inventory.Hosts.Fresh.{AreNew, numbered}
use vagrant_portainer.Inventory.Ranges.Expand.{NoRanges}
use vagrant_portainer.Inventory.Groups.Distributed.{IsDistributed}
use vagrant_portainer.Inventory.Groups.Members.{all_hosts}
use vagrant_portainer.Inventory.Session.{World, written}
use vagrant_portainer.Inventory.Session.New.{fresh, init_new}
use vagrant_portainer.Inventory.Environment.{
  Outside, world_for, world, main, get_var_as_bool, get_lower, lower_is,
}

-- The variable is the text of `n`; or it is not set, and `n` is the default.
abbrev pub Says : Option String → ℕ → ℕ → Type 0
Says o default n = ((o ≡ none) × (n ≡ default)) ⊎ (o ≡ some (show n))

-- With no shell variable set, and distinct plain addresses for arguments, none of them a range, the
-- program ends without an error and writes the file once. The hosts of the document are node1, node2
-- and so on, in the order of the arguments, each with its address for `ansible_host`, `ip` and
-- `access_ip`, and the roles are distributed over them.
pub main_new :
    (o : Outside) (ip : String) (ips sys_argv : List String)
    → AreNew "node" [] (ip ∷ ips)
    → NoRanges (ip ∷ ips)
    → (w : World) × (world [] o ≡ ok (some w))
      × (c : Config) × (main w (ip ∷ ips) sys_argv
          ≡ record { events = written c ∷ []; ended = ok tt })
      × (all_hosts c ≡ numbered "node" 1 (ip ∷ ips))
      × IsDistributed w.settings (numbered "node" 1 (ip ∷ ips)) (some fresh) c
unfolding world main lookup get_var_as_bool get_lower lower_is contains_char trailing
main_new o ip ips sys_argv new no_range =
    let w = world_for [] o 2 50 200 in
    let plain : IsPlainPrefix "node" = record { no_dot = refl; no_digits = refl } in
    let (c, e, h, d) = init_new w ip ips refl plain new no_range in (w, refl, c, e, h, d)
