-- ===== src/Inventory/Environment/Examples.antt =====
-- contrib/inventory_builder/inventory.py: shell variables written out.
use mathlib.Core.Logic.{◌↔◌}
use vagrant_portainer.Base.{◌≡◌, refl, true, false, none, some, [], ◌∷◌, ◌<◌, ◌^◌}
use vagrant_portainer.Base.Result.{ok, raise, value_error}
use vagrant_portainer.Base.Dict.{lookup}
use vagrant_portainer.Base.Text.{starts_with, contains_char, strip, all_digits}
use vagrant_portainer.Base.Text.Decimal.{value}
use vagrant_portainer.Inventory.Types.{Config}
use vagrant_portainer.Inventory.Hosts.Addresses.{uses_ip}
use vagrant_portainer.Inventory.Hosts.Fresh.{AreNew, numbered}
use vagrant_portainer.Inventory.Ranges.{ipv4_int, ipv4_exploded}
use vagrant_portainer.Inventory.Ranges.Canonical.{ipv4_int_iff-Bounded}
use vagrant_portainer.Inventory.Ranges.Expand.{NoRanges}
use vagrant_portainer.Inventory.Groups.Distributed.{IsDistributed}
use vagrant_portainer.Inventory.Groups.Members.{all_hosts}
use vagrant_portainer.Inventory.Session.{World, written}
use vagrant_portainer.Inventory.Session.New.{fresh}
use vagrant_portainer.Inventory.Environment.{
  Environ, negative, natural, int, Outside, world, get_var_as_bool, get_lower, lower_is, main,
}
use vagrant_portainer.Inventory.Environment.Read.{main_new}

abbrev outside : Outside
outside = record {
  document = λ path. none;
  open_error = λ path. "No such file or directory";
  read_json = λ path. raise value_error;
  hostname_of = λ ip. ok ip;
  ipv6_int = λ text. none;
  ipv6_exploded = λ n. "";
}

abbrev variables : Environ
variables = ("KUBE_MASTERS", "3") ∷ ("SCALE_THRESHOLD", "10") ∷ ("DEBUG", "OFF") ∷ []

debug_off : get_var_as_bool variables "DEBUG" true ≡ false
unfolding get_var_as_bool lookup get_lower lower_is
debug_off = refl

int_texts :
    (int " 12\n" ≡ ok (natural 12)) × (int "-1" ≡ ok (negative 1)) × (int "1.5" ≡ raise value_error)
unfolding int strip all_digits value
int_texts = (refl, refl, refl)

ipv4_int_iff-Bounded_example :
    (ipv4_int "10.90.0.2" ≡ some 173670402)
    ↔ ((173670402 < 2 ^ 32) × (ipv4_exploded 173670402 ≡ "10.90.0.2"))
ipv4_int_iff-Bounded_example = ipv4_int_iff-Bounded "10.90.0.2" 173670402

one-AreNew : AreNew "node" [] ("10.0.0.1" ∷ [])
unfolding uses_ip lookup starts_with contains_char
one-AreNew = ((refl, refl, refl), refl, refl, refl, tt)

one-NoRanges : NoRanges ("10.0.0.1" ∷ [])
unfolding contains_char
one-NoRanges = (refl, tt)

main_new_example :
    (w : World) × (world [] outside ≡ ok (some w))
    × (c : Config) × (main w ("10.0.0.1" ∷ []) []
        ≡ record { events = written c ∷ []; ended = ok tt })
    × (all_hosts c ≡ numbered "node" 1 ("10.0.0.1" ∷ []))
    × IsDistributed w.settings (numbered "node" 1 ("10.0.0.1" ∷ [])) (some fresh) c
main_new_example = main_new outside "10.0.0.1" [] [] one-AreNew one-NoRanges
