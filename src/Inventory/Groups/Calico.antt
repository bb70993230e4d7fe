-- ===== src/Inventory/Groups/Calico.antt =====
-- `set_calico_rr` of contrib/inventory_builder/inventory.py.
use vagrant_portainer.Base.{
  String, ◌≡◌, refl, ◌∙◌, Bool, false, ◌&&◌, ◌||◌, List, [], ◌∷◌, arith, ◌==◌,
}
use vagrant_portainer.Base.Result.{
  ok, Ensures, Ensures-ok, Ensures-bind, ensures_rules, fold_result,
}
use vagrant_portainer.Base.Lists.{elem}
use vagrant_portainer.Inventory.Types.{blank, Group, Config, all_of, item}
use vagrant_portainer.Inventory.Groups.{
  add_host_to_group, group_has_key, calico_round, set_calico_rr,
}
use vagrant_portainer.Inventory.Groups.Members.{
  is_member, all_hosts, Adds, Adds-trans, add_host_to_group-Adds,
}

-- The names for which the guards of `set_calico_rr` can hold.
abbrev pub is_group_key : String → Bool
is_group_key h = h == "hosts" || h == "children"

group_has_key-false : (h : String) (g : Group) → is_group_key h ≡ false → group_has_key h g ≡ false
group_has_key-false h g e = ground arith

calico_round-Adds :
    (c : Config) (host : String)
    → is_group_key host ≡ false
    → Ensures (Adds "calico_rr" (host ∷ []) c) (calico_round c host)
unfolding calico_round
calico_round-Adds c host e = Ensures-bind (all_of c) _ λ a e₁.
    Ensures-bind (item "kube_control_plane" a.children) _ λ p e₂.
      rw (group_has_key-false host p e) (
        Ensures-bind (item "kube_node" a.children) _ λ q e₃.
          rw (group_has_key-false host q e)
            (add_host_to_group-Adds c "calico_rr" host blank (refl, refl)))

abbrev pub NoGroupKeys : List String → Type 0
NoGroupKeys [] = Unit
NoGroupKeys (h ∷ hs) = (is_group_key h ≡ false) × NoGroupKeys hs

-- `set_calico_rr` adds every host to `calico_rr`, also those of the control plane and the nodes:
-- its guards look for the host among the keys of the groups' own mappings, so they can hold only
-- for hosts with the names "hosts" and "children".
pub set_calico_rr-Adds :
    (c : Config) (hosts : List String)
    → NoGroupKeys hosts
    → Ensures (Adds "calico_rr" hosts c) (set_calico_rr c hosts)
unfolding set_calico_rr fold_result
set_calico_rr-Adds c [] n = Ensures-ok c (record { member = λ g h. ground arith; all = refl })
set_calico_rr-Adds c (host ∷ hosts) (n, ns) = Ensures-bind (calico_round c host) _ λ c₁ e. record {
  at = λ c₂ f.
      Adds-trans "calico_rr" host hosts c c₁ c₂ ((calico_round-Adds c host n).at c₁ e)
        ((set_calico_rr-Adds c₁ hosts ns).at c₂ f);
}

-- Nothing but the group has changed.
pub record Only (group : String) (c c' : Config) : Type 0 where
  pub member : (g h : String) → (group == g) ≡ false → is_member c' g h ≡ is_member c g h
  pub all : all_hosts c' ≡ all_hosts c

Only-refl : (group : String) (c : Config) → Only group c c
Only-refl group c = record { member = λ g h n. refl; all = refl }

add_calico-Only :
    (c : Config) (host : String)
    → Ensures (Only "calico_rr" c) (add_host_to_group c "calico_rr" host blank)
add_calico-Only c host = record {
  at = λ c' e.
      let a = (add_host_to_group-Adds c "calico_rr" host blank (refl, refl)).at c' e in
      record { member = λ g h n. ground (arith, a.member g h); all = a.all };
}

calico_round-Only :
    (c : Config) (host : String) → Ensures (Only "calico_rr" c) (calico_round c host)
unfolding calico_round
calico_round-Only c host = search (ensures_rules, Only-refl, add_calico-Only) depth 8

pub set_calico_rr-Only :
    (c : Config) (hosts : List String) → Ensures (Only "calico_rr" c) (set_calico_rr c hosts)
unfolding set_calico_rr fold_result
set_calico_rr-Only c [] = Ensures-ok c (Only-refl "calico_rr" c)
set_calico_rr-Only c (host ∷ hosts) = Ensures-bind (calico_round c host) _ λ c₁ e. record {
  at = λ c₂ f.
      let one = (calico_round-Only c host).at c₁ e in
      let more = (set_calico_rr-Only c₁ hosts).at c₂ f in
      record { member = λ g h n. more.member g h n ∙ one.member g h n; all = more.all ∙ one.all };
}

-- `set_calico_rr` puts every host into `calico_rr`, whether or not it is one of the control plane
-- or a node, where no host has the name "hosts" or "children".
pub is_member-set_calico_rr :
    (c : Config) (hosts : List String) (c' : Config) (g h : String)
    → NoGroupKeys hosts
    → set_calico_rr c hosts ≡ ok c'
    → is_member c' g h ≡ (("calico_rr" == g && elem h hosts) || is_member c g h)
is_member-set_calico_rr c hosts c' g h n e = ((set_calico_rr-Adds c hosts n).at c' e).member g h
