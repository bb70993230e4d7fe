-- ===== src/Inventory/Groups/Members.antt =====
-- Who is in a group of contrib/inventory_builder/inventory.py, after each operation on groups.
use vagrant_portainer.Base.{
  String, ◌≡◌, refl, sym, ap, ◌∙◌, Bool, false, ◌&&◌, ◌||◌, Option, none, some, List, [], ◌∷◌,
  arith, ◌==◌, eq_iff, Bool-cases, inl, inr,
}
use vagrant_portainer.Base.Result.{
  ok, Ensures, Ensures-ok, Ensures-bind, ensures_rules, fold_result,
}
use vagrant_portainer.Base.Lists.{elem}
use vagrant_portainer.Base.Dict.{Dict, has_key, lookup, put, lookup-put}
use vagrant_portainer.Inventory.Types.{
  HostVars, null, blank, Hosts, Group, AllGroup, Config, item, hosts_of, or_empty,
}
use vagrant_portainer.Inventory.Groups.{put_member, add_host_to_group, add_all}

abbrev pub hosts_in : Option (Option Hosts) → Hosts
hosts_in none = []
hosts_in (some h) = or_empty h

abbrev pub members : Option Group → Hosts
members none = []
members (some g) = hosts_in g.hosts

abbrev pub children_of : Config → Dict Group
children_of none = []
children_of (some a) = a.children

-- The host is in the group; an absent group and a null have no hosts.
abbrev pub is_member : Config → String → String → Bool
is_member c group host = has_key host (members (lookup group (children_of c)))

abbrev pub all_hosts : Config → Hosts
all_hosts none = []
all_hosts (some a) = or_empty a.hosts

-- A group below `children`, to which hosts can be added.
abbrev pub IsChild : String → Type 0
IsChild group = ((group == "all") ≡ false) × ((group == "k8s_cluster:children") ≡ false)

has_key-put_member :
    (host h : String) (m : Option Hosts)
    → has_key h (put_member host m) ≡ (host == h || has_key h (or_empty m))
unfolding lookup
has_key-put_member host h none = ground arith
has_key-put_member host h (some d) = ground (arith, lookup-put host h null d)

pub item-lookup :
    {V : Type 0} (k : String) (d : Dict V) (v : V) → item k d ≡ ok v → lookup k d ≡ some v
item-lookup k d v e = ground arith

pub hosts_of-eq : (g : Group) (m : Option Hosts) → hosts_of g ≡ ok m → g.hosts ≡ some m
hosts_of-eq g m e = ground arith

-- After `group[host]` is written, with what the group held before.
added_member :
    (a : AllGroup) (group host g' h : String) (g : Group) (m : Option Hosts)
    → lookup group a.children ≡ some g
    → g.hosts ≡ some m
    → has_key h (
        members
          (lookup g' (put group (record g { hosts = some (some (put_member host m)) }) a.children)))
      ≡ ((group == g' && host == h) || has_key h (members (lookup g' a.children)))
added_member a group host g' h g m e f = elim (Bool-cases (group == g')) [
  | inl same ↦
      let here : members (lookup g' a.children) ≡ or_empty m =
        ap (λ k. members (lookup k a.children)) (sym ((eq_iff group g').0 same))
        ∙ ap members e
        ∙ ap hosts_in f in
      rw lookup-put (rw (same, here) (has_key-put_member host h m))
  | inr other ↦ rw lookup-put (rw other refl)
]

-- What is in the groups after hosts are added to one of them.
pub record Adds (group : String) (hosts : List String) (c c' : Config) : Type 0 where
  pub member : (g h : String) → is_member c' g h ≡ ((group == g && elem h hosts) || is_member c g h)
  pub all : all_hosts c' ≡ all_hosts c

pub add_host_to_group-Adds :
    (c : Config) (group host : String) (opts : HostVars)
    → IsChild group
    → Ensures (Adds group (host ∷ []) c) (add_host_to_group c group host opts)
unfolding add_host_to_group
add_host_to_group-Adds none group host opts (p, q) = rw (p, q) (search ensures_rules)
add_host_to_group-Adds (some a) group host opts (p, q) =
    rw (p, q)
      (Ensures-bind (item group a.children) _ λ g e. Ensures-bind (hosts_of g) _ λ m f.
        Ensures-ok _ (record {
          member = λ g' h. ground (
            arith,
            added_member a group host g' h g m (item-lookup group a.children g e)
                (hosts_of-eq g m f),
            eq_iff host h,
            eq_iff h host,
          );
          all = refl;
        }))

pub Adds-trans :
    (group host : String) (hosts : List String) (c₀ c₁ c₂ : Config)
    → Adds group (host ∷ []) c₀ c₁
    → Adds group hosts c₁ c₂
    → Adds group (host ∷ hosts) c₀ c₂
Adds-trans group host hosts c₀ c₁ c₂ h k = record {
  member = λ g j. ground (arith, h.member g j, k.member g j);
  all = k.all ∙ h.all;
}

-- Adding hosts to a group adds exactly them, to that group alone.
pub add_all-Adds :
    (group : String) (c : Config) (hosts : List String)
    → IsChild group
    → Ensures (Adds group hosts c) (add_all group c hosts)
unfolding add_all fold_result
add_all-Adds group c [] child = Ensures-ok c (record { member = λ g h. ground arith; all = refl })
add_all-Adds group c (host ∷ hosts) child =
    Ensures-bind (add_host_to_group c group host blank) _ λ c₁ e. record {
      at = λ c₂ f.
          Adds-trans group host hosts c c₁ c₂
            ((add_host_to_group-Adds c group host blank child).at c₁ e)
            ((add_all-Adds group c₁ hosts child).at c₂ f);
    }
