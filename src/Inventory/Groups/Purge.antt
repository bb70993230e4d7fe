-- ===== src/Inventory/Groups/Purge.antt =====
-- `purge_invalid_hosts`, `set_all` and `set_k8s_cluster` of contrib/inventory_builder/inventory.py.
use mathlib.Core.Path.{subst}
use mathlib.Core.List.{append-nil, append_assoc}
use text.Mathlib.TextPositions.{eq_refl}
use vagrant_portainer.Base.{
  String, ◌≡◌, refl, sym, ap, ◌∙◌, Bool, false, not, ◌&&◌, ◌||◌, Option, none, some, List, [], ◌∷◌,
  ◌++◌, arith, ◌==◌, eq_iff, Bool-cases, inl, inr,
}
use vagrant_portainer.Base.Result.{
  ok, Ensures, Ensures-ok, Ensures-raise, Ensures-bind, fold_result,
}
use vagrant_portainer.Base.Lists.{elem}
use vagrant_portainer.Base.Dict.{
  Dict, has_key, lookup, put, lookup-put, IsDict, put_new, has_key_before,
}
use vagrant_portainer.Inventory.Types.{HostVars, Hosts, Group, Config, hosts_of, or_empty}
use vagrant_portainer.Inventory.Groups.{
  put_host, add_host_to_group, purge_hosts, purged, purge_group, purge_groups, purge_all_hosts,
  purge_invalid_hosts, set_all, set_k8s_cluster,
}
use vagrant_portainer.Inventory.Groups.Members.{
  hosts_in, members, is_member, all_hosts, hosts_of-eq,
}

-- The hosts that a purge leaves.
abbrev pub is_kept : List String → List String → String → Bool
is_kept hostnames protected h = elem h hostnames || elem h protected

module _ (hostnames protected : List String) where
  has_key-purge_hosts :
      (h : String) (d : Hosts)
      → has_key h (purge_hosts hostnames protected d)
        ≡ (has_key h d && is_kept hostnames protected h)
  unfolding purge_hosts lookup
  has_key-purge_hosts h [] = refl
  has_key-purge_hosts h ((k, o) ∷ d) = ground (arith, eq_iff k h, has_key-purge_hosts h d)

  has_key-purge_all_hosts :
      (h : String) (m : Option Hosts)
      → has_key h (or_empty (purge_all_hosts hostnames protected m))
        ≡ (has_key h (or_empty m) && is_kept hostnames protected h)
  unfolding lookup
  has_key-purge_all_hosts h none = refl
  has_key-purge_all_hosts h (some d) = has_key-purge_hosts h d

  -- What a purge leaves of the hosts of a group with the name `role`.
  record Purges (role : String) (before after : Hosts) : Type 0 where
    at :
        (h : String)
        → has_key h after
          ≡ (has_key h before && (role == "k8s_cluster" || is_kept hostnames protected h))

  purged-Purges :
      (role : String) (g : Group) (m : Option Hosts)
      → (role == "k8s_cluster") ≡ false
      → g.hosts ≡ some m
      → Purges role (hosts_in g.hosts) (hosts_in (purged hostnames protected g m).hosts)
  unfolding lookup
  purged-Purges role g none other e = record { at = λ h. rw e refl }
  purged-Purges role g (some d) other e = record {
    at = λ h. rw (e, other) (has_key-purge_hosts h d);
  }

  purge_group-Purges :
      (role : String) (g : Group)
      → Ensures
          (λ g'. Purges role (hosts_in g.hosts) (hosts_in g'.hosts))
          (purge_group hostnames protected role g)
  unfolding purge_group
  purge_group-Purges role g = elim (Bool-cases (role == "k8s_cluster")) [
    | inl cluster ↦ rw cluster (Ensures-ok g (record { at = λ h. ground arith }))
    | inr other ↦ rw other (
        Ensures-bind (hosts_of g) _
          (λ m e. Ensures-ok _ (purged-Purges role g m other (hosts_of-eq g m e))))
  ]

  -- The same for every group of the document.
  abbrev AllPurged : Dict Group → Dict Group → Type 0
  AllPurged before after =
      (role : String) → Purges role (members (lookup role before)) (members (lookup role after))

  AllPurged-cons :
      (role : String) (g g' : Group) (before after : Dict Group)
      → Purges role (hosts_in g.hosts) (hosts_in g'.hosts)
      → AllPurged before after
      → AllPurged ((role, g) ∷ before) ((role, g') ∷ after)
  unfolding lookup
  AllPurged-cons role g g' before after p rest r = elim (Bool-cases (role == r)) [
    | inl same ↦
        rw same
          (subst (λ x. Purges x (hosts_in g.hosts) (hosts_in g'.hosts)) ((eq_iff role r).0 same) p)
    | inr other ↦ rw other (rest r)
  ]

  purge_groups-AllPurged :
      (children : Dict Group)
      → Ensures (AllPurged children) (purge_groups hostnames protected children)
  unfolding purge_groups
  purge_groups-AllPurged [] = Ensures-ok [] (unfold lookup in λ r. record { at = λ h. refl })
  purge_groups-AllPurged ((role, g) ∷ rest) =
      Ensures-bind (purge_group hostnames protected role g) _ λ g' e.
        Ensures-bind (purge_groups hostnames protected rest) _ λ rest' f. Ensures-ok _ (
          AllPurged-cons role g g' rest rest' ((purge_group-Purges role g).at g' e)
            ((purge_groups-AllPurged rest).at rest' f))

purge_all_hosts-nil :
    (hostnames protected : List String) (m : Option Hosts)
    → or_empty m ≡ []
    → or_empty (purge_all_hosts hostnames protected m) ≡ []
unfolding purge_hosts
purge_all_hosts-nil hostnames protected none e = refl
purge_all_hosts-nil hostnames protected (some d) e = rw e

-- After a purge the groups but `k8s_cluster`, and `all`, have those of their hosts that are in
-- `hostnames` or in `protected`.
pub record IsPurged (hostnames protected : List String) (c c' : Config) : Type 0 where
  pub member :
      (g h : String)
      → is_member c' g h
        ≡ (is_member c g h && (g == "k8s_cluster" || is_kept hostnames protected h))
  pub all :
      (h : String)
      → has_key h (all_hosts c') ≡ (has_key h (all_hosts c) && is_kept hostnames protected h)
  pub no_hosts : all_hosts c ≡ [] → all_hosts c' ≡ []
  pub all_entries : all_hosts c' ≡ purge_hosts hostnames protected (all_hosts c)

or_empty-purge_all_hosts :
    (hostnames protected : List String) (m : Option Hosts)
    → or_empty (purge_all_hosts hostnames protected m)
      ≡ purge_hosts hostnames protected (or_empty m)
unfolding purge_hosts
or_empty-purge_all_hosts hostnames protected none = refl
or_empty-purge_all_hosts hostnames protected (some d) = refl

pub purge_invalid_hosts-IsPurged :
    (c : Config) (hostnames protected : List String)
    → Ensures (IsPurged hostnames protected c) (purge_invalid_hosts c hostnames protected)
unfolding purge_invalid_hosts
purge_invalid_hosts-IsPurged none hostnames protected = Ensures-raise _
purge_invalid_hosts-IsPurged (some a) hostnames protected =
    Ensures-bind (purge_groups hostnames protected a.children) _ λ ch e. Ensures-ok _ (record {
      member = λ g h. ((purge_groups-AllPurged hostnames protected a.children).at ch e g).at h;
      all = λ h. has_key-purge_all_hosts hostnames protected h a.hosts;
      no_hosts = purge_all_hosts-nil hostnames protected a.hosts;
      all_entries = or_empty-purge_all_hosts hostnames protected a.hosts;
    })

-- A table that is put into another one, entry by entry.
abbrev pub put_all : Hosts → Hosts → Hosts
put_all [] d = d
put_all ((h, o) ∷ hosts) d = put_all hosts (put h o d)

-- `all` has the hosts of the table too, and the groups are unchanged.
pub record HasAll (hosts : Hosts) (c c' : Config) : Type 0 where
  pub member : (g h : String) → is_member c' g h ≡ is_member c g h
  pub all : (h : String) → has_key h (all_hosts c') ≡ (has_key h hosts || has_key h (all_hosts c))
  pub exact : IsDict (all_hosts c ++ hosts) → all_hosts c' ≡ all_hosts c ++ hosts
  pub all_entries : all_hosts c' ≡ put_all hosts (all_hosts c)

put_host-put :
    (host : String) (o : HostVars) (m : Option Hosts) → put_host host o m ≡ put host o (or_empty m)
unfolding put
put_host-put host o none = rw eq_refl
put_host-put host o (some d) = refl

pub has_key-put_host :
    (host h : String) (o : HostVars) (m : Option Hosts)
    → has_key h (put_host host o m) ≡ (host == h || has_key h (or_empty m))
unfolding lookup put
has_key-put_host host h o none = ground (arith, eq_iff host h)
has_key-put_host host h o (some d) = ground (arith, lookup-put host h o d)

put_host-new :
    (host : String) (o : HostVars) (m : Option Hosts)
    → has_key host (or_empty m) ≡ false
    → put_host host o m ≡ or_empty m ++ (host, o) ∷ []
unfolding put
put_host-new host o none h = rw eq_refl
put_host-new host o (some d) h = put_new host o d h

pub set_all-HasAll : (c : Config) (hosts : Hosts) → Ensures (HasAll hosts c) (set_all c hosts)
unfolding set_all fold_result add_host_to_group lookup
set_all-HasAll c [] = Ensures-ok c (record {
  member = λ g h. refl;
  all = λ h. refl;
  exact = λ d. sym (append-nil (all_hosts c));
  all_entries = refl;
})
set_all-HasAll none ((host, o) ∷ hosts) = Ensures-raise _
set_all-HasAll (some a) ((host, o) ∷ hosts) = record {
  at = λ c' e.
      let c₁ : Config = some (record a { hosts = some (put_host host o a.hosts) }) in
      let rest = (set_all-HasAll c₁ hosts).at c' e in
      record {
        member = rest.member;
        all = λ h. ground (arith, rest.all h, has_key-put_host host h o a.hosts);
        exact = λ d.
            let new = has_key_before host o (or_empty a.hosts) hosts d in
            let moved : put_host host o a.hosts ++ hosts ≡ or_empty a.hosts ++ (host, o) ∷ hosts =
              rw (put_host-new host o a.hosts new) (append_assoc (or_empty a.hosts) _ hosts) in
            rest.exact (subst IsDict (sym moved) d) ∙ moved;
        all_entries = rest.all_entries ∙ ap (put_all hosts) (put_host-put host o a.hosts);
      };
}

pub set_k8s_cluster-member :
    (c : Config)
    → Ensures
        (λ c'. (g h : String) → is_member c' g h ≡ (not (g == "k8s_cluster") && is_member c g h))
        (set_k8s_cluster c)
unfolding set_k8s_cluster lookup
set_k8s_cluster-member none = Ensures-raise _
set_k8s_cluster-member (some a) =
    Ensures-ok _
      (λ g h. rw lookup-put (ground (arith, eq_iff "k8s_cluster" g, eq_iff g "k8s_cluster")))

-- A purge leaves in every group but `k8s_cluster`, and in `all`, exactly those of its hosts that
-- are in `hostnames` or in `protected`.
pub is_member-purge_invalid_hosts :
    (c : Config) (hostnames protected : List String) (c' : Config) (g h : String)
    → purge_invalid_hosts c hostnames protected ≡ ok c'
    → (is_member c' g h
        ≡ (is_member c g h && (g == "k8s_cluster" || is_kept hostnames protected h)))
      × (has_key h (all_hosts c') ≡ (has_key h (all_hosts c) && is_kept hostnames protected h))
is_member-purge_invalid_hosts c hostnames protected c' g h e =
    let p = (purge_invalid_hosts-IsPurged c hostnames protected).at c' e in (p.member g h, p.all h)
