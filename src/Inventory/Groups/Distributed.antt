-- ===== src/Inventory/Groups/Distributed.antt =====
-- contrib/inventory_builder/inventory.py: what the steps of the constructor that give out the roles
-- make of the document, put together.
use mathlib.Core.Path.{subst}
use vagrant_portainer.Base.{
  ℕ, suc, arith, String, ◌≡◌, refl, sym, ap, ◌∙◌, Bool, false, not, ◌&&◌, ◌||◌, none, some, List,
  [], ◌++◌, ◌==◌, leb, ◌∷◌, if◌then◌else◌, Bool-cases, inl, inr,
}
use vagrant_portainer.Base.Result.{Ensures, Ensures-ok, Ensures-raise, Ensures-if, Ensures-bind}
use vagrant_portainer.Base.Lists.{elem, length, take, drop}
use vagrant_portainer.Base.Dict.{IsDict, has_key, keys}
use vagrant_portainer.Inventory.Types.{roles, Hosts, Config, Settings}
use vagrant_portainer.Inventory.Groups.{
  purge_hosts, purge_invalid_hosts, set_all, set_k8s_cluster, set_etcd, set_kube_control_plane,
  set_kube_node, etcd_hosts_count, control_plane_hosts, distribute,
}
use vagrant_portainer.Inventory.Groups.Members.{is_member, all_hosts, Adds, add_all-Adds}
use vagrant_portainer.Inventory.Groups.Purge.{
  is_kept, IsPurged, purge_invalid_hosts-IsPurged, HasAll, set_all-HasAll, set_k8s_cluster-member,
  put_all,
}
use vagrant_portainer.Inventory.Groups.Nodes.{is_dedicated, Selects, set_kube_node-Selects}
use vagrant_portainer.Inventory.Groups.Calico.{Only, set_calico_rr-Only}

-- Of a list, the first three, or the first one where there are fewer.
abbrev pub first_hosts : List String → List String
first_hosts [] = []
first_hosts (a ∷ []) = a ∷ []
first_hosts (a ∷ b ∷ []) = a ∷ []
first_hosts (a ∷ b ∷ c ∷ names) = a ∷ b ∷ c ∷ []

-- The others.
abbrev pub other_hosts : List String → List String
other_hosts [] = []
other_hosts (a ∷ []) = []
other_hosts (a ∷ b ∷ []) = b ∷ []
other_hosts (a ∷ b ∷ c ∷ names) = names

-- The hosts of etcd.
abbrev pub etcd_hosts : Hosts → List String
etcd_hosts hosts = first_hosts (keys hosts)

-- The hosts of the control plane: as many as the setting says, at scale of those that are not in
-- etcd, and else of all.
abbrev pub first_control_plane : Settings → List String → List String
first_control_plane s names =
    take s.kube_control_hosts
      (if leb s.scale_threshold (length names) then other_hosts names else names)

count_three : (n : ℕ) → etcd_hosts_count (suc (suc (suc n))) ≡ 3
count_three n = ground arith

pub first_hosts-take :
    (names : List String) → take (etcd_hosts_count (length names)) names ≡ first_hosts names
first_hosts-take [] = refl
first_hosts-take (a ∷ []) = refl
first_hosts-take (a ∷ b ∷ []) = refl
first_hosts-take (a ∷ b ∷ c ∷ names) =
    ap (λ n. take n (a ∷ b ∷ c ∷ names)) (count_three (length names))

other_hosts-drop :
    (names : List String) → drop (etcd_hosts_count (length names)) names ≡ other_hosts names
other_hosts-drop [] = refl
other_hosts-drop (a ∷ []) = refl
other_hosts-drop (a ∷ b ∷ []) = refl
other_hosts-drop (a ∷ b ∷ c ∷ names) =
    ap (λ n. drop n (a ∷ b ∷ c ∷ names)) (count_three (length names))

pub first_control_plane-eq :
    (s : Settings) (names : List String) → control_plane_hosts s names ≡ first_control_plane s names
first_control_plane-eq s names = elim (Bool-cases (leb s.scale_threshold (length names))) [
  | inl at_scale ↦ rw at_scale (ap (take s.kube_control_hosts) (other_hosts-drop names))
  | inr small ↦ rw small refl
]

-- What `distribute` calls `etcd_hosts`.
abbrev taken : Hosts → List String
taken hosts = take (etcd_hosts_count (length (keys hosts))) (keys hosts)

-- A member of the group before that the purge keeps.
abbrev pub stays : Config → Hosts → String → String → Bool
stays c hosts group h = is_member c group h && is_kept (keys hosts) roles h

-- The roles that a document has after the hosts of a table are distributed.
pub record IsDistributed (s : Settings) (hosts : Hosts) (c c' : Config) : Type 0 where
  pub etcd :
      (h : String) → is_member c' "etcd" h ≡ (elem h (etcd_hosts hosts) || stays c hosts "etcd" h)
  pub control_plane :
      (h : String)
      → is_member c' "kube_control_plane" h
        ≡ (elem h (first_control_plane s (keys hosts)) || stays c hosts "kube_control_plane" h)
  pub node :
      (h : String)
      → is_member c' "kube_node" h
        ≡ ((elem h (keys hosts) && not (is_dedicated s c' h)) || stays c hosts "kube_node" h)
  pub all :
      (h : String)
      → has_key h (all_hosts c')
        ≡ (has_key h hosts || (has_key h (all_hosts c) && is_kept (keys hosts) roles h))

-- The roles, and for a document without hosts exactly the hosts of the table.
pub record Distribution (s : Settings) (hosts : Hosts) (c c' : Config) : Type 0 where
  pub distributed : IsDistributed s hosts c c'
  pub exact : all_hosts c ≡ [] → IsDict hosts → all_hosts c' ≡ hosts
  pub all_entries : all_hosts c' ≡ put_all hosts (purge_hosts (keys hosts) roles (all_hosts c))

set_etcd-Adds :
    (c : Config) (hosts : List String) → Ensures (Adds "etcd" hosts c) (set_etcd c hosts)
unfolding set_etcd
set_etcd-Adds c hosts = add_all-Adds "etcd" c hosts (refl, refl)

set_kube_control_plane-Adds :
    (c : Config) (hosts : List String)
    → Ensures (Adds "kube_control_plane" hosts c) (set_kube_control_plane c hosts)
unfolding set_kube_control_plane
set_kube_control_plane-Adds c hosts = add_all-Adds "kube_control_plane" c hosts (refl, refl)

-- The states between the steps, put together.
module _ (s : Settings) (hosts : Hosts) (c₀ c₁ c₂ c₃ c₄ c₅ c₆ c₇ : Config)
    (purged : IsPurged (keys hosts) roles c₀ c₁) (with_all : HasAll hosts c₁ c₂)
    (cluster : (g h : String) → is_member c₃ g h ≡ (not (g == "k8s_cluster") && is_member c₂ g h))
    (same_all : all_hosts c₃ ≡ all_hosts c₂) (etcd_added : Adds "etcd" (taken hosts) c₃ c₄)
    (cp_added : Adds "kube_control_plane" (control_plane_hosts s (keys hosts)) c₄ c₅)
    (nodes : Selects "kube_node" (is_dedicated s c₅) (keys hosts) c₅ c₆)
    (rest : Only "calico_rr" c₆ c₇) where
  before : (g h : String) → (g == "k8s_cluster") ≡ false → is_member c₃ g h ≡ stays c₀ hosts g h
  before g h n = rw (cluster g h) (rw (n, with_all.member g h) (rw (purged.member g h) (rw n refl)))

  same_dedicated : (h : String) → is_dedicated s c₅ h ≡ is_dedicated s c₇ h
  same_dedicated h =
      rw
        (
          rest.all,
          rest.member "etcd" h refl,
          rest.member "kube_control_plane" h refl,
          nodes.all,
          nodes.member "etcd" h,
          nodes.member "kube_control_plane" h,
        )
        refl

  all_after : all_hosts c₇ ≡ all_hosts c₂
  all_after = rest.all ∙ nodes.all ∙ cp_added.all ∙ etcd_added.all ∙ same_all

  assembled : IsDistributed s hosts c₀ c₇
  assembled = record {
    etcd = λ h.
        rest.member "etcd" h refl
        ∙ nodes.member "etcd" h
        ∙ cp_added.member "etcd" h
        ∙ etcd_added.member "etcd" h
        ∙ ap (λ b. elem h (taken hosts) || b) (before "etcd" h refl)
        ∙ ap (λ l. elem h l || stays c₀ hosts "etcd" h) (first_hosts-take (keys hosts));
    control_plane = λ h.
        rest.member "kube_control_plane" h refl
        ∙ nodes.member "kube_control_plane" h
        ∙ cp_added.member "kube_control_plane" h
        ∙ ap (λ b. elem h (control_plane_hosts s (keys hosts)) || b)
            (etcd_added.member "kube_control_plane" h ∙ before "kube_control_plane" h refl)
        ∙ ap (λ l. elem h l || stays c₀ hosts "kube_control_plane" h)
            (first_control_plane-eq s (keys hosts));
    node = λ h.
        rest.member "kube_node" h refl
        ∙ nodes.member "kube_node" h
        ∙ ap (λ d. (elem h (keys hosts) && not d) || is_member c₅ "kube_node" h) (same_dedicated h)
        ∙ ap (λ b. (elem h (keys hosts) && not (is_dedicated s c₇ h)) || b)
            (cp_added.member "kube_node" h
              ∙ etcd_added.member "kube_node" h
              ∙ before "kube_node" h refl);
    all = λ h.
        ap (λ x. has_key h x) all_after
        ∙ with_all.all h
        ∙ ap (λ b. has_key h hosts || b) (purged.all h);
  }

  exact_hosts : all_hosts c₀ ≡ [] → IsDict hosts → all_hosts c₇ ≡ hosts
  exact_hosts none_before d =
      let none_left = purged.no_hosts none_before in
      all_after
      ∙ with_all.exact (subst (λ x. IsDict (x ++ hosts)) (sym none_left) d)
      ∙ ap (λ x. x ++ hosts) none_left

  whole : Distribution s hosts c₀ c₇
  whole = record {
    distributed = assembled;
    exact = exact_hosts;
    all_entries = all_after ∙ with_all.all_entries ∙ ap (put_all hosts) purged.all_entries;
  }

pub all_hosts-set_k8s_cluster :
    (c : Config) → Ensures (λ c'. all_hosts c' ≡ all_hosts c) (set_k8s_cluster c)
unfolding set_k8s_cluster
all_hosts-set_k8s_cluster none = Ensures-raise _
all_hosts-set_k8s_cluster (some a) = Ensures-ok _ refl

Only-refl : (c : Config) → Only "calico_rr" c c
Only-refl c = record { member = λ g h n. refl; all = refl }

pub distribute-Distribution :
    (s : Settings) (c : Config) (hosts : Hosts)
    → Ensures (Distribution s hosts c) (distribute s c hosts)
unfolding distribute
distribute-Distribution s c₀ hosts =
    Ensures-bind (purge_invalid_hosts c₀ (keys hosts) roles) _ λ c₁ e₁.
      Ensures-bind (set_all c₁ hosts) _ λ c₂ e₂. Ensures-bind (set_k8s_cluster c₂) _ λ c₃ e₃.
        Ensures-bind (set_etcd c₃ (taken hosts)) _ λ c₄ e₄.
          Ensures-bind (set_kube_control_plane c₄ (control_plane_hosts s (keys hosts))) _ λ c₅ e₅.
            Ensures-bind (set_kube_node s c₅ (keys hosts)) _ λ c₆ e₆.
              let last : (c₇ : Config) → Only "calico_rr" c₆ c₇ → Distribution s hosts c₀ c₇ = λ c₇.
                whole s hosts c₀ c₁ c₂ c₃ c₄ c₅ c₆ c₇
                  ((purge_invalid_hosts-IsPurged c₀ (keys hosts) roles).at c₁ e₁)
                  ((set_all-HasAll c₁ hosts).at c₂ e₂) ((set_k8s_cluster-member c₂).at c₃ e₃)
                  ((all_hosts-set_k8s_cluster c₂).at c₃ e₃)
                  ((set_etcd-Adds c₃ (taken hosts)).at c₄ e₄)
                  ((set_kube_control_plane-Adds c₄ (control_plane_hosts s (keys hosts))).at c₅ e₅)
                  ((set_kube_node-Selects s c₅ (keys hosts)).at c₆ e₆) in
              Ensures-if (leb s.scale_threshold (length (keys hosts))) _ _
                (λ at_scale. record {
                  at = λ c₇ e₇. last c₇ ((set_calico_rr-Only c₆ (taken hosts)).at c₇ e₇);
                })
                (λ _. Ensures-ok c₆ (last c₆ (Only-refl c₆)))
