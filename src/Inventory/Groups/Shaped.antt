-- ===== src/Inventory/Groups/Shaped.antt =====
-- contrib/inventory_builder/inventory.py: documents that have all roles, and putting hosts into
-- them.
use vagrant_portainer.Base.{
  String, ◌≡◌, refl, Bool, true, false, ◌&&◌, ◌||◌, Option, none, some, List, [], ◌∷◌, arith, ◌==◌,
  eq_iff, Bool-cases, inl, inr,
}
use vagrant_portainer.Base.Result.{Result, ok, ◌>>=◌, fold_result}
use vagrant_portainer.Base.Dict.{Dict, has_key, lookup, put, lookup-put, is_some}
use vagrant_portainer.Inventory.Types.{blank, Hosts, Group, AllGroup, Config, item, hosts_of}
use vagrant_portainer.Inventory.Groups.{put_member, add_host_to_group, add_all}

-- The group holds a mapping of hosts, or is `k8s_cluster`, which the purge passes over.
abbrev has_mapping : Option (Option Hosts) → Bool
has_mapping (some (some d)) = true
has_mapping _ = false

abbrev pub is_shaped : String → Group → Bool
is_shaped role g = role == "k8s_cluster" || has_mapping g.hosts

unfoldable pub all_shaped : Dict Group → Bool
all_shaped [] = true
all_shaped ((role, g) ∷ d) = is_shaped role g && all_shaped d

pub record Shape (a : AllGroup) : Type 0 where
  pub hosts : is_some a.hosts ≡ true
  pub groups : all_shaped a.children ≡ true
  pub etcd : has_key "etcd" a.children ≡ true
  pub control_plane : has_key "kube_control_plane" a.children ≡ true
  pub node : has_key "kube_node" a.children ≡ true
  pub calico : has_key "calico_rr" a.children ≡ true

-- The call returns a document of this shape.
pub record Succeeds (m : Result Config) : Type 0 where
  pub result : AllGroup
  pub returns : m ≡ ok (some result)
  pub shape : Shape result

pub Succeeds-bind :
    (m : Result Config) (f : Config → Result Config)
    → Succeeds m
    → ((a : AllGroup) → Shape a → Succeeds (f (some a)))
    → Succeeds (m >>= f)
Succeeds-bind m f h k =
    let r = k h.result h.shape in
    record { result = r.result; returns = rw h.returns r.returns; shape = r.shape }

pub Succeeds-fold {ℓ} :
    {B : Type ℓ} (step : Config → B → Result Config)
    → ((a : AllGroup) (b : B) → Shape a → Succeeds (step (some a) b))
    → (a : AllGroup) (l : List B) → Shape a
    → Succeeds (fold_result step (some a) l)
unfolding fold_result
Succeeds-fold step keep a [] h = record { result = a; returns = refl; shape = h }
Succeeds-fold step keep a (b ∷ l) h =
    Succeeds-bind (step (some a) b) _ (keep a b h) (λ a' h'. Succeeds-fold step keep a' l h')

pub put-all_shaped :
    (role : String) (g : Group) (d : Dict Group)
    → is_shaped role g ≡ true
    → all_shaped d ≡ true
    → all_shaped (put role g d) ≡ true
unfolding all_shaped put
put-all_shaped role g [] h k = ground arith
put-all_shaped role g ((j, w) ∷ d) h k = ground (arith, eq_iff j role, put-all_shaped role g d h)

pub mapping_of :
    (m : Option (Option Hosts)) → has_mapping m ≡ true → (h : Hosts) × (m ≡ some (some h))
mapping_of (some (some h)) e = (h, refl)
mapping_of (some none) e = absurd cc
mapping_of none e = absurd cc

-- A group that is there, and is not `k8s_cluster`, has a mapping.
pub lookup-mapping :
    (role : String) (d : Dict Group)
    → all_shaped d ≡ true
    → (role == "k8s_cluster") ≡ false
    → has_key role d ≡ true
    → (g : Group) × (h : Hosts) × (lookup role d ≡ some g) × (g.hosts ≡ some (some h))
unfolding all_shaped lookup
lookup-mapping role [] s n k = absurd cc
lookup-mapping role ((j, w) ∷ d) s n k = elim (Bool-cases (j == role)) [
  | inl same ↦
      let (h, e) = mapping_of w.hosts (ground (arith, eq_iff j role)) in (w, h, rw same refl, e)
  | inr other ↦
      let (g, h, e, f) = lookup-mapping role d (ground arith) n (rw other at k) in
      (g, h, rw other e, f)
]

pub put-Shape :
    (a : AllGroup) (role : String) (g : Group)
    → Shape a
    → is_shaped role g ≡ true
    → Shape (record a { children = put role g a.children })
put-Shape a role g s h = record {
  hosts = s.hosts;
  groups = put-all_shaped role g a.children h s.groups;
  etcd = ground (arith, lookup-put role "etcd" g a.children, s.etcd);
  control_plane =
      ground (arith, lookup-put role "kube_control_plane" g a.children, s.control_plane);
  node = ground (arith, lookup-put role "kube_node" g a.children, s.node);
  calico = ground (arith, lookup-put role "calico_rr" g a.children, s.calico);
}

pub lookup-item : (k : String) (d : Dict Group) (g : Group) → lookup k d ≡ some g → item k d ≡ ok g
lookup-item k d g e = rw (e, item)

pub hosts-hosts_of : (g : Group) (m : Option Hosts) → g.hosts ≡ some m → hosts_of g ≡ ok m
hosts-hosts_of g m e = rw (e, hosts_of)

-- A group of a role that holds hosts.
pub record IsRole (a : AllGroup) (role : String) : Type 0 where
  pub not_all : (role == "all") ≡ false
  pub not_children : (role == "k8s_cluster:children") ≡ false
  pub not_cluster : (role == "k8s_cluster") ≡ false
  pub there : has_key role a.children ≡ true

pub add-Succeeds :
    (a : AllGroup) (role host : String)
    → Shape a
    → IsRole a role
    → Succeeds (add_host_to_group (some a) role host blank)
unfolding add_host_to_group
add-Succeeds a role host s r =
    let (g, h, e, f) = lookup-mapping role a.children s.groups r.not_cluster r.there in
    record {
      result = record a {
        children =
            put role (record g { hosts = some (some (put_member host (some h))) }) a.children;
      };
      returns =
          rw
            (
              r.not_all,
              r.not_children,
              lookup-item role a.children g e,
              hosts-hosts_of g (some h) f,
            )
            refl;
      shape = put-Shape a role _ s (ground arith);
    }

pub add_all-Succeeds :
    (role : String) (hosts : List String)
    → ((a : AllGroup) → Shape a → IsRole a role)
    → (a : AllGroup) → Shape a
    → Succeeds (add_all role (some a) hosts)
unfolding add_all
add_all-Succeeds role hosts is_role a s =
    Succeeds-fold _ (λ a' h s'. add-Succeeds a' role h s' (is_role a' s')) a hosts s
