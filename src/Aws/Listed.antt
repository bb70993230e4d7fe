-- ===== src/Aws/Listed.antt =====
-- contrib/aws_inventory/kubespray-aws-inventory.py: which hosts the inventory lists.
use mathlib.Core.List.{append-nil, append_assoc}
use vagrant_portainer.Base.{
  String, ◌≡◌, refl, sym, ap, ◌∙◌, true, some, List, [], ◌∷◌, ◌++◌, arith, ◌==◌, eq_iff, Bool-cases,
  inl, inr,
}
use vagrant_portainer.Base.Result.{ok, ◌>>=◌, fold_result, Ensures, Ensures-ok, Ensures-bind}
use vagrant_portainer.Base.Lists.{elem, elem-append}
use vagrant_portainer.Base.Dict.{Dict, has_key, lookup-put}
use vagrant_portainer.Aws.{
  Instance, HostVars, Env, Inventory, dns_name, filters, parse_labels, node_labels_tag,
  add_instance, search_group, region_of, search_tags_in, search_tags,
}

module _ (env : Env) where
  abbrev pub dns_names : List Instance → List String
  dns_names [] = []
  dns_names (i ∷ is) = dns_name env i ∷ dns_names is

  -- The names that the search for a group finds.
  abbrev pub found : String → String → List String
  found region group = dns_names (env.instances region (filters env group))

  abbrev State : Type 0
  State = List String × Dict HostVars

  -- What adding hosts with these names does.
  record Added (names : List String) (r r' : State) : Type 0 where
    listed : r'.0 ≡ r.0 ++ names
    kept : (n : String) → has_key n r.1 ≡ true → has_key n r'.1 ≡ true
    has_vars : (n : String) → elem n names ≡ true → has_key n r'.1 ≡ true

  add_instance-Added :
      (r : State) (i : Instance) → Ensures (Added (dns_name env i ∷ []) r) (add_instance env r i)
  unfolding add_instance
  add_instance-Added (l, v) i = Ensures-bind (parse_labels (node_labels_tag i.tags)) _ λ labels e.
      Ensures-ok _ (record {
        listed = refl;
        kept = λ n h. rw lookup-put (ground (arith, eq_iff (dns_name env i) n, h));
        has_vars = λ n h.
            rw lookup-put (ground (arith, eq_iff (dns_name env i) n, eq_iff n (dns_name env i), h));
      })

  instances-Added :
      (r : State) (is : List Instance)
      → Ensures (Added (dns_names is) r) (fold_result (add_instance env) r is)
  unfolding fold_result
  instances-Added r [] =
      Ensures-ok r
        (record { listed = sym (append-nil r.0); kept = λ n h. h; has_vars = λ n h. absurd cc })
  instances-Added r (i ∷ is) = Ensures-bind (add_instance env r i) _ λ r' e. record {
    at = λ r'' e'.
        let one = (add_instance-Added r i).at r' e in
        let more = (instances-Added r' is).at r'' e' in
        record {
          listed =
              more.listed
              ∙ ap (λ l. l ++ dns_names is) one.listed
              ∙ append_assoc r.0 (dns_name env i ∷ []) (dns_names is);
          kept = λ n h. more.kept n (one.kept n h);
          has_vars = λ n h. elim (Bool-cases (n == dns_name env i)) [
            | inl same ↦ more.kept n (one.has_vars n (rw same refl))
            | inr apart ↦ more.has_vars n (ground arith)
          ];
        };
  }

  search_group-Added :
      (region group : String) (v : Dict HostVars)
      → Ensures (Added (found region group) ([], v)) (search_group env region group v)
  unfolding search_group
  search_group-Added region group v =
      instances-Added ([], v) (env.instances region (filters env group))

  -- The inventory of a region: its groups are what the searches find, in order, and every host of
  -- a group has variables.
  pub record Lists (region : String) (inv : Inventory) : Type 0 where
    pub control_plane : inv.kube_control_plane ≡ found region "kube_control_plane"
    pub node : inv.kube_node ≡ found region "kube_node"
    pub etcd : inv.etcd ≡ found region "etcd"
    pub hostvars :
        (n : String)
        → elem n (inv.kube_control_plane ++ inv.kube_node ++ inv.etcd) ≡ true
        → has_key n inv.hostvars ≡ true

  in_three :
      (n : String) (a b c : List String) (d : Dict HostVars)
      → (elem n a ≡ true → has_key n d ≡ true)
      → (elem n b ≡ true → has_key n d ≡ true)
      → (elem n c ≡ true → has_key n d ≡ true)
      → elem n (a ++ b ++ c) ≡ true
      → has_key n d ≡ true
  in_three n a b c d p q r e =
      let outer = elem-append n (a ++ b) c in
      let inner = elem-append n a b in ground (arith, outer, inner, p, q, r, e)

  pub searched-Lists : (region : String) → Ensures (Lists region) (search_tags_in env region)
  unfolding search_tags_in
  searched-Lists region = Ensures-bind (search_group env region "kube_control_plane" []) _ λ r₁ e₁.
      Ensures-bind (search_group env region "kube_node" r₁.1) _ λ r₂ e₂.
        Ensures-bind (search_group env region "etcd" r₂.1) _ λ r₃ e₃.
          let one = (search_group-Added region "kube_control_plane" []).at r₁ e₁ in
          let two = (search_group-Added region "kube_node" r₁.1).at r₂ e₂ in
          let three = (search_group-Added region "etcd" r₂.1).at r₃ e₃ in
          Ensures-ok _ (record {
            control_plane = one.listed;
            node = two.listed;
            etcd = three.listed;
            hostvars = λ n.
                in_three n r₁.0 r₂.0 r₃.0 r₃.1
                  (λ h.
                    three.kept n (two.kept n (one.has_vars n (ap (elem n) (sym one.listed) ∙ h))))
                  (λ h. three.kept n (two.has_vars n (ap (elem n) (sym two.listed) ∙ h)))
                  (λ h. three.has_vars n (ap (elem n) (sym three.listed) ∙ h));
          })

-- Where a region is given and the search returns an inventory, each of its three groups is the list
-- of names that the search for the group finds, in order, and every host of a group has variables.
pub search_tags-Lists :
    (env : Env) (region : String) (inv : Inventory)
    → env.region ≡ some region
    → search_tags env ≡ ok inv
    → Lists env region inv
unfolding search_tags
search_tags-Lists env region inv e f =
    (searched-Lists env region).at inv (ap (λ r. region_of r >>= search_tags_in env) (sym e) ∙ f)
