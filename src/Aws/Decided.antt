-- ===== src/Aws/Decided.antt =====
-- contrib/aws_inventory/kubespray-aws-inventory.py: when the inventory is printed.
use mathlib.Core.Path.{subst}
use vagrant_portainer.Base.{
  String, ◌≡◌, refl, sym, Bool, true, false, ◌&&◌, Option, none, some, List, [], ◌∷◌, arith,
  Bool-cases, inl, inr,
}
use vagrant_portainer.Base.Result.{
  Result, ok, raise, value_error, ◌>>=◌, all, fold_result, fold_result-raises, Returns, Returns-ok,
  Returns-next, Returns-fold_result,
}
use vagrant_portainer.Base.Dict.{Dict}
use vagrant_portainer.Base.Text.{strip, split}
use vagrant_portainer.Aws.{
  Instance, HostVars, Env, Inventory, filters, put_label, label_step, parse_labels, node_labels_tag,
  add_instance, search_group, region_of, search_tags_in, search_tags,
}
use vagrant_portainer.Aws.Listed.{Lists, searched-Lists}

-- "key=value", with any spaces around it and no other equals sign.
abbrev is_pair : List String → Bool
is_pair (key ∷ value ∷ []) = true
is_pair _ = false

abbrev pub is_label : String → Bool
is_label label = is_pair (split b'=' (strip label))

-- There is no tag for labels, or it is a list of labels.
abbrev pub has_labels : Instance → Bool
has_labels i = elim (node_labels_tag i.tags) [
  | none ↦ true
  | some value ↦ all is_label (split b',' value)
]

-- Any value.
abbrev Any {ℓ} : {A : Type ℓ} → A → Type 0
Any _ = Unit

put_label-Returns :
    (d : Dict String) (parts : List String) → is_pair parts ≡ true → Returns Any (put_label d parts)
put_label-Returns d (key ∷ value ∷ []) h = Returns-ok _ tt
put_label-Returns d [] h = absurd cc
put_label-Returns d (a ∷ []) h = absurd cc
put_label-Returns d (a ∷ b ∷ c ∷ l) h = absurd cc

put_label-raises :
    (d : Dict String) (parts : List String)
    → is_pair parts ≡ false
    → put_label d parts ≡ raise value_error
put_label-raises d (key ∷ value ∷ []) h = absurd cc
put_label-raises d [] h = refl
put_label-raises d (a ∷ []) h = refl
put_label-raises d (a ∷ b ∷ c ∷ l) h = refl

-- The labels of one instance.
labels-Returns :
    (value : String)
    → all is_label (split b',' value) ≡ true
    → Returns Any (fold_result label_step [] (split b',' value))
labels-Returns value h =
    Returns-fold_result label_step is_label
      (λ d l _ p. put_label-Returns d (split b'=' (strip l)) p) [] (split b',' value) tt h

labels-raise :
    (value : String)
    → all is_label (split b',' value) ≡ false
    → fold_result label_step [] (split b',' value) ≡ raise value_error
labels-raise value h =
    fold_result-raises value_error label_step is_label
      (λ d l p. put_label-Returns d (split b'=' (strip l)) p)
      (λ d l p. put_label-raises d (split b'=' (strip l)) p) [] (split b',' value) h

parse_labels-Returns :
    (tag : Option String)
    → elim tag [ none ↦ true | some value ↦ all is_label (split b',' value) ] ≡ true
    → Returns Any (parse_labels tag)
unfolding parse_labels
parse_labels-Returns none h = Returns-ok none tt
parse_labels-Returns (some value) h =
    let l = labels-Returns value h in Returns-next _ _ l.result l.returns (Returns-ok _ tt)

parse_labels-raises :
    (tag : Option String)
    → elim tag [ none ↦ true | some value ↦ all is_label (split b',' value) ] ≡ false
    → parse_labels tag ≡ raise value_error
unfolding parse_labels
parse_labels-raises none h = absurd cc
parse_labels-raises (some value) h = rw (labels-raise value h) refl

module _ (env : Env) where
  add_instance-Returns :
      (r : List String × Dict HostVars) (i : Instance)
      → has_labels i ≡ true
      → Returns Any (add_instance env r i)
  unfolding add_instance
  add_instance-Returns r i h =
      let l = parse_labels-Returns (node_labels_tag i.tags) h in
      Returns-next _ _ l.result l.returns (Returns-ok _ tt)

  add_instance-raises :
      (r : List String × Dict HostVars) (i : Instance)
      → has_labels i ≡ false
      → add_instance env r i ≡ raise value_error
  unfolding add_instance
  add_instance-raises r i h = rw (parse_labels-raises (node_labels_tag i.tags) h) refl

  -- The instances of a group have labels that can be read.
  abbrev pub labelled : String → String → Bool
  labelled region group = all has_labels (env.instances region (filters env group))

  search_group-Returns :
      (region group : String) (v : Dict HostVars)
      → labelled region group ≡ true
      → Returns Any (search_group env region group v)
  unfolding search_group
  search_group-Returns region group v h =
      Returns-fold_result (add_instance env) has_labels (λ r i _ p. add_instance-Returns r i p) _
        (env.instances region (filters env group)) tt h

  search_group-raises :
      (region group : String) (v : Dict HostVars)
      → labelled region group ≡ false
      → search_group env region group v ≡ raise value_error
  unfolding search_group
  search_group-raises region group v h =
      fold_result-raises value_error (add_instance env) has_labels add_instance-Returns
        add_instance-raises _ (env.instances region (filters env group)) h

  -- The instances of all three groups.
  abbrev pub all_labelled : String → Bool
  all_labelled region =
      labelled region "kube_control_plane" && labelled region "kube_node" && labelled region "etcd"

  searched-Returns :
      (region : String) → all_labelled region ≡ true → Returns Any (search_tags_in env region)
  unfolding search_tags_in
  searched-Returns region h =
      let one = search_group-Returns region "kube_control_plane" [] (ground arith) in
      let two = search_group-Returns region "kube_node" one.result.1 (ground arith) in
      let three = search_group-Returns region "etcd" two.result.1 (ground arith) in
      Returns-next _ _ one.result one.returns (
        Returns-next _ _ two.result two.returns
          (Returns-next _ _ three.result three.returns (Returns-ok _ tt)))

  searched-raises :
      (region : String)
      → all_labelled region ≡ false
      → search_tags_in env region ≡ raise value_error
  unfolding search_tags_in
  searched-raises region h = elim (Bool-cases (labelled region "kube_control_plane")) [
    | inr bad ↦ rw (search_group-raises region "kube_control_plane" [] bad) refl
    | inl good ↦
        let one = search_group-Returns region "kube_control_plane" [] good in
        rw one.returns (elim (Bool-cases (labelled region "kube_node")) [
          | inr bad ↦ rw (search_group-raises region "kube_node" one.result.1 bad) refl
          | inl good' ↦
              let two = search_group-Returns region "kube_node" one.result.1 good' in
              rw two.returns
                (rw (search_group-raises region "etcd" two.result.1 (ground arith)) refl)
        ])
  ]

  -- The inventory where the labels can be read, and else the error.
  abbrev pub Decides : String → Bool → Result Inventory → Type 0
  Decides region true m = (inv : Inventory) × (m ≡ ok inv) × Lists env region inv
  Decides region false m = m ≡ raise value_error

-- Where a region is given, `search_tags` returns exactly if every instance that one of its three
-- searches finds has no tag for labels, or one whose value is a list of labels "key=value"
-- separated by commas, and else raises ValueError. Each of the three groups is then the list of
-- names that the search for it finds, in order, and every host of a group has variables.
pub search_tags-Decides :
    (env : Env) (region : String)
    → env.region ≡ some region
    → Decides env region (all_labelled env region) (search_tags env)
unfolding search_tags
search_tags-Decides env region e =
    subst (λ r. Decides env region (all_labelled env region) (region_of r >>= search_tags_in env))
      (sym e) (decides (all_labelled env region) refl)
  where
    decides :
        (b : Bool) → all_labelled env region ≡ b → Decides env region b (search_tags_in env region)
    decides true h =
        let r = searched-Returns env region h in
        (r.result, r.returns, (searched-Lists env region).at r.result r.returns)
    decides false h = searched-raises env region h
