-- ===== src/Inventory/Hosts/Steps.antt =====
-- Rounds of `build_hostnames` of contrib/inventory_builder/inventory.py for deletions and for hosts
-- that are given by name: they raise no error.
use vagrant_portainer.Base.{
  String, ◌≡◌, refl, true, Bool-cases, inl, inr, some, List, [], ◌∷◌, if◌then◌else◌,
}
use vagrant_portainer.Base.Result.{Result, ok, ◌>>=◌, Returns, Returns-ok, Returns-if, Returns-next}
use vagrant_portainer.Base.Dict.{has_key, remove}
use vagrant_portainer.Base.Text.{contains_char, split}
use vagrant_portainer.Base.Text.Parts.{split-none}
use vagrant_portainer.Inventory.Hosts.{
  exists_ip, delete_host_by_ip, Build, step_delete, bind_names, step_bound, step_name,
}
use vagrant_portainer.Inventory.Hosts.Addresses.{uses_ip, exists_ip_total}
use vagrant_portainer.Inventory.Hosts.Readable.{
  has_id, names_host, addressed-readable, delete_from-remove, IsReadable, IsReadable-put_opts,
  IsReadable-remove,
}

-- The table of the loop's state can be loaded by a later use.
abbrev pub Readable : String → Build → Type 0
Readable prefix b = IsReadable prefix b.all_hosts

module _ (prefix : String) where
  pub step_delete-Readable :
      (b : Build) (r : String) → Readable prefix b → Returns (Readable prefix) (step_delete b r)
  unfolding step_delete delete_host_by_ip
  step_delete-Readable b r h =
      let d = b.all_hosts in
      let a = addressed-readable prefix d h.hosts in
      Returns-if (has_key r d) _ _ (λ _. Returns-ok _ (IsReadable-remove prefix r d h))
        (λ _. Returns-next (exists_ip d r) _ (uses_ip r d) (exists_ip_total d r a) (
          Returns-if (uses_ip r d) _ _
            (λ used.
              let (k, e) = delete_from-remove d d r a used in
              Returns-next _ _ (remove k d) e (Returns-ok _ (IsReadable-remove prefix k d h)))
            (λ _. Returns-ok b h)))

  -- The last part of the two branches that add a host: the address is looked for first.
  pub add_unless_used :
      (b b' : Build) (ip : String) (next : Result Build)
      → Readable prefix b
      → Readable prefix b'
      → Returns (Readable prefix) next
      → Returns
          (Readable prefix)
          (exists_ip b.all_hosts ip >>= λ there. if there then ok b' else next)
  add_unless_used b b' ip next h h' n =
      Returns-next (exists_ip b.all_hosts ip) _ (uses_ip ip b.all_hosts)
        (exists_ip_total b.all_hosts ip (addressed-readable prefix b.all_hosts h.hosts))
        (Returns-if _ _ _ (λ _. Returns-ok b' h') (λ _. n))

  step_bound-Readable :
      (b : Build) (host hostname ip access_ip : String)
      → has_id prefix hostname ≡ true
      → Readable prefix b
      → Returns (Readable prefix) (
          step_bound
            (record b { hostname = some hostname; ip = some ip; access_ip = some access_ip })
            host)
  unfolding step_bound
  step_bound-Readable b host hostname ip access_ip n h =
      let b' : Build = record b {
        hostname = some hostname;
        ip = some ip;
        access_ip = some access_ip;
      } in
      Returns-if (has_key host b.all_hosts) (ok b') _ (λ _. Returns-ok b' h)
        (λ _.
          add_unless_used b' b' ip _ h h
            (Returns-ok _ (IsReadable-put_opts prefix hostname ip access_ip b.all_hosts n h)))

  step_parts-Readable :
      (b : Build) (host : String) (parts : List String)
      → contains_char b',' host ≡ true
      → split b',' host ≡ parts
      → names_host prefix parts ≡ true
      → Readable prefix b
      → Returns (Readable prefix) (step_name b host)
  unfolding step_name bind_names
  step_parts-Readable b host (k ∷ ip ∷ []) c e n h =
      rw (c, e) (step_bound-Readable b host k ip ip n h)
  step_parts-Readable b host (k ∷ ip ∷ a ∷ []) c e n h =
      rw (c, e) (step_bound-Readable b host k ip a n h)
  step_parts-Readable b host [] c e n h = absurd cc
  step_parts-Readable b host (k ∷ []) c e n h = absurd cc
  step_parts-Readable b host (k ∷ ip ∷ a ∷ z ∷ zs) c e n h = absurd cc

  pub step_name-Readable :
      (b : Build) (host : String)
      → names_host prefix (split b',' host) ≡ true
      → Readable prefix b
      → Returns (Readable prefix) (step_name b host)
  step_name-Readable b host n h = elim (Bool-cases (contains_char b',' host)) [
    | inl comma ↦ step_parts-Readable b host (split b',' host) comma refl n h
    | inr none_there ↦ absurd (cc (split-none b',' host none_there, n))
  ]
