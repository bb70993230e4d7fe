-- ===== src/Checksums/Sums.antt =====
-- scripts/download_hash.py: which checksums a run changes.
use vagrant_portainer.Base.{
  String, ◌≡◌, refl, sym, ap, ◌∙◌, Bool, true, false, ◌||◌, ◌&&◌, Option, none, some, List, [], ◌∷◌,
  map, arith, ◌==◌, eq_iff, if◌then◌else◌, Bool-cases, inl, inr,
}
use vagrant_portainer.Base.Result.{
  Result, ok, raise, ◌>>=◌, fold_result, Ensures, Ensures-ok, Ensures-bind,
}
use vagrant_portainer.Base.Lists.{elem}
use vagrant_portainer.Base.Dict.{lookup}
use vagrant_portainer.Base.Text.{◌⧺◌, starts_with}
use vagrant_portainer.Checksums.{
  Tables, Env, architectures, downloads, checksum_name, with_v, url, or_key_error, set_sum, add_sum,
  add_versions, add_archs, download_hash,
}
use vagrant_portainer.Checksums.Changes.{sum_in, sum_in-put, Changed, all-Rounds, fold-Changed}

abbrev pub hashed : Env → Result String → Option String
hashed env (ok content) = some (env.sha256 content)
hashed env (raise e) = none

-- The checksum of a download; none where it cannot be fetched.
abbrev pub sum_of : Env → String → String → String → Option String
sum_of env download a v = hashed env (
    env.fetch (
      "https://storage.googleapis.com/kubernetes-release/release/" ⧺ v ⧺ "/bin/linux/" ⧺ a ⧺ "/"
      ⧺ download))

-- The binary whose checksums are in a table.
abbrev pub binary_of : String → String
binary_of table =
    if "kubelet_checksums" == table
    then "kubelet"
    else if "kubectl_checksums" == table
    then "kubectl"
    else if "kubeadm_checksums" == table
    then "kubeadm"
    else ""

-- The checksum that belongs in a place of the file.
abbrev pub sum_for : Env → String → String → String → Option String
sum_for env n b w = sum_of env (binary_of n) b w

or_key_error-ok {ℓ} : {A : Type ℓ} (o : Option A) {a : A} → or_key_error o ≡ ok a → o ≡ some a
or_key_error-ok none e = absurd cc
or_key_error-ok (some a) e = cc

eq_comm : (a b : String) → (a == b) ≡ (b == a)
eq_comm a b = ground (arith, eq_iff a b, eq_iff b a)

module _ (S : String → String → String → Option String) where
  -- What stands in a place stands in all that are equal to it.
  sum_at :
      (name a v x : String) (n b w : String)
      → S name a v ≡ some x
      → (n == name && (b == a && w == v)) ≡ true
      → S n b w ≡ some x
  sum_at name a v x n b w is_x e =
      let p : n ≡ name = (eq_iff n name).0 (ground arith) in
      let q : b ≡ a = (eq_iff b a).0 (ground arith) in
      let r : w ≡ v = (eq_iff w v).0 (ground arith) in rw (p, q, r) is_x

  set_sum-Changed :
      (name a v x : String) (d : Tables)
      → S name a v ≡ some x
      → Ensures (Changed S (λ n b w. n == name && (b == a && w == v)) d) (set_sum name a v x d)
  unfolding set_sum
  set_sum-Changed name a v x d is_x = Ensures-bind (or_key_error (lookup name d)) _ λ table e.
      Ensures-bind (or_key_error (lookup a table)) _ λ versions f. Ensures-ok _ λ n b w.
        let t =
          sum_in-put name a v x d table versions n b w (or_key_error-ok (lookup name d) e)
            (or_key_error-ok (lookup a table) f) in
        let u = sum_at name a v x n b w is_x in
        ground (arith, t, u, eq_comm n name, eq_comm b a, eq_comm w v)

module _ (env : Env) (download : String) where
  abbrev the_sum : String → String → String → Option String
  the_sum n b w = sum_of env download b w

  add_sum-Changed :
      (a : String) (d : Tables) (v : String)
      → Ensures
          (Changed the_sum (λ n b w. n == checksum_name download && (b == a && w == with_v v)) d)
          (add_sum env download a d v)
  unfolding add_sum
  add_sum-Changed a d v = Ensures-bind (env.fetch (url (with_v v) a download)) _ λ content e.
      set_sum-Changed the_sum (checksum_name download) a (with_v v) (env.sha256 content) d
        (ap (hashed env) e)

  add_versions-Changed :
      (versions : List String) (d : Tables) (a : String)
      → Ensures
          (Changed the_sum
            (λ n b w. n == checksum_name download && (b == a && elem w (map with_v versions)))
            d)
          (add_versions env download versions d a)
  unfolding add_versions
  add_versions-Changed versions d a =
      fold-Changed the_sum (add_sum env download a)
        (λ v n b w. n == checksum_name download && (b == a && w == with_v v))
        (λ l n b w. n == checksum_name download && (b == a && elem w (map with_v l)))
        (λ n b w. ground arith) (λ x l n b w. ground arith) versions d
        (all-Rounds the_sum _ _ (add_sum-Changed a) versions)

  add_archs-Changed :
      (versions : List String) (d : Tables)
      → Ensures
          (Changed the_sum
            (λ n b w.
              n == checksum_name download && (elem b architectures && elem w (map with_v versions)))
            d)
          (add_archs env versions d download)
  unfolding add_archs
  add_archs-Changed versions d =
      fold-Changed the_sum (add_versions env download versions)
        (λ a n b w. n == checksum_name download && (b == a && elem w (map with_v versions)))
        (λ l n b w. n == checksum_name download && (elem b l && elem w (map with_v versions)))
        (λ n b w. ground arith) (λ x l n b w. ground arith) architectures d
        (all-Rounds the_sum _ _ (add_versions-Changed versions) architectures)

-- The places as the code writes them.
abbrev written_to : List String → String → String → String → Bool
written_to versions n b w =
    elem n (map checksum_name downloads) && (elem b architectures && elem w (map with_v versions))

module _ (env : Env) (versions : List String) where
  abbrev For : String → Type 0
  For download = (n : String) → (n == checksum_name download) ≡ true → binary_of n ≡ download

  one-For : (download : String) → binary_of (checksum_name download) ≡ download → For download
  one-For download e n h = rw ((eq_iff n (checksum_name download)).0 h) e

  one_download :
      (download : String) (d : Tables)
      → For download
      → Ensures
          (Changed
            (sum_for env)
            (λ n b w.
              n == checksum_name download && (elem b architectures && elem w (map with_v versions)))
            d)
          (add_archs env versions d download)
  one_download download d for' = record {
    at = λ d' e n b w.
        let t = (add_archs-Changed env download versions d).at d' e n b w in
        elim (Bool-cases (n == checksum_name download)) [
          | inl same ↦
              let u : sum_for env n b w ≡ sum_of env download b w =
                ap (λ x. sum_of env x b w) (for' n same) in
              ground (arith, t, u)
          | inr other ↦ ground (arith, t)
        ];
  }

  add_all-Changed :
      (d : Tables)
      → Ensures
          (Changed (sum_for env) (written_to versions) d)
          (fold_result (add_archs env versions) d downloads)
  add_all-Changed d =
      fold-Changed (sum_for env) (add_archs env versions)
        (λ c n b w. n == checksum_name c && (elem b architectures && elem w (map with_v versions)))
        (λ l n b w.
          elem n (map checksum_name l) && (elem b architectures && elem w (map with_v versions)))
        (λ n b w. ground arith) (λ x l n b w. ground arith) downloads d
        (
          (λ d. one_download "kubelet" d (one-For "kubelet" refl)),
          (
            (λ d. one_download "kubectl" d (one-For "kubectl" refl)),
            ((λ d. one_download "kubeadm" d (one-For "kubeadm" refl)), tt),
          ),
        )

-- A version as it was given where it starts with "v", and else with a "v" in front.
abbrev pub is_version : List String → String → Bool
is_version [] w = false
is_version (v ∷ versions) w =
    (if starts_with v "v" then w == v else w == "v" ⧺ v) || is_version versions w

is_version-eq :
    (versions : List String) (w : String) → elem w (map with_v versions) ≡ is_version versions w
unfolding with_v
is_version-eq [] w = refl
is_version-eq (v ∷ versions) w = elim (Bool-cases (starts_with v "v")) [
  | inl tagged ↦ rw tagged (ap (λ r. w == v || r) (is_version-eq versions w))
  | inr bare ↦ rw bare (ap (λ r. w == "v" ⧺ v || r) (is_version-eq versions w))
]

-- The places that a run is for: the tables of the three binaries, the four architectures, and the
-- versions.
abbrev pub is_asked : List String → String → String → String → Bool
is_asked versions n b w =
    elem n ("kubelet_checksums" ∷ "kubectl_checksums" ∷ "kubeadm_checksums" ∷ [])
    && (elem b ("arm" ∷ "arm64" ∷ "amd64" ∷ "ppc64le" ∷ []) && is_version versions w)

is_asked-eq :
    (versions : List String) (n b w : String) → written_to versions n b w ≡ is_asked versions n b w
is_asked-eq versions n b w = rw (is_version-eq versions w) refl

-- A run that writes the file has put the SHA-256 of what it downloaded into the tables of the three
-- binaries, for each of arm, arm64, amd64 and ppc64le and each version that it was given, with a
-- "v" in front where it has none; and every other checksum is as before. What is downloaded for a
-- place is the binary of its table at the version and architecture of the place.
pub download_hash-Changed :
    (env : Env) (versions : List String) (data' d : Tables)
    → env.open_main_yaml ≡ ok data'
    → download_hash env versions ≡ ok d
    → Changed (sum_for env) (is_asked versions) data' d
unfolding download_hash
download_hash-Changed env versions data' d e f n b w =
    let changed =
      (add_all-Changed env versions data').at d
        (ap (λ m. m >>= λ d'. fold_result (add_archs env versions) d' downloads) (sym e) ∙ f) in
    changed n b w
    ∙ ap (λ p. if p then sum_for env n b w else sum_in data' n b w) (is_asked-eq versions n b w)
