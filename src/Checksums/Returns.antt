-- ===== src/Checksums/Returns.antt =====
-- scripts/download_hash.py: when a run writes the file.
use text.Mathlib.TextPositions.{eq_refl}
use vagrant_portainer.Base.{
  String, ◌≡◌, refl, sym, ap, ◌∙◌, Bool, true, false, ◌&&◌, Option, none, some, List, [], ◌∷◌,
  arith, ◌==◌, eq_iff, Bool-cases, inl, inr,
}
use vagrant_portainer.Base.Result.{Result, ok, raise, ◌>>=◌, fold_result, is_ok}
use vagrant_portainer.Base.Lists.{elem}
use vagrant_portainer.Base.Dict.{Dict, lookup, put, lookup-put, has_key, is_some}
use vagrant_portainer.Checksums.{
  Table, Tables, Env, architectures, downloads, checksum_name, with_v, url, or_key_error, set_sum,
  add_sum, add_versions, add_archs, download_hash, written, run_of, main,
}

-- The call returns, with a value that has the property.
abbrev Returns {ℓ κ} : {A : Type ℓ} → (A → Type κ) → Result A → Type (ℓ ⊔ κ)
Returns {A = A} P m = (a : A) × (m ≡ ok a) × P a

module _ {ℓ κ} {S : Type ℓ} (P : S → Type κ) where
  bind-Returns {μ} :
      {A : Type μ} (m : Result A) (f : A → Result S) (a : A)
      → m ≡ ok a
      → Returns P (f a)
      → Returns P (m >>= f)
  bind-Returns m f a e (s, g, p) = (s, ap (λ m. m >>= f) e ∙ g, p)

  -- A loop returns if each round does.
  fold-Returns :
      (step : S → String → Result S) (l : List String)
      → ((x : String) → elem x l ≡ true → (s : S) → P s → Returns P (step s x))
      → (s : S) → P s
      → Returns P (fold_result step s l)
  unfolding fold_result
  fold-Returns step [] one s p = (s, refl, p)
  fold-Returns step (x ∷ l) one s p =
      let (s', e, p') = one x (ground (arith, eq_refl x)) s p in
      bind-Returns (step s x) _ s' e (fold-Returns step l (λ y h. one y (ground arith)) s' p')

abbrev pub has_arch : Option Table → String → Bool
has_arch none a = false
has_arch (some table) a = has_key a table

-- The file has the place for the versions.
abbrev pub has_place : Tables → String → String → Bool
has_place d n a = has_arch (lookup n d) a

abbrev all_of : (String → Bool) → List String → Bool
all_of p [] = true
all_of p (x ∷ l) = p x && all_of p l

all_of-elem :
    (p : String → Bool) (l : List String) (x : String)
    → all_of p l ≡ true
    → elem x l ≡ true
    → p x ≡ true
all_of-elem p [] x h k = absurd cc
all_of-elem p (y ∷ l) x h k = elim (Bool-cases (x == y)) [
  | inl same ↦ rw ((eq_iff x y).0 same) (ground arith)
  | inr other ↦ all_of-elem p l x (ground arith) (ground arith)
]

abbrev has_table : Tables → String → Bool
has_table d download = all_of (has_place d (checksum_name download)) architectures

abbrev is_fetched : Env → String → String → String → Bool
is_fetched env download a v = is_ok (env.fetch (url (with_v v) a download))

abbrev are_fetched : Env → List String → String → String → Bool
are_fetched env versions download a = all_of (is_fetched env download a) versions

abbrev all_fetched : Env → List String → String → Bool
all_fetched env versions download = all_of (are_fetched env versions download) architectures

-- The file has a table for each binary, with each architecture.
abbrev pub is_complete : Tables → Bool
is_complete d = all_of (has_table d) downloads

-- Each binary can be fetched for these versions.
abbrev pub can_fetch : Env → List String → Bool
can_fetch env versions = all_of (all_fetched env versions) downloads

abbrev IsComplete : Tables → Type 0
IsComplete d =
    (download a : String)
    → elem download downloads ≡ true
    → elem a architectures ≡ true
    → has_place d (checksum_name download) a ≡ true

abbrev CanFetch : Env → List String → Type 0
CanFetch env versions =
    (download a v : String)
    → elem download downloads ≡ true
    → elem a architectures ≡ true
    → elem v versions ≡ true
    → is_ok (env.fetch (url (with_v v) a download)) ≡ true

has_key-put_there :
    (a b : String) (new : Dict String) (table : Table)
    → has_key a table ≡ true
    → has_key b (put a new table) ≡ has_key b table
has_key-put_there a b new table f = elim (Bool-cases (a == b)) [
  | inl same ↦
      let g : has_key b table ≡ true = ap (λ k. has_key k table) (sym ((eq_iff a b).0 same)) ∙ f in
      rw (lookup-put, same) (sym g)
  | inr other ↦ rw (lookup-put, other) refl
]

has_place-put :
    (name a : String) (new : Dict String) (d : Tables) (table : Table) (n b : String)
    → lookup name d ≡ some table
    → has_key a table ≡ true
    → has_place (put name (put a new table) d) n b ≡ has_place d n b
has_place-put name a new d table n b e f = elim (Bool-cases (name == n)) [
  | inl same ↦
      let e' : lookup n d ≡ some table = ap (λ k. lookup k d) (sym ((eq_iff name n).0 same)) ∙ e in
      rw (lookup-put, same, e') (has_key-put_there a b new table f)
  | inr other ↦ rw (lookup-put, other) refl
]

has_arch-true :
    (o : Option Table) (a : String)
    → has_arch o a ≡ true
    → (table : Table) × (o ≡ some table) × (has_key a table ≡ true)
has_arch-true none a h = absurd cc
has_arch-true (some table) a h = (table, refl, h)

is_some-true {ℓ} : {A : Type ℓ} (o : Option A) → is_some o ≡ true → (a : A) × (o ≡ some a)
is_some-true none h = absurd cc
is_some-true (some a) h = (a, refl)

is_ok-true {ℓ} : {A : Type ℓ} (m : Result A) → is_ok m ≡ true → (a : A) × (m ≡ ok a)
is_ok-true (ok a) h = (a, refl)
is_ok-true (raise e) h = absurd cc

set_sum-Returns :
    (download a v x : String) (d : Tables)
    → elem download downloads ≡ true
    → elem a architectures ≡ true
    → IsComplete d
    → Returns IsComplete (set_sum (checksum_name download) a v x d)
unfolding set_sum
set_sum-Returns download a v x d h k c =
    let name = checksum_name download in
    let (table, e, f) = has_arch-true (lookup name d) a (c download a h k) in
    let (versions, g) = is_some-true (lookup a table) f in
    let new = put v x versions in
    bind-Returns IsComplete (or_key_error (lookup name d)) _ table (ap or_key_error e) (
      bind-Returns IsComplete (or_key_error (lookup a table)) _ versions (ap or_key_error g) (
        put name (put a new table) d,
        refl,
        λ other b i j. has_place-put name a new d table (checksum_name other) b e f ∙ c other b i j,
      ))

IsComplete-is_complete : (d : Tables) → is_complete d ≡ true → IsComplete d
IsComplete-is_complete d c download a h k =
    all_of-elem (has_place d (checksum_name download)) architectures a
      (all_of-elem (has_table d) downloads download c h) k

CanFetch-can_fetch :
    (env : Env) (versions : List String) → can_fetch env versions ≡ true → CanFetch env versions
CanFetch-can_fetch env versions c download a v h k m =
    all_of-elem (is_fetched env download a) versions v
      (all_of-elem (are_fetched env versions download) architectures a
        (all_of-elem (all_fetched env versions) downloads download c h) k)
      m

module _ (env : Env) (versions : List String) (fetched : CanFetch env versions) where
  add_sum-Returns :
      (download a v : String) (d : Tables)
      → elem download downloads ≡ true
      → elem a architectures ≡ true
      → elem v versions ≡ true
      → IsComplete d
      → Returns IsComplete (add_sum env download a d v)
  unfolding add_sum
  add_sum-Returns download a v d h k m c =
      let (content, e) = is_ok-true _ (fetched download a v h k m) in
      bind-Returns IsComplete (env.fetch (url (with_v v) a download)) _ content e
        (set_sum-Returns download a (with_v v) (env.sha256 content) d h k c)

  add_all-Returns :
      (d : Tables)
      → IsComplete d
      → Returns IsComplete (fold_result (add_archs env versions) d downloads)
  unfolding add_archs add_versions
  add_all-Returns d c =
      fold-Returns IsComplete (add_archs env versions) downloads
        (λ download h d c.
          fold-Returns IsComplete (add_versions env download versions) architectures
            (λ a k d c.
              fold-Returns IsComplete (add_sum env download a) versions
                (λ v m d c. add_sum-Returns download a v d h k m c) d c)
            d c)
        d c

-- Where the file has the table of each binary with the four architectures, and each binary can be
-- fetched for the versions given, which are not none, the program writes the file.
pub main-IsWritten :
    (env : Env) (version : String) (more sys_argv : List String) (data' : Tables)
    → env.open_main_yaml ≡ ok data'
    → is_complete data' ≡ true
    → can_fetch env (version ∷ more) ≡ true
    → (d : Tables) × (main env (version ∷ more) sys_argv ≡ written d)
      × (download_hash env (version ∷ more) ≡ ok d)
unfolding main download_hash
main-IsWritten env version more sys_argv data' e c fetched =
    let versions = version ∷ more in
    let (d, f, c') =
      add_all-Returns env versions (CanFetch-can_fetch env versions fetched) data'
        (IsComplete-is_complete data' c) in
    let g = ap (λ m. m >>= λ d'. fold_result (add_archs env versions) d' downloads) e ∙ f in
    (d, ap run_of g, g)
