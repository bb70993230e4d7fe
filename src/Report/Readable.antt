-- ===== src/Report/Readable.antt =====
-- tests/scripts/md-table/main.py: when the files can be loaded.
use mathlib.Core.Path.{subst}
use vagrant_portainer.Base.{
  ◌≡◌, refl, sym, ap, Bool, true, false, ◌&&◌, Option-cases, List, [], ◌∷◌, inl, inr,
}
use vagrant_portainer.Base.Result.{Result, ok, raise, attribute_error, ◌>>=◌, fold_result}
use vagrant_portainer.Base.Dict.{is_some}
use vagrant_portainer.Report.{Pydblite, File, row_of, system_of, set, add_file, load}

-- The file has a mapping, and its name has the form for an operating system.
abbrev pub is_readable : File → Bool
is_readable f = is_some f.variables && is_some (system_of f.name)

abbrev pub all_readable : List File → Bool
all_readable [] = true
all_readable (f ∷ files) = is_readable f && all_readable files

-- The call returns where the test holds, and else raises AttributeError.
abbrev pub OrError {ℓ} : {A : Type ℓ} → Bool → Result A → Type ℓ
OrError {A = A} true m = (a : A) × (m ≡ ok a)
OrError false m = m ≡ raise attribute_error

row_of-Decides : (f : File) → OrError (is_readable f) (row_of f)
unfolding row_of
row_of-Decides f = elim (Option-cases f.variables) [
  | inl e ↦ rw e refl
  | inr (y, e) ↦ elim (Option-cases (system_of f.name)) [
    | inl e' ↦ rw (e, e') refl
    | inr (s, e') ↦ rw (e, e') (_, refl)
  ]
]

-- The first statement decides, and then the second.
bind-OrError {ℓ κ} :
    {A : Type ℓ} {B : Type κ} (p q : Bool) (m : Result A) (f : A → Result B)
    → OrError p m
    → ((a : A) → OrError q (f a))
    → OrError (p && q) (m >>= f)
bind-OrError true q m f (a, e) g = subst (λ m. OrError q (m >>= f)) (sym e) (g a)
bind-OrError false q m f e g = ap (λ m. m >>= f) e

then-OrError {ℓ κ} :
    {A : Type ℓ} {B : Type κ} (p : Bool) (m : Result A) (f : A → B)
    → OrError p m
    → OrError p (m >>= λ a. ok (f a))
then-OrError true m f (a, e) = (f a, ap (λ m. m >>= λ a. ok (f a)) e)
then-OrError false m f e = ap (λ m. m >>= λ a. ok (f a)) e

fold-Decides :
    (b : Pydblite) (files : List File) (d : b.Db)
    → OrError (all_readable files) (fold_result (add_file b) d files)
unfolding fold_result
fold-Decides b [] d = (d, refl)
fold-Decides b (f ∷ files) d =
    bind-OrError (is_readable f) (all_readable files) (add_file b d f) _
      (then-OrError (is_readable f) (row_of f) (set b d) (row_of-Decides f)) (fold-Decides b files)

-- The files are loaded exactly if each has a mapping and a name that the pattern matches; else
-- AttributeError is raised.
pub load-Decides : (b : Pydblite) (files : List File) → OrError (all_readable files) (load b files)
unfolding load
load-Decides b files = fold-Decides b files b.create
