-- ===== src/Terraform/Convert/Total.antt =====
-- contrib/terraform/terraform.py: which attributes `convert_to_v3_structure` converts.
use vagrant_portainer.Base.{ℕ, String, ◌≡◌, refl, Bool, true, false, ◌&&◌, [], ◌+◌}
use vagrant_portainer.Base.Result.{Result, ok, raise, attribute_error, ◌>>=◌}
use vagrant_portainer.Terraform.Json.{
  Value, null, bool, num, str, arr, obj, Items, nil, cons, Fields, end, field,
}
use vagrant_portainer.Terraform.Convert.{
  Converted, convert, convert_fields, convert_items, convert_to_v3_structure,
}

-- A text, or a dictionary in which the lists, down to any depth of lists of dictionaries, hold
-- texts and dictionaries only.
unfoldable mutual
  pub is_convertible : Value → Bool
  is_convertible (str s) = true
  is_convertible (obj fs) = all_convertible fs
  is_convertible null = false
  is_convertible (bool b) = false
  is_convertible (num n) = false
  is_convertible (arr vs) = false

  pub all_convertible : Fields → Bool
  all_convertible end = true
  all_convertible (field key (arr vs) fs) = items_convertible vs && all_convertible fs
  all_convertible (field key (obj gs) fs) = all_convertible fs
  all_convertible (field key (str s) fs) = all_convertible fs
  all_convertible (field key (num n) fs) = all_convertible fs
  all_convertible (field key (bool b) fs) = all_convertible fs
  all_convertible (field key null fs) = all_convertible fs

  pub items_convertible : Items → Bool
  items_convertible nil = true
  items_convertible (cons v vs) = is_convertible v && items_convertible vs

-- The call returns, or else raises AttributeError.
abbrev pub Decides {ℓ} : {A : Type ℓ} → Bool → Result A → Type ℓ
Decides {A} true m = (a : A) × (m ≡ ok a)
Decides false m = m ≡ raise attribute_error

Decides-bind {ℓ κ} :
    {A : Type ℓ} {B : Type κ} (a b : Bool) (m : Result A) (f : A → Result B)
    → Decides a m
    → ((x : A) → Decides b (f x))
    → Decides (a && b) (m >>= f)
Decides-bind true b m f (x, e) h = rw e (h x)
Decides-bind false b m f e h = rw e refl

module _ (randint : ℕ → ℕ) where
  mutual
    unfolding convert is_convertible

    convert-Decides :
        (v : Value) (prefix : String) (drawn : ℕ)
        → Decides (is_convertible v) (convert randint v prefix drawn)
    convert-Decides (str s) prefix drawn = (_, refl)
    convert-Decides (obj fs) prefix drawn = convert_fields-Decides fs prefix ([], drawn)
    convert-Decides null prefix drawn = refl
    convert-Decides (bool b) prefix drawn = refl
    convert-Decides (num n) prefix drawn = refl
    convert-Decides (arr vs) prefix drawn = refl

    convert_fields-Decides :
        (fs : Fields) (prefix : String) (r : Converted)
        → Decides (all_convertible fs) (convert_fields randint fs prefix r)
    convert_fields-Decides end prefix r = (r, refl)
    convert_fields-Decides (field key (arr vs) fs) prefix (result, drawn) =
        Decides-bind (items_convertible vs) (all_convertible fs) _ _
          (convert_items-Decides vs _ 0 _) (λ r. convert_fields-Decides fs prefix r)
    convert_fields-Decides (field key (obj gs) fs) prefix (result, drawn) =
        convert_fields-Decides fs prefix _
    convert_fields-Decides (field key (str s) fs) prefix (result, drawn) =
        convert_fields-Decides fs prefix _
    convert_fields-Decides (field key (num n) fs) prefix (result, drawn) =
        convert_fields-Decides fs prefix _
    convert_fields-Decides (field key (bool b) fs) prefix (result, drawn) =
        convert_fields-Decides fs prefix _
    convert_fields-Decides (field key null fs) prefix (result, drawn) =
        convert_fields-Decides fs prefix _

    convert_items-Decides :
        (vs : Items) (path : String) (i : ℕ) (r : Converted)
        → Decides (items_convertible vs) (convert_items randint vs path i r)
    convert_items-Decides nil path i r = (r, refl)
    convert_items-Decides (cons v vs) path i (result, drawn) =
        Decides-bind (is_convertible v) (items_convertible vs) _ _ (convert-Decides v _ drawn)
          (λ (d, drawn'). convert_items-Decides vs path (i + 1) _)

-- `convert_to_v3_structure` returns for a text and for a dictionary in which every list holds only
-- texts and dictionaries of this kind, and for nothing else: for other attributes, such as a list
-- that holds a number, a truth value, a null or a list, it raises AttributeError.
pub convert_to_v3_structure-Decides :
    (randint : ℕ → ℕ) (attributes : Value) (drawn : ℕ)
    → Decides (is_convertible attributes) (convert_to_v3_structure randint attributes drawn)
unfolding convert_to_v3_structure
convert_to_v3_structure-Decides randint attributes drawn =
    convert-Decides randint attributes "" drawn
