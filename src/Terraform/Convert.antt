-- ===== src/Terraform/Convert.antt =====
-- contrib/terraform/terraform.py: `convert_to_v3_structure`. The numbers of `random.randint` are a
-- function of how many were drawn before.
pub mod Total
use vagrant_portainer.Base.{ℕ, ◌+◌, String, [], ◌∷◌, ◌==◌}
use vagrant_portainer.Base.Result.{Result, ok, raise, attribute_error, ◌>>=◌}
use vagrant_portainer.Base.Dict.{Dict, put}
use vagrant_portainer.Base.Text.{◌⧺◌}
use vagrant_portainer.Base.Text.Decimal.{show}
use vagrant_portainer.Terraform.Json.{
  Value, null, bool, num, str, arr, obj, Items, nil, cons, Fields, end, field, count_items,
  count_fields,
}

-- `d.update(e)`
unfoldable pub update : Dict Value → Dict Value → Dict Value
update d [] = d
update d ((k, v) ∷ e) = update (put k v d) e

-- The entry for the length of a list, which an empty list does not have.
abbrev pub put_count : String → Items → Dict Value → Dict Value
put_count path nil result = result
put_count path (cons v vs) result = put (path ⧺ ".#") (num (count_items (cons v vs))) result

-- `result[...] = v` for the items of a dictionary, whose values are not converted
unfoldable pub put_fields : String → Fields → Dict Value → Dict Value
put_fields path end result = result
put_fields path (field k v fs) result = put_fields path fs (put (path ⧺ "." ⧺ k) v result)

-- The result so far, and how many random numbers were drawn.
abbrev pub Converted : Type 0
Converted = Dict Value × ℕ

module _ (randint : ℕ → ℕ) where
  unfoldable mutual
    pub convert : Value → String → ℕ → Result Converted
    convert (str s) prefix drawn = ok ((prefix ⧺ show (randint drawn), str s) ∷ [], drawn + 1)
    convert (obj fs) prefix drawn = convert_fields fs prefix ([], drawn)
    convert null prefix drawn = raise attribute_error
    convert (bool b) prefix drawn = raise attribute_error
    convert (num n) prefix drawn = raise attribute_error
    convert (arr vs) prefix drawn = raise attribute_error

    -- The loop over the items of a dictionary.
    pub convert_fields : Fields → String → Converted → Result Converted
    convert_fields end prefix r = ok r
    convert_fields (field key (arr vs) fs) prefix (result, drawn) =
        convert_items vs (prefix ⧺ key) 0 (put_count (prefix ⧺ key) vs result, drawn) >>= λ r.
        convert_fields fs prefix r
    convert_fields (field key (obj gs) fs) prefix (result, drawn) = convert_fields fs prefix (
      put_fields (prefix ⧺ key) gs (put (prefix ⧺ key ⧺ ".%") (num (count_fields gs)) result),
      drawn,
    )
    convert_fields (field key (str s) fs) prefix (result, drawn) =
        convert_fields fs prefix (put (prefix ⧺ key) (str s) result, drawn)
    convert_fields (field key (num n) fs) prefix (result, drawn) =
        convert_fields fs prefix (put (prefix ⧺ key) (num n) result, drawn)
    convert_fields (field key (bool b) fs) prefix (result, drawn) =
        convert_fields fs prefix (put (prefix ⧺ key) (bool b) result, drawn)
    convert_fields (field key null fs) prefix (result, drawn) =
        convert_fields fs prefix (put (prefix ⧺ key) null result, drawn)

    -- The loop over `enumerate(value)`.
    pub convert_items : Items → String → ℕ → Converted → Result Converted
    convert_items nil path i r = ok r
    convert_items (cons v vs) path i (result, drawn) =
        convert v (path ⧺ "." ⧺ show i ⧺ ".") drawn >>= λ (d, drawn').
        convert_items vs path (i + 1) (update result d, drawn')

  -- `convert_to_v3_structure(attributes)`
  unfoldable pub convert_to_v3_structure : Value → ℕ → Result Converted
  convert_to_v3_structure attributes drawn = convert attributes "" drawn
