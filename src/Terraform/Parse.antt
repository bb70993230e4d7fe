-- ===== src/Terraform/Parse.antt =====
-- contrib/terraform/terraform.py: reading the flat attributes of a state, whose keys are paths of
-- names with a separator.
use Prim.Native.Char.{Char, code}
use vagrant_portainer.Base.{
  ℕ, String, Bool, true, false, ◌||◌, Option, none, some, List, [], ◌∷◌, not, eqb, ◌==◌,
  if◌then◌else◌,
}
use vagrant_portainer.Base.Result.{
  Result, ok, raise, value_error, index_error, attribute_error, ◌>>=◌, fold_result,
}
use vagrant_portainer.Base.Dict.{Dict, put, lookup}
use vagrant_portainer.Base.Text.{first}
use vagrant_portainer.Terraform.Json.{Value, bool, str}

abbrev pub cons_first : Char → Option (String × String) → Option (String × String)
cons_first c none = none
cons_first c (some (a, b)) = some (String.◌∷◌ c a, b)

-- `text.split(sep, 1)` where it has two parts, for a separator of one character
unfoldable pub split_once : ℕ → String → Option (String × String)
split_once k String.[] = none
split_once k (String.◌∷◌ c s) =
    let later = cons_first c (split_once k s) in
    if eqb (code c) k then some (String.[], s) else later

unfoldable pub values_of {ℓ} : {V : Type ℓ} → List (String × V) → List V
values_of [] = []
values_of ((_, v) ∷ items) = v ∷ values_of items

module _ {ℓ} {V : Type ℓ} where
  -- `defaultdict(dict)[k]`
  abbrev pub or_empty : Option (Dict V) → Dict V
  or_empty none = []
  or_empty (some d) = d

  -- What one item of the source gives: nothing without a separator, under another prefix, and for
  -- the count of a list.
  abbrev pub under : String → V → Option (String × String) → List (String × V) → List (String × V)
  under prefix value none later = later
  under prefix value (some (curprefix, rest)) later =
      if not (curprefix == prefix) || rest == "#" then later else (rest, value) ∷ later

  -- `_parse_prefix`, where the separator is given by its code
  unfoldable pub parse_prefix : Dict V → String → ℕ → List (String × V)
  parse_prefix [] prefix sep = []
  parse_prefix ((compkey, value) ∷ source) prefix sep =
      under prefix value (split_once sep compkey) (parse_prefix source prefix sep)

  -- `dict(items)`
  unfoldable pub dict_of : Dict V → List (String × V) → Dict V
  dict_of d [] = d
  dict_of d ((k, v) ∷ items) = dict_of (put k v d) items

  unfoldable pub parse_dict : Dict V → String → ℕ → Dict V
  parse_dict source prefix sep = dict_of [] (parse_prefix source prefix sep)

  unfoldable pub parse_list : Dict V → String → ℕ → List V
  parse_list source prefix sep = values_of (parse_prefix source prefix sep)

  -- `attrs[idx][key] = value`, where a missing `idx` gives an empty dictionary
  abbrev pub set_at : String → String → V → Dict (Dict V) → Dict (Dict V)
  set_at idx key value attrs = put idx (put key value (or_empty (lookup idx attrs))) attrs

  abbrev pub attr_of : V → Option (String × String) → Dict (Dict V) → Result (Dict (Dict V))
  attr_of value none attrs = raise value_error
  attr_of value (some (idx, key)) attrs = ok (set_at idx key value attrs)

  -- One round of the loop of `parse_attr_list`.
  abbrev pub attr_round : ℕ → Dict (Dict V) → String × V → Result (Dict (Dict V))
  attr_round sep attrs (compkey, value) = attr_of value (split_once sep compkey) attrs

  unfoldable pub parse_attr_list : Dict V → String → ℕ → Result (List (Dict V))
  parse_attr_list source prefix sep = do
    attrs ← fold_result (attr_round sep) [] (parse_prefix source prefix sep)
    ok (values_of attrs)

-- `string_form.lower()[0]` against a letter, by the codes of both cases
abbrev pub is_letter : ℕ → ℕ → Char → Bool
is_letter lower upper c = eqb (code c) lower || eqb (code c) upper

abbrev pub bool_of : Option Char → Result Bool
bool_of none = raise index_error
bool_of (some c) =
    if is_letter b't' b'T' c
    then ok true
    else if is_letter b'f' b'F' c
    then ok false
    else raise value_error

unfoldable pub parse_bool : Value → Result Bool
parse_bool (bool b) = ok b
parse_bool (str s) = bool_of (first s)
parse_bool _ = raise attribute_error
