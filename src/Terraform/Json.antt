-- ===== src/Terraform/Json.antt =====
-- The documents that contrib/terraform/terraform.py reads: what `json.load` gives, with numbers
-- that are natural, and the subscripts of Python on such values.
use vagrant_portainer.Base.{ℕ, suc, String, Bool, Option, none, some, List, [], ◌∷◌}
use vagrant_portainer.Base.Result.{
  Result, ok, raise, key_error, type_error, index_error, attribute_error,
}
use vagrant_portainer.Base.Dict.{Dict, lookup}

mutual
  -- The items of a dictionary, in order.
  pub data Fields : Type 0 where
    field : String → Value → Fields → Fields
    end : Fields

  -- The elements of a list.
  pub data Items : Type 0 where
    cons : Value → Items → Items
    nil : Items

  pub data Value : Type 0 where
    str : String → Value
    obj : Fields → Value
    arr : Items → Value
    bool : Bool → Value
    num : ℕ → Value
    null : Value

-- `len` of a list and of a dictionary
abbrev pub count_items : Items → ℕ
count_items nil = 0
count_items (cons v vs) = suc (count_items vs)

abbrev pub count_fields : Fields → ℕ
count_fields end = 0
count_fields (field k v fs) = suc (count_fields fs)

-- A dictionary of values, and a list of them, in both forms.
abbrev pub dict_of_fields : Fields → Dict Value
dict_of_fields end = []
dict_of_fields (field k v fs) = (k, v) ∷ dict_of_fields fs

abbrev pub fields_of : Dict Value → Fields
fields_of [] = end
fields_of ((k, v) ∷ d) = field k v (fields_of d)

abbrev pub list_of_items : Items → List Value
list_of_items nil = []
list_of_items (cons v vs) = v ∷ list_of_items vs

abbrev pub items_of : List Value → Items
items_of [] = nil
items_of (v ∷ vs) = cons v (items_of vs)

abbrev pub or_key_error : Option Value → Result Value
or_key_error none = raise key_error
or_key_error (some v) = ok v

-- `d[key]` of a dictionary
abbrev pub item : String → Dict Value → Result Value
item k d = or_key_error (lookup k d)

-- `value[key]` with a text
abbrev pub at : String → Value → Result Value
at k (obj fs) = item k (dict_of_fields fs)
at k _ = raise type_error

-- `value.items()`, `value.get(...)`
abbrev pub items_in : Value → Result (Dict Value)
items_in (obj fs) = ok (dict_of_fields fs)
items_in _ = raise attribute_error

abbrev pub key_values : Fields → List Value
key_values end = []
key_values (field k v fs) = str k ∷ key_values fs

unfoldable pub characters : String → List Value
characters String.[] = []
characters (String.◌∷◌ c s) = str (String.◌∷◌ c String.[]) ∷ characters s

-- What a `for` loop over a value goes through: of a dictionary the keys, of a text the characters.
abbrev pub each : Value → Result (List Value)
each (arr vs) = ok (list_of_items vs)
each (obj fs) = ok (key_values fs)
each (str s) = ok (characters s)
each _ = raise type_error

unfoldable pub last : List Value → Result Value
last [] = raise index_error
last (v ∷ []) = ok v
last (v ∷ w ∷ vs) = last (w ∷ vs)

-- `value[-1]` of a list or a text
abbrev pub last_of : Value → Result Value
last_of (arr vs) = last (list_of_items vs)
last_of (str s) = last (characters s)
last_of (obj fs) = raise key_error
last_of _ = raise type_error
