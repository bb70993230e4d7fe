-- ===== src/Terraform/Fields.antt =====
-- contrib/terraform/terraform.py: what the hosts read of attributes: texts, addresses, volumes,
-- groups.
use Prim.Native.Char.{code}
use vagrant_portainer.Base.{
  ℕ, ◌+◌, String, Bool, true, false, not, ◌&&◌, ◌||◌, none, some, List, [], ◌∷◌, eqb, ltb, ◌==◌,
  if◌then◌else◌,
}
use vagrant_portainer.Base.Result.{
  Result, ok, raise, key_error, value_error, type_error, attribute_error, ◌>>=◌,
}
use vagrant_portainer.Base.Dict.{Dict, lookup, has_key, put}
use vagrant_portainer.Base.Text.{◌⧺◌, rest_of, split, strip, starts_with, all_digits}
use vagrant_portainer.Base.Text.Decimal.{show, value}
use vagrant_portainer.Terraform.Json.{
  Value, null, bool, num, str, obj, Items, nil, cons, item, at, fields_of, dict_of_fields,
}
use vagrant_portainer.Terraform.Convert.{update}

abbrev pub show_bool : Bool → String
show_bool true = "True"
show_bool false = "False"

-- `str(value)`, where `repr` gives the text of a list or a dictionary
abbrev pub text_of : (Value → String) → Value → String
text_of repr (str s) = s
text_of repr (num n) = show n
text_of repr (bool b) = show_bool b
text_of repr null = "None"
text_of repr v = repr v

-- A value that has to be a text.
abbrev pub as_text : Value → Result String
as_text (str s) = ok s
as_text _ = raise type_error

unfoldable pub as_texts : List Value → Result (List String)
as_texts [] = ok []
as_texts (v ∷ vs) = do s ← as_text v; rest ← as_texts vs; ok (s ∷ rest)

abbrev pub as_dict : Value → Result (Dict Value)
as_dict (obj fs) = ok (dict_of_fields fs)
as_dict _ = raise type_error

-- `resource['primary']['attributes']`, which is read by keys
abbrev pub raw_attributes : Value → Result (Dict Value)
raw_attributes resource = do
  primary ← at "primary" resource
  attributes ← at "attributes" primary
  as_dict attributes

abbrev pub get : String → Value → Dict Value → Value
get k default d = elim (lookup k d) [ none ↦ default | some v ↦ v ]

-- `value == text`
abbrev pub is_text : Value → String → Bool
is_text (str s) t = s == t
is_text _ t = false

-- The user of a device with this system.
abbrev pub ssh_user : Value → Dict Value → Dict Value
ssh_user system attrs =
    if is_text system "flatcar_stable" then put "ansible_ssh_user" (str "core") attrs else attrs

-- `re.sub("[\[\]]", "", text)`
unfoldable pub without_brackets : String → String
without_brackets String.[] = String.[]
without_brackets (String.◌∷◌ c s) =
    let rest = without_brackets s in
    if eqb (code c) b'[' || eqb (code c) b']' then rest else String.◌∷◌ c rest

-- The address that Ansible connects to.
abbrev pub address_of : Dict Value → Result Value
address_of raw_attrs =
    if is_text (get "metadata.prefer_ipv6" null raw_attrs) "1"
    then (do
      v6 ← item "access_ip_v6" raw_attrs
      text ← as_text v6
      ok (str (without_brackets text)))
    else item "access_ip_v4" raw_attrs

abbrev pub with_address : Value → Bool → Dict Value → Dict Value
with_address address routable attrs =
    update attrs (("ansible_host", address) ∷ ("publicly_routable", bool routable) ∷ [])

-- The `try` around it, with its handler for KeyError and ValueError.
abbrev pub try_address : Result Value → Dict Value → Result (Dict Value)
try_address (ok address) attrs = ok (with_address address true attrs)
try_address (raise key_error) attrs = ok (with_address (str "") false attrs)
try_address (raise value_error) attrs = ok (with_address (str "") false attrs)
try_address (raise e) attrs = raise e

-- A text without its sign, and whether the sign is "-".
abbrev pub unsigned : String → Bool × String
unsigned String.[] = (false, "")
unsigned (String.◌∷◌ c s) =
    if eqb (code c) b'-'
    then (true, s)
    else if eqb (code c) b'+'
    then (false, s)
    else (false, String.◌∷◌ c s)

-- `int(value) > 0`; a text of digits has no underscores
abbrev pub is_positive : Value → Result Bool
is_positive (num n) = ok (ltb 0 n)
is_positive (bool b) = ok b
is_positive (str s) =
    let (negative, digits) = unsigned (strip s) in
    if all_digits digits && not (digits == "")
    then ok (not negative && ltb 0 (value 0 digits))
    else raise value_error
is_positive _ = raise type_error

-- `text` ends with `suffix`.
unfoldable pub ends_with : String → String → Bool
ends_with String.[] suffix = String.[] == suffix
ends_with (String.◌∷◌ c s) suffix =
    let later = ends_with s suffix in String.◌∷◌ c s == suffix || later

-- What follows the prefix "volume".
abbrev pub after_volume : String → String
after_volume key = rest_of (rest_of (rest_of (rest_of (rest_of (rest_of key)))))

-- `re.search("^volume.*.device$", key)`, for keys of one line
abbrev pub is_device : String → Bool
is_device key =
    starts_with key "volume"
    && not (after_volume key == "")
    && ends_with (rest_of (after_volume key)) "device"

-- The loop over the items for the devices of the volumes.
unfoldable pub add_devices : List (String × Value) → ℕ → Dict Value → Dict Value
add_devices [] device_index attrs = attrs
add_devices ((key, v) ∷ items) device_index attrs =
    add_devices items (if is_device key then device_index + 1 else device_index)
      (if is_device key then put ("disk_volume_device_" ⧺ show device_index) v attrs else attrs)

abbrev pub has_volumes : Dict Value → Result Bool
has_volumes raw_attrs = elim (lookup "volume.#" raw_attrs) [
  | none ↦ ok false
  | some v ↦ is_positive v
]

-- `'os_metadata_%s=%s' % item` for every item
unfoldable pub metadata_groups : (Value → String) → Dict Value → List String
metadata_groups repr [] = []
metadata_groups repr ((k, v) ∷ d) =
    ("os_metadata_" ⧺ k ⧺ "=" ⧺ text_of repr v) ∷ metadata_groups repr d

-- `value.split(",")`
abbrev pub split_text : Value → Result (List String)
split_text (str s) = ok (split b',' s)
split_text _ = raise attribute_error

-- `attrs[k] = raw_attrs[from]` where the raw attributes have `from`
abbrev pub copy_if : String → String → Dict Value → Dict Value → Dict Value
copy_if from k raw_attrs attrs = elim (lookup from raw_attrs) [
  | none ↦ attrs
  | some v ↦ put k v attrs
]

-- The private address of a host with a floating one.
abbrev pub private_address : Dict Value → Value → Dict Value → Dict Value
private_address raw_attrs fixed_ip attrs =
    if has_key "floating_ip" raw_attrs then put "private_ipv4" fixed_ip attrs else attrs

-- A list of dictionaries.
abbrev pub dicts_of : List (Dict Value) → Items
dicts_of [] = nil
dicts_of (d ∷ ds) = cons (obj (fields_of d)) (dicts_of ds)
