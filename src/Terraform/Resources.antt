-- ===== src/Terraform/Resources.antt =====
-- contrib/terraform/terraform.py: the resources of the state files. An instance and its attributes
-- are dictionaries.
use Prim.Native.Char.{code}
use vagrant_portainer.Base.{
  ℕ, String, Bool, false, not, ◌&&◌, ◌||◌, none, some, List, [], ◌∷◌, ◌++◌, eqb, ◌==◌,
  if◌then◌else◌,
}
use vagrant_portainer.Base.Result.{Result, ok, raise, key_error, type_error, attribute_error, ◌>>=◌}
use vagrant_portainer.Base.Dict.{Dict, lookup}
use vagrant_portainer.Base.Text.{◌⧺◌, split}
use vagrant_portainer.Terraform.Json.{
  Value, bool, num, str, arr, obj, nil, Fields, end, field, item, at, items_in, each, last_of,
  fields_of,
}
use vagrant_portainer.Terraform.Convert.{convert_to_v3_structure}
use vagrant_portainer.Terraform.Fields.{text_of, as_dict, get, ends_with}

-- What the program takes from outside: `os.getcwd`, `os.walk`, opening and reading a file, `random.randint`, the
-- texts of lists and dictionaries, and the order in which a set is gone through.
pub record Env : Type 0 where
  pub getcwd : String
  pub walk : String → List (String × List String)
  pub read_json : String → Result Value
  pub randint : ℕ → ℕ
  pub repr : Value → String
  pub set_order : List String → List String

-- `os.path.splitext(name)[-1] == '.tfstate'`, from a place in the name: `named` says that a
-- character before it is no dot.
unfoldable pub state_suffix : Bool → String → Bool
state_suffix named String.[] = false
state_suffix named (String.◌∷◌ c s) =
    let later = state_suffix (named || not (eqb (code c) b'.')) s in
    (named && String.◌∷◌ c s == ".tfstate") || later

-- `os.path.join(dirpath, name)`
abbrev pub join_path : String → String → String
join_path dirpath name =
    if dirpath == "" || ends_with dirpath "/" then dirpath ⧺ name else dirpath ⧺ "/" ⧺ name

unfoldable pub states_in : String → List String → List String
states_in dirpath [] = []
states_in dirpath (name ∷ filenames) =
    let rest = states_in dirpath filenames in
    if state_suffix false name then join_path dirpath name ∷ rest else rest

unfoldable pub states_of : List (String × List String) → List String
states_of [] = []
states_of ((dirpath, filenames) ∷ rest) = states_in dirpath filenames ++ states_of rest

unfoldable pub tfstates : Env → String → List String
unfolding states_of states_in
tfstates env root = states_of (env.walk (if root == "" then env.getcwd else root))

-- `(name, key, resource)`
pub record Resource : Type 0 where
  pub module_name : Value
  pub key : String
  pub resource : Value

abbrev pub keyed : Value → List (String × Value) → List Resource
keyed name [] = []
keyed name ((key, resource) ∷ items) =
    record { module_name = name; key = key; resource = resource } ∷ keyed name items

-- Version 3: the loop over the modules.
unfoldable pub modules : List Value → Result (List Resource)
modules [] = ok []
modules (m ∷ ms) = do
  path ← at "path" m
  name ← last_of path
  resources ← at "resources" m
  items ← items_in resources
  rest ← modules ms
  ok (keyed name items ++ rest)

-- `value.split('.')[-1]`
abbrev pub last_part : List String → String
last_part [] = ""
last_part (s ∷ []) = s
last_part (s ∷ t ∷ ss) = last_part (t ∷ ss)

abbrev pub after_dots : Value → Result Value
after_dots (str s) = ok (str (last_part (split b'.' s)))
after_dots _ = raise attribute_error

-- The key of an instance, with its index where it has one.
abbrev pub instance_key : Env → Value → Value → Dict Value → String
instance_key env type name instance' =
    let key = text_of env.repr type ⧺ "." ⧺ text_of env.repr name in
    elim (lookup "index_key" instance') [
      | none ↦ key
      | some index ↦ key ⧺ "." ⧺ text_of env.repr index
    ]

abbrev pub id_field : Dict Value → Fields → Fields
id_field attributes rest = elim (lookup "id" attributes) [
  | none ↦ rest
  | some id ↦ field "id" id rest
]

-- `data` for an instance, from its converted attributes.
abbrev pub data_of : Value → Value → Dict Value → Dict Value → Dict Value → Value
data_of type provider instance' attributes converted = obj (
    field "type" type (
      field "provider" provider (
        field "depends_on" (get "depends_on" (arr nil) instance') (
          field "primary"
            (obj (
              field "attributes" (obj (fields_of converted))
                (id_field attributes (field "meta" (get "meta" (obj end) attributes) end))))
            end))))

-- Version 4: the loop over the instances of the resource `r`.
unfoldable pub instances : Env → Value → Value → Value → List Value → ℕ → Result (List Resource × ℕ)
instances env module_name provider r [] drawn = ok ([], drawn)
instances env module_name provider r (v ∷ vs) drawn = do
  type ← at "type" r
  name ← at "name" r
  instance' ← as_dict v
  attributes ← item "attributes" instance'
  (converted, drawn₁) ← convert_to_v3_structure env.randint attributes drawn
  attribute_items ← items_in attributes
  (rest, drawn₂) ← instances env module_name provider r vs drawn₁
  ok (
    record {
      module_name = module_name;
      key = instance_key env type name instance';
      resource = data_of type provider instance' attribute_items converted;
    }
        ∷ rest,
    drawn₂,
  )

-- The loop over the resources.
unfoldable pub resources_of : Env → List Value → ℕ → Result (List Resource × ℕ)
resources_of env [] drawn = ok ([], drawn)
resources_of env (r ∷ rs) drawn = do
  provider ← at "provider" r
  module_name ← after_dots provider
  instances_value ← at "instances" r
  each_instance ← each instances_value
  (found, drawn₁) ← instances env module_name provider r each_instance drawn
  (rest, drawn₂) ← resources_of env rs drawn₁
  ok (found ++ rest, drawn₂)

-- The `KeyError` for another version, whose message wants a number.
abbrev pub unsupported {ℓ} : {A : Type ℓ} → Value → Result A
unsupported (num n) = raise key_error
unsupported (bool b) = raise key_error
unsupported _ = raise type_error

-- `tf_version == n`
abbrev pub is_version : Value → ℕ → Bool
is_version (num n) k = eqb n k
is_version _ k = false

-- One state file.
unfoldable pub state_resources : Env → Value → ℕ → Result (List Resource × ℕ)
unfolding modules resources_of instances
state_resources env state drawn = do
  tf_version ← at "version" state
  if is_version tf_version 3
      then (do
        modules_value ← at "modules" state
        each_module ← each modules_value
        found ← modules each_module
        ok (found, drawn))
      else if is_version tf_version 4
      then (do
        resources_value ← at "resources" state
        each_resource ← each resources_value
        resources_of env each_resource drawn)
      else unsupported tf_version

unfoldable pub iterresources : Env → List String → ℕ → Result (List Resource × ℕ)
iterresources env [] drawn = ok ([], drawn)
iterresources env (filename ∷ filenames) drawn = do
  state ← env.read_json filename
  (found, drawn₁) ← state_resources env state drawn
  (rest, drawn₂) ← iterresources env filenames drawn₁
  ok (found ++ rest, drawn₂)
