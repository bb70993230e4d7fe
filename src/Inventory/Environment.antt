-- ===== src/Inventory/Environment.antt =====
-- contrib/inventory_builder/inventory.py: the shell variables, and the program from its start. The
-- texts of numbers have no underscores in the model, and letters beyond ASCII have no lower case.
pub mod Read
mod Examples
use Prim.Native.Char.{Char, code}
use Prim.Native.String
use vagrant_portainer.Base.{
  ℕ, ◌+◌, String, Bool, true, false, not, ◌&&◌, Option, none, some, List, [], ◌∷◌, ltb, leb, eqb,
  ◌==◌, if◌then◌else◌,
}
use vagrant_portainer.Base.Result.{Result, ok, raise, value_error, ◌>>=◌}
use vagrant_portainer.Base.Dict.{Dict, lookup}
use vagrant_portainer.Base.Text.{all_digits, first, rest_of, strip}
use vagrant_portainer.Base.Text.Decimal.{value}
use vagrant_portainer.Inventory.Types.{Config, Settings}
use vagrant_portainer.Inventory.Session.{Inventory, Run, World, init}

-- `os.environ`
abbrev pub Environ : Type 0
Environ = Dict String

abbrev pub boolean_states : Dict Bool
boolean_states =
    ("1", true)
    ∷ ("yes", true)
    ∷ ("true", true)
    ∷ ("on", true)
    ∷ ("0", false)
    ∷ ("no", false)
    ∷ ("false", false)
    ∷ ("off", false)
    ∷ []

-- The code of `c.lower()`
abbrev pub lower_code : Char → ℕ
lower_code c = if leb b'A' (code c) && leb (code c) b'Z' then code c + 32 else code c

-- `text.lower() == word`
unfoldable pub lower_is : String → String → Bool
lower_is String.[] String.[] = true
lower_is String.[] (String.◌∷◌ k word) = false
lower_is (String.◌∷◌ c text) String.[] = false
lower_is (String.◌∷◌ c text) (String.◌∷◌ k word) = eqb (lower_code c) (code k) && lower_is text word

-- `states.get(text.lower(), default)`
unfoldable pub get_lower : String → Bool → Dict Bool → Bool
get_lower text default [] = default
get_lower text default ((word, b) ∷ states) =
    if lower_is text word then b else get_lower text default states

abbrev pub or_default : Option String → String → String
or_default none default = default
or_default (some text) default = text

unfoldable pub get_var_as_bool : Environ → String → Bool → Bool
get_var_as_bool environ name default =
    get_lower (or_default (lookup name environ) "") default boolean_states

-- A number, or a negative one.
pub data Number : Type 0 where
  natural negative : ℕ → Number

abbrev pub digits_of : (ℕ → Number) → String → Result Number
digits_of sign text =
    if all_digits text && not (text == "") then ok (sign (value 0 text)) else raise value_error

abbrev pub signed : ℕ → Number
signed n = if eqb n 0 then natural 0 else negative n

abbrev pub number_of : Option Char → String → Result Number
number_of none text = raise value_error
number_of (some c) text =
    if eqb (code c) b'-'
    then digits_of signed (rest_of text)
    else if eqb (code c) b'+'
    then digits_of natural (rest_of text)
    else digits_of natural text

-- `int(text)`
unfoldable pub int : String → Result Number
int text = let t = strip text in number_of (first t) t

-- `int(os.environ.get(name, default))` for a number
abbrev pub int_or : Option String → ℕ → Result Number
int_or none default = ok (natural default)
int_or (some text) default = int text

abbrev pub first_of : Option String → Option String → Option String
first_of none other = other
first_of (some text) other = some text

-- What the program takes from outside: the document at a path, the files, and other programs.
pub record Outside : Type 0 where
  pub document : String → Option Config
  pub open_error : String → String
  pub read_json : String → Result (Option Inventory)
  pub hostname_of : String → Result String
  pub ipv6_int : String → Option ℕ
  pub ipv6_exploded : ℕ → String

abbrev pub config_file : Environ → String
config_file environ = or_default (lookup "CONFIG_FILE" environ) "./inventory/sample/hosts.yaml"

-- The world of the class, with its three numbers.
abbrev pub world_for : Environ → Outside → ℕ → ℕ → ℕ → World
world_for environ o hosts scale massive = record {
  settings = record {
    kube_control_hosts = hosts;
    scale_threshold = scale;
    massive_scale_threshold = massive;
    host_prefix = or_default (lookup "HOST_PREFIX" environ) "node";
    use_real_hostname = get_var_as_bool environ "USE_REAL_HOSTNAME" false;
    hostname_of = o.hostname_of;
    ipv6_int = o.ipv6_int;
    ipv6_exploded = o.ipv6_exploded;
  };
  has_config_file = not (config_file environ == "");
  previous = o.document (config_file environ);
  open_error = o.open_error (config_file environ);
  read_json = o.read_json;
}

abbrev pub world_of : Environ → Outside → Number → Number → Number → Option World
world_of environ o (natural hosts) (natural scale) (natural massive) =
    some (world_for environ o hosts scale massive)
world_of environ o _ _ _ = none

-- The import of the module; `none` inside where a number is negative, which is not modelled
-- further.
unfoldable pub world : Environ → Outside → Result (Option World)
world environ o = do
  hosts ← int_or (first_of (lookup "KUBE_CONTROL_HOSTS" environ) (lookup "KUBE_MASTERS" environ)) 2
  scale ← int_or (lookup "SCALE_THRESHOLD" environ) 50
  massive ← int_or (lookup "MASSIVE_SCALE_THRESHOLD" environ) 200
  ok (world_of environ o hosts scale massive)

abbrev pub argv_or : List String → List String → List String
argv_or [] sys_argv = sys_argv
argv_or (a ∷ argv) sys_argv = a ∷ argv

-- `main(argv)`, where `sys_argv` are the arguments of the process
unfoldable pub main : World → List String → List String → Run
main w argv sys_argv = init w (argv_or argv sys_argv)
