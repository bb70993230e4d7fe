-- ===== src/Terraform/Queries.antt =====
-- contrib/terraform/terraform.py: what the program answers about the hosts.
pub mod Groups
pub mod Vars
use Prim.Native.String
use vagrant_portainer.Base.{
  ℕ, zero, suc, ◌-◌, String, Bool, true, false, Option, none, some, List, [], ◌∷◌, ◌++◌, ◌==◌,
  if◌then◌else◌,
}
use vagrant_portainer.Base.Result.{Result, ok, raise, attribute_error, ◌>>=◌}
use vagrant_portainer.Base.Dict.{Dict, lookup, put}
use vagrant_portainer.Base.Text.{◌⧺◌, count, join}
use vagrant_portainer.Terraform.Json.{Value, str, item}
use vagrant_portainer.Terraform.Hosts.{Host}

unfoldable pub query_host : List Host → String → Dict Value
query_host [] target = []
query_host (h ∷ hosts) target = if h.name == target then h.attrs else query_host hosts target

-- An entry of the answer of `query_list`: the hosts of a group, or the variables under `_meta`.
pub data Entry : Type 0 where
  hosts : List String → Entry
  hostvars : Dict (Dict Value) → Entry

abbrev pub or_nil : Option (List String) → List String
or_nil none = []
or_nil (some l) = l

-- An empty name of a group stands for "all".
abbrev pub group_name : String → String
group_name group = if group == "" then "all" else group

-- `groups[group]['hosts'].append(name)`, where a missing group is made
abbrev pub append_host : String → String → Dict (List String) → Dict (List String)
append_host name group groups = put group (or_nil (lookup group groups) ++ name ∷ []) groups

-- The loop over the set of a host's groups.
unfoldable pub add_groups : String → List String → Dict (List String) → Dict (List String)
add_groups name [] groups = groups
add_groups name (group ∷ rest) groups =
    add_groups name rest (append_host name (group_name group) groups)

-- The loop over the hosts, with `groups` and `meta`. A set is gone through in the order that
-- `set_order` gives.
unfoldable pub list_hosts :
    (List String → List String)
    → List Host
    → Dict (List String)
    → Dict (Dict Value)
    → Dict (List String) × Dict (Dict Value)
unfolding add_groups
list_hosts set_order [] groups meta = (groups, meta)
list_hosts set_order (h ∷ hs) groups meta =
    list_hosts set_order hs (add_groups h.name (set_order h.groups) groups)
      (put h.name h.attrs meta)

abbrev pub entries : Dict (List String) → Dict Entry
entries [] = []
entries ((g, l) ∷ groups) = (g, hosts l) ∷ entries groups

unfoldable pub query_list : (List String → List String) → List Host → Dict Entry
unfolding list_hosts
query_list set_order hs =
    let (groups, meta) = list_hosts set_order hs [] [] in
    put "_meta" (hostvars meta) (entries groups)

-- `n` spaces
unfoldable pub spaces : ℕ → String
spaces zero = ""
spaces (suc n) = " " ⧺ spaces n

-- `value.ljust(16)`
abbrev pub ljust : Value → Result String
ljust (str s) = ok (s ⧺ spaces (16 - count s))
ljust _ = raise attribute_error

unfoldable pub host_lines : List Host → Result (List String)
host_lines [] = ok []
host_lines (h ∷ hs) = do
  address ← item "ansible_host" h.attrs
  padded ← ljust address
  rest ← host_lines hs
  ok ((padded ⧺ "\t" ⧺ h.name) ∷ rest)

unfoldable pub query_hostfile : List Host → Result String
query_hostfile hs = do
  lines ← host_lines hs
  ok (
      join "\n" (
        "## begin hosts generated by terraform.py ##" ∷ lines
        ++ "## end hosts generated by terraform.py ##" ∷ []))
