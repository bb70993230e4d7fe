-- ===== src/Cleanup.antt =====
-- scripts/openstack-cleanup/main.py: deletes old resources of a cloud. The cloud is a parameter:
-- what it lists, and how it answers a call, may depend on all that was done before. The pause
-- before the first call is left out, and a listing is read whole.
pub mod Items
pub mod Allowed
pub mod Made
pub mod Complete
mod Examples
use vagrant_portainer.Base.{
  ℕ, String, Bool, true, false, not, ◌&&◌, Option, none, some, List, [], ◌∷◌, ◌++◌, ltb, ◌==◌,
  if◌then◌else◌,
}

-- What the script reads of a server, security group, port, subnet, network or router. The time is
-- in seconds; `none` where it is not of DATE_FORMAT.
pub record Resource : Type 0 where
  pub id : String
  pub name : String
  pub created_at : Option ℕ
  pub is_router_external : Bool

-- The calls that change the cloud.
pub data Call : Type 0 where
  delete_server delete_security_group delete_port delete_subnet delete_network : Resource → Call
  remove_interface_from_router : Resource → Resource → Call

-- How a call ends: with or without ConflictException, or with another exception.
pub data Answer : Type 0 where
  done conflict other : Answer

-- A line that is printed, or a call.
pub data Event : Type 0 where
  printed : String → Event
  will_delete : Resource → Event
  deleting : Resource → Resource → Event
  failed_to_delete : Event
  called : Call → Event

-- What ends the script before its end.
pub data Fault : Type 0 where
  conflict_exception value_error other_exception : Fault

-- A step of the script returns, or raises; with all events.
pub data Outcome : Type 0 where
  returned : List Event → Outcome
  raised : Fault → List Event → Outcome

-- The arguments of the script, its time limit, and the cloud.
pub record Env : Type 0 where
  pub dry_run : Bool
  pub oldest_allowed : ℕ
  pub servers : List Event → List Resource
  pub security_groups : List Event → List Resource
  pub ports : List Event → List Resource
  pub subnets : List Event → List Resource
  pub networks : List Event → List Resource
  pub routers : List Event → List Resource
  pub answer : List Event → Call → Answer

-- One step after another.
abbrev pub after : Outcome → (List Event → Outcome) → Outcome
after (returned h) next = next h
after (raised e h) next = raised e h

abbrev pub answered : Answer → List Event → Outcome
answered done h = returned h
answered conflict h = raised conflict_exception h
answered other h = raised other_exception h

abbrev pub call : Env → Call → List Event → Outcome
call env c h = answered (env.answer h c) (h ++ called c ∷ [])

-- `fn(item)`, after its line, but not in a dry run
abbrev pub announce : Env → Call → Resource → List Event → Outcome
announce env c item h =
    let h' = h ++ will_delete item ∷ [] in if env.dry_run then returned h' else call env c h'

-- The rest of `fn_if_old` once the time is read.
abbrev pub fn_if_before : Env → (Resource → Call) → Resource → Option ℕ → List Event → Outcome
fn_if_before env fn item none h = raised value_error h
fn_if_before env fn item (some created_at) h =
    if item.name == "default"
    then returned h
    else if ltb created_at env.oldest_allowed
    then announce env (fn item) item h
    else returned h

abbrev pub fn_if_old : Env → (Resource → Call) → Resource → List Event → Outcome
fn_if_old env fn item h = fn_if_before env fn item item.created_at h

unfoldable pub map_if_old : Env → (Resource → Call) → List Resource → List Event → Outcome
map_if_old env fn [] h = returned h
map_if_old env fn (item ∷ items) h = after (fn_if_old env fn item h) (map_if_old env fn items)

-- A call that may fail in any way.
abbrev pub tried : Outcome → Outcome
tried (returned h) = returned h
tried (raised e h) = returned (h ++ failed_to_delete ∷ [])

-- The loop over the routers, for a subnet that cannot be deleted.
unfoldable pub remove_from_routers : Env → Resource → List Resource → List Event → Outcome
remove_from_routers env sn [] h = returned h
remove_from_routers env sn (r ∷ rs) h =
    after (tried (call env (remove_interface_from_router r sn) (h ++ deleting sn r ∷ [])))
      (remove_from_routers env sn rs)

-- The handler of a conflict on a subnet.
abbrev pub or_remove : Env → Resource → Outcome → Outcome
or_remove env sn (raised conflict_exception h) = remove_from_routers env sn (env.routers h) h
or_remove env sn o = o

-- The loop over the subnets, for a port that cannot be deleted.
unfoldable pub release : Env → List Resource → List Event → Outcome
release env [] h = returned h
release env (sn ∷ sns) h =
    after (or_remove env sn (fn_if_old env delete_subnet sn h)) (release env sns)

-- The handler of a conflict on a port, with the second attempt.
abbrev pub or_release : Env → Outcome → Outcome
or_release env (raised conflict_exception h) =
    after (release env (env.subnets h) h) λ h'. map_if_old env delete_port (env.ports h') h'
or_release env o = o

unfoldable pub delete_networks : Env → List Resource → List Event → Outcome
delete_networks env [] h = returned h
delete_networks env (n ∷ ns) h =
    after (if n.is_router_external then returned h else fn_if_old env delete_network n h)
      (delete_networks env ns)

abbrev pub say : String → List Event → List Event
say line h = h ++ printed line ∷ []

-- A heading, and the old ones of what is then listed.
unfoldable pub clean_up :
    Env → String → (Resource → Call) → (Env → List Event → List Resource) → List Event → Outcome
clean_up env line fn items h = let h' = say line h in map_if_old env fn (items env h') h'

-- `Networks...`
unfoldable pub clean_up_networks : Env → List Event → Outcome
clean_up_networks env h = let h' = say "Networks..." h in delete_networks env (env.networks h') h'

-- From `Subnets...` on
unfoldable pub clean_up_subnets : Env → List Event → Outcome
clean_up_subnets env h =
    after (clean_up env "Subnets..." delete_subnet (λ e. e.subnets) h) (clean_up_networks env)

-- From `Ports...` on
unfoldable pub clean_up_ports : Env → List Event → Outcome
clean_up_ports env h =
    after (or_release env (clean_up env "Ports..." delete_port (λ e. e.ports) h))
      (clean_up_subnets env)

-- From `Security groups...` on
unfoldable pub clean_up_groups : Env → List Event → Outcome
clean_up_groups env h =
    after (clean_up env "Security groups..." delete_security_group (λ e. e.security_groups) h)
      (clean_up_ports env)

abbrev pub greeting : Env → List Event
greeting env =
    say
      (if env.dry_run
        then "Running in dry-run mode"
        else "This will delete resources... (ctrl+c to cancel)")
      []

unfoldable pub main : Env → Outcome
main env =
    after (clean_up env "Servers..." delete_server (λ e. e.servers) (greeting env))
      (clean_up_groups env)
