-- ===== src/Cleanup/Examples.antt =====
-- Runs of the model of scripts/openstack-cleanup/main.py, and its theorem at a concrete input.
use vagrant_portainer.Base.{◌≡◌, refl, true, false, some, List, [], ◌∷◌}
use vagrant_portainer.Cleanup.{
  Resource, Call, delete_server, delete_security_group, delete_port, delete_subnet, delete_network,
  remove_interface_from_router, Answer, done, conflict, Event, Env, map_if_old, release,
  remove_from_routers, delete_networks, clean_up, clean_up_networks, clean_up_subnets,
  clean_up_ports, clean_up_groups, greeting, returned, main,
}
use vagrant_portainer.Cleanup.Items.{events, all_fine}
use vagrant_portainer.Cleanup.Allowed.{all_fine-main}
use vagrant_portainer.Cleanup.Made.{calls}
use vagrant_portainer.Cleanup.Complete.{Stage, main-Stage}

abbrev old_port : Resource
old_port = record { id = "p1"; name = "port"; created_at = some 10; is_router_external = false }

abbrev old_subnet : Resource
old_subnet = record { id = "s1"; name = "subnet"; created_at = some 20; is_router_external = false }

abbrev router : Resource
router = record { id = "r1"; name = "router"; created_at = some 20; is_router_external = false }

abbrev external : Resource
external = record { id = "n1"; name = "internet"; created_at = some 5; is_router_external = true }

-- The port and the subnet are in use.
abbrev busy : List Event → Call → Answer
busy h (delete_port r) = conflict
busy h (delete_subnet r) = conflict
busy h _ = done

abbrev cloud : Env
cloud = record {
  dry_run = false;
  oldest_allowed = 100;
  servers = λ h. [];
  security_groups = λ h. [];
  ports = λ h. old_port ∷ [];
  subnets = λ h. old_subnet ∷ [];
  networks = λ h. external ∷ [];
  routers = λ h. router ∷ [];
  answer = busy;
}

-- The second attempt at the port fails again, and the exception is not caught.
busy_calls :
    calls (events (main cloud))
    ≡ delete_port old_port
      ∷ delete_subnet old_subnet
      ∷ remove_interface_from_router router old_subnet
      ∷ delete_port old_port
      ∷ []
unfolding main clean_up clean_up_groups clean_up_ports clean_up_subnets clean_up_networks map_if_old
    release remove_from_routers delete_networks
busy_calls = refl

all_fine-main_example : all_fine cloud (events (main cloud)) ≡ true
all_fine-main_example = all_fine-main cloud

-- The same cloud, where nothing is in use.
abbrev quiet : Env
quiet = record cloud { answer = λ h c. done }

main-Stage_example :
    (h₁ h₂ h₃ h₄ h₅ : List Event) × Stage quiet "Servers..." delete_server
      (λ e. e.servers)
      (greeting quiet)
      h₁
    × Stage quiet "Security groups..." delete_security_group (λ e. e.security_groups) h₁ h₂
    × Stage quiet "Ports..." delete_port (λ e. e.ports) h₂ h₃
    × Stage quiet "Subnets..." delete_subnet (λ e. e.subnets) h₃ h₄
    × Stage quiet "Networks..." delete_network (λ e. e.networks) h₄ h₅
    × (main quiet ≡ returned h₅)
main-Stage_example =
    main-Stage quiet (λ h c. refl) (λ h. refl) (λ h. refl) (λ h. refl) (λ h. refl) (λ h. refl)
