-- ===== src/Hub/Policies.antt =====
-- The permissions of the service files fill the interface that the hub relies on.
use krossbar_bus.Common.{ℕ}
use krossbar_bus.Names.Decide.{Visits}
use krossbar_bus.Permissions.{
  System, Permissions, check_service_name_allowed, check_connection_allowed, check_service_exists,
}
use krossbar_bus.Permissions.Connections.{check_connection_allowed-Permits}
use krossbar_bus.Hub.Context.{Policy, Attempt, Env}

-- The permissions of a hub on a machine.
abbrev pub policy_of : (sys : System) → Visits sys.order → Permissions → Policy
policy_of sys visits self = record {
  check_service_name_allowed = check_service_name_allowed sys self;
  check_connection_allowed = check_connection_allowed sys self;
  check_service_exists = check_service_exists sys self;
  connection_total =
      λ c t. let (b, e, _) = check_connection_allowed-Permits sys visits self c t in (b, e);
}

abbrev pub env_of : (sys : System) → Visits sys.order → (ℕ → Attempt) → Env
env_of sys visits attempts = record { policy = policy_of sys visits; attempts = attempts }
