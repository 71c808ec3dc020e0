-- ===== src/Startup.antt =====
-- main.go, and `SetupWithManager` of controllers/efadriver_controller.go and
-- controllers/gdrdrv_controller.go: how the operator starts.
pub mod Watches
pub mod Scheme
pub mod Samples
use ocp_efa_operator.Prelude.{
  ℕ, String, Bool, false, Option, none, some, List, [], ◌∷◌, str_eq, if◌then◌else◌,
}
use ocp_efa_operator.Api.Objects.{
  Kind, node_feature_rule, config_map, kmm_module, security_context_constraints, daemon_set,
}
use ocp_efa_operator.Controllers.Action.{Action, ◌>>=◌, pure}

-- an argument of `Owns`
pub data Watched : Type 0 where
  object : Kind → Watched
  node : Watched

-- what a controller is for, and what it owns
pub record ControllerSetup : Type 0 where
  pub for_resource : String
  pub owns : List Watched

abbrev pub efa_setup : ControllerSetup
efa_setup = record {
  for_resource = "EfaDriver";
  owns =
      object config_map
      ∷ object kmm_module
      ∷ object daemon_set
      ∷ object security_context_constraints
      ∷ object node_feature_rule
      ∷ node
      ∷ [];
}

abbrev pub gdrdrv_setup : ControllerSetup
gdrdrv_setup = record {
  for_resource = "GdrdrvDriver";
  owns =
      object config_map
      ∷ object kmm_module
      ∷ object daemon_set
      ∷ object security_context_constraints
      ∷ node
      ∷ [];
}

-- the flags of the command line, less those of the logger
pub record Flags : Type 0 where
  pub metrics_bind_address : String
  pub health_probe_bind_address : String
  pub leader_elect : Bool

abbrev pub default_flags : Flags
default_flags = record {
  metrics_bind_address = ":8080";
  health_probe_bind_address = ":8081";
  leader_elect = false;
}

-- the fields of `ctrl.Options` that are set, less the scheme
pub record ManagerOptions : Type 0 where
  pub health_probe_bind_address : String
  pub leader_election : Bool
  pub leader_election_id : String

abbrev pub manager_options : Flags → ManagerOptions
manager_options flags = record {
  health_probe_bind_address = flags.health_probe_bind_address;
  leader_election = flags.leader_elect;
  leader_election_id = "404c0370.fms.io";
}

-- controller-runtime; `set_up` gets the namespace of the reconciler, `start` returns when the manager
-- has ended
pub record Runtime : Type 1 where
  pub World : Type 0
  pub Error : Type 0
  pub new_manager : ManagerOptions → Action World (Option Error)
  pub set_up : ControllerSetup → String → Action World (Option Error)
  pub add_healthz_check : Action World (Option Error)
  pub add_readyz_check : Action World (Option Error)
  pub start : Action World (Option Error)

-- from the environment variable, which is empty where it is not set
abbrev pub operator_namespace : String → String
operator_namespace ns = if str_eq ns "" then "ocp-efa" else ns

module _ (rt : Runtime) where
  -- `os.Exit(1)` on an error
  abbrev pub or_exit : Action rt.World (Option rt.Error) → Action rt.World ℕ → Action rt.World ℕ
  or_exit step rest = do e ← step; exit_code e
    where
      exit_code : Option rt.Error → Action rt.World ℕ
      exit_code none = rest
      exit_code (some e) = pure 1

  -- the exit code of the program
  unfoldable pub operator_main : Flags → String → Action rt.World ℕ
  operator_main flags ns = or_exit (rt.new_manager (manager_options flags)) (
      or_exit (rt.set_up efa_setup (operator_namespace ns)) (
        or_exit (rt.set_up gdrdrv_setup (operator_namespace ns))
          (or_exit rt.add_healthz_check (or_exit rt.add_readyz_check (or_exit rt.start (pure 0))))))
