-- ===== src/Controllers/Status.antt =====
-- What `Reconcile` works with: the conditions of a resource, the choice of the resource that a
-- request is about, and the variables that the two branches leave.
use Prim.Native.String.{String}
use ocp_efa_operator.Prelude.{
  ℕ, Bool, true, false, ◌&&◌, Option, none, some, List, [], ◌∷◌, str_eq, if◌then◌else◌,
}
use ocp_efa_operator.Api.Driver.{Driver}
use ocp_efa_operator.Api.Client.{ApiError, is_not_found}

abbrev pub creating : String
creating = "Creating"

abbrev pub ready : String
ready = "Ready"

abbrev pub error : String
error = "Error"

abbrev pub deleting : String
deleting = "Deleting"

abbrev pub discovery : String
discovery = "DeviceDiscovery"

abbrev pub ignored : String
ignored = "Ignored"

-- a `time.Duration` is an int64 of nanoseconds, taken here modulo 2^64
abbrev pub second : ℕ
second = 1000000000

abbrev pub seconds_or_zero : Option ℕ → ℕ
seconds_or_zero none = 0
seconds_or_zero (some d) = d

-- `ctrl.Result`
pub record ReconcileResult : Type 0 where
  pub requeue : Bool
  pub requeue_after : ℕ

abbrev pub no_requeue : ReconcileResult
no_requeue = record { requeue = false; requeue_after = 0 }

abbrev pub is_not_found? : Option ApiError → Bool
is_not_found? none = false
is_not_found? (some e) = is_not_found e

abbrev pub is_none : Option ℕ → Bool
is_none none = true
is_none (some t) = false

module _ {Spec : Type 0} where
  -- `efa.GetDeletionTimestamp() == nil && efa.Status.Condition == ""`
  abbrev pub is_fresh : Driver Spec → Bool
  is_fresh efa = is_none efa.deletion_timestamp && str_eq efa.status.condition ""

  abbrev pub with_status : Driver Spec → String → String → Driver Spec
  with_status efa condition description = record efa {
    status = record { condition = condition; description = description };
  }

  -- the loop over the listed resources, with `deployed` as its variable
  unfoldable pub find_driver : String → List (Driver Spec) → String → Option (Driver Spec) × String
  find_driver name [] deployed = (none, deployed)
  find_driver name (ext ∷ items) deployed =
      let later =
        find_driver name items
          (if str_eq ext.status.condition ignored then deployed else ext.name) in
      if str_eq ext.name name then (some ext, deployed) else later

-- the variables `efa`, `updateStatus`, `requeue` and `err` after the two branches
pub record Progress (Spec : Type 0) : Type 0 where
  pub efa : Driver Spec
  pub update_status : Bool
  pub requeue : Bool
  pub error : Option ApiError

abbrev pub settled : {Spec : Type 0} → Driver Spec → Progress Spec
settled efa = record { efa = efa; update_status = false; requeue = false; error = none }
