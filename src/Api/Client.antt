-- ===== src/Api/Client.antt =====
-- The client of the API server (controller-runtime's `client.Client`), which the controllers only
-- call: an interface over an unknown state `World`. An error is a reason and a message.
use ocp_efa_operator.Prelude.{String, Bool, true, false, Option, List, ◌≡◌}
use ocp_efa_operator.Api.Driver.{Labels, Driver}
use ocp_efa_operator.Api.Objects.{Kind, ObjectKey, Object, Node}

pub data Reason : Type 0 where
  not_found already_exists other_reason : Reason

pub record ApiError : Type 0 where
  pub reason : Reason
  pub message : String

-- `errors.IsNotFound` and `errors.IsAlreadyExists` at an error that is not nil
abbrev pub reason_is_not_found : Reason → Bool
reason_is_not_found not_found = true
reason_is_not_found _ = false

abbrev pub reason_is_already_exists : Reason → Bool
reason_is_already_exists already_exists = true
reason_is_already_exists _ = false

abbrev pub is_not_found : ApiError → Bool
is_not_found e = reason_is_not_found e.reason

abbrev pub is_already_exists : ApiError → Bool
is_already_exists e = reason_is_already_exists e.reason

pub data Result {ℓ} (A : Type ℓ) : Type ℓ where
  ok : A → Result A
  err : ApiError → Result A

pub ok-injective : {A : Type 0} (a b : A) → ok a ≡ ok b → a ≡ b
ok-injective a b h = cc

-- `list` fills in the items and returns an error beside them. A write of a driver returns the
-- object as the server has it afterwards.
pub record Client (Spec : Type 0) : Type 1 where
  pub World : Type 0
  pub list : World → (List (Driver Spec) × Option ApiError) × World
  pub update : Driver Spec → World → Result (Driver Spec) × World
  pub update_status : Driver Spec → World → Result (Driver Spec) × World
  pub list_nodes : World → Result (List Node) × World
  pub get : Kind → ObjectKey → World → Result Object × World
  pub create : Object → World → Option ApiError × World
  pub delete : Object → World → Option ApiError × World
  pub delete_all_of : Kind → String → Labels → World → Option ApiError × World
