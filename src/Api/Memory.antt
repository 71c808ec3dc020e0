-- ===== src/Api/Memory.antt =====
-- A small API server in memory: a value of the interface, which shows that its laws can be met and
-- on which the reconcilers run. It can be told to refuse writes.
pub mod Lawful
pub mod Steady
pub mod Accepting
use ocp_efa_operator.Prelude.{
  String, Bool, true, false, Option, none, some, List, [], ◌∷◌, str_eq, if◌then◌else◌,
}
use ocp_efa_operator.Api.Driver.{Labels, Driver}
use ocp_efa_operator.Api.Objects.{Kind, ObjectKey, Object, kind_of, key_of, Node}
use ocp_efa_operator.Api.Client.{
  ApiError, not_found, already_exists, other_reason, Result, ok, err, Client,
}
use ocp_efa_operator.Api.Laws.{is_at, is_selected, drop, replace, View}

pub record Memory (Spec : Type 0) : Type 0 where
  pub drivers : List (Driver Spec)
  pub objects : Kind → ObjectKey → Option Object
  pub nodes : List Node
  pub list_refused : Option String
  pub refuse_update : Driver Spec → Option String
  pub refuse_create : Object → Option String
  pub refuse_delete : Kind → Option String

abbrev pub missing : ApiError
missing = record { reason = not_found; message = "not found" }

abbrev pub taken : ApiError
taken = record { reason = already_exists; message = "already exists" }

abbrev pub refusal : String → ApiError
refusal message = record { reason = other_reason; message = message }

-- an object counts only at the place where it belongs
abbrev keep_at : Kind → ObjectKey → Option Object → Option Object
keep_at k key none = none
keep_at k key (some o) = if is_at o k key then some o else none

abbrev found : Option Object → Result Object
found none = err missing
found (some o) = ok o

module _ {Spec : Type 0} where
  abbrev pub stored : Memory Spec → Kind → ObjectKey → Option Object
  stored w k key = keep_at k key (w.objects k key)

  abbrev find : String → List (Driver Spec) → Option (Driver Spec)
  find name [] = none
  find name (d ∷ ds) = if str_eq d.name name then some d else find name ds

  abbrev discard : String → List (Driver Spec) → List (Driver Spec)
  discard name [] = []
  discard name (d ∷ ds) = if str_eq d.name name then discard name ds else d ∷ discard name ds

  -- a resource that is being deleted goes with its last finalizer
  abbrev settle : Driver Spec → List (Driver Spec) → List (Driver Spec)
  settle d ds = elim d.deletion_timestamp [
    | none ↦ replace d ds
    | some t ↦ elim d.finalizers [ [] ↦ discard d.name ds | f ∷ fs ↦ replace d ds ]
  ]

  abbrev update_found :
      Driver Spec → Memory Spec → Option (Driver Spec) → Result (Driver Spec) × Memory Spec
  update_found d w none = (err missing, w)
  update_found d w (some old) = (
    ok (record d { status = old.status }),
    record w { drivers = settle (record d { status = old.status }) w.drivers },
  )

  abbrev status_found :
      Driver Spec → Memory Spec → Option (Driver Spec) → Result (Driver Spec) × Memory Spec
  status_found d w none = (err missing, w)
  status_found d w (some old) = (ok d, record w { drivers = replace d w.drivers })

  abbrev create_at : Object → Memory Spec → Option Object → Option ApiError × Memory Spec
  create_at o w (some old) = (some taken, w)
  create_at o w none =
      (none, record w { objects = λ k key. if is_at o k key then some o else w.objects k key })

  abbrev delete_at : Object → Memory Spec → Option Object → Option ApiError × Memory Spec
  delete_at o w none = (some missing, w)
  delete_at o w (some old) =
      (none, record w { objects = λ k key. if is_at o k key then none else w.objects k key })

  abbrev list_memory : Memory Spec → (List (Driver Spec) × Option ApiError) × Memory Spec
  list_memory w = elim w.list_refused [
    | none ↦ ((w.drivers, none), w)
    | some m ↦ (([], some (refusal m)), w)
  ]

  abbrev update_memory : Driver Spec → Memory Spec → Result (Driver Spec) × Memory Spec
  update_memory d w = elim (w.refuse_update d) [
    | none ↦ update_found d w (find d.name w.drivers)
    | some m ↦ (err (refusal m), w)
  ]

  abbrev update_status_memory : Driver Spec → Memory Spec → Result (Driver Spec) × Memory Spec
  update_status_memory d w = elim (w.refuse_update d) [
    | none ↦ status_found d w (find d.name w.drivers)
    | some m ↦ (err (refusal m), w)
  ]

  abbrev create_memory : Object → Memory Spec → Option ApiError × Memory Spec
  create_memory o w = elim (w.refuse_create o) [
    | none ↦ create_at o w (stored w (kind_of o) (key_of o))
    | some m ↦ (some (refusal m), w)
  ]

  abbrev delete_memory : Object → Memory Spec → Option ApiError × Memory Spec
  delete_memory o w = elim (w.refuse_delete (kind_of o)) [
    | none ↦ delete_at o w (stored w (kind_of o) (key_of o))
    | some m ↦ (some (refusal m), w)
  ]

  abbrev delete_all_memory : Kind → String → Labels → Memory Spec → Option ApiError × Memory Spec
  delete_all_memory kind ns selector w = elim (w.refuse_delete kind) [
    | none ↦ (
      none,
      record w { objects = λ k key. drop (is_selected kind ns selector) (w.objects k key) },
    )
    | some m ↦ (some (refusal m), w)
  ]

abbrev pub memory_client : (Spec : Type 0) → Client Spec
memory_client Spec = record {
  World = Memory Spec;
  list = list_memory;
  update = update_memory;
  update_status = update_status_memory;
  list_nodes = λ w. (ok w.nodes, w);
  get = λ k key w. (found (stored w k key), w);
  create = create_memory;
  delete = delete_memory;
  delete_all_of = delete_all_memory;
}

abbrev pub memory_view : (Spec : Type 0) → View (memory_client Spec)
memory_view Spec = record { stored = stored; drivers = λ w. w.drivers; nodes = λ w. w.nodes }
