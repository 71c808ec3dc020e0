-- ===== src/Plugins/Efa/Allocation.antt =====
-- `Allocate` of the EFA plugin against a description of what each id and each container gets.
use ocp_efa_operator.Prelude.{
  Bool, true, false, Option, none, some, List, [], ◌∷◌, ◌++◌, map, append_assoc, append-nil, ◌≡◌,
  refl, sym, ap, ap₂, ◌∙◌, if◌then◌else◌,
}
use ocp_efa_operator.Plugins.Text.{Bytes}
use ocp_efa_operator.Plugins.System.{
  DeviceSpec, System, Response, device_spec, AllocateError, malformed_id, no_device_file, answer,
}
use ocp_efa_operator.Plugins.Ids.{is_minus_one}
use ocp_efa_operator.Plugins.Server.{Plugin}
use ocp_efa_operator.Plugins.Efa.{
  uverbs_file, idx_of_id, allocate_ids, add_response, allocate_containers, allocate,
}

-- the later of two errors
abbrev pub or_before : Option AllocateError → Option AllocateError → Option AllocateError
or_before none before = before
or_before (some e) before = some e

or_before_assoc :
    (a b c : Option AllocateError) → or_before a (or_before b c) ≡ or_before (or_before a b) c
or_before_assoc none b c = refl
or_before_assoc (some e) b c = refl

or_before-none : (a : Option AllocateError) → or_before a none ≡ a
or_before-none none = refl
or_before-none (some e) = refl

or_before-some :
    (a : Option AllocateError) (x : AllocateError) (e : Option AllocateError)
    → or_before a (some x) ≡ or_before (or_before a (some x)) e
or_before-some none x e = refl
or_before-some (some y) x e = refl

-- the elements that are there
abbrev pub present : {A : Type 0} → List (Option A) → List A
present [] = []
present (none ∷ xs) = present xs
present (some x ∷ xs) = x ∷ present xs

-- the last error of a list
abbrev pub last_of : List (Option AllocateError) → Option AllocateError
last_of [] = none
last_of (e ∷ es) = or_before (last_of es) e

-- the responses that have a device
abbrev pub with_devices : List Response → List Response
with_devices [] = []
with_devices ([] ∷ rs) = with_devices rs
with_devices ((dev ∷ devs) ∷ rs) = (dev ∷ devs) ∷ with_devices rs

module _ (sys : System) (dp : Plugin) (w : sys.World) where
  -- what one id gets, and its error
  abbrev pub grant : Bytes → Option DeviceSpec
  grant id =
      let file = uverbs_file dp (idx_of_id dp id) in
      if is_minus_one (idx_of_id dp id)
      then none
      else if sys.stat file w
      then some (device_spec file)
      else none

  abbrev pub problem : Bytes → Option AllocateError
  problem id =
      let file = uverbs_file dp (idx_of_id dp id) in
      if is_minus_one (idx_of_id dp id)
      then some (malformed_id id)
      else if sys.stat file w
      then none
      else some (no_device_file file)

  abbrev pub granted : List Bytes → Response
  granted ids = present (map grant ids)

  abbrev pub last_problem : List Bytes → Option AllocateError
  last_problem ids = last_of (map problem ids)

  allocate_ids-granted :
      (ids : List Bytes) (devices : Response) (e : Option AllocateError)
      → allocate_ids sys dp w ids devices e
        ≡ (devices ++ granted ids, or_before (last_problem ids) e)
  unfolding allocate_ids
  allocate_ids-granted [] devices e = rw append-nil refl
  allocate_ids-granted (id ∷ ids) devices e =
      let file = uverbs_file dp (idx_of_id dp id) in
      split (is_minus_one (idx_of_id dp id)) (sys.stat file w) file
        (allocate_ids-granted ids devices (some (malformed_id id)))
        (allocate_ids-granted ids devices (some (no_device_file file)))
        (allocate_ids-granted ids (devices ++ device_spec file ∷ []) e)
    where
      split :
          (bad there : Bool) (file : Bytes) {m n g : Response × Option AllocateError}
          → m ≡ (devices ++ granted ids, or_before (last_problem ids) (some (malformed_id id)))
          → n ≡ (devices ++ granted ids, or_before (last_problem ids) (some (no_device_file file)))
          → g ≡ ((devices ++ device_spec file ∷ []) ++ granted ids, or_before (last_problem ids) e)
          → (if bad then m else if there then g else n) ≡ (
            devices
                ++ present (
                    (if bad then none else if there then some (device_spec file) else none)
                    ∷ map grant ids),
            or_before
                (or_before (last_problem ids) (
                  if bad
                  then some (malformed_id id)
                  else if there
                  then none
                  else some (no_device_file file)))
                e,
          )
      split true there file m n g = m ∙ ap (λ x. (devices ++ granted ids, x)) (or_before-some _ _ _)
      split false true file m n g =
          g
          ∙ ap₂ (λ d x. (d, x)) (append_assoc devices _ _)
              (ap (λ x. or_before x e) (sym (or_before-none _)))
      split false false file m n g =
          n ∙ ap (λ x. (devices ++ granted ids, x)) (or_before-some _ _ _)

  add_response-with_devices :
      (responses rest : List Response) (r : Response)
      → add_response responses r ++ with_devices rest ≡ responses ++ with_devices (r ∷ rest)
  add_response-with_devices responses rest [] = refl
  add_response-with_devices responses rest (dev ∷ devs) = append_assoc responses _ _

  allocate_containers-granted :
      (requests : List (List Bytes)) (responses : List Response) (e : Option AllocateError)
      → allocate_containers sys dp w requests responses e ≡ (
        responses ++ with_devices (map granted requests),
        or_before (last_of (map last_problem requests)) e,
      )
  unfolding allocate_containers
  allocate_containers-granted [] responses e = rw append-nil refl
  allocate_containers-granted (ids ∷ requests) responses e =
      rw (allocate_ids-granted ids [] e) rw
        (allocate_containers-granted requests (add_response responses (granted ids))
          (or_before (last_problem ids) e))
        rw (add_response-with_devices responses (map granted requests) (granted ids)) rw
        or_before_assoc refl

  -- Whatever the requests: `Allocate` gives, in their order, the containers that asked for a device
  -- of which the file exists the device files they get, and leaves out all other containers; where
  -- none is left it gives no response and the last error of all ids, if there was one.
  pub allocate_lem :
      (requests : List (List Bytes))
      → allocate sys dp w requests
        ≡ answer (with_devices (map granted requests)) (last_of (map last_problem requests))
  unfolding allocate
  allocate_lem requests = rw (allocate_containers-granted requests [] none) (rw or_before-none refl)
