-- ===== src/Plugins/Gdrdrv/Allocation.antt =====
-- `Allocate` of the GDRCOPY plugin against a description of which containers get the device.
use ocp_efa_operator.Prelude.{
  Bool, true, false, not, ◌||◌, Option, none, some, List, [], ◌∷◌, ◌++◌, map, append_assoc,
  append-nil, ◌≡◌, refl, sym, ◌∙◌, arith, if◌then◌else◌,
}
use ocp_efa_operator.Plugins.Text.{Bytes}
use ocp_efa_operator.Plugins.System.{
  System, Response, device_spec, AllocateError, malformed_id, no_device_file, answer,
}
use ocp_efa_operator.Plugins.Ids.{is_minus_one}
use ocp_efa_operator.Plugins.Server.{Plugin}
use ocp_efa_operator.Plugins.Gdrdrv.{
  idx_of_id, request_ids, add_response, request_containers, allocate,
}

-- the error of the last id, if there is an id
abbrev pub last_malformed : List Bytes → Option AllocateError → Option AllocateError
last_malformed [] e = e
last_malformed (id ∷ ids) e = last_malformed ids (some (malformed_id id))

abbrev pub last_of_all : List (List Bytes) → Option AllocateError → Option AllocateError
last_of_all [] e = e
last_of_all (ids ∷ requests) e = last_of_all requests (last_malformed ids e)

module _ (dp : Plugin) where
  abbrev pub any_valid : List Bytes → Bool
  any_valid [] = false
  any_valid (id ∷ ids) = not (is_minus_one (idx_of_id dp id)) || any_valid ids

  -- the containers from the first on that asks for the device
  abbrev pub from_first : List (List Bytes) → List (List Bytes)
  from_first [] = []
  from_first (ids ∷ requests) =
      let rest = from_first requests in if any_valid ids then ids ∷ requests else rest

  abbrev pub the_device : List Bytes → Response
  the_device ids = device_spec dp.device_path ∷ []

  request_ids-true :
      (ids : List Bytes) (e : Option AllocateError) → (request_ids dp ids true e).0 ≡ true
  unfolding request_ids
  request_ids-true [] e = refl
  request_ids-true (id ∷ ids) e = ground (arith, request_ids-true ids (some (malformed_id id)))

  request_ids-any_valid :
      (ids : List Bytes) (e : Option AllocateError) → (request_ids dp ids false e).0 ≡ any_valid ids
  unfolding request_ids
  request_ids-any_valid [] e = refl
  request_ids-any_valid (id ∷ ids) e =
      ground (arith, request_ids-any_valid ids (some (malformed_id id)))

  request_ids-last_malformed :
      (ids : List Bytes) (e : Option AllocateError)
      → any_valid ids ≡ false
      → (request_ids dp ids false e).1 ≡ last_malformed ids e
  unfolding request_ids
  request_ids-last_malformed [] e h = refl
  request_ids-last_malformed (id ∷ ids) e h =
      ground (arith, request_ids-last_malformed ids (some (malformed_id id)))

  request_containers-true :
      (requests : List (List Bytes)) (responses : List Response) (e : Option AllocateError)
      → (request_containers dp requests responses true e).0 ≡ responses ++ map the_device requests
  unfolding request_containers
  request_containers-true [] responses e = sym (append-nil responses)
  request_containers-true (ids ∷ requests) responses e =
      rw (request_containers, request_ids-true ids e)
        (request_containers-true requests (responses ++ the_device ids ∷ []) _
          ∙ append_assoc responses _ _)

  answer_first :
      (responses : List Response) (e e' : Option AllocateError) (r : Response) (rs : List Response)
      → responses ≡ r ∷ rs
      → answer responses e ≡ answer (r ∷ rs) e'
  answer_first responses e e' r rs h = rw h refl

  request_containers-from_first :
      (requests : List (List Bytes)) (e : Option AllocateError)
      → answer
          (request_containers dp requests [] false e).0
          (request_containers dp requests [] false e).1
        ≡ answer (map the_device (from_first requests)) (last_of_all requests e)
  unfolding request_containers
  request_containers-from_first [] e = refl
  request_containers-from_first (ids ∷ requests) e =
      rw (request_containers, request_ids-any_valid ids e)
        (split (any_valid ids) refl (request_containers-from_first requests (last_malformed ids e)))
    where
      split :
          (b : Bool)
          → any_valid ids ≡ b
          → answer
              (request_containers dp requests [] false (last_malformed ids e)).0
              (request_containers dp requests [] false (last_malformed ids e)).1
            ≡ answer
                (map the_device (from_first requests))
                (last_of_all requests (last_malformed ids e))
          → answer
              (request_containers dp requests
                (add_response dp b [])
                b
                (request_ids dp ids false e).1).0
              (request_containers dp requests
                (add_response dp b [])
                b
                (request_ids dp ids false e).1).1
            ≡ answer
                (map the_device (if b then ids ∷ requests else from_first requests))
                (last_of_all requests (last_malformed ids e))
      split true h rest =
          answer_first
            (request_containers dp requests (the_device ids ∷ []) true
              (request_ids dp ids false e).1).0
            (request_containers dp requests (the_device ids ∷ []) true
              (request_ids dp ids false e).1).1
            (last_of_all requests (last_malformed ids e)) (the_device ids) (map the_device requests)
            (request_containers-true requests (the_device ids ∷ []) (request_ids dp ids false e).1)
      split false h rest = rw (request_ids-last_malformed ids e h) rest

  -- Whatever the requests: without the device file `Allocate` gives the error that says so; with it,
  -- it gives the device file once to each container from the first on that asked with an id of this
  -- host, also to those that did not ask themselves, and nothing to the containers before; where no
  -- container asked with such an id it gives no response and the error of the last id, if there is one.
  pub allocate_gdrdrv_lem :
      (sys : System) (w : sys.World) (requests : List (List Bytes))
      → allocate sys dp w requests ≡ (
          if sys.stat dp.device_path w
          then answer (map the_device (from_first requests)) (last_of_all requests none)
          else (none, some (no_device_file dp.device_path)))
  unfolding allocate
  allocate_gdrdrv_lem sys w requests = rw (request_containers-from_first requests none) refl
