-- ===== src/Controllers/Reconcile.antt =====
-- `Reconcile` and `GetRequeueAfter`, the same in controllers/efadriver_controller.go and
-- controllers/gdrdrv_controller.go but for the type of the resource. The proofs are in the modules below.
pub mod Exclusive
pub mod Errors
pub mod Finalizer
pub mod Ready
pub mod BackOff
pub mod Now
pub mod Target
pub mod Steps
pub mod Reported
pub mod Converges
pub mod Empties
pub mod Stable
pub mod Deferred
pub mod LastDeployed
use Prim.Native.String.{String, ◌++◌}
use ocp_efa_operator.Prelude.{
  ℕ, ◌+◌, ◌%◌, ◌^◌, Bool, true, false, not, ◌&&◌, ◌||◌, Option, none, some, List, [], ◌∷◌, is_empty,
  str_eq, if◌then◌else◌, lookup, insert, erase,
}
use ocp_efa_operator.Api.Driver.{Driver}
use ocp_efa_operator.Api.Client.{ApiError, is_not_found}
use ocp_efa_operator.Controllers.Action.{Action, Outcome}
use ocp_efa_operator.Controllers.Exec.{State, Exec, ◌>>=◌, return, raise, call, run}
use ocp_efa_operator.Controllers.Owned.{Reconciler, Request}
use ocp_efa_operator.Controllers.Status.{
  creating, ready, error, deleting, discovery, ignored, second, seconds_or_zero, ReconcileResult,
  no_requeue, is_not_found?, is_none, is_fresh, with_status, find_driver, Progress, settled,
}

module _ {Spec : Type 0} (r : Reconciler Spec)
    (create_cluster : Driver Spec → Action r.client.World Outcome)
    (delete_cluster : Driver Spec → Action r.client.World (Option ApiError)) where
  -- `GetRequeueAfter`
  pub get_requeue_after : Request → Exec r.client.World ℕ
  get_requeue_after req s =
      let key = r.request_string req in
      let d = (seconds_or_zero (lookup key s.back_off_duration) + second) % 2 ^ 64 in
      return d (record s { back_off_duration = insert key d s.back_off_duration })

  -- `delete(r.backOffDuration, req.String())`
  pub clear_back_off : Request → Exec r.client.World ReconcileResult
  clear_back_off req s =
      return no_requeue
        (record s { back_off_duration = erase (r.request_string req) s.back_off_duration })

  ignore_driver : Driver Spec → String → Exec r.client.World ReconcileResult
  ignore_driver efa deployed = do
    efa' ← call (
        r.client.update_status (
          with_status efa ignored
            ("Ignored since an active resource is already deployed (" ++ deployed ++ ")")))
    return no_requeue

  mark_creating : Driver Spec → Exec r.client.World (Driver Spec)
  mark_creating efa =
      if is_fresh efa
      then call (r.client.update_status (with_status efa creating efa.status.description))
      else return efa

  -- add the finalizer, if it is not there yet
  pub claim : Driver Spec → Exec r.client.World (Driver Spec)
  unfolding mark_creating
  claim efa = if r.contains_finalizer efa.finalizers then return efa else (do
    efa' ← call (r.client.update (record efa { finalizers = r.add_finalizer efa.finalizers }))
    mark_creating efa')

  unfoldable pub mark_deleting : Driver Spec → Exec r.client.World (Driver Spec)
  mark_deleting efa =
      if str_eq efa.status.condition deleting
      then return efa
      else call (r.client.update_status (with_status efa deleting deleting))

  unfoldable pub drop_finalizer :
      Driver Spec → List String × Bool → Exec r.client.World (Progress Spec)
  drop_finalizer efa (finalizers, false) = return (settled (record efa { finalizers = finalizers }))
  drop_finalizer efa (finalizers, true) = do
    efa' ← call (r.client.update (record efa { finalizers = finalizers }))
    return (settled efa')

  unfoldable pub after_delete : Driver Spec → Option ApiError → Exec r.client.World (Progress Spec)
  unfolding drop_finalizer
  after_delete efa (some e) = return (record {
    efa = with_status efa error "Failed to delete resources";
    update_status = true;
    requeue = false;
    error = some e;
  })
  after_delete efa none = drop_finalizer efa (r.remove_finalizer efa.finalizers)

  -- the branch for a resource with a deletion timestamp
  unfoldable pub reconcile_deletion : Driver Spec → Exec r.client.World (Progress Spec)
  unfolding mark_deleting after_delete
  reconcile_deletion efa =
      if r.contains_finalizer efa.finalizers
      then (do
        efa' ← mark_deleting efa
        failed ← run (delete_cluster efa')
        after_delete efa' failed)
      else return (settled efa)

  unfoldable pub retry_creating : Driver Spec → Exec r.client.World (Driver Spec)
  retry_creating efa =
      if str_eq efa.status.condition error
      then call (r.client.update_status (with_status efa creating creating))
      else return efa

  unfoldable pub after_create : Driver Spec → Outcome → Progress Spec
  after_create efa (requeue, some e) = record {
    efa = with_status efa error ("Failed to create resources, err=" ++ e.message);
    update_status = true;
    requeue = requeue;
    error = some e;
  }
  after_create efa (true, none) =
      if str_eq efa.status.condition discovery
      then record { efa = efa; update_status = false; requeue = true; error = none }
      else record {
        efa =
            with_status efa discovery
              "Waiting for Node Disocvery to create fms.io labels at all the workers";
        update_status = true;
        requeue = true;
        error = none;
      }
  after_create efa (false, none) =
      if str_eq efa.status.condition ready then settled efa else record {
        efa = with_status efa ready ready;
        update_status = true;
        requeue = false;
        error = none;
      }

  -- the branch for a resource without one
  unfoldable pub reconcile_creation : Driver Spec → Exec r.client.World (Progress Spec)
  unfolding retry_creating after_create
  reconcile_creation efa = do
    efa' ← retry_creating efa
    outcome ← run (create_cluster efa')
    return (after_create efa' outcome)

  pub branch : Option ℕ → Driver Spec → Exec r.client.World (Progress Spec)
  unfolding reconcile_deletion reconcile_creation
  branch (some t) efa = reconcile_deletion efa
  branch none efa = reconcile_creation efa

  -- `err` is overwritten by the result of the update
  write_status : Progress Spec → Exec r.client.World (Progress Spec)
  write_status p =
      if p.update_status
      then (do
        efa ← call (r.client.update_status p.efa)
        return (record p { efa = efa; error = none }))
      else return p

  abbrev finish_error : Request → Option ApiError → Exec r.client.World ReconcileResult
  finish_error req (some e) = raise e
  finish_error req none = clear_back_off req

  finish : Request → Progress Spec → Exec r.client.World ReconcileResult
  unfolding get_requeue_after clear_back_off
  finish req p =
      if p.requeue
      then (do d ← get_requeue_after req; return (record { requeue = true; requeue_after = d }))
      else finish_error req p.error

  -- the resource of the request is the active one
  unfoldable pub reconcile_active : Request → Driver Spec → Exec r.client.World ReconcileResult
  unfolding claim branch write_status finish
  reconcile_active req efa = do
    claimed ← claim efa
    progress ← branch claimed.deletion_timestamp claimed
    written ← write_status progress
    finish req written

  reconcile_found : Request → Option (Driver Spec) × String → Exec r.client.World ReconcileResult
  unfolding ignore_driver
  reconcile_found req (none, deployed) = return no_requeue
  reconcile_found req (some efa, deployed) =
      if str_eq efa.status.condition ignored
      then return no_requeue
      else if str_eq deployed ""
      then reconcile_active req efa
      else ignore_driver efa deployed

  abbrev reconcile_items :
      Request → List (Driver Spec) → Option ApiError → Exec r.client.World ReconcileResult
  reconcile_items req items none = reconcile_found req (find_driver req.name items "")
  reconcile_items req items (some e) = raise e

  reconcile_listed :
      Request → List (Driver Spec) × Option ApiError → Exec r.client.World ReconcileResult
  reconcile_listed req (items, failed) =
      if is_not_found? failed || is_empty items
      then return no_requeue
      else reconcile_items req items failed

  unfoldable pub reconcile : Request → Exec r.client.World ReconcileResult
  unfolding reconcile_listed reconcile_found
  reconcile req = do listed ← run r.client.list; reconcile_listed req listed
