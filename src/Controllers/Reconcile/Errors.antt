-- ===== src/Controllers/Reconcile/Errors.antt =====
-- Which errors `Reconcile` returns.
use ocp_efa_operator.Prelude.{
  ℕ, String, Bool, true, false, ◌||◌, Option, none, some, List, [], ◌∷◌, ◌≡◌, refl, arith, is_empty,
  str_eq,
}
use ocp_efa_operator.Api.Driver.{Driver}
use ocp_efa_operator.Api.Client.{ApiError, is_not_found}
use ocp_efa_operator.Api.Laws.{View, IsLawful}
use ocp_efa_operator.Controllers.Action.{Action, Outcome}
use ocp_efa_operator.Controllers.Exec.{State, ◌>>=◌, return, call, run}
use ocp_efa_operator.Controllers.Exec.Total.{
  Returns, Total, Total-return, Total-call, Total-run, Total-if, Total-bind,
}
use ocp_efa_operator.Controllers.Owned.{Reconciler, Request}
use ocp_efa_operator.Controllers.Status.{
  creating, is_fresh, with_status, ignored, error, deleting, find_driver, Progress, no_requeue,
}
use ocp_efa_operator.Controllers.Reconcile.{
  get_requeue_after, clear_back_off, ignore_driver, mark_creating, claim, mark_deleting,
  drop_finalizer, after_delete, reconcile_deletion, retry_creating, after_create,
  reconcile_creation, branch, write_status, finish_error, finish, reconcile_active, reconcile_found,
  reconcile_listed, reconcile,
}

abbrev pub Anything : {A : Type 0} → A → Type 0
Anything a = Unit {0}

module _ {Spec : Type 0} (r : Reconciler Spec) (v : View r.client) (laws : IsLawful r.client v)
    (create_cluster : Driver Spec → Action r.client.World Outcome)
    (delete_cluster : Driver Spec → Action r.client.World (Option ApiError))
    (updates : (d : Driver Spec) (w : r.client.World) → Returns Anything (r.client.update d w).0)
    (status_updates : (d : Driver Spec) (w : r.client.World)
      → Returns Anything (r.client.update_status d w).0) where
  -- an error is kept only until the status is written
  abbrev IsCovered : Progress Spec → Type 0
  IsCovered p = p.update_status ≡ false → p.error ≡ none

  abbrev HasNoError : Progress Spec → Type 0
  HasNoError p = p.error ≡ none

  status-Total : (d : Driver Spec) → Total Anything (call (r.client.update_status d))
  status-Total d = Total-call Anything (r.client.update_status d) (status_updates d)

  update-Total : (d : Driver Spec) → Total Anything (call (r.client.update d))
  update-Total d = Total-call Anything (r.client.update d) (updates d)

  mark_creating-Total :
      (efa : Driver Spec) → Total Anything (mark_creating r create_cluster delete_cluster efa)
  unfolding mark_creating
  mark_creating-Total efa =
      Total-if Anything (is_fresh efa) _ _
        (λ _. status-Total (with_status efa creating efa.status.description))
        (λ _. Total-return Anything efa tt)

  claim-Total : (efa : Driver Spec) → Total Anything (claim r create_cluster delete_cluster efa)
  unfolding claim
  claim-Total efa =
      Total-if Anything (r.contains_finalizer efa.finalizers) _ _
        (λ _. Total-return Anything efa tt)
        (λ _.
          Total-bind Anything Anything _ _
            (update-Total (record efa { finalizers = r.add_finalizer efa.finalizers }))
            (λ d _. mark_creating-Total d))

  drop_finalizer-Total :
      (efa : Driver Spec) (left : List String × Bool)
      → Total IsCovered (drop_finalizer r create_cluster delete_cluster efa left)
  unfolding drop_finalizer
  drop_finalizer-Total efa (finalizers, false) = Total-return IsCovered _ (λ h. refl)
  drop_finalizer-Total efa (finalizers, true) =
      Total-bind Anything IsCovered _ _ (update-Total _)
        (λ d _. Total-return IsCovered _ (λ h. refl))

  after_delete-Total :
      (efa : Driver Spec) (failed : Option ApiError)
      → Total IsCovered (after_delete r create_cluster delete_cluster efa failed)
  unfolding after_delete
  after_delete-Total efa none = drop_finalizer-Total efa (r.remove_finalizer efa.finalizers)
  after_delete-Total efa (some e) = Total-return IsCovered _ (λ h. cc)

  reconcile_deletion-Total :
      (efa : Driver Spec) → Total IsCovered (reconcile_deletion r create_cluster delete_cluster efa)
  unfolding reconcile_deletion mark_deleting
  reconcile_deletion-Total efa =
      Total-if IsCovered (r.contains_finalizer efa.finalizers) _ _
        (λ _.
          Total-bind Anything IsCovered _ _
            (Total-if Anything (str_eq efa.status.condition deleting) _ _
              (λ _. Total-return Anything efa tt) (λ _. status-Total _))
            (λ d _.
              Total-bind Anything IsCovered _ _ (Total-run Anything (delete_cluster d) (λ w. tt))
                (λ failed _. after_delete-Total d failed)))
        (λ _. Total-return IsCovered _ (λ h. refl))

  after_create-IsCovered :
      (efa : Driver Spec) (out : Outcome)
      → IsCovered (after_create r create_cluster delete_cluster efa out)
  unfolding after_create
  after_create-IsCovered efa (requeue, some e) h = cc
  after_create-IsCovered efa (true, none) h = ground arith
  after_create-IsCovered efa (false, none) h = ground arith

  reconcile_creation-Total :
      (efa : Driver Spec) → Total IsCovered (reconcile_creation r create_cluster delete_cluster efa)
  unfolding reconcile_creation retry_creating
  reconcile_creation-Total efa =
      Total-bind Anything IsCovered _ _
        (Total-if Anything (str_eq efa.status.condition error) _ _ (λ _. status-Total _)
          (λ _. Total-return Anything efa tt))
        (λ d _. created d)
    where
      created :
          (d : Driver Spec)
          → Total IsCovered (
              run (create_cluster d) >>= λ out.
              return (after_create r create_cluster delete_cluster d out))
      created d =
          Total-bind Anything IsCovered (run (create_cluster d))
            (λ out. return (after_create r create_cluster delete_cluster d out))
            (Total-run Anything (create_cluster d) (λ w. tt))
            (λ out _.
              Total-return IsCovered (after_create r create_cluster delete_cluster d out)
                (after_create-IsCovered d out))

  branch-Total :
      (deleted : Option ℕ) (efa : Driver Spec)
      → Total IsCovered (branch r create_cluster delete_cluster deleted efa)
  unfolding branch
  branch-Total none efa = reconcile_creation-Total efa
  branch-Total (some t) efa = reconcile_deletion-Total efa

  write_status-Total :
      (p : Progress Spec)
      → IsCovered p
      → Total HasNoError (write_status r create_cluster delete_cluster p)
  unfolding write_status
  write_status-Total p covered =
      Total-if HasNoError p.update_status _ _
        (λ _.
          Total-bind Anything HasNoError _ _ (status-Total p.efa)
            (λ d _. Total-return HasNoError _ refl))
        (λ off. Total-return HasNoError p (covered off))

  finish_error-Total :
      (req : Request) (e : Option ApiError)
      → e ≡ none
      → Total Anything (finish_error r create_cluster delete_cluster req e)
  unfolding clear_back_off
  finish_error-Total req none h = record { at = λ s. tt }
  finish_error-Total req (some e) h = cc

  finish-Total :
      (req : Request) (p : Progress Spec)
      → HasNoError p
      → Total Anything (finish r create_cluster delete_cluster req p)
  unfolding finish get_requeue_after
  finish-Total req p h =
      Total-if Anything p.requeue _ _ (λ _. record { at = λ s. tt })
        (λ _. finish_error-Total req p.error h)

  reconcile_active-Total :
      (req : Request) (efa : Driver Spec)
      → Total Anything (reconcile_active r create_cluster delete_cluster req efa)
  unfolding reconcile_active
  reconcile_active-Total req efa = Total-bind Anything Anything _ _ (claim-Total efa) (λ claimed _.
      Total-bind IsCovered Anything _ _ (branch-Total claimed.deletion_timestamp claimed)
        (λ p covered.
          Total-bind HasNoError Anything _ _ (write_status-Total p covered)
            (λ written clean. finish-Total req written clean)))

  reconcile_found-Total :
      (req : Request) (found : Option (Driver Spec) × String)
      → Total Anything (reconcile_found r create_cluster delete_cluster req found)
  unfolding reconcile_found ignore_driver
  reconcile_found-Total req (none, deployed) = Total-return Anything no_requeue tt
  reconcile_found-Total req (some efa, deployed) =
      Total-if Anything (str_eq efa.status.condition ignored) _ _
        (λ _. Total-return Anything no_requeue tt)
        (λ _.
          Total-if Anything (str_eq deployed "") _ _ (λ _. reconcile_active-Total req efa)
            (λ _.
              Total-bind Anything Anything _ _ (status-Total _)
                (λ d _. Total-return Anything no_requeue tt)))

  reconcile_listed-Total :
      (req : Request) (items : List (Driver Spec)) (failed : Option ApiError)
      → ((e : ApiError) → failed ≡ some e → items ≡ [])
      → Total Anything (reconcile_listed r create_cluster delete_cluster req (items, failed))
  unfolding reconcile_listed
  reconcile_listed-Total req [] none h = record { at = λ s. tt }
  reconcile_listed-Total req (d ∷ ds) none h =
      reconcile_found-Total req (find_driver req.name (d ∷ ds) "")
  reconcile_listed-Total req items (some e) h =
      Total-if Anything (is_not_found e || is_empty items) _ _
        (λ _. Total-return Anything no_requeue tt) (λ off. absurd (ground (arith, h e refl)))

  -- If no update of a resource or of its status fails on a lawful server, then `Reconcile` returns a
  -- result and no error: neither a failure to list the resources nor one of `CreateCluster` or
  -- `DeleteCluster` comes back to the caller.
  pub reconcile_never_fails :
      (req : Request) (s : State r.client.World)
      → Returns Anything (reconcile r create_cluster delete_cluster req s).0
  unfolding reconcile
  reconcile_never_fails req s =
      let listed = (r.client.list s.world).0 in
      (reconcile_listed-Total req listed.0 listed.1 (laws.list_err s.world)).at
        (record s { world = (r.client.list s.world).1 })
