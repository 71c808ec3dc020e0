-- ===== src/Controllers/Reconcile/BackOff.antt =====
-- The delays that `GetRequeueAfter` gives.
use ocp_efa_operator.Prelude.{
  ℕ, zero, suc, ◌+◌, ◌*◌, ◌%◌, ◌^◌, false, Option, none, ◌≡◌, ◌≢◌, refl, ap, arith, str_eq, eq_iff,
  eq_refl, lookup, lookup-insert, lookup-erase,
}
use ocp_efa_operator.Api.Driver.{Driver}
use ocp_efa_operator.Api.Client.{ApiError, ok}
use ocp_efa_operator.Controllers.Action.{Action, Outcome}
use ocp_efa_operator.Controllers.Exec.{State}
use ocp_efa_operator.Controllers.Owned.{Reconciler, Request}
use ocp_efa_operator.Controllers.Status.{second, seconds_or_zero}
use ocp_efa_operator.Controllers.Reconcile.{get_requeue_after, clear_back_off}

module _ {Spec : Type 0} (r : Reconciler Spec)
    (create_cluster : Driver Spec → Action r.client.World Outcome)
    (delete_cluster : Driver Spec → Action r.client.World (Option ApiError)) (req : Request) where
  -- what the map holds for the request, or 0
  abbrev waited : State r.client.World → ℕ
  waited s = seconds_or_zero (lookup (r.request_string req) s.back_off_duration)

  -- the state after `n` calls for the request
  unfoldable pub requeue_times : ℕ → State r.client.World → State r.client.World
  requeue_times zero s = s
  requeue_times (suc n) s =
      (get_requeue_after r create_cluster delete_cluster req (requeue_times n s)).1

  waited-requeue_times :
      (n : ℕ) (s : State r.client.World)
      → waited s ≡ 0
      → waited (requeue_times n s) ≡ (n * second) % 2 ^ 64
  unfolding requeue_times get_requeue_after
  waited-requeue_times zero s h = rw h refl
  waited-requeue_times (suc n) s h =
      rw (lookup-insert, eq_refl) (omega (arith, waited-requeue_times n s h))

  -- From a state that holds no delay for the request, the call after `n` others for it gives
  -- `n + 1` seconds, as an int64 of nanoseconds.
  pub get_requeue_after-linear :
      (n : ℕ) (s : State r.client.World)
      → lookup (r.request_string req) s.back_off_duration ≡ none
      → (get_requeue_after r create_cluster delete_cluster req (requeue_times n s)).0
        ≡ ok (((n + 1) * second) % 2 ^ 64)
  unfolding get_requeue_after
  get_requeue_after-linear n s h =
      ap ok (omega (arith, waited-requeue_times n s (ap seconds_or_zero h)))

  -- A request that succeeds forgets its delay, and neither call touches that of another request.
  pub back_off_separate :
      (other : Request) (s : State r.client.World)
      → r.request_string other ≢ r.request_string req
      → (lookup
            (r.request_string req)
            (clear_back_off r create_cluster delete_cluster req s).1.back_off_duration
          ≡ none)
        × (lookup
              (r.request_string other)
              (clear_back_off r create_cluster delete_cluster req s).1.back_off_duration
            ≡ lookup (r.request_string other) s.back_off_duration)
        × (lookup
              (r.request_string other)
              (get_requeue_after r create_cluster delete_cluster req s).1.back_off_duration
            ≡ lookup (r.request_string other) s.back_off_duration)
  unfolding get_requeue_after clear_back_off
  back_off_separate other s ne =
      let apart : str_eq (r.request_string req) (r.request_string other) ≡ false =
        ground (arith, eq_iff (r.request_string req) (r.request_string other)) in
      (
        rw (lookup-erase, eq_refl) refl,
        rw (lookup-erase, apart) refl,
        rw (lookup-insert, apart) refl,
      )
