-- ===== src/Controllers/Reconcile/Stable.antt =====
-- A second run of `Reconcile` after one that settled everything.
use ocp_efa_operator.Prelude.{
  ℕ, Bool, true, false, Option, none, some, List, ◌≡◌, refl, sym, ap, ◌∙◌, str_eq,
}
use ocp_efa_operator.Api.Driver.{Driver}
use ocp_efa_operator.Api.Objects.{Kind, ObjectKey, Object, Node}
use ocp_efa_operator.Api.Client.{ApiError, Client}
use ocp_efa_operator.Api.Laws.{View}
use ocp_efa_operator.Controllers.Action.{Action, Outcome}
use ocp_efa_operator.Controllers.Exec.{State}
use ocp_efa_operator.Controllers.Exec.Reaches.{Ends, Ends-weaken}
use ocp_efa_operator.Controllers.Owned.{Reconciler, Request}
use ocp_efa_operator.Controllers.Owned.Provides.{first_at, or_else, or_else_twice}
use ocp_efa_operator.Controllers.Status.{ignored, find_driver, ReconcileResult}
use ocp_efa_operator.Controllers.Reconcile.{reconcile}
use ocp_efa_operator.Controllers.Reconcile.Now.{find_driver-name}
use ocp_efa_operator.Controllers.Reconcile.Converges.{result_for, Settled}
use ocp_efa_operator.Controllers.Reconcile.Target.{
  condition_for, settled_driver, settled_driver-condition,
}

condition_for_active : (b : Bool) → str_eq (condition_for b) ignored ≡ false
condition_for_active true = refl
condition_for_active false = refl

result_for-requeue : (b : Bool) (after : ℕ) → (result_for b after).requeue ≡ b
result_for-requeue true after = refl
result_for-requeue false after = refl

-- the run from `s` to `s'` writes no object, and asks for another run just as the one before it did
abbrev pub Stable :
    {Spec : Type 0} {c : Client Spec}
    → View c
    → ReconcileResult
    → State c.World
    → ReconcileResult
    → State c.World
    → Type 0
Stable v res s res' s' =
    (res'.requeue ≡ res.requeue)
    × ((k : Kind) (key : ObjectKey) → v.stored s'.world k key ≡ v.stored s.world k key)

module _ {Spec : Type 0} (r : Reconciler Spec) (v : View r.client)
    (create_cluster : Driver Spec → Action r.client.World Outcome)
    (delete_cluster : Driver Spec → Action r.client.World (Option ApiError)) (req : Request)
    (waits : List Node → Bool) (needed : Driver Spec → List Node → List Object)
    (needed_same : (ns : List Node) (efa d : Driver Spec)
      → d ≡ record efa { finalizers = d.finalizers; status = d.status }
      → needed d ns ≡ needed efa ns)
    (settles : (s : State r.client.World) (efa : Driver Spec)
      → find_driver req.name (v.drivers s.world) "" ≡ (some efa, "")
      → str_eq efa.status.condition ignored ≡ false
      → efa.deletion_timestamp ≡ none
      → Ends
          (Settled r v
            (r.request_string req)
            s
            efa
            (waits (v.nodes s.world))
            (needed efa (v.nodes s.world)))
          (reconcile r create_cluster delete_cluster req s)) where
  abbrev After :
      State r.client.World → Driver Spec → ReconcileResult → State r.client.World → Type 0
  After s efa =
      Settled r v (r.request_string req) s efa (waits (v.nodes s.world))
        (needed efa (v.nodes s.world))

  twice :
      (s : State r.client.World) (efa d : Driver Spec) (res res' : ReconcileResult)
      (s' s'' : State r.client.World)
      → d ≡ record efa { finalizers = d.finalizers; status = d.status }
      → After s efa res s'
      → After s' d res' s''
      → Stable v res s' res' s''
  twice s efa d res res' s' s'' like first second =
      let (result, back_off, driver, nodes, stored) = first in
      let (result', back_off', driver', nodes', stored') = second in
      (
        ap (λ x. x.requeue) result'
            ∙ result_for-requeue (waits (v.nodes s'.world)) _
            ∙ ap waits nodes
            ∙ sym (result_for-requeue (waits (v.nodes s.world)) _)
            ∙ sym (ap (λ x. x.requeue) result),
        λ k key.
            let same = ap (needed d) nodes ∙ needed_same (v.nodes s.world) efa d like in
            stored' k key
            ∙ ap (λ os. or_else (v.stored s'.world k key) (first_at os k key)) same
            ∙ ap (λ o. or_else o (first_at (needed efa (v.nodes s.world)) k key)) (stored k key)
            ∙ or_else_twice (v.stored s.world k key) (first_at (needed efa (v.nodes s.world)) k key)
            ∙ sym (stored k key),
      )

  pub reconcile-Stable :
      (s : State r.client.World) (efa : Driver Spec)
      → find_driver req.name (v.drivers s.world) "" ≡ (some efa, "")
      → str_eq efa.status.condition ignored ≡ false
      → efa.deletion_timestamp ≡ none
      → Ends
          (λ res s'. Ends (Stable v res s') (reconcile r create_cluster delete_cluster req s'))
          (reconcile r create_cluster delete_cluster req s)
  reconcile-Stable s efa found active alive =
      Ends-weaken (λ t. Unit) (After s efa) _ _
        (λ res s' first.
          let (result, back_off, listed, nodes, stored) = first in
          let waiting = waits (v.nodes s.world) in
          let d = settled_driver r waiting efa in
          let name = find_driver-name req.name (v.drivers s.world) efa "" "" found in
          Ends-weaken (λ t. Unit) (After s' d) (Stable v res s') _
            (λ res' s'' second. twice s efa d res res' s' s'' refl first second)
            (settles s' d (ap (λ n. find_driver n (v.drivers s'.world) "") (sym name) ∙ listed)
              (ap (λ c. str_eq c ignored) (settled_driver-condition r waiting efa)
                ∙ condition_for_active waiting)
              alive))
        (settles s efa found active alive)
