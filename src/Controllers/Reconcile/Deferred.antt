-- ===== src/Controllers/Reconcile/Deferred.antt =====
-- `Reconcile` for a resource behind one that is deployed, by what the loop finds, where the server
-- answers.
use Prim.Native.String.{◌++◌}
use ocp_efa_operator.Prelude.{String, false, Option, some, ◌≡◌, refl, ap, ◌∙◌, str_eq}
use ocp_efa_operator.Api.Driver.{Driver}
use ocp_efa_operator.Api.Objects.{Kind, ObjectKey}
use ocp_efa_operator.Api.Client.{ApiError}
use ocp_efa_operator.Api.Laws.{View, IsLawful, first_named, replace}
use ocp_efa_operator.Api.Responsive.{IsResponsive}
use ocp_efa_operator.Controllers.Action.{Action, Outcome}
use ocp_efa_operator.Controllers.Exec.{State}
use ocp_efa_operator.Controllers.Exec.Reaches.{Ends}
use ocp_efa_operator.Controllers.Owned.{Reconciler, Request}
use ocp_efa_operator.Controllers.Status.{
  ignored, find_driver, with_status, ReconcileResult, no_requeue,
}
use ocp_efa_operator.Controllers.Reconcile.{
  ignore_driver, reconcile_found, reconcile_listed, reconcile,
}
use ocp_efa_operator.Controllers.Reconcile.Now.{
  find_driver-name, find_driver_not_empty, find_driver-first_named,
}

-- the resource as `Reconcile` leaves it
abbrev pub deferred : {Spec : Type 0} → Driver Spec → String → Driver Spec
deferred efa deployed =
    with_status efa ignored
      ("Ignored since an active resource is already deployed (" ++ deployed ++ ")")

module _ {Spec : Type 0} (r : Reconciler Spec) (v : View r.client) (laws : IsLawful r.client v)
    (up : IsResponsive r.client v) (create_cluster : Driver Spec → Action r.client.World Outcome)
    (delete_cluster : Driver Spec → Action r.client.World (Option ApiError)) where
  -- what the run leaves
  abbrev pub Deferred :
      State r.client.World → Driver Spec → ReconcileResult → State r.client.World → Type 0
  Deferred s d res s' =
      (res ≡ no_requeue)
      × (v.drivers s'.world ≡ replace d (v.drivers s.world))
      × (v.nodes s'.world ≡ v.nodes s.world)
      × (s'.back_off_duration ≡ s.back_off_duration)
      × ((k : Kind) (key : ObjectKey) → v.stored s'.world k key ≡ v.stored s.world k key)

  pub reconcile-Deferred :
      (req : Request) (s : State r.client.World) (efa : Driver Spec) (deployed : String)
      → find_driver req.name (v.drivers s.world) "" ≡ (some efa, deployed)
      → str_eq efa.status.condition ignored ≡ false
      → str_eq deployed "" ≡ false
      → Ends (Deferred s (deferred efa deployed)) (reconcile r create_cluster delete_cluster req s)
  unfolding reconcile reconcile_listed reconcile_found ignore_driver
  reconcile-Deferred req s efa deployed found active occupied =
      let d = deferred efa deployed in
      let name = find_driver-name req.name (v.drivers s.world) efa "" deployed found in
      let first =
        ap (λ n. first_named n (v.drivers s.world)) name
        ∙ find_driver-first_named req.name (v.drivers s.world) efa "" deployed found in
      let accepted = up.update_status s.world d efa first refl in
      rw (up.list s.world, laws.list_world s.world)
        (rw (find_driver_not_empty req.name (v.drivers s.world) efa "" deployed found) (
          rw found (
            rw active (
              rw occupied (
                rw accepted (
                  refl,
                  (laws.update_status_ok s.world d d accepted).1,
                  up.update_status_nodes s.world d,
                  refl,
                  laws.update_status_stored s.world d,
                ))))))
