-- ===== src/Controllers/Gdrdrv/Settles.antt =====
-- `Reconcile` of the GDRCOPY reconciler as a whole, where nothing fails.
use ocp_efa_operator.Prelude.{false, none, some, List, ◌≡◌, refl, ap, ◌∙◌, subst, str_eq}
use ocp_efa_operator.Api.Driver.{GdrdrvDriver, GdrdrvDriverSpec}
use ocp_efa_operator.Api.Objects.{Node}
use ocp_efa_operator.Api.Client.{ok}
use ocp_efa_operator.Api.Laws.{View, IsLawful}
use ocp_efa_operator.Api.Responsive.{IsResponsive}
use ocp_efa_operator.Controllers.Exec.{State}
use ocp_efa_operator.Controllers.Exec.Reaches.{Ends}
use ocp_efa_operator.Controllers.Owned.{Reconciler, Request, GroupVersionKind, owner_reference}
use ocp_efa_operator.Controllers.Owned.Provides.{Filled}
use ocp_efa_operator.Controllers.Status.{ignored, find_driver}
use ocp_efa_operator.Controllers.Reconcile.{reconcile}
use ocp_efa_operator.Controllers.Reconcile.Stable.{Stable, reconcile-Stable}
use ocp_efa_operator.Controllers.Reconcile.Converges.{Settled, reconcile-Settled}
use ocp_efa_operator.Controllers.Gdrdrv.Manifests.{scc_manifest}
use ocp_efa_operator.Controllers.Gdrdrv.Kmm.{
  dockerfile_manifest, kmm_manifest, kernel_mapping, node_selector,
}
use ocp_efa_operator.Controllers.Gdrdrv.DevicePlugin.{device_plugin_manifest}
use ocp_efa_operator.Controllers.Gdrdrv.Create.{create_cluster}
use ocp_efa_operator.Controllers.Gdrdrv.Delete.{delete_cluster}
use ocp_efa_operator.Controllers.Gdrdrv.Provision.{needed, create_cluster-Filled}

-- the objects do not depend on the finalizers and the status
needed_same :
    (r : Reconciler GdrdrvDriverSpec) (gvk : GroupVersionKind) (ns : List Node)
    (efa d : GdrdrvDriver)
    → d ≡ record efa { finalizers = d.finalizers; status = d.status }
    → needed r d (owner_reference d gvk) ns ≡ needed r efa (owner_reference efa gvk) ns
unfolding owner_reference scc_manifest dockerfile_manifest kmm_manifest device_plugin_manifest
    kernel_mapping node_selector
needed_same r gvk ns efa d like =
    ap (λ (x : GdrdrvDriver). needed r x (owner_reference x gvk) ns) like

module _ (r : Reconciler GdrdrvDriverSpec) (v : View r.client) (laws : IsLawful r.client v)
    (up : IsResponsive r.client v) (gvk : GroupVersionKind)
    (known : (d : GdrdrvDriver) → r.gvk_for_object d ≡ ok gvk) where
  -- On a lawful server that answers, where the kind of the drivers is known: if the request's
  -- driver is the first of its name, is not being deleted, is not marked as ignored, and no driver
  -- before it is deployed, then `Reconcile` raises no error, asks for no other run and forgets the
  -- request's delay; the driver is in the list with no change but that `AddFinalizer`
  -- is applied to its finalizers where the finalizer is missing, and that its condition is `Ready`, where this is new with
  -- the description `Ready`; the nodes are as they were; and each place holds what it
  -- held before or else, where it was empty, the first of the driver's objects that belongs there.
  pub reconcile-settles_gdrdrv :
      (req : Request) (s : State r.client.World) (efa : GdrdrvDriver)
      → find_driver req.name (v.drivers s.world) "" ≡ (some efa, "")
      → str_eq efa.status.condition ignored ≡ false
      → efa.deletion_timestamp ≡ none
      → Ends
          (Settled r v
            (r.request_string req)
            s
            efa
            false
            (needed r efa (owner_reference efa gvk) (v.nodes s.world)))
          (reconcile r (create_cluster r) (delete_cluster r) req s)
  reconcile-settles_gdrdrv req s efa found active alive =
      let ns = v.nodes s.world in
      reconcile-Settled r v laws up (create_cluster r) (delete_cluster r) efa ns s.back_off_duration
        false (needed r efa (owner_reference efa gvk) ns)
        (λ d like w here.
          let (outcome, filled) = create_cluster-Filled r v laws up d gvk (known d) w in
          (
            outcome,
            subst (λ os. Filled r v os w (create_cluster r d w).1)
                (ap (λ n. needed r d (owner_reference d gvk) n) here
                  ∙ needed_same r gvk ns efa d like)
                filled,
          ))
        alive req s found active refl refl

  -- On a lawful server that answers, where the kind of the drivers is known: if the request's driver
  -- is the first of its name, is not being deleted, is not marked as ignored, and no driver before it
  -- is deployed, then `Reconcile` raises no error, and neither does a second run after it, which
  -- writes no object and asks for another run exactly if the first one did.
  pub reconcile-reconcile_gdrdrv :
      (req : Request) (s : State r.client.World) (efa : GdrdrvDriver)
      → find_driver req.name (v.drivers s.world) "" ≡ (some efa, "")
      → str_eq efa.status.condition ignored ≡ false
      → efa.deletion_timestamp ≡ none
      → Ends
          (λ res s'.
            Ends (Stable v res s') (reconcile r (create_cluster r) (delete_cluster r) req s'))
          (reconcile r (create_cluster r) (delete_cluster r) req s)
  reconcile-reconcile_gdrdrv req =
      reconcile-Stable r v (create_cluster r) (delete_cluster r) req (λ ns. false)
        (λ d. needed r d (owner_reference d gvk)) (needed_same r gvk) (reconcile-settles_gdrdrv req)
