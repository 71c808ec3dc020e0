-- ===== src/Controllers/Efa/Settles.antt =====
-- `Reconcile` of the EFA reconciler as a whole, where nothing fails.
use ocp_efa_operator.Prelude.{false, none, some, List, ◌≡◌, refl, ap, ◌∙◌, subst, str_eq}
use ocp_efa_operator.Api.Driver.{EfaDriver, EfaDriverSpec}
use ocp_efa_operator.Api.Objects.{Node}
use ocp_efa_operator.Api.Client.{ok}
use ocp_efa_operator.Api.Laws.{View, IsLawful}
use ocp_efa_operator.Api.Responsive.{IsResponsive}
use ocp_efa_operator.Controllers.Exec.{State}
use ocp_efa_operator.Controllers.Exec.Reaches.{Ends}
use ocp_efa_operator.Controllers.Owned.{Reconciler, Request, GroupVersionKind, owner_reference}
use ocp_efa_operator.Controllers.Owned.Provides.{Filled}
use ocp_efa_operator.Controllers.Status.{ignored, find_driver}
use ocp_efa_operator.Controllers.Reconcile.{reconcile}
use ocp_efa_operator.Controllers.Reconcile.Stable.{Stable}
use ocp_efa_operator.Controllers.Reconcile.Converges.{Settled, reconcile-Settled}
use ocp_efa_operator.Controllers.Efa.Nodes.{node_status}
use ocp_efa_operator.Controllers.Efa.Manifests.{node_feature_rule_manifest, scc_manifest}
use ocp_efa_operator.Controllers.Efa.Kmm.{
  dockerfile_manifest, kmm_manifest, kernel_mapping, node_selector,
}
use ocp_efa_operator.Controllers.Efa.DevicePlugin.{device_plugin_manifest}
use ocp_efa_operator.Controllers.Efa.Create.{create_cluster}
use ocp_efa_operator.Controllers.Efa.Delete.{delete_cluster}
use ocp_efa_operator.Controllers.Efa.Provision.{needed, create_cluster-Filled}

-- the objects do not depend on the finalizers and the status
needed_same :
    (r : Reconciler EfaDriverSpec) (gvk : GroupVersionKind) (ns : List Node) (efa d : EfaDriver)
    → d ≡ record efa { finalizers = d.finalizers; status = d.status }
    → needed r d (owner_reference d gvk) ns ≡ needed r efa (owner_reference efa gvk) ns
unfolding owner_reference node_feature_rule_manifest scc_manifest dockerfile_manifest kmm_manifest
    device_plugin_manifest kernel_mapping node_selector
needed_same r gvk ns efa d like = ap (λ (x : EfaDriver). needed r x (owner_reference x gvk) ns) like

module _ (r : Reconciler EfaDriverSpec) (v : View r.client) (laws : IsLawful r.client v)
    (up : IsResponsive r.client v) (gvk : GroupVersionKind)
    (known : (d : EfaDriver) → r.gvk_for_object d ≡ ok gvk) where
  -- On a lawful server that answers, where the kind of the drivers is known: if the request's
  -- driver is the first of its name, is not being deleted, is not marked as ignored, and no driver
  -- before it is deployed, then `Reconcile` raises no error; it asks for another run exactly if a
  -- node is waited for, then one second later than the request's delay so far, which becomes its
  -- new delay, and forgets that delay otherwise; the driver is in the list with no change but
  -- that `AddFinalizer` is applied to its finalizers where the finalizer is missing, and that its
  -- condition is `DeviceDiscovery` or `Ready` accordingly, where this is new with the description
  -- that goes with it; the nodes are as they were; and each place holds what it held before or
  -- else, where it was empty, the first of the driver's objects that belongs there. Delays are
  -- nanoseconds modulo 2^64.
  pub reconcile-settles :
      (req : Request) (s : State r.client.World) (efa : EfaDriver)
      → find_driver req.name (v.drivers s.world) "" ≡ (some efa, "")
      → str_eq efa.status.condition ignored ≡ false
      → efa.deletion_timestamp ≡ none
      → Ends
          (Settled r v
            (r.request_string req)
            s
            efa
            (node_status (v.nodes s.world)).0
            (needed r efa (owner_reference efa gvk) (v.nodes s.world)))
          (reconcile r (create_cluster r) (delete_cluster r) req s)
  reconcile-settles req s efa found active alive =
      let ns = v.nodes s.world in
      reconcile-Settled r v laws up (create_cluster r) (delete_cluster r) efa ns s.back_off_duration
        (node_status ns).0 (needed r efa (owner_reference efa gvk) ns)
        (λ d like w here.
          let (outcome, filled) = create_cluster-Filled r v laws up d gvk (known d) w in
          (
            outcome ∙ ap (λ n. ((node_status n).0, none)) here,
            subst (λ os. Filled r v os w (create_cluster r d w).1)
                (ap (λ n. needed r d (owner_reference d gvk) n) here
                  ∙ needed_same r gvk ns efa d like)
                filled,
          ))
        alive req s found active refl refl
