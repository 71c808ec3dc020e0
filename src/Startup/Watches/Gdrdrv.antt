-- ===== src/Startup/Watches/Gdrdrv.antt =====
-- The manager hears of every object that the GDRCOPY reconciler creates.
use ocp_efa_operator.Prelude.{List, [], ◌∷◌, All, none, some, inl, inr, refl, ◌∙◌, ◌≡◌, ◌⊎◌}
use ocp_efa_operator.Api.Driver.{GdrdrvDriver, GdrdrvDriverSpec}
use ocp_efa_operator.Api.Objects.{Kind, ObjectKey, Object, Node, OwnerReference}
use ocp_efa_operator.Api.Client.{ok}
use ocp_efa_operator.Api.Laws.{View, IsLawful}
use ocp_efa_operator.Api.Responsive.{IsResponsive}
use ocp_efa_operator.Controllers.Owned.{Reconciler, GroupVersionKind, owner_reference}
use ocp_efa_operator.Controllers.Owned.Needed.{or_else-All}
use ocp_efa_operator.Controllers.Gdrdrv.Manifests.{scc_manifest}
use ocp_efa_operator.Controllers.Gdrdrv.Kmm.{dockerfile_manifest, kmm_manifest}
use ocp_efa_operator.Controllers.Gdrdrv.DevicePlugin.{device_plugin_manifest}
use ocp_efa_operator.Controllers.Gdrdrv.Create.{create_cluster}
use ocp_efa_operator.Controllers.Gdrdrv.Provision.{needed, create_cluster-Filled}
use ocp_efa_operator.Controllers.Gdrdrv.Needed.{needed-All}
use ocp_efa_operator.Startup.{gdrdrv_setup}
use ocp_efa_operator.Startup.Watches.{IsController, IsHeard, owner_reference-IsController}

needed-IsHeard :
    (r : Reconciler GdrdrvDriverSpec) (efa : GdrdrvDriver) (gvk : GroupVersionKind) (ns : List Node)
    → All (IsHeard gdrdrv_setup gvk efa) (needed r efa (owner_reference efa gvk) ns)
unfolding scc_manifest dockerfile_manifest kmm_manifest device_plugin_manifest
needed-IsHeard r efa gvk =
    let owner = owner_reference efa gvk in
    let ours : (o : OwnerReference) × ((owner ∷ []) ≡ o ∷ []) × IsController gvk efa o =
      (owner, refl, owner_reference-IsController gvk efa) in
    needed-All r efa owner (IsHeard gdrdrv_setup gvk efa) (λ cuda. (ours, inl refl))
      (λ cuda vers. (ours, inr (inl refl))) (λ on. (ours, inr (inr (inr (inl refl)))))
      (ours, inr (inr (inl refl)))

-- On a lawful server that answers, for a driver of which the kind is known: `CreateCluster` leaves
-- every place as it was, but that it may put an object where there was none, and then one of a kind
-- that `SetupWithManager` of the GDRCOPY reconciler owns, of which the driver is the only owner: the
-- reference has the kind, the name and the uid of the driver and marks it as the controller.
pub create_cluster-IsHeard_gdrdrv :
    (r : Reconciler GdrdrvDriverSpec) (v : View r.client)
    → IsLawful r.client v
    → IsResponsive r.client v
    → (efa : GdrdrvDriver) (gvk : GroupVersionKind) → r.gvk_for_object efa ≡ ok gvk
    → (w : r.client.World) (k : Kind) (key : ObjectKey)
    → (v.stored (create_cluster r efa w).1 k key ≡ v.stored w k key)
      ⊎ ((v.stored w k key ≡ none)
          × (x : Object) × (v.stored (create_cluster r efa w).1 k key ≡ some x)
          × IsHeard gdrdrv_setup gvk efa x)
create_cluster-IsHeard_gdrdrv r v laws up efa gvk known w k key =
    let owner = owner_reference efa gvk in
    let at = (create_cluster-Filled r v laws up efa gvk known w).1.at k key in
    elim (or_else-All (IsHeard gdrdrv_setup gvk efa) (needed r efa owner (v.nodes w)) k key
      (v.stored w k key) (needed-IsHeard r efa gvk (v.nodes w))) [
        | inl same ↦ inl (at ∙ same)
        | inr (gone, x, there, heard) ↦ inr (gone, x, at ∙ there, heard)
      ]
