-- ===== src/Controllers/Efa/Cleanup.antt =====
-- What `DeleteCluster` of the EFA reconciler leaves on a lawful server.
use ocp_efa_operator.Prelude.{true, none, some, ◌≡◌, ◌⊎◌, ◌&&◌}
use ocp_efa_operator.Api.Driver.{EfaDriver, EfaDriverSpec}
use ocp_efa_operator.Api.Objects.{
  Kind, Object, ObjectKey, node_feature_rule, config_map, kmm_module, security_context_constraints,
  daemon_set,
}
use ocp_efa_operator.Api.Laws.{View, IsLawful, drop, is_at}
use ocp_efa_operator.Controllers.Owned.{Reconciler, is_open_shift}
use ocp_efa_operator.Controllers.Owned.Sweeps.{Shrinks-removes, Sweeps, Sweeps-if, Sweeps-▸}
use ocp_efa_operator.Controllers.Owned.Remove.{Sweeps-remove}
use ocp_efa_operator.Controllers.Owned.RemoveAll.{Sweeps-remove_all}
use ocp_efa_operator.Controllers.Efa.Manifests.{nfr_key, scc_key, device_plugin_key, kmm_labels}
use ocp_efa_operator.Controllers.Efa.Delete.{
  delete_device_plugin, delete_device_plugin_scc, delete_kmm, delete_config_map, delete_nfr,
  delete_cluster,
}
use ocp_efa_operator.Controllers.Efa.Footprint.{belongs}

module _ (r : Reconciler EfaDriverSpec) (v : View r.client) (laws : IsLawful r.client v)
    (efa : EfaDriver) where
  delete_device_plugin-Sweeps :
      Sweeps r v
        (λ o. is_at o daemon_set (device_plugin_key r efa))
        (delete_device_plugin r efa "efa")
  unfolding delete_device_plugin
  delete_device_plugin-Sweeps = Sweeps-remove r v laws daemon_set (device_plugin_key r efa)

  delete_device_plugin_scc-Sweeps :
      Sweeps r v
        (λ o.
          is_open_shift efa.spec.open_shift && is_at o security_context_constraints (scc_key r efa))
        (delete_device_plugin_scc r efa)
  unfolding delete_device_plugin_scc
  delete_device_plugin_scc-Sweeps =
      Sweeps-if r v (is_open_shift efa.spec.open_shift) _ _
        (Sweeps-remove r v laws security_context_constraints (scc_key r efa))

  pub delete_cluster-Sweeps : Sweeps r v (belongs r efa) (delete_cluster r efa)
  unfolding delete_cluster delete_kmm delete_config_map delete_nfr
  delete_cluster-Sweeps = Sweeps-▸ r v _ _ _ _ delete_device_plugin-Sweeps (
      Sweeps-▸ r v _ _ _ _ delete_device_plugin_scc-Sweeps (
        Sweeps-▸ r v _ _ _ _
          (Sweeps-remove_all r v laws kmm_module efa.spec.kmm_namespace (kmm_labels r efa))
          (Sweeps-▸ r v _ _ _ _
            (Sweeps-remove_all r v laws config_map efa.spec.kmm_namespace (kmm_labels r efa))
            (Sweeps-remove r v laws node_feature_rule (nfr_key r efa)))))

  -- If `DeleteCluster` returns no error on a lawful server, then exactly the objects that belong to
  -- the driver are gone from every place, and all others are as they were.
  pub delete_cluster-exact :
      (w : r.client.World)
      → (delete_cluster r efa w).0 ≡ none
      → (k : Kind) (key : ObjectKey)
      → v.stored (delete_cluster r efa w).1 k key ≡ drop (belongs r efa) (v.stored w k key)
  delete_cluster-exact w = delete_cluster-Sweeps.done w

  -- Also where `DeleteCluster` fails half way, on a lawful server it leaves every place as it was,
  -- but that it may empty one whose object belongs to the driver.
  pub delete_cluster-removes :
      (w : r.client.World) (k : Kind) (key : ObjectKey)
      → (v.stored (delete_cluster r efa w).1 k key ≡ v.stored w k key)
        ⊎ ((v.stored (delete_cluster r efa w).1 k key ≡ none)
            × (x : Object) × (v.stored w k key ≡ some x)
            × (belongs r efa x ≡ true))
  delete_cluster-removes w = Shrinks-removes r v (belongs r efa) (delete_cluster-Sweeps.shrinks w)
