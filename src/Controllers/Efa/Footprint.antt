-- ===== src/Controllers/Efa/Footprint.antt =====
-- The objects that belong to an EFA driver, as `DeleteCluster` finds them, and that every manifest
-- of the driver is one of them.
use Prim.Native.String.{◌++◌}
use ocp_efa_operator.Prelude.{Bool, true, ◌&&◌, ◌||◌, ◌≡◌, arith, eq_refl, lookup}
use ocp_efa_operator.Api.Driver.{EfaDriver, EfaDriverSpec}
use ocp_efa_operator.Api.Objects.{
  OwnerReference, Object, node_feature_rule, config_map, kmm_module, security_context_constraints,
  daemon_set, of_rule, of_config_map, of_module, of_scc, of_daemon_set,
}
use ocp_efa_operator.Api.Laws.{is_at, is_selected}
use ocp_efa_operator.Controllers.Owned.{Reconciler, is_open_shift}
use ocp_efa_operator.Controllers.Efa.Nodes.{KernelVers}
use ocp_efa_operator.Controllers.Efa.Manifests.{
  nfr_key, scc_key, device_plugin_key, node_feature_rule_manifest, scc_manifest, kmm_labels,
}
use ocp_efa_operator.Controllers.Efa.Kmm.{dockerfile_manifest, kmm_manifest}
use ocp_efa_operator.Controllers.Efa.DevicePlugin.{device_plugin_manifest}

module _ (r : Reconciler EfaDriverSpec) (efa : EfaDriver) where
  -- The daemon set, the security context constraints under OpenShift, the modules and config maps
  -- that carry the driver's two labels, and the node feature rule.
  abbrev pub belongs : Object → Bool
  belongs o =
      is_at o daemon_set (device_plugin_key r efa)
      || ((is_open_shift efa.spec.open_shift
            && is_at o security_context_constraints (scc_key r efa))
          || (is_selected kmm_module efa.spec.kmm_namespace (kmm_labels r efa) o
              || (is_selected config_map efa.spec.kmm_namespace (kmm_labels r efa) o
                  || is_at o node_feature_rule (nfr_key r efa))))

  module _ (owner : OwnerReference) where
    pub nfr-belongs : belongs (of_rule (node_feature_rule_manifest r efa owner)) ≡ true
    unfolding node_feature_rule_manifest
    nfr-belongs = ground (arith, eq_refl efa.name, eq_refl r.operator_namespace)

    pub dockerfile-belongs : belongs (of_config_map (dockerfile_manifest r efa owner)) ≡ true
    unfolding dockerfile_manifest lookup
    dockerfile-belongs = ground (arith, eq_refl efa.name, eq_refl efa.spec.kmm_namespace)

    pub kmm-belongs :
        (vers : KernelVers) → belongs (of_module (kmm_manifest r efa vers owner)) ≡ true
    unfolding kmm_manifest lookup
    kmm-belongs vers = ground (arith, eq_refl efa.name, eq_refl efa.spec.kmm_namespace)

    pub device_plugin-belongs : belongs (of_daemon_set (device_plugin_manifest r efa owner)) ≡ true
    unfolding device_plugin_manifest
    device_plugin-belongs =
        ground (arith, eq_refl (efa.name ++ "-efa-device-plugin"), eq_refl r.operator_namespace)

    pub scc-belongs :
        is_open_shift efa.spec.open_shift ≡ true
        → belongs (of_scc (scc_manifest r efa owner)) ≡ true
    unfolding scc_manifest
    scc-belongs on =
        rw on (ground (arith, eq_refl (efa.name ++ "-" ++ efa.spec.device_plugin_service_account)))
