-- ===== src/Controllers/Gdrdrv/Footprint.antt =====
-- The objects that belong to a GDRCOPY driver, as `DeleteCluster` finds them, and that every manifest
-- of the driver is one of them.
use Prim.Native.String.{◌++◌}
use ocp_efa_operator.Prelude.{String, Bool, true, ◌&&◌, ◌||◌, ◌≡◌, arith, eq_refl, lookup}
use ocp_efa_operator.Api.Driver.{GdrdrvDriver, GdrdrvDriverSpec}
use ocp_efa_operator.Api.Objects.{
  OwnerReference, Object, config_map, kmm_module, security_context_constraints, daemon_set,
  of_config_map, of_module, of_scc, of_daemon_set,
}
use ocp_efa_operator.Api.Laws.{is_at, is_selected}
use ocp_efa_operator.Controllers.Owned.{Reconciler, is_open_shift}
use ocp_efa_operator.Controllers.Efa.Nodes.{KernelVers}
use ocp_efa_operator.Controllers.Gdrdrv.Manifests.{
  scc_key, device_plugin_key, scc_manifest, kmm_labels,
}
use ocp_efa_operator.Controllers.Gdrdrv.Kmm.{dockerfile_manifest, kmm_manifest}
use ocp_efa_operator.Controllers.Gdrdrv.DevicePlugin.{device_plugin_manifest}

module _ (r : Reconciler GdrdrvDriverSpec) (efa : GdrdrvDriver) where
  -- The daemon set, the security context constraints under OpenShift, the modules and config maps
  -- that carry the driver's two labels.
  abbrev pub belongs : Object → Bool
  belongs o =
      is_at o daemon_set (device_plugin_key r efa)
      || ((is_open_shift efa.spec.open_shift
            && is_at o security_context_constraints (scc_key r efa))
          || (is_selected kmm_module efa.spec.kmm_namespace (kmm_labels r efa) o
              || is_selected config_map efa.spec.kmm_namespace (kmm_labels r efa) o))

  module _ (owner : OwnerReference) where
    pub dockerfile-belongs :
        (cuda : String) → belongs (of_config_map (dockerfile_manifest r efa cuda owner)) ≡ true
    unfolding dockerfile_manifest lookup
    dockerfile-belongs cuda = ground (arith, eq_refl efa.name, eq_refl efa.spec.kmm_namespace)

    pub kmm-belongs :
        (cuda : String) (vers : KernelVers)
        → belongs (of_module (kmm_manifest r efa cuda vers owner)) ≡ true
    unfolding kmm_manifest lookup
    kmm-belongs cuda vers = ground (arith, eq_refl efa.name, eq_refl efa.spec.kmm_namespace)

    pub device_plugin-belongs : belongs (of_daemon_set (device_plugin_manifest r efa owner)) ≡ true
    unfolding device_plugin_manifest
    device_plugin-belongs =
        ground (arith, eq_refl (efa.name ++ "-gdrdrv-device-plugin"), eq_refl r.operator_namespace)

    pub scc-belongs :
        is_open_shift efa.spec.open_shift ≡ true
        → belongs (of_scc (scc_manifest r efa owner)) ≡ true
    unfolding scc_manifest
    scc-belongs on =
        rw on (ground (arith, eq_refl (efa.name ++ "-" ++ efa.spec.device_plugin_service_account)))
