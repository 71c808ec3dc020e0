-- ===== src/Controllers/Gdrdrv/Manifests.antt =====
-- The objects that the GDRCOPY reconciler writes.
use Prim.Native.String.{String, ◌++◌}
use ocp_efa_operator.Prelude.{true, false, some, [], ◌∷◌}
use ocp_efa_operator.Api.Driver.{Labels, GdrdrvDriver, GdrdrvDriverSpec}
use ocp_efa_operator.Api.Objects.{
  OwnerReference, SecurityContextConstraints, run_as_any, secret, persistent_volume_claim,
  ObjectKey,
}
use ocp_efa_operator.Controllers.Owned.{Reconciler, label_key, meta_at}

abbrev pub mod_name : String
mod_name = "gdrdrv"

abbrev pub gpu_present_label : String
gpu_present_label = "nvidia.com/gpu.present"

module _ (r : Reconciler GdrdrvDriverSpec) (efa : GdrdrvDriver) where
  abbrev pub scc_key : ObjectKey
  scc_key = record {
    name = efa.name ++ "-" ++ efa.spec.device_plugin_service_account;
    namespace = "";
  }

  abbrev pub dockerfile_key : String → ObjectKey
  dockerfile_key cuda_drv_ver = record {
    name = efa.name ++ "-gdrdrv-kmm-dockerfile-cudadrv-" ++ cuda_drv_ver;
    namespace = efa.spec.kmm_namespace;
  }

  abbrev pub kmm_key : String → ObjectKey
  kmm_key cuda_drv_ver = record {
    name = efa.name ++ "-" ++ mod_name ++ "-cudadrv-" ++ cuda_drv_ver;
    namespace = efa.spec.kmm_namespace;
  }

  abbrev pub device_plugin_key : ObjectKey
  device_plugin_key = record {
    name = efa.name ++ "-gdrdrv-device-plugin";
    namespace = r.operator_namespace;
  }

  abbrev pub driver_labels : Labels
  driver_labels = (label_key, efa.name) ∷ []

  abbrev pub kmm_labels : Labels
  kmm_labels = (label_key, efa.name) ∷ ("modName", mod_name) ∷ []

  unfoldable pub scc_manifest : OwnerReference → SecurityContextConstraints
  scc_manifest owner = record {
    meta = meta_at scc_key driver_labels owner;
    allow_host_dir_volume_plugin = true;
    allow_privilege_escalation = some true;
    allow_privileged_container = true;
    allow_host_ipc = false;
    allow_host_network = false;
    allow_host_pid = false;
    allow_host_ports = false;
    priority = some 10;
    allowed_capabilities = "MKNOD" ∷ [];
    forbidden_sysctls = "*" ∷ [];
    read_only_root_filesystem = false;
    fs_group = run_as_any;
    run_as_user = run_as_any;
    se_linux_context = run_as_any;
    supplemental_groups = run_as_any;
    volumes = secret ∷ persistent_volume_claim ∷ [];
    users =
        ("system:serviceaccount:" ++ r.operator_namespace ++ ":"
          ++ efa.spec.device_plugin_service_account)
        ∷ [];
  }
