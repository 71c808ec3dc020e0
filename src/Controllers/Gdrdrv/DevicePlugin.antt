-- ===== src/Controllers/Gdrdrv/DevicePlugin.antt =====
-- The daemon set of the GDRCOPY device plugin.
use Prim.Native.String.{◌++◌}
use ocp_efa_operator.Prelude.{true, some, [], ◌∷◌}
use ocp_efa_operator.Api.Driver.{Labels, GdrdrvDriver, GdrdrvDriverSpec}
use ocp_efa_operator.Api.Objects.{OwnerReference, DaemonSet, pull_always, host_path_directory}
use ocp_efa_operator.Controllers.Owned.{Reconciler, label_key, meta_at}
use ocp_efa_operator.Controllers.Gdrdrv.Manifests.{
  gpu_present_label, device_plugin_key, driver_labels,
}

module _ (r : Reconciler GdrdrvDriverSpec) (efa : GdrdrvDriver) where
  abbrev pod_labels : Labels
  pod_labels = (label_key, efa.name ++ "-gdrdrv-device-plugin") ∷ []

  unfoldable pub device_plugin_manifest : OwnerReference → DaemonSet
  device_plugin_manifest owner = record {
    meta = meta_at (device_plugin_key r efa) (driver_labels r efa) owner;
    match_labels = pod_labels;
    template_labels = pod_labels;
    image_pull_secrets = efa.spec.image_pull_secrets;
    service_account_name = efa.spec.device_plugin_service_account;
    affinity = record { key = gpu_present_label; operator = "In"; values = "true" ∷ [] } ∷ [];
    node_selector = efa.spec.node_selector;
    tolerations =
        record { key = "nvidia.com/gpu"; operator = "Exists"; effect = "NoSchedule" } ∷ [];
    containers =
        record {
          name = "device-plugin";
          image = efa.spec.gdrdrv_device_plugin_image;
          image_pull_policy = pull_always;
          command = "/usr/local/bin/ocp-gdrdrv-device-plugin" ∷ [];
          privileged = some true;
          capabilities_add = "MKNOD" ∷ [];
          run_as_user = some 0;
          volume_mounts =
              record { name = "dev"; mount_path = "/dev" }
              ∷ record { name = "plugins-dir"; mount_path = r.device_plugin_path }
              ∷ [];
        }
        ∷ [];
    volumes =
        record { name = "dev"; host_path = "/dev"; host_path_type = host_path_directory }
        ∷ record {
          name = "plugins-dir";
          host_path = r.device_plugin_path;
          host_path_type = host_path_directory;
        }
        ∷ [];
  }
