-- ===== src/Controllers/Efa/DevicePlugin.antt =====
-- The daemon set of the EFA device plugin.
use Prim.Native.String.{◌++◌}
use ocp_efa_operator.Prelude.{true, some, [], ◌∷◌}
use ocp_efa_operator.Api.Driver.{Labels, EfaDriver, EfaDriverSpec}
use ocp_efa_operator.Api.Objects.{OwnerReference, DaemonSet, pull_always, host_path_directory}
use ocp_efa_operator.Controllers.Owned.{Reconciler, label_key, meta_at}
use ocp_efa_operator.Controllers.Efa.Nodes.{efa_present_label}
use ocp_efa_operator.Controllers.Efa.Manifests.{device_plugin_key, driver_labels}

module _ (r : Reconciler EfaDriverSpec) (efa : EfaDriver) where
  abbrev pod_labels : Labels
  pod_labels = (label_key, efa.name ++ "-efa-device-plugin") ∷ []

  unfoldable pub device_plugin_manifest : OwnerReference → DaemonSet
  device_plugin_manifest owner = record {
    meta = meta_at (device_plugin_key r efa) (driver_labels r efa) owner;
    match_labels = pod_labels;
    template_labels = pod_labels;
    image_pull_secrets = efa.spec.image_pull_secrets;
    service_account_name = efa.spec.device_plugin_service_account;
    affinity = record { key = efa_present_label; operator = "In"; values = "true" ∷ [] } ∷ [];
    node_selector = efa.spec.node_selector;
    tolerations = [];
    containers =
        record {
          name = "device-plugin";
          image = efa.spec.efa_device_plugin_image;
          image_pull_policy = pull_always;
          command = "/usr/local/bin/ocp-efa-device-plugin" ∷ [];
          privileged = some true;
          capabilities_add = [];
          run_as_user = some 0;
          volume_mounts =
              record { name = "dev"; mount_path = "/dev" }
              ∷ record { name = "plugins-dir"; mount_path = r.device_plugin_path }
              ∷ [];
        }
        ∷ [];
    volumes =
        record { name = "dev"; host_path = "/dev"; host_path_type = host_path_directory }
        ∷ record {
          name = "plugins-dir";
          host_path = r.device_plugin_path;
          host_path_type = host_path_directory;
        }
        ∷ [];
  }
