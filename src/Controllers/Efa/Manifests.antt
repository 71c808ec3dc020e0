-- ===== src/Controllers/Efa/Manifests.antt =====
-- The objects that the EFA reconciler writes.
use Prim.Native.String.{String, ◌++◌}
use ocp_efa_operator.Prelude.{true, false, some, [], ◌∷◌}
use ocp_efa_operator.Api.Driver.{Labels, EfaDriver, EfaDriverSpec}
use ocp_efa_operator.Api.Objects.{
  OwnerReference, match_in, match_exists, NodeFeatureRule, SecurityContextConstraints, run_as_any,
  secret, persistent_volume_claim, ObjectKey,
}
use ocp_efa_operator.Controllers.Owned.{Reconciler, label_key, meta_at}

abbrev pub mod_name : String
mod_name = "efa"

module _ (r : Reconciler EfaDriverSpec) (efa : EfaDriver) where
  abbrev pub nfr_key : ObjectKey
  nfr_key = record { name = efa.name; namespace = r.operator_namespace }

  abbrev pub scc_key : ObjectKey
  scc_key = record {
    name = efa.name ++ "-" ++ efa.spec.device_plugin_service_account;
    namespace = "";
  }

  abbrev pub dockerfile_key : ObjectKey
  dockerfile_key = record {
    name = efa.name ++ "-efa-kmm-dockerfile";
    namespace = efa.spec.kmm_namespace;
  }

  abbrev pub kmm_key : ObjectKey
  kmm_key = record { name = efa.name ++ "-" ++ mod_name; namespace = efa.spec.kmm_namespace }

  abbrev pub device_plugin_key : ObjectKey
  device_plugin_key = record {
    name = efa.name ++ "-efa-device-plugin";
    namespace = r.operator_namespace;
  }

  abbrev pub driver_labels : Labels
  driver_labels = (label_key, efa.name) ∷ []

  abbrev pub kmm_labels : Labels
  kmm_labels = (label_key, efa.name) ∷ ("modName", mod_name) ∷ []

  unfoldable pub node_feature_rule_manifest : OwnerReference → NodeFeatureRule
  node_feature_rule_manifest owner = record {
    meta = meta_at nfr_key driver_labels owner;
    rules =
        record {
          name = "efa";
          labels = ("fms.io.efa.present", "true") ∷ [];
          labels_template = "";
          match_features =
              record { feature = "pci.device"; key = "device"; op = match_in; value = "efa0" ∷ [] }
              ∷ [];
        }
        ∷ record {
          name = "efa";
          labels = [];
          labels_template = "fms.io.dev.count={{ .pci.device | len }}";
          match_features =
              record { feature = "pci.device"; key = "device"; op = match_exists; value = [] } ∷ [];
        }
        ∷ [];
  }

  unfoldable pub scc_manifest : OwnerReference → SecurityContextConstraints
  scc_manifest owner = record {
    meta = meta_at scc_key driver_labels owner;
    allow_host_dir_volume_plugin = true;
    allow_privilege_escalation = some true;
    allow_privileged_container = true;
    allow_host_ipc = false;
    allow_host_network = false;
    allow_host_pid = false;
    allow_host_ports = false;
    priority = some 10;
    allowed_capabilities = "" ∷ [];
    forbidden_sysctls = "*" ∷ [];
    read_only_root_filesystem = false;
    fs_group = run_as_any;
    run_as_user = run_as_any;
    se_linux_context = run_as_any;
    supplemental_groups = run_as_any;
    volumes = secret ∷ persistent_volume_claim ∷ [];
    users =
        ("system:serviceaccount:" ++ r.operator_namespace ++ ":"
          ++ efa.spec.device_plugin_service_account)
        ∷ [];
  }
