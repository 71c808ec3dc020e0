-- ===== src/Controllers/Efa/Delete.antt =====
-- `DeleteCluster` of the EFA reconciler and the functions that it calls, in the order of its calls.
use Prim.Native.String.{String, ◌++◌}
use ocp_efa_operator.Prelude.{Option, none, [], ◌∷◌, if◌then◌else◌}
use ocp_efa_operator.Api.Driver.{Labels, EfaDriver, EfaDriverSpec}
use ocp_efa_operator.Api.Objects.{
  node_feature_rule, config_map, kmm_module, security_context_constraints, daemon_set,
}
use ocp_efa_operator.Api.Client.{ApiError}
use ocp_efa_operator.Controllers.Action.{Action, pure, ◌▸◌}
use ocp_efa_operator.Controllers.Owned.{Reconciler, label_key, is_open_shift, remove, remove_all}
use ocp_efa_operator.Controllers.Efa.Manifests.{nfr_key, scc_key}

module _ (r : Reconciler EfaDriverSpec) (efa : EfaDriver) where
  unfoldable pub delete_device_plugin : String → Action r.client.World (Option ApiError)
  delete_device_plugin mod_name = remove r daemon_set (record {
    name = efa.name ++ "-" ++ mod_name ++ "-device-plugin";
    namespace = r.operator_namespace;
  })

  unfoldable pub delete_device_plugin_scc : Action r.client.World (Option ApiError)
  delete_device_plugin_scc =
      if is_open_shift efa.spec.open_shift
      then remove r security_context_constraints (scc_key r efa)
      else pure none

  abbrev pub module_labels : String → Labels
  module_labels mod_name = (label_key, efa.name) ∷ ("modName", mod_name) ∷ []

  unfoldable pub delete_kmm : String → Action r.client.World (Option ApiError)
  delete_kmm mod_name = remove_all r kmm_module efa.spec.kmm_namespace (module_labels mod_name)

  unfoldable pub delete_config_map : String → Action r.client.World (Option ApiError)
  delete_config_map mod_name =
      remove_all r config_map efa.spec.kmm_namespace (module_labels mod_name)

  unfoldable pub delete_nfr : Action r.client.World (Option ApiError)
  delete_nfr = remove r node_feature_rule (nfr_key r efa)

  unfoldable pub delete_cluster : Action r.client.World (Option ApiError)
  delete_cluster =
      delete_device_plugin "efa"
      ▸ delete_device_plugin_scc
      ▸ delete_kmm "efa"
      ▸ delete_config_map "efa"
      ▸ delete_nfr
