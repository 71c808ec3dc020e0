-- ===== src/Controllers/Efa/Create.antt =====
-- `CreateCluster` of the EFA reconciler and the functions that it calls, in the order of its calls.
use ocp_efa_operator.Prelude.{Bool, true, false, none, some, is_empty, if◌then◌else◌}
use ocp_efa_operator.Api.Driver.{EfaDriver, EfaDriverSpec}
use ocp_efa_operator.Api.Objects.{
  OwnerReference, node_feature_rule, config_map, kmm_module, security_context_constraints,
  daemon_set, of_rule, of_config_map, of_module, of_scc, of_daemon_set,
}
use ocp_efa_operator.Api.Client.{is_already_exists, Result, ok, err}
use ocp_efa_operator.Controllers.Action.{Action, ◌>>=◌, pure, Outcome, ◌▹◌}
use ocp_efa_operator.Controllers.Owned.{
  Reconciler, GroupVersionKind, owner_reference, unless_exists, is_open_shift, ensure,
}
use ocp_efa_operator.Controllers.Efa.Nodes.{KernelVers, get_node_status}
use ocp_efa_operator.Controllers.Efa.Manifests.{
  nfr_key, scc_key, dockerfile_key, kmm_key, device_plugin_key, node_feature_rule_manifest,
  scc_manifest,
}
use ocp_efa_operator.Controllers.Efa.Kmm.{dockerfile_manifest, kmm_manifest}
use ocp_efa_operator.Controllers.Efa.DevicePlugin.{device_plugin_manifest}

module _ (r : Reconciler EfaDriverSpec) (efa : EfaDriver) where
  unfoldable pub create_nfr : OwnerReference → Action r.client.World Outcome
  create_nfr owner =
      ensure r unless_exists node_feature_rule (nfr_key r efa)
        (of_rule (node_feature_rule_manifest r efa owner))

  unfoldable pub create_kmm_dockerfile : OwnerReference → Action r.client.World Outcome
  create_kmm_dockerfile owner =
      ensure r unless_exists config_map (dockerfile_key r efa)
        (of_config_map (dockerfile_manifest r efa owner))

  unfoldable pub create_kmm : KernelVers → OwnerReference → Action r.client.World Outcome
  create_kmm vers owner =
      if is_empty vers
      then pure (false, none)
      else ensure r unless_exists kmm_module (kmm_key r efa)
          (of_module (kmm_manifest r efa vers owner))

  -- `CraeteDevicePluginScc`
  unfoldable pub create_device_plugin_scc : OwnerReference → Action r.client.World Outcome
  create_device_plugin_scc owner =
      if is_open_shift efa.spec.open_shift
      then ensure r unless_exists security_context_constraints (scc_key r efa)
          (of_scc (scc_manifest r efa owner))
      else pure (false, none)

  -- Here the test of the error of `Create` has no `!`: AlreadyExists alone is returned.
  unfoldable pub create_device_plugin : OwnerReference → Action r.client.World Outcome
  create_device_plugin owner =
      ensure r is_already_exists daemon_set (device_plugin_key r efa)
        (of_daemon_set (device_plugin_manifest r efa owner))

  -- what follows `GetNodeStatus`
  unfoldable pub create_for_nodes :
      Result (Bool × KernelVers) → OwnerReference → Action r.client.World Outcome
  create_for_nodes (err e) owner = pure (false, some e)
  create_for_nodes (ok (true, vers)) owner = pure (true, none)
  create_for_nodes (ok (false, vers)) owner =
      create_kmm vers owner ▹ create_device_plugin_scc owner ▹ create_device_plugin owner

  unfoldable pub create_owned : OwnerReference → Action r.client.World Outcome
  create_owned owner =
      create_nfr owner
      ▹ create_kmm_dockerfile owner
      ▹ do status ← get_node_status r; create_for_nodes status owner

  unfoldable pub create_as : Result GroupVersionKind → Action r.client.World Outcome
  create_as (err e) = pure (false, some e)
  create_as (ok gvk) = create_owned (owner_reference efa gvk)

  unfoldable pub create_cluster : Action r.client.World Outcome
  unfolding create_as create_owned create_for_nodes
  create_cluster = create_as (r.gvk_for_object efa)
