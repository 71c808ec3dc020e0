-- ===== src/Controllers/Gdrdrv/Create.antt =====
-- `CreateCluster` of the GDRCOPY reconciler and the functions that it calls, in the order of its calls.
use ocp_efa_operator.Prelude.{
  String, Bool, true, false, none, some, List, [], ◌∷◌, map, if◌then◌else◌, lookup,
}
use ocp_efa_operator.Api.Driver.{GdrdrvDriver, GdrdrvDriverSpec}
use ocp_efa_operator.Api.Objects.{
  OwnerReference, config_map, kmm_module, security_context_constraints, daemon_set, of_config_map,
  of_module, of_scc, of_daemon_set,
}
use ocp_efa_operator.Api.Client.{is_already_exists, Result, ok, err}
use ocp_efa_operator.Controllers.Action.{Action, ◌>>=◌, pure, Outcome, ◌▹◌}
use ocp_efa_operator.Controllers.Owned.{
  Reconciler, GroupVersionKind, owner_reference, unless_exists, is_open_shift, ensure,
}
use ocp_efa_operator.Controllers.Efa.Nodes.{KernelVers}
use ocp_efa_operator.Controllers.Gdrdrv.Nodes.{CudaDrvVers, kernel_vers_or_new, get_node_status}
use ocp_efa_operator.Controllers.Gdrdrv.Manifests.{
  scc_key, dockerfile_key, kmm_key, device_plugin_key, scc_manifest,
}
use ocp_efa_operator.Controllers.Gdrdrv.Kmm.{dockerfile_manifest, kmm_manifest}
use ocp_efa_operator.Controllers.Gdrdrv.DevicePlugin.{device_plugin_manifest}

module _ (r : Reconciler GdrdrvDriverSpec) (efa : GdrdrvDriver) where
  unfoldable pub create_kmm_dockerfile : String → OwnerReference → Action r.client.World Outcome
  create_kmm_dockerfile cuda_drv_ver owner =
      ensure r unless_exists config_map (dockerfile_key r efa cuda_drv_ver)
        (of_config_map (dockerfile_manifest r efa cuda_drv_ver owner))

  unfoldable pub create_kmm : String → KernelVers → OwnerReference → Action r.client.World Outcome
  create_kmm cuda_drv_ver kernel_vers owner =
      ensure r unless_exists kmm_module (kmm_key r efa cuda_drv_ver)
        (of_module (kmm_manifest r efa cuda_drv_ver kernel_vers owner))

  -- `CraeteDevicePluginScc`
  unfoldable pub create_device_plugin_scc : OwnerReference → Action r.client.World Outcome
  create_device_plugin_scc owner =
      if is_open_shift efa.spec.open_shift
      then ensure r unless_exists security_context_constraints (scc_key r efa)
          (of_scc (scc_manifest r efa owner))
      else pure (false, none)

  -- Here the test of the error of `Create` has no `!`: AlreadyExists alone is returned.
  unfoldable pub create_device_plugin : OwnerReference → Action r.client.World Outcome
  create_device_plugin owner =
      ensure r is_already_exists daemon_set (device_plugin_key r efa)
        (of_daemon_set (device_plugin_manifest r efa owner))

  -- the range loop over the driver versions, at the keys in the order of the loop
  unfoldable pub create_modules :
      List String → CudaDrvVers → OwnerReference → Action r.client.World Outcome
  create_modules [] vers owner = pure (false, none)
  create_modules (cuda_drv_ver ∷ rest) vers owner =
      create_kmm_dockerfile cuda_drv_ver owner
      ▹ create_kmm cuda_drv_ver (kernel_vers_or_new (lookup cuda_drv_ver vers)) owner
      ▹ create_modules rest vers owner

  -- what follows `GetNodeStatus`
  unfoldable pub create_for_nodes :
      Result (Bool × CudaDrvVers) → OwnerReference → Action r.client.World Outcome
  create_for_nodes (err e) owner = pure (false, some e)
  create_for_nodes (ok (true, vers)) owner = pure (true, none)
  create_for_nodes (ok (false, vers)) owner =
      create_modules (r.range (map (λ entry. entry.0) vers)) vers owner
      ▹ create_device_plugin_scc owner
      ▹ create_device_plugin owner

  unfoldable pub create_owned : OwnerReference → Action r.client.World Outcome
  create_owned owner = do status ← get_node_status r; create_for_nodes status owner

  unfoldable pub create_as : Result GroupVersionKind → Action r.client.World Outcome
  create_as (err e) = pure (false, some e)
  create_as (ok gvk) = create_owned (owner_reference efa gvk)

  unfoldable pub create_cluster : Action r.client.World Outcome
  unfolding create_as create_owned create_for_nodes
  create_cluster = create_as (r.gvk_for_object efa)
