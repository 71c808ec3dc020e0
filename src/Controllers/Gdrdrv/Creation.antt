-- ===== src/Controllers/Gdrdrv/Creation.antt =====
-- What the functions that `CreateCluster` of the GDRCOPY reconciler calls add on a lawful server.
use ocp_efa_operator.Prelude.{String, true, false, none, ◌≡◌, ◌⊎◌, inl, inr, Bool-cases}
use ocp_efa_operator.Api.Driver.{GdrdrvDriver, GdrdrvDriverSpec}
use ocp_efa_operator.Api.Objects.{
  OwnerReference, Object, config_map, kmm_module, security_context_constraints, daemon_set,
  of_config_map, of_module, of_scc, of_daemon_set,
}
use ocp_efa_operator.Api.Client.{is_already_exists}
use ocp_efa_operator.Api.Laws.{View, IsLawful, is_at_self}
use ocp_efa_operator.Controllers.Owned.{Reconciler, is_open_shift}
use ocp_efa_operator.Controllers.Owned.Creates.{
  Holds, Creates, Creates-pure, Creates-weaken, Creates-ensure, Creates-ensure_any,
}
use ocp_efa_operator.Controllers.Efa.Nodes.{KernelVers}
use ocp_efa_operator.Controllers.Gdrdrv.Manifests.{
  scc_key, dockerfile_key, kmm_key, device_plugin_key, scc_manifest,
}
use ocp_efa_operator.Controllers.Gdrdrv.Kmm.{dockerfile_manifest, kmm_manifest}
use ocp_efa_operator.Controllers.Gdrdrv.DevicePlugin.{device_plugin_manifest}
use ocp_efa_operator.Controllers.Gdrdrv.Create.{
  create_kmm_dockerfile, create_kmm, create_device_plugin_scc, create_device_plugin,
}
use ocp_efa_operator.Controllers.Gdrdrv.Footprint.{
  belongs, dockerfile-belongs, kmm-belongs, device_plugin-belongs, scc-belongs,
}

module _ (r : Reconciler GdrdrvDriverSpec) (efa : GdrdrvDriver) where
  -- a new object is one that `DeleteCluster` finds
  abbrev pub IsOwn : Object → Type 0
  IsOwn x = belongs r efa x ≡ true

module _ (r : Reconciler GdrdrvDriverSpec) (v : View r.client) (efa : GdrdrvDriver) where
  abbrev pub HoldsScc : r.client.World → Type 0
  HoldsScc w =
      (is_open_shift efa.spec.open_shift ≡ false)
      ⊎ Holds r v security_context_constraints (scc_key r efa) w

module _ (r : Reconciler GdrdrvDriverSpec) (v : View r.client) (laws : IsLawful r.client v)
    (efa : GdrdrvDriver) where
  module _ (owner : OwnerReference) where
    pub create_kmm_dockerfile-Creates :
        (cuda : String)
        → Creates r v
            (IsOwn r efa)
            (Holds r v config_map (dockerfile_key r efa cuda))
            (create_kmm_dockerfile r efa cuda owner)
    unfolding create_kmm_dockerfile dockerfile_manifest
    create_kmm_dockerfile-Creates cuda =
        let o = of_config_map (dockerfile_manifest r efa cuda owner) in
        Creates-ensure r v laws (IsOwn r efa) config_map (dockerfile_key r efa cuda) o
          (is_at_self o) (dockerfile-belongs r efa owner cuda)

    pub create_kmm-Creates :
        (cuda : String) (vers : KernelVers)
        → Creates r v
            (IsOwn r efa)
            (Holds r v kmm_module (kmm_key r efa cuda))
            (create_kmm r efa cuda vers owner)
    unfolding create_kmm kmm_manifest
    create_kmm-Creates cuda vers =
        let o = of_module (kmm_manifest r efa cuda vers owner) in
        Creates-ensure r v laws (IsOwn r efa) kmm_module (kmm_key r efa cuda) o (is_at_self o)
          (kmm-belongs r efa owner cuda vers)

    pub create_device_plugin_scc-Creates :
        Creates r v (IsOwn r efa) (HoldsScc r v efa) (create_device_plugin_scc r efa owner)
    unfolding create_device_plugin_scc scc_manifest
    create_device_plugin_scc-Creates = elim (Bool-cases (is_open_shift efa.spec.open_shift)) [
      | inl on ↦
          let o = of_scc (scc_manifest r efa owner) in
          rw on (
            Creates-weaken r v (IsOwn r efa) (λ w h. inr h)
              (Creates-ensure r v laws (IsOwn r efa) security_context_constraints (scc_key r efa) o
                (is_at_self o) (scc-belongs r efa owner on)))
      | inr off ↦ rw off (Creates-pure r v (IsOwn r efa) (false, none) _ (λ w. inl off))
    ]

    pub create_device_plugin-Creates :
        Creates r v (IsOwn r efa) (λ w. Unit {0}) (create_device_plugin r efa owner)
    unfolding create_device_plugin device_plugin_manifest
    create_device_plugin-Creates =
        let o = of_daemon_set (device_plugin_manifest r efa owner) in
        Creates-ensure_any r v laws (IsOwn r efa) daemon_set (device_plugin_key r efa) o
          (is_at_self o) (device_plugin-belongs r efa owner) is_already_exists
