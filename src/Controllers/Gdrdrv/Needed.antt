-- ===== src/Controllers/Gdrdrv/Needed.antt =====
-- What holds of all objects of a GDRCOPY driver.
use ocp_efa_operator.Prelude.{
  String, Bool, true, false, List, [], ◌∷◌, map, lookup, All, All-append, ◌≡◌, refl, if◌then◌else◌,
}
use ocp_efa_operator.Api.Driver.{GdrdrvDriver, GdrdrvDriverSpec}
use ocp_efa_operator.Api.Objects.{
  Object, Node, OwnerReference, of_config_map, of_module, of_scc, of_daemon_set,
}
use ocp_efa_operator.Controllers.Owned.{Reconciler, is_open_shift}
use ocp_efa_operator.Controllers.Efa.Nodes.{KernelVers}
use ocp_efa_operator.Controllers.Gdrdrv.Nodes.{CudaDrvVers, kernel_vers_or_new, node_status}
use ocp_efa_operator.Controllers.Gdrdrv.Manifests.{scc_manifest}
use ocp_efa_operator.Controllers.Gdrdrv.Kmm.{dockerfile_manifest, kmm_manifest}
use ocp_efa_operator.Controllers.Gdrdrv.DevicePlugin.{device_plugin_manifest}
use ocp_efa_operator.Controllers.Gdrdrv.Provision.{needed_modules, needed_sccs, needed_for, needed}
use ocp_efa_operator.Controllers.Gdrdrv.Footprint.{
  belongs, dockerfile-belongs, kmm-belongs, scc-belongs, device_plugin-belongs,
}

module _ (r : Reconciler GdrdrvDriverSpec) (efa : GdrdrvDriver) (owner : OwnerReference) where
  module _ (P : Object → Type 0)
      (config_map : (cuda : String) → P (of_config_map (dockerfile_manifest r efa cuda owner)))
      (modules : (cuda : String) (vers : KernelVers)
        → P (of_module (kmm_manifest r efa cuda vers owner)))
      (scc : is_open_shift efa.spec.open_shift ≡ true → P (of_scc (scc_manifest r efa owner)))
      (daemon_set : P (of_daemon_set (device_plugin_manifest r efa owner))) where
    modules-All :
        (cudas : List String) (vers : CudaDrvVers) → All P (needed_modules r efa owner cudas vers)
    modules-All [] vers = tt
    modules-All (cuda ∷ cudas) vers = (
      config_map cuda,
      (modules cuda (kernel_vers_or_new (lookup cuda vers)), modules-All cudas vers),
    )

    sccs-All : All P (needed_sccs r efa owner)
    sccs-All = split (is_open_shift efa.spec.open_shift) scc
      where
        split :
            (b : Bool)
            → (b ≡ true → P (of_scc (scc_manifest r efa owner)))
            → All P (if b then of_scc (scc_manifest r efa owner) ∷ [] else [])
        split true p = (p refl, tt)
        split false p = tt

    for-All : (status : Bool × CudaDrvVers) → All P (needed_for r efa owner status)
    for-All (true, vers) = tt
    for-All (false, vers) =
        All-append P _ _ (modules-All (r.range (map (λ entry. entry.0) vers)) vers)
          (All-append P _ _ sccs-All (daemon_set, tt))

    pub needed-All : (ns : List Node) → All P (needed r efa owner ns)
    needed-All ns = for-All (node_status ns)

  pub needed-belongs : (ns : List Node) → All (λ o. belongs r efa o ≡ true) (needed r efa owner ns)
  needed-belongs =
      needed-All (λ o. belongs r efa o ≡ true) (dockerfile-belongs r efa owner)
        (kmm-belongs r efa owner) (scc-belongs r efa owner) (device_plugin-belongs r efa owner)
