-- ===== src/Controllers/Efa/Needed.antt =====
-- What holds of all objects of an EFA driver.
use ocp_efa_operator.Prelude.{
  Bool, true, false, List, [], ◌∷◌, All, All-append, ◌≡◌, refl, if◌then◌else◌,
}
use ocp_efa_operator.Api.Driver.{EfaDriver, EfaDriverSpec}
use ocp_efa_operator.Api.Objects.{
  Object, Node, OwnerReference, of_rule, of_config_map, of_module, of_scc, of_daemon_set,
}
use ocp_efa_operator.Controllers.Owned.{Reconciler, is_open_shift}
use ocp_efa_operator.Controllers.Efa.Nodes.{KernelVers, node_status}
use ocp_efa_operator.Controllers.Efa.Manifests.{node_feature_rule_manifest, scc_manifest}
use ocp_efa_operator.Controllers.Efa.Kmm.{dockerfile_manifest, kmm_manifest}
use ocp_efa_operator.Controllers.Efa.DevicePlugin.{device_plugin_manifest}
use ocp_efa_operator.Controllers.Efa.Provision.{needed_modules, needed_sccs, needed_for, needed}
use ocp_efa_operator.Controllers.Efa.Footprint.{
  belongs, nfr-belongs, dockerfile-belongs, kmm-belongs, scc-belongs, device_plugin-belongs,
}

module _ (r : Reconciler EfaDriverSpec) (efa : EfaDriver) (owner : OwnerReference) where
  module _ (P : Object → Type 0) (rule : P (of_rule (node_feature_rule_manifest r efa owner)))
      (config_map : P (of_config_map (dockerfile_manifest r efa owner)))
      (modules : (vers : KernelVers) → P (of_module (kmm_manifest r efa vers owner)))
      (scc : is_open_shift efa.spec.open_shift ≡ true → P (of_scc (scc_manifest r efa owner)))
      (daemon_set : P (of_daemon_set (device_plugin_manifest r efa owner))) where
    modules-All : (vers : KernelVers) → All P (needed_modules r efa owner vers)
    modules-All [] = tt
    modules-All (entry ∷ vers) = (modules (entry ∷ vers), tt)

    sccs-All : All P (needed_sccs r efa owner)
    sccs-All = split (is_open_shift efa.spec.open_shift) scc
      where
        split :
            (b : Bool)
            → (b ≡ true → P (of_scc (scc_manifest r efa owner)))
            → All P (if b then of_scc (scc_manifest r efa owner) ∷ [] else [])
        split true p = (p refl, tt)
        split false p = tt

    for-All : (status : Bool × KernelVers) → All P (needed_for r efa owner status)
    for-All (true, vers) = tt
    for-All (false, vers) =
        All-append P _ _ (modules-All vers) (All-append P _ _ sccs-All (daemon_set, tt))

    pub needed-All : (ns : List Node) → All P (needed r efa owner ns)
    needed-All ns = (rule, (config_map, for-All (node_status ns)))

  pub needed-belongs : (ns : List Node) → All (λ o. belongs r efa o ≡ true) (needed r efa owner ns)
  needed-belongs =
      needed-All (λ o. belongs r efa o ≡ true) (nfr-belongs r efa owner)
        (dockerfile-belongs r efa owner) (kmm-belongs r efa owner) (scc-belongs r efa owner)
        (device_plugin-belongs r efa owner)
