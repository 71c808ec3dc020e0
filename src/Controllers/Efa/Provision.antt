-- ===== src/Controllers/Efa/Provision.antt =====
-- What `CreateCluster` of the EFA reconciler means where nothing fails.
use ocp_efa_operator.Prelude.{
  Bool, true, false, none, List, [], ◌∷◌, ◌++◌, ◌≡◌, refl, is_empty, if◌then◌else◌, Bool-cases, inl,
  inr,
}
use ocp_efa_operator.Api.Driver.{EfaDriver, EfaDriverSpec}
use ocp_efa_operator.Api.Objects.{
  Kind, ObjectKey, Object, Node, OwnerReference, of_rule, of_config_map, of_module, of_scc,
  of_daemon_set,
}
use ocp_efa_operator.Api.Client.{is_already_exists, ok}
use ocp_efa_operator.Api.Laws.{View, IsLawful}
use ocp_efa_operator.Api.Responsive.{IsResponsive}
use ocp_efa_operator.Controllers.Owned.{
  Reconciler, GroupVersionKind, owner_reference, unless_exists, is_open_shift,
}
use ocp_efa_operator.Controllers.Owned.Provides.{
  first_at, or_else, Filled, Provides, Provides-pure, Provides-▹, Provides-list_nodes,
  Provides-ensure,
}
use ocp_efa_operator.Controllers.Efa.Nodes.{KernelVers, node_status, get_node_status, listed_status}
use ocp_efa_operator.Controllers.Efa.Manifests.{node_feature_rule_manifest, scc_manifest}
use ocp_efa_operator.Controllers.Efa.Kmm.{dockerfile_manifest, kmm_manifest}
use ocp_efa_operator.Controllers.Efa.DevicePlugin.{device_plugin_manifest}
use ocp_efa_operator.Controllers.Efa.Create.{
  create_nfr, create_kmm_dockerfile, create_kmm, create_device_plugin_scc, create_device_plugin,
  create_for_nodes, create_owned, create_as, create_cluster,
}

module _ (r : Reconciler EfaDriverSpec) (efa : EfaDriver) (owner : OwnerReference) where
  -- the Module, where a node has an EFA device
  abbrev pub needed_modules : KernelVers → List Object
  needed_modules vers = if is_empty vers then [] else of_module (kmm_manifest r efa vers owner) ∷ []

  -- the security context constraints, on OpenShift
  abbrev pub needed_sccs : List Object
  needed_sccs =
      if is_open_shift efa.spec.open_shift then of_scc (scc_manifest r efa owner) ∷ [] else []

  -- what waits for the labels of the nodes
  abbrev pub needed_for : Bool × KernelVers → List Object
  needed_for (true, vers) = []
  needed_for (false, vers) =
      needed_modules vers
      ++ (needed_sccs ++ of_daemon_set (device_plugin_manifest r efa owner) ∷ [])

  -- all objects of the driver, with these nodes
  abbrev pub needed : List Node → List Object
  needed ns =
      of_rule (node_feature_rule_manifest r efa owner) ∷ []
      ++ (of_config_map (dockerfile_manifest r efa owner) ∷ [] ++ needed_for (node_status ns))

module _ (r : Reconciler EfaDriverSpec) (v : View r.client) (laws : IsLawful r.client v)
    (up : IsResponsive r.client v) (efa : EfaDriver) where
  module _ (owner : OwnerReference) (ns : List Node) where
    create_nfr-Provides :
        Provides r v ns
          (of_rule (node_feature_rule_manifest r efa owner) ∷ [])
          (false, none)
          (create_nfr r efa owner)
    unfolding create_nfr node_feature_rule_manifest
    create_nfr-Provides =
        Provides-ensure r v laws up unless_exists (of_rule (node_feature_rule_manifest r efa owner))
          ns

    create_kmm_dockerfile-Provides :
        Provides r v ns
          (of_config_map (dockerfile_manifest r efa owner) ∷ [])
          (false, none)
          (create_kmm_dockerfile r efa owner)
    unfolding create_kmm_dockerfile dockerfile_manifest
    create_kmm_dockerfile-Provides =
        Provides-ensure r v laws up unless_exists (of_config_map (dockerfile_manifest r efa owner))
          ns

    create_kmm-Provides :
        (vers : KernelVers)
        → Provides r v ns
            (needed_modules r efa owner vers)
            (false, none)
            (create_kmm r efa vers owner)
    unfolding create_kmm kmm_manifest
    create_kmm-Provides [] = Provides-pure r v ns (false, none)
    create_kmm-Provides (entry ∷ vers) =
        Provides-ensure r v laws up unless_exists
          (of_module (kmm_manifest r efa (entry ∷ vers) owner)) ns

    create_device_plugin_scc-Provides :
        Provides r v ns
          (needed_sccs r efa owner)
          (false, none)
          (create_device_plugin_scc r efa owner)
    unfolding create_device_plugin_scc scc_manifest
    create_device_plugin_scc-Provides = elim (Bool-cases (is_open_shift efa.spec.open_shift)) [
      | inl on ↦
          rw on (Provides-ensure r v laws up unless_exists (of_scc (scc_manifest r efa owner)) ns)
      | inr off ↦ rw off (Provides-pure r v ns (false, none))
    ]

    create_device_plugin-Provides :
        Provides r v ns
          (of_daemon_set (device_plugin_manifest r efa owner) ∷ [])
          (false, none)
          (create_device_plugin r efa owner)
    unfolding create_device_plugin device_plugin_manifest
    create_device_plugin-Provides =
        Provides-ensure r v laws up is_already_exists
          (of_daemon_set (device_plugin_manifest r efa owner)) ns

    create_for_nodes-Provides :
        (status : Bool × KernelVers)
        → Provides r v ns
            (needed_for r efa owner status)
            (status.0, none)
            (create_for_nodes r efa (ok status) owner)
    unfolding create_for_nodes
    create_for_nodes-Provides (true, vers) = Provides-pure r v ns (true, none)
    create_for_nodes-Provides (false, vers) =
        Provides-▹ r v ns _ _ _ _ _ (create_kmm-Provides vers) (
          Provides-▹ r v ns _ _ _ _ _ create_device_plugin_scc-Provides
            create_device_plugin-Provides)

    pub create_owned-Provides :
        Provides r v ns
          (needed r efa owner ns)
          ((node_status ns).0, none)
          (create_owned r efa owner)
    unfolding create_owned get_node_status
    create_owned-Provides = Provides-▹ r v ns _ _ _ _ _ create_nfr-Provides (
        Provides-▹ r v ns _ _ _ _ _ create_kmm_dockerfile-Provides (
          Provides-list_nodes r v laws up ns _ _
            (λ l. create_for_nodes r efa (listed_status r l) owner)
            (create_for_nodes-Provides (node_status ns))))

  pub create_cluster-Filled :
      (gvk : GroupVersionKind)
      → r.gvk_for_object efa ≡ ok gvk
      → (w : r.client.World)
      → ((create_cluster r efa w).0 ≡ ((node_status (v.nodes w)).0, none))
        × Filled r v
            (needed r efa (owner_reference efa gvk) (v.nodes w))
            w
            (create_cluster r efa w).1
  unfolding create_cluster create_as
  create_cluster-Filled gvk known w =
      let run = create_owned-Provides (owner_reference efa gvk) (v.nodes w) in
      rw known (run.outcome w refl, run.filled w refl)

  -- On a lawful server that answers, for a driver of which the kind is known: `CreateCluster` returns
  -- no error and asks to be called again exactly if a node is waited for, and afterwards each place
  -- holds what it held before or else, where it was empty, the first of the driver's objects that
  -- belongs there: the rule and the Dockerfile, and where no node is waited for the Module if a node
  -- has a device, the security context constraints on OpenShift, and the daemon set.
  pub create_cluster-provides :
      (gvk : GroupVersionKind)
      → r.gvk_for_object efa ≡ ok gvk
      → (w : r.client.World)
      → ((create_cluster r efa w).0 ≡ ((node_status (v.nodes w)).0, none))
        × ((k : Kind) (key : ObjectKey)
            → v.stored (create_cluster r efa w).1 k key
              ≡ or_else
                  (v.stored w k key)
                  (first_at (needed r efa (owner_reference efa gvk) (v.nodes w)) k key))
  create_cluster-provides gvk known w =
      let (outcome, filled) = create_cluster-Filled gvk known w in (outcome, filled.at)
