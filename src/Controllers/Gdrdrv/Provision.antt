-- ===== src/Controllers/Gdrdrv/Provision.antt =====
-- What `CreateCluster` of the GDRCOPY reconciler means where nothing fails.
use ocp_efa_operator.Prelude.{
  String, Bool, true, false, none, List, [], ◌∷◌, ◌++◌, map, ◌≡◌, refl, ap, ◌∙◌, if◌then◌else◌,
  Bool-cases, inl, inr, lookup,
}
use ocp_efa_operator.Api.Driver.{GdrdrvDriver, GdrdrvDriverSpec}
use ocp_efa_operator.Api.Objects.{
  Kind, ObjectKey, Object, Node, OwnerReference, of_config_map, of_module, of_scc, of_daemon_set,
}
use ocp_efa_operator.Api.Client.{is_already_exists, ok}
use ocp_efa_operator.Api.Laws.{View, IsLawful}
use ocp_efa_operator.Api.Responsive.{IsResponsive}
use ocp_efa_operator.Controllers.Owned.{
  Reconciler, GroupVersionKind, owner_reference, unless_exists, is_open_shift,
}
use ocp_efa_operator.Controllers.Owned.Provides.{
  first_at, or_else, Filled, Provides, Provides-pure, Provides-▹, Provides-list_nodes,
  Provides-ensure,
}
use ocp_efa_operator.Controllers.Gdrdrv.Nodes.{
  CudaDrvVers, kernel_vers_or_new, node_status, get_node_status, listed_status,
}
use ocp_efa_operator.Controllers.Gdrdrv.Manifests.{scc_manifest}
use ocp_efa_operator.Controllers.Gdrdrv.Kmm.{dockerfile_manifest, kmm_manifest}
use ocp_efa_operator.Controllers.Gdrdrv.DevicePlugin.{device_plugin_manifest}
use ocp_efa_operator.Controllers.Gdrdrv.Waiting.{node_status_never_waits}
use ocp_efa_operator.Controllers.Gdrdrv.Create.{
  create_kmm_dockerfile, create_kmm, create_modules, create_device_plugin_scc, create_device_plugin,
  create_for_nodes, create_owned, create_as, create_cluster,
}

module _ (r : Reconciler GdrdrvDriverSpec) (efa : GdrdrvDriver) (owner : OwnerReference) where
  -- the Dockerfile and the Module of each driver version
  abbrev pub needed_modules : List String → CudaDrvVers → List Object
  needed_modules [] vers = []
  needed_modules (cuda ∷ rest) vers =
      of_config_map (dockerfile_manifest r efa cuda owner) ∷ []
      ++ (of_module (kmm_manifest r efa cuda (kernel_vers_or_new (lookup cuda vers)) owner) ∷ []
          ++ needed_modules rest vers)

  -- the security context constraints, on OpenShift
  abbrev pub needed_sccs : List Object
  needed_sccs =
      if is_open_shift efa.spec.open_shift then of_scc (scc_manifest r efa owner) ∷ [] else []

  abbrev pub needed_for : Bool × CudaDrvVers → List Object
  needed_for (true, vers) = []
  needed_for (false, vers) =
      needed_modules (r.range (map (λ entry. entry.0) vers)) vers
      ++ (needed_sccs ++ of_daemon_set (device_plugin_manifest r efa owner) ∷ [])

  -- all objects of the driver, with these nodes
  abbrev pub needed : List Node → List Object
  needed ns = needed_for (node_status ns)

module _ (r : Reconciler GdrdrvDriverSpec) (v : View r.client) (laws : IsLawful r.client v)
    (up : IsResponsive r.client v) (efa : GdrdrvDriver) where
  module _ (owner : OwnerReference) (ns : List Node) where
    create_modules-Provides :
        (cudas : List String) (vers : CudaDrvVers)
        → Provides r v ns
            (needed_modules r efa owner cudas vers)
            (false, none)
            (create_modules r efa cudas vers owner)
    unfolding create_modules create_kmm_dockerfile create_kmm dockerfile_manifest kmm_manifest
    create_modules-Provides [] vers = Provides-pure r v ns (false, none)
    create_modules-Provides (cuda ∷ rest) vers =
        let dockerfile = of_config_map (dockerfile_manifest r efa cuda owner) in
        let kmm =
          of_module (kmm_manifest r efa cuda (kernel_vers_or_new (lookup cuda vers)) owner) in
        Provides-▹ r v ns _ _ _ _ _ (Provides-ensure r v laws up unless_exists dockerfile ns) (
          Provides-▹ r v ns _ _ _ _ _ (Provides-ensure r v laws up unless_exists kmm ns)
            (create_modules-Provides rest vers))

    create_device_plugin_scc-Provides :
        Provides r v ns
          (needed_sccs r efa owner)
          (false, none)
          (create_device_plugin_scc r efa owner)
    unfolding create_device_plugin_scc scc_manifest
    create_device_plugin_scc-Provides = elim (Bool-cases (is_open_shift efa.spec.open_shift)) [
      | inl on ↦
          rw on (Provides-ensure r v laws up unless_exists (of_scc (scc_manifest r efa owner)) ns)
      | inr off ↦ rw off (Provides-pure r v ns (false, none))
    ]

    create_device_plugin-Provides :
        Provides r v ns
          (of_daemon_set (device_plugin_manifest r efa owner) ∷ [])
          (false, none)
          (create_device_plugin r efa owner)
    unfolding create_device_plugin device_plugin_manifest
    create_device_plugin-Provides =
        Provides-ensure r v laws up is_already_exists
          (of_daemon_set (device_plugin_manifest r efa owner)) ns

    create_for_nodes-Provides :
        (status : Bool × CudaDrvVers)
        → Provides r v ns
            (needed_for r efa owner status)
            (status.0, none)
            (create_for_nodes r efa (ok status) owner)
    unfolding create_for_nodes
    create_for_nodes-Provides (true, vers) = Provides-pure r v ns (true, none)
    create_for_nodes-Provides (false, vers) =
        Provides-▹ r v ns _ _ _ _ _
          (create_modules-Provides (r.range (map (λ entry. entry.0) vers)) vers)
          (Provides-▹ r v ns _ _ _ _ _ create_device_plugin_scc-Provides
            create_device_plugin-Provides)

    pub create_owned-Provides :
        Provides r v ns
          (needed r efa owner ns)
          ((node_status ns).0, none)
          (create_owned r efa owner)
    unfolding create_owned get_node_status
    create_owned-Provides =
        Provides-list_nodes r v laws up ns _ _
          (λ l. create_for_nodes r efa (listed_status r l) owner)
          (create_for_nodes-Provides (node_status ns))

  pub create_cluster-Filled :
      (gvk : GroupVersionKind)
      → r.gvk_for_object efa ≡ ok gvk
      → (w : r.client.World)
      → ((create_cluster r efa w).0 ≡ (false, none))
        × Filled r v
            (needed r efa (owner_reference efa gvk) (v.nodes w))
            w
            (create_cluster r efa w).1
  unfolding create_cluster create_as
  create_cluster-Filled gvk known w =
      let run = create_owned-Provides (owner_reference efa gvk) (v.nodes w) in
      rw known (
        run.outcome w refl ∙ ap (λ b. (b, none)) (node_status_never_waits (v.nodes w)),
        run.filled w refl,
      )

  -- On a lawful server that answers, for a driver of which the kind is known: `CreateCluster` reports
  -- success, and afterwards each place holds what it held before or else, where it was empty, the
  -- first of the driver's objects that belongs there: a Dockerfile and a Module for each driver
  -- version that the range loop visits, the security context constraints on OpenShift, and the
  -- daemon set.
  pub create_cluster-provides_gdrdrv :
      (gvk : GroupVersionKind)
      → r.gvk_for_object efa ≡ ok gvk
      → (w : r.client.World)
      → ((create_cluster r efa w).0 ≡ (false, none))
        × ((k : Kind) (key : ObjectKey)
            → v.stored (create_cluster r efa w).1 k key
              ≡ or_else
                  (v.stored w k key)
                  (first_at (needed r efa (owner_reference efa gvk) (v.nodes w)) k key))
  create_cluster-provides_gdrdrv gvk known w =
      let (outcome, filled) = create_cluster-Filled gvk known w in (outcome, filled.at)
