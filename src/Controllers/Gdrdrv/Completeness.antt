-- ===== src/Controllers/Gdrdrv/Completeness.antt =====
-- What `CreateCluster` of the GDRCOPY reconciler leaves on a lawful server.
use ocp_efa_operator.Prelude.{
  String, Bool, true, false, none, some, List, [], ◌∷◌, ◌≡◌, ◌⊎◌, inl, inr, refl, sym, ap, ◌∙◌,
  subst, map, lookup, All,
}
use ocp_efa_operator.Api.Driver.{GdrdrvDriver, GdrdrvDriverSpec}
use ocp_efa_operator.Api.Objects.{
  Kind, OwnerReference, Object, ObjectKey, Node, config_map, kmm_module,
}
use ocp_efa_operator.Api.Client.{Result, ok, err}
use ocp_efa_operator.Api.Laws.{View, IsLawful}
use ocp_efa_operator.Controllers.Action.{Outcome}
use ocp_efa_operator.Controllers.Owned.{Reconciler, GroupVersionKind, owner_reference}
use ocp_efa_operator.Controllers.Owned.Creates.{
  Holds, Grows, Grows-adds, Creates, Creates-pure, Creates-weaken, Creates-▹, Grows-refl,
  Holds-Grows,
}
use ocp_efa_operator.Controllers.Gdrdrv.Nodes.{
  CudaDrvVers, kernel_vers_or_new, node_status, listed_status, get_node_status,
}
use ocp_efa_operator.Controllers.Gdrdrv.Manifests.{dockerfile_key, kmm_key}
use ocp_efa_operator.Controllers.Gdrdrv.Create.{
  create_modules, create_for_nodes, create_owned, create_as, create_cluster,
}
use ocp_efa_operator.Controllers.Gdrdrv.Creation.{
  IsOwn, HoldsScc, create_kmm_dockerfile-Creates, create_kmm-Creates,
  create_device_plugin_scc-Creates, create_device_plugin-Creates,
}
use ocp_efa_operator.Controllers.Gdrdrv.Footprint.{belongs}

module _ (r : Reconciler GdrdrvDriverSpec) (v : View r.client) (laws : IsLawful r.client v)
    (efa : GdrdrvDriver) where
  abbrev Own : Object → Type 0
  Own = IsOwn r efa

  -- the two objects of a driver version
  abbrev pub VersionHolds : r.client.World → String → Type 0
  VersionHolds w cuda =
      Holds r v config_map (dockerfile_key r efa cuda) w
      × Holds r v kmm_module (kmm_key r efa cuda) w

  abbrev SccHolds : r.client.World → Type 0
  SccHolds = HoldsScc r v efa

  -- the driver versions that the range loop visits
  abbrev versions : CudaDrvVers → List String
  versions vers = r.range (map (λ entry. entry.0) vers)

  abbrev pub Complete : r.client.World → Type 0
  Complete w = All (VersionHolds w) (versions (node_status (v.nodes w)).1) × SccHolds w

  VersionHolds-Grows :
      (cuda : String) (a b : r.client.World)
      → Grows r v Own a b
      → VersionHolds a cuda
      → VersionHolds b cuda
  VersionHolds-Grows cuda a b g (dockerfile_holds, module_holds) =
      (Holds-Grows r v Own _ _ a b g dockerfile_holds, Holds-Grows r v Own _ _ a b g module_holds)

  AllHold-Grows :
      (cudas : List String) (a b : r.client.World)
      → Grows r v Own a b
      → All (VersionHolds a) cudas
      → All (VersionHolds b) cudas
  AllHold-Grows [] a b g h = tt
  AllHold-Grows (cuda ∷ cudas) a b g (h, rest) =
      (VersionHolds-Grows cuda a b g h, AllHold-Grows cudas a b g rest)

  module _ (owner : OwnerReference) where
    create_modules-Creates :
        (cudas : List String) (vers : CudaDrvVers)
        → Creates r v Own (λ w. All (VersionHolds w) cudas) (create_modules r efa cudas vers owner)
    unfolding create_modules
    create_modules-Creates [] vers = Creates-pure r v Own (false, none) _ (λ w. tt)
    create_modules-Creates (cuda ∷ cudas) vers =
        Creates-weaken r v Own (λ w h. ((h.0, h.1.0), h.1.1))
          (Creates-▹ r v Own _ _ _ _ ((create_kmm_dockerfile-Creates r v laws efa owner) cuda)
            (Creates-▹ r v Own _ _ _ _
              ((create_kmm-Creates r v laws efa owner) cuda (kernel_vers_or_new (lookup cuda vers)))
              (create_modules-Creates cudas vers) (λ a b g h. Holds-Grows r v Own _ _ a b g h))
            (λ a b g h. Holds-Grows r v Own _ _ a b g h))

    SccHolds-Grows : (a b : r.client.World) → Grows r v Own a b → SccHolds a → SccHolds b
    SccHolds-Grows a b g (inl off) = inl off
    SccHolds-Grows a b g (inr h) = inr (Holds-Grows r v Own _ _ a b g h)

    -- what the part after `GetNodeStatus` leaves, given the status
    abbrev StatusDone : Result (Bool × CudaDrvVers) → r.client.World → Type 0
    StatusDone status w =
        (vers : CudaDrvVers) × (status ≡ ok (false, vers))
        × All (VersionHolds w) (versions vers)
        × SccHolds w

    create_for_nodes-Creates :
        (status : Result (Bool × CudaDrvVers))
        → Creates r v Own (StatusDone status) (create_for_nodes r efa status owner)
    unfolding create_for_nodes
    create_for_nodes-Creates (err e) = record {
      grows = λ w. Grows-refl r v Own w;
      done = λ w h. cc;
    }
    create_for_nodes-Creates (ok (true, vers)) = record {
      grows = λ w. Grows-refl r v Own w;
      done = λ w h. cc;
    }
    create_for_nodes-Creates (ok (false, vers)) =
        Creates-weaken r v Own (λ w h. (vers, refl, h.0, h.1.0))
          (Creates-▹ r v Own _ _ _ _ (create_modules-Creates (versions vers) vers)
            (Creates-▹ r v Own _ _ _ _ (create_device_plugin_scc-Creates r v laws efa owner)
              (create_device_plugin-Creates r v laws efa owner) SccHolds-Grows)
            (AllHold-Grows (versions vers)))

    listed_ok :
        (w : r.client.World) (g : Result (List Node)) (vers : CudaDrvVers)
        → (r.client.list_nodes w).0 ≡ g
        → listed_status r g ≡ ok (false, vers)
        → node_status (v.nodes w) ≡ (false, vers)
    listed_ok w (ok ns) vers p q = cc (laws.list_nodes_ok w ns p)
    listed_ok w (err e) vers p q = cc

    abbrev Ended : r.client.World → Outcome × r.client.World → Type 0
    Ended w end = Grows r v Own w end.1 × (end.0 ≡ (false, none) → Complete end.1)

    after_list :
        (w : r.client.World) (g : Result (List Node))
        → (r.client.list_nodes w).0 ≡ g
        → Ended w (create_for_nodes r efa (listed_status r g) owner w)
    after_list w g p =
        let c = create_for_nodes-Creates (listed_status r g) in
        let end = create_for_nodes r efa (listed_status r g) owner w in
        let found = λ (u : r.client.World). (node_status (v.nodes u)).1 in
        (
          c.grows w,
          λ h.
              let (vers, q, all_hold, scc_holds) = c.done w h in
              let seen : found end.1 ≡ vers =
                ap (λ ns. (node_status ns).1) (c.grows w).frame.nodes
                ∙ ap (λ s. s.1) (listed_ok w g vers p q) in
              (subst (λ x. All (VersionHolds end.1) (versions x)) (sym seen) all_hold, scc_holds),
        )

    create_owned-Creates : Creates r v Own Complete (create_owned r efa owner)
    unfolding create_owned get_node_status
    create_owned-Creates = record { grows = λ w. (ended w).0; done = λ w. (ended w).1 }
      where
        ended : (w : r.client.World) → Ended w (create_owned r efa owner w)
        ended w =
            subst
              (λ u.
                Ended w
                  (create_for_nodes r efa (listed_status r (r.client.list_nodes w).0) owner u))
              (sym (laws.list_nodes_world w)) (after_list w (r.client.list_nodes w).0 refl)

  create_as-Creates :
      (gvk : Result GroupVersionKind) → Creates r v Own Complete (create_as r efa gvk)
  unfolding create_as
  create_as-Creates (ok gvk) = create_owned-Creates (owner_reference efa gvk)
  create_as-Creates (err e) = record { grows = λ w. Grows-refl r v Own w; done = λ w h. cc }

  create_cluster-Creates : Creates r v Own Complete (create_cluster r efa)
  unfolding create_cluster
  create_cluster-Creates = create_as-Creates (r.gvk_for_object efa)

  -- If `CreateCluster` of the GDRCOPY reconciler reports success on a lawful server, then the
  -- Dockerfile and the `Module` of every driver version that the range loop over the versions of the
  -- nodes visits are stored, and the driver is not for OpenShift or its security context constraints
  -- are stored. The daemon set is not among them.
  pub create_cluster-Complete_gdrdrv :
      (w : r.client.World)
      → (create_cluster r efa w).0 ≡ (false, none)
      → Complete (create_cluster r efa w).1
  create_cluster-Complete_gdrdrv w h = create_cluster-Creates.done w h

  pub create_cluster-Grows : (w : r.client.World) → Grows r v Own w (create_cluster r efa w).1
  create_cluster-Grows w = create_cluster-Creates.grows w

  -- Whatever its outcome, on a lawful server `CreateCluster` of the GDRCOPY reconciler leaves every
  -- place as it was, but that it may put an object where there was none, and then one that belongs
  -- to the driver as `DeleteCluster` finds it.
  pub create_cluster-adds_gdrdrv :
      (w : r.client.World) (k : Kind) (key : ObjectKey)
      → (v.stored (create_cluster r efa w).1 k key ≡ v.stored w k key)
        ⊎ ((v.stored w k key ≡ none)
            × (x : Object) × (v.stored (create_cluster r efa w).1 k key ≡ some x)
            × (belongs r efa x ≡ true))
  create_cluster-adds_gdrdrv w = Grows-adds r v (belongs r efa) (create_cluster-Grows w)
