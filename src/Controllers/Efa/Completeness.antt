-- ===== src/Controllers/Efa/Completeness.antt =====
-- What `CreateCluster` of the EFA reconciler leaves on a lawful server.
use ocp_efa_operator.Prelude.{
  Bool, true, false, none, some, List, ◌≡◌, refl, sym, ap, ◌∙◌, subst, is_empty, inl, inr, ◌⊎◌,
}
use ocp_efa_operator.Api.Driver.{EfaDriver, EfaDriverSpec}
use ocp_efa_operator.Api.Objects.{
  Kind, OwnerReference, Object, ObjectKey, Node, node_feature_rule, config_map, kmm_module,
  security_context_constraints,
}
use ocp_efa_operator.Api.Client.{Result, ok, err}
use ocp_efa_operator.Api.Laws.{View, IsLawful}
use ocp_efa_operator.Controllers.Action.{Action, ◌>>=◌, Outcome}
use ocp_efa_operator.Controllers.Owned.{
  Reconciler, GroupVersionKind, owner_reference, is_open_shift,
}
use ocp_efa_operator.Controllers.Owned.Creates.{
  Holds, Grows, Grows-adds, Creates, Creates-weaken, Creates-▹, Grows-refl, Holds-Grows,
}
use ocp_efa_operator.Controllers.Efa.Nodes.{KernelVers, node_status, listed_status, get_node_status}
use ocp_efa_operator.Controllers.Efa.Manifests.{nfr_key, scc_key, dockerfile_key, kmm_key}
use ocp_efa_operator.Controllers.Efa.Create.{
  create_for_nodes, create_owned, create_as, create_cluster,
}
use ocp_efa_operator.Controllers.Efa.Creation.{
  IsOwn, HoldsScc, create_nfr-Creates, create_kmm_dockerfile-Creates, create_kmm-Creates,
  create_device_plugin_scc-Creates, create_device_plugin-Creates,
}
use ocp_efa_operator.Controllers.Efa.Footprint.{belongs}

unless : {H : Type 0} {b : Bool} → (b ≡ false → H) → (b ≡ true) ⊎ H
unless {b = true} h = inl refl
unless {b = false} h = inr (h refl)

unless_not : {H : Type 0} {b : Bool} → (b ≡ true → H) → (b ≡ false) ⊎ H
unless_not {b = true} h = inr (h refl)
unless_not {b = false} h = inl refl

module _ (r : Reconciler EfaDriverSpec) (v : View r.client) (laws : IsLawful r.client v)
    (efa : EfaDriver) where
  -- a new object is one that `DeleteCluster` finds
  abbrev pub Own : Object → Type 0
  Own = IsOwn r efa

  -- what there is after a creation that succeeded
  abbrev NodesReady : r.client.World → Type 0
  NodesReady w = (node_status (v.nodes w)).0 ≡ false

  abbrev ModuleHolds : r.client.World → Type 0
  ModuleHolds w =
      is_empty (node_status (v.nodes w)).1 ≡ false → Holds r v kmm_module (kmm_key r efa) w

  abbrev SccHolds : r.client.World → Type 0
  SccHolds = HoldsScc r v efa

  abbrev RestDone : r.client.World → Type 0
  RestDone w = NodesReady w × ModuleHolds w × SccHolds w

  abbrev AllDone : r.client.World → Type 0
  AllDone w =
      Holds r v node_feature_rule (nfr_key r efa) w
      × (Holds r v config_map (dockerfile_key r efa) w × RestDone w)

  abbrev pub Complete : r.client.World → Type 0
  Complete w =
      Holds r v node_feature_rule (nfr_key r efa) w
      × Holds r v config_map (dockerfile_key r efa) w
      × NodesReady w
      × ((is_empty (node_status (v.nodes w)).1 ≡ true) ⊎ Holds r v kmm_module (kmm_key r efa) w)
      × ((is_open_shift efa.spec.open_shift ≡ false)
          ⊎ Holds r v security_context_constraints (scc_key r efa) w)

  module _ (owner : OwnerReference) where
    -- what the part after `GetNodeStatus` leaves, given the status
    abbrev StatusDone : Result (Bool × KernelVers) → r.client.World → Type 0
    StatusDone status w =
        (vers : KernelVers) × (status ≡ ok (false, vers))
        × (is_empty vers ≡ false → Holds r v kmm_module (kmm_key r efa) w)
        × SccHolds w

    create_for_nodes-Creates :
        (status : Result (Bool × KernelVers))
        → Creates r v Own (StatusDone status) (create_for_nodes r efa status owner)
    unfolding create_for_nodes
    create_for_nodes-Creates (err e) = record {
      grows = λ w. Grows-refl r v Own w;
      done = λ w h. cc;
    }
    create_for_nodes-Creates (ok (true, vers)) = record {
      grows = λ w. Grows-refl r v Own w;
      done = λ w h. cc;
    }
    create_for_nodes-Creates (ok (false, vers)) =
        Creates-weaken r v Own (λ w h. (vers, refl, h.0, h.1.0))
          (Creates-▹ r v Own _ _ _ _ ((create_kmm-Creates r v laws efa owner) vers)
            (Creates-▹ r v Own _ _ _ _ (create_device_plugin_scc-Creates r v laws efa owner)
              (create_device_plugin-Creates r v laws efa owner)
              (λ a b g h on. Holds-Grows r v Own _ _ a b g (h on)))
            (λ a b g h full. Holds-Grows r v Own _ _ a b g (h full)))

    abbrev rest : Action r.client.World Outcome
    rest = do status ← get_node_status r; create_for_nodes r efa status owner

    listed_ok :
        (w : r.client.World) (g : Result (List Node)) (vers : KernelVers)
        → (r.client.list_nodes w).0 ≡ g
        → listed_status r g ≡ ok (false, vers)
        → node_status (v.nodes w) ≡ (false, vers)
    listed_ok w (ok ns) vers p q = cc (laws.list_nodes_ok w ns p)
    listed_ok w (err e) vers p q = cc

    -- what the state after `rest` is, from the one after `List`
    abbrev Ended : r.client.World → Outcome × r.client.World → Type 0
    Ended w end = Grows r v Own w end.1 × (end.0 ≡ (false, none) → RestDone end.1)

    after_list :
        (w : r.client.World) (g : Result (List Node))
        → (r.client.list_nodes w).0 ≡ g
        → Ended w (create_for_nodes r efa (listed_status r g) owner w)
    after_list w g p =
        let c = create_for_nodes-Creates (listed_status r g) in
        let end = create_for_nodes r efa (listed_status r g) owner w in
        let status = λ (u : r.client.World). node_status (v.nodes u) in
        (
          c.grows w,
          λ h.
              let (vers, q, module_holds, scc_holds) = c.done w h in
              let seen : status end.1 ≡ (false, vers) =
                ap node_status (c.grows w).frame.nodes ∙ listed_ok w g vers p q in
              (
                ap (λ s. s.0) seen,
                (λ full. module_holds (sym (ap (λ s. is_empty s.1) seen) ∙ full)),
                scc_holds,
              ),
        )

    rest-Creates : Creates r v Own RestDone rest
    unfolding get_node_status
    rest-Creates = record { grows = λ w. (ended w).0; done = λ w. (ended w).1 }
      where
        ended : (w : r.client.World) → Ended w (rest w)
        ended w =
            subst
              (λ u.
                Ended w
                  (create_for_nodes r efa (listed_status r (r.client.list_nodes w).0) owner u))
              (sym (laws.list_nodes_world w)) (after_list w (r.client.list_nodes w).0 refl)

    create_owned-Creates : Creates r v Own AllDone (create_owned r efa owner)
    unfolding create_owned
    create_owned-Creates =
        Creates-▹ r v Own _ _ _ _ (create_nfr-Creates r v laws efa owner)
          (Creates-▹ r v Own _ _ _ _ (create_kmm_dockerfile-Creates r v laws efa owner) rest-Creates
            (λ a b g h. Holds-Grows r v Own _ _ a b g h))
          (λ a b g h. Holds-Grows r v Own _ _ a b g h)

  create_as-Creates :
      (gvk : Result GroupVersionKind) → Creates r v Own AllDone (create_as r efa gvk)
  unfolding create_as
  create_as-Creates (ok gvk) = create_owned-Creates (owner_reference efa gvk)
  create_as-Creates (err e) = record { grows = λ w. Grows-refl r v Own w; done = λ w h. cc }

  pub create_cluster-Creates : Creates r v Own AllDone (create_cluster r efa)
  unfolding create_cluster
  create_cluster-Creates = create_as-Creates (r.gvk_for_object efa)

  -- If `CreateCluster` reports success on a lawful server, then the driver's node feature rule and
  -- its Dockerfile are stored, no worker node still waits for its labels, no node with an EFA device
  -- gave a kernel version or the driver's `Module` is stored, and the driver is not for OpenShift or
  -- its security context constraints are stored. The daemon set is not among them.
  pub create_cluster-Complete :
      (w : r.client.World)
      → (create_cluster r efa w).0 ≡ (false, none)
      → Complete (create_cluster r efa w).1
  create_cluster-Complete w h =
      let (rule, (dockerfile, (nodes_ready, module_holds, scc_holds))) =
        create_cluster-Creates.done w h in
      (rule, dockerfile, nodes_ready, unless module_holds, unless_not scc_holds)

  pub create_cluster-Grows : (w : r.client.World) → Grows r v Own w (create_cluster r efa w).1
  create_cluster-Grows w = create_cluster-Creates.grows w

  -- Whatever its outcome, on a lawful server `CreateCluster` leaves every place as it was, but that
  -- it may put an object where there was none, and then one that belongs to the driver as
  -- `DeleteCluster` finds it.
  pub create_cluster-adds :
      (w : r.client.World) (k : Kind) (key : ObjectKey)
      → (v.stored (create_cluster r efa w).1 k key ≡ v.stored w k key)
        ⊎ ((v.stored w k key ≡ none)
            × (x : Object) × (v.stored (create_cluster r efa w).1 k key ≡ some x)
            × (belongs r efa x ≡ true))
  create_cluster-adds w = Grows-adds r v (belongs r efa) (create_cluster-Grows w)
