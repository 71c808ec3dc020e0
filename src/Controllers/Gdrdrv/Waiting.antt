-- ===== src/Controllers/Gdrdrv/Waiting.antt =====
-- The GDRCOPY reconciler does not wait for the labels of the nodes.
use ocp_efa_operator.Prelude.{
  String, Bool, true, false, Option, none, some, Bool-cases, inl, inr, List, [], ◌∷◌, ◌≡◌, refl,
  arith, map,
}
use ocp_efa_operator.Api.Driver.{GdrdrvDriver, GdrdrvDriverSpec}
use ocp_efa_operator.Api.Objects.{OwnerReference, Node, Kind, ObjectKey, Object}
use ocp_efa_operator.Api.Client.{ApiError, is_not_found, Result, ok, err}
use ocp_efa_operator.Controllers.Action.{Action, Outcome, continue, ◌▹◌, pure}
use ocp_efa_operator.Controllers.Owned.{
  Reconciler, is_open_shift, GroupVersionKind, owner_reference, report, create_unless_found, ensure,
}
use ocp_efa_operator.Controllers.Gdrdrv.Nodes.{
  CudaDrvVers, NodeScan, scan_node, scan_nodes, node_status, no_nodes, listed_status,
  get_node_status,
}
use ocp_efa_operator.Controllers.Gdrdrv.Create.{
  create_kmm_dockerfile, create_kmm, create_device_plugin_scc, create_device_plugin, create_modules,
  create_for_nodes, create_owned, create_as, create_cluster,
}

waiting_count-scan_nodes :
    (nodes : List Node) (s : NodeScan) → (scan_nodes nodes s).waiting_count ≡ s.waiting_count
unfolding scan_nodes scan_node
waiting_count-scan_nodes [] s = refl
waiting_count-scan_nodes (node ∷ nodes) s =
    ground (arith, waiting_count-scan_nodes nodes (scan_node node s))

-- `GetNodeStatus` of the GDRCOPY reconciler never asks to wait, whatever labels the nodes have.
pub node_status_never_waits : (nodes : List Node) → (node_status nodes).0 ≡ false
unfolding node_status
node_status_never_waits nodes = ground (arith, waiting_count-scan_nodes nodes no_nodes)

module _ (r : Reconciler GdrdrvDriverSpec) where
  -- `m` does not ask to be called again
  pub record Settles (m : Action r.client.World Outcome) : Type 0 where
    pub at : (w : r.client.World) → (m w).0.0 ≡ false

  Settles-pure : (e : Option ApiError) → Settles (pure (false, e))
  Settles-pure e = record { at = λ w. refl }

  continue-false :
      (o : Outcome) (n : Action r.client.World Outcome)
      → o.0 ≡ false
      → Settles n
      → Settles (continue o n)
  continue-false (false, none) n h s = s
  continue-false (false, some e) n h s = Settles-pure (some e)
  continue-false (true, e) n h s = cc

  Settles-▹ : (m n : Action r.client.World Outcome) → Settles m → Settles n → Settles (m ▹ n)
  Settles-▹ m n hm hn = record { at = λ w. (continue-false (m w).0 n (hm.at w) hn).at (m w).1 }

  report-false : (reported : ApiError → Bool) (e : Option ApiError) → (report reported e).0 ≡ false
  report-false reported none = refl
  report-false reported (some e) = ground arith

  created-Settles :
      (reported : ApiError → Bool) (o : Object) (found : Result Object)
      → Settles (create_unless_found r reported o found)
  created-Settles reported o (ok x) = Settles-pure none
  created-Settles reported o (err e) = elim (Bool-cases (is_not_found e)) [
    | inl missing ↦ rw missing (record { at = λ w. report-false reported (r.client.create o w).0 })
    | inr other ↦ rw other (Settles-pure (some e))
  ]

  Settles-ensure :
      (reported : ApiError → Bool) (kind : Kind) (key : ObjectKey) (o : Object)
      → Settles (ensure r reported kind key o)
  unfolding ensure
  Settles-ensure reported kind key o = record {
    at = λ w.
        (created-Settles reported o (r.client.get kind key w).0).at (r.client.get kind key w).1;
  }

  module _ (efa : GdrdrvDriver) (owner : OwnerReference) where
    create_device_plugin_scc-Settles : Settles (create_device_plugin_scc r efa owner)
    unfolding create_device_plugin_scc
    create_device_plugin_scc-Settles = elim (Bool-cases (is_open_shift efa.spec.open_shift)) [
      | inl on ↦ rw on (Settles-ensure _ _ _ _)
      | inr off ↦ rw off (Settles-pure none)
    ]

    create_modules-Settles :
        (cudas : List String) (vers : CudaDrvVers) → Settles (create_modules r efa cudas vers owner)
    unfolding create_modules create_kmm_dockerfile create_kmm
    create_modules-Settles [] vers = Settles-pure none
    create_modules-Settles (cuda ∷ cudas) vers =
        Settles-▹ _ _ (Settles-ensure _ _ _ _)
          (Settles-▹ _ _ (Settles-ensure _ _ _ _) (create_modules-Settles cudas vers))

    create_rest-Settles :
        (vers : CudaDrvVers)
        → Settles (
            create_modules r efa (r.range (map (λ entry. entry.0) vers)) vers owner
            ▹ create_device_plugin_scc r efa owner
            ▹ create_device_plugin r efa owner)
    unfolding create_device_plugin
    create_rest-Settles vers =
        Settles-▹ _ _ (create_modules-Settles _ vers)
          (Settles-▹ _ _ create_device_plugin_scc-Settles (Settles-ensure _ _ _ _))

    create_for_nodes-Settles :
        (status : Bool × CudaDrvVers)
        → status.0 ≡ false
        → Settles (create_for_nodes r efa (ok status) owner)
    unfolding create_for_nodes
    create_for_nodes-Settles (false, vers) h = create_rest-Settles vers
    create_for_nodes-Settles (true, vers) h = cc

    create_listed-Settles :
        (listed : Result (List Node))
        → Settles (create_for_nodes r efa (listed_status r listed) owner)
    unfolding create_for_nodes
    create_listed-Settles (err e) = Settles-pure (some e)
    create_listed-Settles (ok nodes) =
        create_for_nodes-Settles (node_status nodes) (node_status_never_waits nodes)

  -- With any server and any labels of the nodes, `CreateCluster` of the GDRCOPY reconciler never asks
  -- to be called again.
  pub create_cluster_never_requeues :
      (efa : GdrdrvDriver) (w : r.client.World) → (create_cluster r efa w).0.0 ≡ false
  unfolding create_cluster create_as create_owned get_node_status
  create_cluster_never_requeues efa w = as_kind (r.gvk_for_object efa)
    where
      as_kind : (gvk : Result GroupVersionKind) → (create_as r efa gvk w).0.0 ≡ false
      as_kind (err e) = refl
      as_kind (ok gvk) =
          (create_listed-Settles efa (owner_reference efa gvk) (r.client.list_nodes w).0).at
            (r.client.list_nodes w).1
