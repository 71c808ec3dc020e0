-- ===== src/Controllers/Efa/Removal.antt =====
-- `DeleteCluster` of the EFA reconciler, and `Reconcile` of a driver that is being deleted, where
-- nothing fails.
use ocp_efa_operator.Prelude.{String, erase, ℕ, true, false, none, some, ◌≡◌, refl, ap, ◌∙◌, str_eq}
use ocp_efa_operator.Api.Driver.{EfaDriver, EfaDriverSpec}
use ocp_efa_operator.Api.Objects.{Kind, ObjectKey}
use ocp_efa_operator.Api.Laws.{View, IsLawful, drop}
use ocp_efa_operator.Api.Responsive.{IsResponsive}
use ocp_efa_operator.Controllers.Exec.{State}
use ocp_efa_operator.Controllers.Exec.Reaches.{Ends}
use ocp_efa_operator.Controllers.Owned.{Reconciler, Request, is_open_shift}
use ocp_efa_operator.Controllers.Owned.Clears.{
  Clears, Clears-if, Clears-▸, Clears-remove, Clears-remove_all,
}
use ocp_efa_operator.Controllers.Status.{ignored, find_driver, ReconcileResult, no_requeue}
use ocp_efa_operator.Controllers.Reconcile.{reconcile}
use ocp_efa_operator.Controllers.Reconcile.Empties.{reconcile-Emptied}
use ocp_efa_operator.Controllers.Efa.Create.{create_cluster}
use ocp_efa_operator.Controllers.Efa.Delete.{
  delete_device_plugin, delete_device_plugin_scc, delete_kmm, delete_config_map, delete_nfr,
  delete_cluster,
}
use ocp_efa_operator.Controllers.Efa.Footprint.{belongs}
use ocp_efa_operator.Controllers.Efa.Cleanup.{delete_cluster-exact, delete_cluster-Sweeps}

-- what a run of `Reconcile` for a driver that is being deleted leaves, from the state `s`
-- on, where `key` is the text of the request
abbrev pub Removed :
    (r : Reconciler EfaDriverSpec)
    → View r.client
    → EfaDriver
    → String
    → State r.client.World
    → ReconcileResult
    → State r.client.World
    → Type 0
Removed r v efa key s res s' =
    (res ≡ no_requeue)
    × (s'.back_off_duration ≡ erase key s.back_off_duration)
    × ((k : Kind) (at : ObjectKey)
        → v.stored s'.world k at ≡ drop (belongs r efa) (v.stored s.world k at))

module _ (r : Reconciler EfaDriverSpec) (v : View r.client) (laws : IsLawful r.client v)
    (up : IsResponsive r.client v) where
  delete_cluster-Clears : (efa : EfaDriver) → Clears (delete_cluster r efa)
  unfolding delete_cluster delete_device_plugin delete_device_plugin_scc delete_kmm
      delete_config_map delete_nfr
  delete_cluster-Clears efa = Clears-▸ _ _ (Clears-remove r v laws up _ _) (
      Clears-▸ _ _ (Clears-if (is_open_shift efa.spec.open_shift) _ (Clears-remove r v laws up _ _))
        (Clears-▸ _ _ (Clears-remove_all r v laws up _ _ _)
          (Clears-▸ _ _ (Clears-remove_all r v laws up _ _ _) (Clears-remove r v laws up _ _))))

  -- On a lawful server that answers, `DeleteCluster` returns no error, and afterwards the objects that
  -- belong to the driver are gone from every place, and all others are as they were.
  pub delete_cluster-clears :
      (efa : EfaDriver) (w : r.client.World)
      → ((delete_cluster r efa w).0 ≡ none)
        × ((k : Kind) (key : ObjectKey)
            → v.stored (delete_cluster r efa w).1 k key ≡ drop (belongs r efa) (v.stored w k key))
  delete_cluster-clears efa w =
      let cleared = delete_cluster-Clears efa w in
      (cleared, delete_cluster-exact r v laws efa w cleared)

  -- On a lawful server that answers: if the request's driver is the first of its name, is being
  -- deleted, has the finalizer, is not marked as ignored, and no driver before it is deployed, then
  -- `Reconcile` raises no error, asks for no other run and forgets the request's delay, and
  -- afterwards the objects that belong to the driver are gone from every place, and all others are
  -- as they were.
  pub reconcile-removes :
      (req : Request) (s : State r.client.World) (efa : EfaDriver) (t : ℕ)
      → find_driver req.name (v.drivers s.world) "" ≡ (some efa, "")
      → str_eq efa.status.condition ignored ≡ false
      → efa.deletion_timestamp ≡ some t
      → r.contains_finalizer efa.finalizers ≡ true
      → Ends
          (Removed r v efa (r.request_string req) s)
          (reconcile r (create_cluster r) (delete_cluster r) req s)
  reconcile-removes req s efa t found active dying held =
      reconcile-Emptied r v laws up (create_cluster r) (delete_cluster r) efa (v.nodes s.world)
        s.back_off_duration (belongs r efa)
        (λ d like w.
          let (cleared, left) = delete_cluster-clears d w in
          (
            cleared,
            λ k key.
                left k key ∙ ap (λ (x : EfaDriver). drop (belongs r x) (v.stored w k key)) like,
          ))
        (λ d w. ((delete_cluster-Sweeps r v laws d).shrinks w).frame.drivers) req s t found active
        dying held refl refl
