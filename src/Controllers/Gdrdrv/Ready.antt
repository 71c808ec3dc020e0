-- ===== src/Controllers/Gdrdrv/Ready.antt =====
-- What the condition "Ready" of a GDRCOPY driver means, and when its finalizer goes.
use ocp_efa_operator.Prelude.{true, false, some, ◌≡◌, ◌⊎◌, inl, inr, refl, sym, subst, ◌∙◌}
use ocp_efa_operator.Api.Driver.{GdrdrvDriver, GdrdrvDriverSpec}
use ocp_efa_operator.Api.Objects.{Kind, ObjectKey, Object}
use ocp_efa_operator.Api.Client.{ok}
use ocp_efa_operator.Api.Laws.{View, IsLawful}
use ocp_efa_operator.Controllers.Exec.{State}
use ocp_efa_operator.Controllers.Owned.{Reconciler}
use ocp_efa_operator.Controllers.Status.{creating, ready, with_status, Progress}
use ocp_efa_operator.Controllers.Reconcile.{reconcile_creation, reconcile_deletion}
use ocp_efa_operator.Controllers.Reconcile.Finalizer.{reconcile_deletion-safe}
use ocp_efa_operator.Controllers.Gdrdrv.Footprint.{belongs}
use ocp_efa_operator.Controllers.Gdrdrv.Cleanup.{delete_cluster-Sweeps}
use ocp_efa_operator.Controllers.Reconcile.Ready.{
  only_ready, Prepared-used, reconcile_creation-Reports,
}
use ocp_efa_operator.Controllers.Gdrdrv.Create.{create_cluster}
use ocp_efa_operator.Controllers.Gdrdrv.Delete.{delete_cluster}
use ocp_efa_operator.Controllers.Gdrdrv.Completeness.{Complete, create_cluster-Complete_gdrdrv}

module _ (r : Reconciler GdrdrvDriverSpec) (v : View r.client) (laws : IsLawful r.client v) where
  -- On a lawful server, if the branch for a GDRCOPY driver that is not being deleted returns it with
  -- the condition "Ready", then at the end everything that `CreateCluster` has to make sure of is
  -- there for the driver, the daemon set apart.
  pub reconcile_creation-ready_gdrdrv :
      (efa : GdrdrvDriver) (s : State r.client.World) (p : Progress GdrdrvDriverSpec)
      → (reconcile_creation r (create_cluster r) (delete_cluster r) efa s).0 ≡ ok p
      → p.efa.status.condition ≡ ready
      → Complete r v laws efa
          (reconcile_creation r (create_cluster r) (delete_cluster r) efa s).1.world
  reconcile_creation-ready_gdrdrv efa s p h is_ready =
      let run =
        reconcile_creation-Reports r v laws (create_cluster r) (delete_cluster r) efa s p h in
      let all_done = only_ready _ (sym run.condition ∙ is_ready) in
      subst (Complete r v laws efa) (sym run.ended) (
        for_driver
          (Prepared-used r v laws (create_cluster r) (delete_cluster r) efa run.used s run.before
            run.prepared)
          (create_cluster-Complete_gdrdrv r v laws run.used run.before all_done))
    where
      for_driver :
          {d : GdrdrvDriver} {w : r.client.World}
          → (d ≡ efa) ⊎ (d ≡ with_status efa creating creating)
          → Complete r v laws d w
          → Complete r v laws efa w
      for_driver {d} {w} (inl e) c = subst (λ x. Complete r v laws x w) e c
      for_driver {d} {w} (inr e) c = subst (λ x. Complete r v laws x w) e c

  -- On a lawful server, if the branch for a GDRCOPY driver that is being deleted, which came with the
  -- finalizer, returns the driver without it, then no object that is stored at the end belongs to
  -- the driver. So the finalizer stays through every deletion that failed or was not tried.
  pub reconcile_deletion-clean_gdrdrv :
      (efa : GdrdrvDriver) (s : State r.client.World)
      → r.contains_finalizer efa.finalizers ≡ true
      → (p : Progress GdrdrvDriverSpec)
      → (reconcile_deletion r (create_cluster r) (delete_cluster r) efa s).0 ≡ ok p
      → r.contains_finalizer p.efa.finalizers ≡ false
      → (k : Kind) (key : ObjectKey) (x : Object)
      → v.stored (reconcile_deletion r (create_cluster r) (delete_cluster r) efa s).1.world k key
        ≡ some x
      → belongs r efa x ≡ false
  reconcile_deletion-clean_gdrdrv =
      reconcile_deletion-safe r v laws (create_cluster r) (delete_cluster r) (belongs r)
        (λ d c t. refl) (delete_cluster-Sweeps r v laws)
