-- ===== src/Controllers/Efa/RoundTrip.antt =====
-- `DeleteCluster` of the EFA reconciler undoes `CreateCluster`.
use ocp_efa_operator.Prelude.{false, none, some, ◌≡◌, ◌∙◌}
use ocp_efa_operator.Api.Driver.{EfaDriver, EfaDriverSpec}
use ocp_efa_operator.Api.Objects.{Kind, Object, ObjectKey}
use ocp_efa_operator.Api.Laws.{View, IsLawful}
use ocp_efa_operator.Controllers.Owned.{Reconciler}
use ocp_efa_operator.Controllers.Owned.Undo.{drop-Grows}
use ocp_efa_operator.Controllers.Efa.Create.{create_cluster}
use ocp_efa_operator.Controllers.Efa.Delete.{delete_cluster}
use ocp_efa_operator.Controllers.Efa.Footprint.{belongs}
use ocp_efa_operator.Controllers.Efa.Completeness.{create_cluster-Grows}
use ocp_efa_operator.Controllers.Efa.Cleanup.{delete_cluster-exact}

module _ (r : Reconciler EfaDriverSpec) (v : View r.client) (laws : IsLawful r.client v)
    (efa : EfaDriver) where
  -- On a lawful server that stores no object of the driver, a run of `CreateCluster`, whatever its
  -- outcome, and then one of `DeleteCluster` that returns no error leave every place as it was.
  pub delete_cluster-create_cluster :
      (w : r.client.World)
      → ((k : Kind) (key : ObjectKey) (x : Object)
          → v.stored w k key ≡ some x
          → belongs r efa x ≡ false)
      → (delete_cluster r efa (create_cluster r efa w).1).0 ≡ none
      → (k : Kind) (key : ObjectKey)
      → v.stored (delete_cluster r efa (create_cluster r efa w).1).1 k key ≡ v.stored w k key
  delete_cluster-create_cluster w clean h k key =
      delete_cluster-exact r v laws efa (create_cluster r efa w).1 h k key
      ∙ drop-Grows r v (belongs r efa) (create_cluster-Grows r v laws efa w) clean k key
