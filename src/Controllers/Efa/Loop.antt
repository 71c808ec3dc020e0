-- ===== src/Controllers/Efa/Loop.antt =====
-- `Reconcile` of the EFA reconciler: the shared loop with this reconciler's `CreateCluster` and
-- `DeleteCluster`.
use ocp_efa_operator.Api.Driver.{EfaDriverSpec}
use ocp_efa_operator.Controllers.Exec.{Exec}
use ocp_efa_operator.Controllers.Owned.{Reconciler, Request}
use ocp_efa_operator.Controllers.Status.{ReconcileResult}
use ocp_efa_operator.Controllers.Reconcile.{reconcile}
use ocp_efa_operator.Controllers.Efa.Create.{create_cluster}
use ocp_efa_operator.Controllers.Efa.Delete.{delete_cluster}

abbrev pub reconcile_efa :
    (r : Reconciler EfaDriverSpec) → Request → Exec r.client.World ReconcileResult
reconcile_efa r = reconcile r (create_cluster r) (delete_cluster r)
