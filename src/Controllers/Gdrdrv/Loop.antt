-- ===== src/Controllers/Gdrdrv/Loop.antt =====
-- `Reconcile` of the GDRCOPY reconciler: the shared loop with this reconciler's `CreateCluster` and
-- `DeleteCluster`.
use ocp_efa_operator.Api.Driver.{GdrdrvDriverSpec}
use ocp_efa_operator.Controllers.Exec.{Exec}
use ocp_efa_operator.Controllers.Owned.{Reconciler, Request}
use ocp_efa_operator.Controllers.Status.{ReconcileResult}
use ocp_efa_operator.Controllers.Reconcile.{reconcile}
use ocp_efa_operator.Controllers.Gdrdrv.Create.{create_cluster}
use ocp_efa_operator.Controllers.Gdrdrv.Delete.{delete_cluster}

abbrev pub reconcile_gdrdrv :
    (r : Reconciler GdrdrvDriverSpec) → Request → Exec r.client.World ReconcileResult
reconcile_gdrdrv r = reconcile r (create_cluster r) (delete_cluster r)
