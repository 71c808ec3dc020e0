-- ===== src/Controllers/Samples/GdrdrvSettleCases.antt =====
-- The theorems on the GDRCOPY reconciler and a server that answers, at one in memory that refuses nothing.
use ocp_efa_operator.Prelude.{false, none, some, [], ◌∷◌, ◌≡◌, refl}
use ocp_efa_operator.Api.Objects.{Kind, ObjectKey}
use ocp_efa_operator.Controllers.Owned.Provides.{first_at, or_else}
use ocp_efa_operator.Api.Driver.{GdrdrvDriverSpec, GdrdrvDriver}
use ocp_efa_operator.Api.Laws.{View, IsLawful}
use ocp_efa_operator.Api.Responsive.{IsResponsive}
use ocp_efa_operator.Api.Memory.{Memory}
use ocp_efa_operator.Api.Memory.Accepting.{
  accepting_client, accepting_view, accepting-IsLawful, accepting-IsResponsive,
}
use ocp_efa_operator.Controllers.Exec.{State}
use ocp_efa_operator.Controllers.Exec.Reaches.{Ends}
use ocp_efa_operator.Controllers.Owned.{Reconciler, GroupVersionKind, owner_reference}
use ocp_efa_operator.Controllers.Status.{find_driver}
use ocp_efa_operator.Controllers.Reconcile.{reconcile}
use ocp_efa_operator.Controllers.Reconcile.Converges.{Settled}
use ocp_efa_operator.Controllers.Gdrdrv.Create.{create_cluster}
use ocp_efa_operator.Controllers.Gdrdrv.Delete.{delete_cluster}
use ocp_efa_operator.Controllers.Gdrdrv.Provision.{needed, create_cluster-provides_gdrdrv}
use ocp_efa_operator.Controllers.Gdrdrv.Settles.{reconcile-settles_gdrdrv}
use ocp_efa_operator.Controllers.Gdrdrv.Removal.{Removed, reconcile-removes_gdrdrv}
use ocp_efa_operator.Controllers.Samples.{sample_reconciler, gdrdrv_driver, worker, start, request}

abbrev r : Reconciler GdrdrvDriverSpec
r = record (sample_reconciler GdrdrvDriverSpec) { client = accepting_client GdrdrvDriverSpec }

abbrev v : View r.client
v = accepting_view GdrdrvDriverSpec

abbrev laws : IsLawful r.client v
laws = accepting-IsLawful GdrdrvDriverSpec

abbrev up : IsResponsive r.client v
up = accepting-IsResponsive GdrdrvDriverSpec

abbrev gvk : GroupVersionKind
gvk = record { group_version = "efa.fms.io/v1alpha1"; kind = "Driver" }

abbrev s : State (Memory GdrdrvDriverSpec)
s = start (gdrdrv_driver ∷ [])

create_cluster-provides_gdrdrv_example :
    ((create_cluster r gdrdrv_driver s.world).0 ≡ (false, none))
    × ((k : Kind) (key : ObjectKey)
        → v.stored (create_cluster r gdrdrv_driver s.world).1 k key
          ≡ or_else none (
              first_at
                (needed r gdrdrv_driver (owner_reference gdrdrv_driver gvk) (worker ∷ []))
                k
                key))
create_cluster-provides_gdrdrv_example =
    create_cluster-provides_gdrdrv r v laws up gdrdrv_driver gvk refl s.world

reconcile-settles_gdrdrv_example :
    Ends
      (Settled r v "a" s gdrdrv_driver false
        (needed r gdrdrv_driver (owner_reference gdrdrv_driver gvk) (worker ∷ [])))
      (reconcile r (create_cluster r) (delete_cluster r) (request "a") s)
unfolding find_driver
reconcile-settles_gdrdrv_example =
    reconcile-settles_gdrdrv r v laws up gvk (λ d. refl) (request "a") s gdrdrv_driver refl refl
      refl

abbrev dying_driver : GdrdrvDriver
dying_driver = record gdrdrv_driver { deletion_timestamp = some 7 }

abbrev dying : State (Memory GdrdrvDriverSpec)
dying = start (dying_driver ∷ [])

reconcile-removes_gdrdrv_example :
    Ends
      (Removed r v dying_driver "a" dying)
      (reconcile r (create_cluster r) (delete_cluster r) (request "a") dying)
unfolding find_driver
reconcile-removes_gdrdrv_example =
    reconcile-removes_gdrdrv r v laws up (request "a") dying dying_driver 7 refl refl refl refl
