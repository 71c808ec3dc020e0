-- ===== src/Controllers/Samples/SettleCases.antt =====
-- The theorems on a server that answers, at one in memory that refuses nothing.
use ocp_efa_operator.Prelude.{
  String, false, none, some, [], ◌∷◌, ◌++◌, ◌≡◌, ◌≢◌, ◌∙◌, refl, sym, none-ne-some, str_eq, eq_iff,
  true≢false,
}
use ocp_efa_operator.Api.Driver.{EfaDriverSpec, EfaDriver}
use ocp_efa_operator.Api.Objects.{Kind, ObjectKey, daemon_set}
use ocp_efa_operator.Api.Laws.{View, IsLawful}
use ocp_efa_operator.Api.Responsive.{IsResponsive}
use ocp_efa_operator.Api.Memory.{Memory}
use ocp_efa_operator.Api.Memory.Accepting.{
  accepting_client, accepting_view, accepting-IsLawful, accepting-IsResponsive,
}
use ocp_efa_operator.Controllers.Exec.{State}
use ocp_efa_operator.Controllers.Exec.Reaches.{Ends}
use ocp_efa_operator.Controllers.Owned.{Reconciler, GroupVersionKind, owner_reference}
use ocp_efa_operator.Controllers.Owned.Provides.{first_at, or_else}
use ocp_efa_operator.Controllers.Status.{find_driver, no_requeue}
use ocp_efa_operator.Controllers.Reconcile.Deferred.{deferred}
use ocp_efa_operator.Controllers.Reconcile.LastDeployed.{reconcile-deferred}
use ocp_efa_operator.Controllers.Reconcile.{reconcile}
use ocp_efa_operator.Controllers.Reconcile.Converges.{Settled}
use ocp_efa_operator.Controllers.Reconcile.Stable.{Stable}
use ocp_efa_operator.Controllers.Efa.Nodes.{node_status}
use ocp_efa_operator.Controllers.Efa.Create.{create_cluster}
use ocp_efa_operator.Controllers.Efa.Delete.{delete_cluster}
use ocp_efa_operator.Controllers.Efa.Provision.{needed, create_cluster-provides}
use ocp_efa_operator.Controllers.Efa.Settles.{reconcile-settles}
use ocp_efa_operator.Controllers.Efa.Removal.{Removed, reconcile-removes}
use ocp_efa_operator.Controllers.Efa.LifeCycle.{reconcile-undo}
use ocp_efa_operator.Controllers.Samples.{
  sample_reconciler, driver_named, efa_spec, efa_driver, other_driver, worker, start, request,
}
use ocp_efa_operator.Controllers.Samples.EfaCases.{plugin_key}
use ocp_efa_operator.Controllers.Samples.LoopCases.{named}
use ocp_efa_operator.Controllers.Efa.Beside.{reconcile_beside}

abbrev pub r : Reconciler EfaDriverSpec
r = record (sample_reconciler EfaDriverSpec) { client = accepting_client EfaDriverSpec }

abbrev pub v : View r.client
v = accepting_view EfaDriverSpec

abbrev pub laws : IsLawful r.client v
laws = accepting-IsLawful EfaDriverSpec

abbrev pub up : IsResponsive r.client v
up = accepting-IsResponsive EfaDriverSpec

abbrev pub gvk : GroupVersionKind
gvk = record { group_version = "efa.fms.io/v1alpha1"; kind = "Driver" }

abbrev pub s : State (Memory EfaDriverSpec)
s = start (efa_driver ∷ other_driver ∷ [])

differs : (a b : String) → str_eq a b ≡ false → a ≢ b
differs a b h e = true≢false (sym ((eq_iff a b).1 e) ∙ h)

abbrev run : State (Memory EfaDriverSpec) → State (Memory EfaDriverSpec)
run t = (reconcile r (create_cluster r) (delete_cluster r) (request "a") t).1

create_cluster-provides_example :
    ((create_cluster r efa_driver s.world).0 ≡ ((node_status (worker ∷ [])).0, none))
    × ((k : Kind) (key : ObjectKey)
        → v.stored (create_cluster r efa_driver s.world).1 k key
          ≡ or_else none
              (first_at (needed r efa_driver (owner_reference efa_driver gvk) (worker ∷ [])) k key))
create_cluster-provides_example = create_cluster-provides r v laws up efa_driver gvk refl s.world

reconcile-settles_example :
    Ends
      (Settled r v "a" s efa_driver
        (node_status (worker ∷ [])).0
        (needed r efa_driver (owner_reference efa_driver gvk) (worker ∷ [])))
      (reconcile r (create_cluster r) (delete_cluster r) (request "a") s)
unfolding find_driver
reconcile-settles_example =
    reconcile-settles r v laws up gvk (λ d. refl) (request "a") s efa_driver refl refl refl

abbrev dying_driver : EfaDriver
dying_driver = record efa_driver { deletion_timestamp = some 7 }

abbrev dying : State (Memory EfaDriverSpec)
dying = start (dying_driver ∷ other_driver ∷ [])

reconcile-removes_example :
    Ends
      (Removed r v dying_driver "a" dying)
      (reconcile r (create_cluster r) (delete_cluster r) (request "a") dying)
unfolding find_driver
reconcile-removes_example =
    reconcile-removes r v laws up (request "a") dying dying_driver 7 refl refl refl refl

-- the user deletes the driver after the first run
abbrev deleted : State (Memory EfaDriverSpec)
deleted = record (run s) {
  world = record (run s).world { drivers = dying_driver ∷ other_driver ∷ [] };
}

reconcile-undo_example :
    v.stored (run deleted).world daemon_set plugin_key ≡ v.stored s.world daemon_set plugin_key
unfolding find_driver
reconcile-undo_example =
    reconcile-undo r v laws up gvk (λ d. refl) (request "a") s deleted efa_driver dying_driver 7
      refl refl refl (λ k key x h. absurd (none-ne-some x h)) (λ k key. refl) refl refl refl refl
      daemon_set plugin_key

-- two drivers that are deployed, then one that is ignored, and the one of the request
abbrev late : EfaDriver
late = driver_named efa_spec "c" "Ready"

abbrev spare : EfaDriver
spare = driver_named efa_spec "d" "Ignored"

abbrev crowd : State (Memory EfaDriverSpec)
crowd = start (efa_driver ∷ late ∷ spare ∷ other_driver ∷ [])

reconcile-deferred_example :
    Ends
      (λ res s'.
        (res ≡ no_requeue)
        × (v.drivers s'.world
            ≡ (efa_driver ∷ []) ++ (late ∷ ((spare ∷ []) ++ (deferred other_driver "c" ∷ []))))
        × (v.nodes s'.world ≡ v.nodes crowd.world)
        × (s'.back_off_duration ≡ crowd.back_off_duration)
        × ((k : Kind) (key : ObjectKey) → v.stored s'.world k key ≡ v.stored crowd.world k key))
      (reconcile r (create_cluster r) (delete_cluster r) (request "b") crowd)
reconcile-deferred_example =
    reconcile-deferred r v laws up (create_cluster r) (delete_cluster r) (request "b") crowd
      (efa_driver ∷ []) (spare ∷ []) [] late other_driver refl refl
      (differs "a" "b" refl, (differs "c" "b" refl, (differs "d" "b" refl, tt))) tt (refl, tt) refl
      refl refl

reconcile_beside_example :
    Ends
      (λ _ s'.
        Ends
          (Settled r v "a" s efa_driver
            (node_status (worker ∷ [])).0
            (needed r efa_driver (owner_reference efa_driver gvk) (worker ∷ [])))
          (reconcile r (create_cluster r) (delete_cluster r) (request "a") s'))
      (reconcile r (create_cluster r) (delete_cluster r) (request "b") s)
unfolding find_driver
reconcile_beside_example =
    reconcile_beside r v laws up gvk (λ d. refl) (request "a") (request "b") s efa_driver
      other_driver "a" (named "a" refl, (named "b" refl, tt)) refl refl refl refl refl refl refl
