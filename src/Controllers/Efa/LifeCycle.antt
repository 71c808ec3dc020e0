-- ===== src/Controllers/Efa/LifeCycle.antt =====
-- The life of an EFA driver: a run of `Reconcile` that creates its objects, and a later one that
-- deletes them.
use ocp_efa_operator.Prelude.{ℕ, true, false, none, some, ◌≡◌, ap, ◌∙◌, str_eq}
use ocp_efa_operator.Api.Driver.{EfaDriver, EfaDriverSpec}
use ocp_efa_operator.Api.Objects.{Kind, ObjectKey, Object}
use ocp_efa_operator.Api.Client.{ok}
use ocp_efa_operator.Api.Laws.{View, IsLawful, drop}
use ocp_efa_operator.Api.Responsive.{IsResponsive}
use ocp_efa_operator.Controllers.Exec.{State}
use ocp_efa_operator.Controllers.Exec.Reaches.{Ends-state}
use ocp_efa_operator.Controllers.Owned.{Reconciler, Request, GroupVersionKind, owner_reference}
use ocp_efa_operator.Controllers.Owned.Provides.{first_at, or_else}
use ocp_efa_operator.Controllers.Owned.Needed.{drop-or_else}
use ocp_efa_operator.Controllers.Status.{ignored, find_driver}
use ocp_efa_operator.Controllers.Reconcile.{reconcile}
use ocp_efa_operator.Controllers.Reconcile.Converges.{Settled}
use ocp_efa_operator.Controllers.Efa.Nodes.{node_status}
use ocp_efa_operator.Controllers.Efa.Create.{create_cluster}
use ocp_efa_operator.Controllers.Efa.Delete.{delete_cluster}
use ocp_efa_operator.Controllers.Efa.Footprint.{belongs}
use ocp_efa_operator.Controllers.Efa.Needed.{needed-belongs}
use ocp_efa_operator.Controllers.Efa.Provision.{needed}
use ocp_efa_operator.Controllers.Efa.Settles.{reconcile-settles}
use ocp_efa_operator.Controllers.Efa.Removal.{Removed, reconcile-removes}

module _ (r : Reconciler EfaDriverSpec) (v : View r.client) (laws : IsLawful r.client v)
    (up : IsResponsive r.client v) (gvk : GroupVersionKind)
    (known : (d : EfaDriver) → r.gvk_for_object d ≡ ok gvk) (req : Request) where
  abbrev run : State r.client.World → State r.client.World
  run s = (reconcile r (create_cluster r) (delete_cluster r) req s).1

  -- On a lawful server that answers, where the kind of the drivers is known: let the request's driver
  -- be the first of its name, not being deleted, not marked as ignored, with none before it deployed,
  -- and let no object be stored that belongs to it. Let `u` be a state behind a run of `Reconcile`
  -- for it where the objects are still those, and where the driver, the same but for its finalizers
  -- and its status, is being deleted, has the finalizer, and is again the first of its name, not
  -- ignored and with none before it deployed. Then a run of `Reconcile` in `u` leaves every place as
  -- it was at first.
  pub reconcile-undo :
      (s u : State r.client.World) (efa d : EfaDriver) (t : ℕ)
      → find_driver req.name (v.drivers s.world) "" ≡ (some efa, "")
      → str_eq efa.status.condition ignored ≡ false
      → efa.deletion_timestamp ≡ none
      → ((k : Kind) (key : ObjectKey) (x : Object)
          → v.stored s.world k key ≡ some x
          → belongs r efa x ≡ false)
      → ((k : Kind) (key : ObjectKey) → v.stored u.world k key ≡ v.stored (run s).world k key)
      → find_driver req.name (v.drivers u.world) "" ≡ (some d, "")
      → str_eq d.status.condition ignored ≡ false
      → d ≡ record efa { deletion_timestamp = some t; finalizers = d.finalizers; status = d.status }
      → r.contains_finalizer d.finalizers ≡ true
      → (k : Kind) (key : ObjectKey) → v.stored (run u).world k key ≡ v.stored s.world k key
  reconcile-undo s u efa d t found active alive clean kept found' active' dying held k key =
      let objects = needed r efa (owner_reference efa gvk) (v.nodes s.world) in
      let settled : (k : Kind) (key : ObjectKey)
          → v.stored (run s).world k key
            ≡ or_else (v.stored s.world k key) (first_at objects k key) =
        Ends-state
          {Q = Settled r v (r.request_string req) s efa (node_status (v.nodes s.world)).0 objects} _
          (reconcile-settles r v laws up gvk known req s efa found active alive)
          (λ res s' h. h.4) in
      let removed : (k : Kind) (key : ObjectKey)
          → v.stored (run u).world k key ≡ drop (belongs r d) (v.stored u.world k key) =
        Ends-state {Q = Removed r v d (r.request_string req) u} _
          (reconcile-removes r v laws up req u d t found' active'
            (ap (λ (x : EfaDriver). x.deletion_timestamp) dying) held)
          (λ res s' h. h.2) in
      removed k key
      ∙ ap (drop (belongs r d)) (kept k key ∙ settled k key)
      ∙ ap
          (λ (x : EfaDriver).
            drop (belongs r x) (or_else (v.stored s.world k key) (first_at objects k key)))
          dying
      ∙ drop-or_else (belongs r efa) objects k key (v.stored s.world k key)
          (needed-belongs r efa (owner_reference efa gvk) (v.nodes s.world)) (clean k key)
