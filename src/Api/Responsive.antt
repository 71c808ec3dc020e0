-- ===== src/Api/Responsive.antt =====
-- A server that answers: what the calls return where none of them fails and nobody else writes. The
-- status is a subresource of the drivers: `Update` leaves the status that is stored, and
-- `Status().Update` is a write of nothing else. Both are given a driver that is stored, with no other
-- change than they make.
use ocp_efa_operator.Prelude.{String, true, none, some, ◌≡◌}
use ocp_efa_operator.Api.Driver.{Labels, Driver}
use ocp_efa_operator.Api.Objects.{Kind, ObjectKey, Object, kind_of, key_of}
use ocp_efa_operator.Api.Client.{ApiError, is_not_found, ok, err, Client}
use ocp_efa_operator.Api.Laws.{first_named, replace, View}

pub record IsResponsive {Spec : Type 0} (c : Client Spec) (v : View c) : Type 0 where
  pub get_found :
      (w : c.World) (k : Kind) (key : ObjectKey) (o : Object)
      → v.stored w k key ≡ some o
      → (c.get k key w).0 ≡ ok o
  pub get_missing :
      (w : c.World) (k : Kind) (key : ObjectKey)
      → v.stored w k key ≡ none
      → (e : ApiError) × ((c.get k key w).0 ≡ err e) × (is_not_found e ≡ true)
  pub create_missing :
      (w : c.World) (o : Object)
      → v.stored w (kind_of o) (key_of o) ≡ none
      → (c.create o w).0 ≡ none
  pub delete_found :
      (w : c.World) (o x : Object)
      → v.stored w (kind_of o) (key_of o) ≡ some x
      → (c.delete o w).0 ≡ none
  pub delete_all :
      (w : c.World) (kind : Kind) (ns : String) (selector : Labels)
      → (c.delete_all_of kind ns selector w).0 ≡ none
  pub list_nodes : (w : c.World) → (c.list_nodes w).0 ≡ ok (v.nodes w)
  pub list : (w : c.World) → (c.list w).0 ≡ (v.drivers w, none)
  pub update :
      (w : c.World) (d old : Driver Spec)
      → first_named d.name (v.drivers w) ≡ some old
      → d ≡ record old { spec = d.spec; finalizers = d.finalizers; status = d.status }
      → (c.update d w).0 ≡ ok (record d { status = old.status })
  pub update_nodes : (w : c.World) (d : Driver Spec) → v.nodes (c.update d w).1 ≡ v.nodes w
  pub update_drivers :
      (w : c.World) (d old : Driver Spec)
      → first_named d.name (v.drivers w) ≡ some old
      → d ≡ record old { spec = d.spec; finalizers = d.finalizers; status = d.status }
      → d.deletion_timestamp ≡ none
      → v.drivers (c.update d w).1 ≡ replace (record d { status = old.status }) (v.drivers w)
  pub update_status :
      (w : c.World) (d old : Driver Spec)
      → first_named d.name (v.drivers w) ≡ some old
      → d ≡ record old { status = d.status }
      → (c.update_status d w).0 ≡ ok d
  pub update_status_nodes :
      (w : c.World) (d : Driver Spec) → v.nodes (c.update_status d w).1 ≡ v.nodes w
