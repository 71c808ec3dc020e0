-- ===== src/Api/Memory/Accepting.antt =====
-- The server in memory that refuses nothing, and that it is lawful and responsive.
use ocp_efa_operator.Prelude.{none, some, Option, ◌≡◌, refl, arith}
use ocp_efa_operator.Api.Driver.{Driver}
use ocp_efa_operator.Api.Objects.{Kind, ObjectKey}
use ocp_efa_operator.Api.Client.{ok, err, Result, Client}
use ocp_efa_operator.Api.Laws.{View, IsLawful, first_named, replace}
use ocp_efa_operator.Api.Responsive.{IsResponsive}
use ocp_efa_operator.Api.Memory.{Memory, memory_client, stored, missing}
use ocp_efa_operator.Api.Memory.Lawful.{memory-IsLawful}

module _ (Spec : Type 0) where
  abbrev accepting : Memory Spec → Memory Spec
  accepting w = record w { refuse_create = λ o. none; refuse_delete = λ k. none }

  -- the status stays as it is stored
  abbrev accept_update :
      Driver Spec → Memory Spec → Option (Driver Spec) → Result (Driver Spec) × Memory Spec
  accept_update d w none = (err missing, w)
  accept_update d w (some old) =
      let d' = record d { status = old.status } in
      (ok d', record w { drivers = replace d' w.drivers })

  abbrev pub accepting_client : Client Spec
  accepting_client = record (memory_client Spec) {
    list = λ w. ((w.drivers, none), w);
    update = λ d w. accept_update d w (first_named d.name w.drivers);
    update_status = λ d w. (ok d, record w { drivers = replace d w.drivers });
    create = λ o w. (memory_client Spec).create o (accepting w);
    delete = λ o w. (memory_client Spec).delete o (accepting w);
    delete_all_of = λ k ns sel w. (memory_client Spec).delete_all_of k ns sel (accepting w);
  }

  abbrev pub accepting_view : View accepting_client
  accepting_view = record { stored = stored; drivers = λ w. w.drivers; nodes = λ w. w.nodes }

  accept_update_lem :
      (d : Driver Spec) (w : Memory Spec) (old : Option (Driver Spec))
      → ((accept_update d w old).1.nodes ≡ w.nodes)
        × ((k : Kind) (key : ObjectKey) → stored (accept_update d w old).1 k key ≡ stored w k key)
        × ((d' : Driver Spec)
            → (accept_update d w old).0 ≡ ok d'
            → (d'.name ≡ d.name)
              × (d'.spec ≡ d.spec)
              × (d'.finalizers ≡ d.finalizers)
              × (d'.deletion_timestamp ≡ d.deletion_timestamp))
  accept_update_lem d w none = (refl, λ k key. refl, λ d' h. (cc, cc, cc, cc))
  accept_update_lem d w (some old) =
      (refl, λ k key. refl, λ d' h. (ground arith, ground arith, ground arith, ground arith))

  pub accepting-IsLawful : IsLawful accepting_client accepting_view
  accepting-IsLawful =
      let laws = memory-IsLawful Spec in
      record {
        stored_at = laws.stored_at;
        get_world = laws.get_world;
        get_ok = laws.get_ok;
        get_not_found = laws.get_not_found;
        create_ok = λ w. laws.create_ok (accepting w);
        create_err = λ w. laws.create_err (accepting w);
        create_exists = λ w. laws.create_exists (accepting w);
        create_frame = λ w. laws.create_frame (accepting w);
        delete_ok = λ w. laws.delete_ok (accepting w);
        delete_err = λ w. laws.delete_err (accepting w);
        delete_not_found = λ w. laws.delete_not_found (accepting w);
        delete_all_ok = λ w. laws.delete_all_ok (accepting w);
        delete_all_err = λ w. laws.delete_all_err (accepting w);
        delete_all_not_found = λ w. laws.delete_all_not_found (accepting w);
        delete_frame = λ w. laws.delete_frame (accepting w);
        delete_all_frame = λ w. laws.delete_all_frame (accepting w);
        list_nodes_world = laws.list_nodes_world;
        list_nodes_ok = laws.list_nodes_ok;
        list_world = λ w. refl;
        list_ok = λ w h. refl;
        list_err = λ w e h. cc;
        update_stored = λ w d. (accept_update_lem d w (first_named d.name w.drivers)).1;
        update_status_stored = λ w d k key. refl;
        update_ok = λ w d. (accept_update_lem d w (first_named d.name w.drivers)).2;
        update_status_ok = λ w d d' h. (ground arith, refl);
      }

  pub accepting-IsResponsive : IsResponsive accepting_client accepting_view
  accepting-IsResponsive = record {
    get_found = λ w k key o h. rw h refl;
    get_missing = λ w k key h. (missing, rw h refl, refl);
    create_missing = λ w o h. rw h refl;
    delete_found = λ w o x h. rw h refl;
    delete_all = λ w kind ns selector. refl;
    list_nodes = λ w. refl;
    list = λ w. refl;
    update = λ w d old found only. rw found refl;
    update_nodes = λ w d. (accept_update_lem d w (first_named d.name w.drivers)).0;
    update_drivers = λ w d old found only alive. rw found refl;
    update_status = λ w d old found only. refl;
    update_status_nodes = λ w d. refl;
  }
