-- ===== src/Api/Memory/Steady.antt =====
-- The server in memory that accepts every write of a resource, and that it is lawful.
use ocp_efa_operator.Prelude.{refl}
use ocp_efa_operator.Api.Client.{ok, Client}
use ocp_efa_operator.Api.Laws.{View, IsLawful, replace}
use ocp_efa_operator.Api.Memory.{memory_client, stored}
use ocp_efa_operator.Api.Memory.Lawful.{memory-IsLawful}
use ocp_efa_operator.Prelude.{arith}

abbrev pub steady_client : (Spec : Type 0) → Client Spec
steady_client Spec = record (memory_client Spec) {
  update = λ d w. (ok d, w);
  update_status = λ d w. (ok d, record w { drivers = replace d w.drivers });
}

abbrev pub steady_view : (Spec : Type 0) → View (steady_client Spec)
steady_view Spec = record { stored = stored; drivers = λ w. w.drivers; nodes = λ w. w.nodes }

pub steady-IsLawful : (Spec : Type 0) → IsLawful (steady_client Spec) (steady_view Spec)
steady-IsLawful Spec =
    let laws = memory-IsLawful Spec in
    record {
      stored_at = laws.stored_at;
      get_world = laws.get_world;
      get_ok = laws.get_ok;
      get_not_found = laws.get_not_found;
      create_ok = laws.create_ok;
      create_err = laws.create_err;
      create_exists = laws.create_exists;
      create_frame = laws.create_frame;
      delete_ok = laws.delete_ok;
      delete_err = laws.delete_err;
      delete_not_found = laws.delete_not_found;
      delete_all_ok = laws.delete_all_ok;
      delete_all_err = laws.delete_all_err;
      delete_all_not_found = laws.delete_all_not_found;
      delete_frame = laws.delete_frame;
      delete_all_frame = laws.delete_all_frame;
      list_nodes_world = laws.list_nodes_world;
      list_nodes_ok = laws.list_nodes_ok;
      list_world = laws.list_world;
      list_ok = laws.list_ok;
      list_err = laws.list_err;
      update_stored = λ w d k key. refl;
      update_status_stored = λ w d k key. refl;
      update_ok = λ w d d' h. (ground arith, ground arith, ground arith, ground arith);
      update_status_ok = λ w d d' h. (ground arith, refl);
    }
