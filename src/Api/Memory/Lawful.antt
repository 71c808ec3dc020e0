-- ===== src/Api/Memory/Lawful.antt =====
-- The server in memory is lawful.
use ocp_efa_operator.Prelude.{refl, arith}
use ocp_efa_operator.Api.Laws.{IsLawful}
use ocp_efa_operator.Api.Memory.{memory_client, memory_view}

pub memory-IsLawful : (Spec : Type 0) → IsLawful (memory_client Spec) (memory_view Spec)
memory-IsLawful Spec = record {
  stored_at = λ w k key o h. ground arith;
  get_world = λ w k key. refl;
  get_ok = λ w k key o h. ground arith;
  get_not_found = λ w k key e h n. ground arith;
  create_ok = λ w o k key h. ground arith;
  create_err = λ w o e k key h. ground arith;
  create_exists = λ w o e h t. ground arith;
  create_frame = λ w o. (ground arith, ground arith);
  delete_ok = λ w o k key h. ground arith;
  delete_err = λ w o e k key h. ground arith;
  delete_not_found = λ w o e h n. ground arith;
  delete_all_ok = λ w kind ns s k key h. ground arith;
  delete_all_err = λ w kind ns s e k key h. ground arith;
  delete_all_not_found = λ w kind ns s e k key h n. ground arith;
  delete_frame = λ w o. (ground arith, ground arith);
  delete_all_frame = λ w kind ns s. (ground arith, ground arith);
  list_nodes_world = λ w. refl;
  list_nodes_ok = λ w ns h. ground arith;
  list_world = λ w. ground arith;
  list_ok = λ w h. ground arith;
  list_err = λ w e h. ground arith;
  update_stored = λ w d k key. ground arith;
  update_status_stored = λ w d k key. ground arith;
  update_ok = λ w d d' h. (ground arith, ground arith, ground arith, ground arith);
  update_status_ok = λ w d d' h. (ground arith, ground arith);
}
