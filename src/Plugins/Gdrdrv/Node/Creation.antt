-- ===== src/Plugins/Gdrdrv/Node/Creation.antt =====
-- `createGdrDrv` and `createGdrDrvLoop`: the node is tracked once it is made.
use ocp_efa_operator.Prelude.{
  ℕ, Bool, true, false, ◌||◌, Option, none, some, subst, List, [], ◌∷◌, ◌≡◌, refl, sym, ap, ◌∙◌,
  if◌then◌else◌, All,
}
use ocp_efa_operator.Plugins.Text.{Bytes, same_bytes}
use ocp_efa_operator.Plugins.Decimal.{ℤ}
use ocp_efa_operator.Plugins.System.{Errno, is_eexist, is_enodev, Result, ok, err, System}
use ocp_efa_operator.Plugins.Gdrdrv.Major.{get_gdrdrv_major}
use ocp_efa_operator.Plugins.Gdrdrv.Node.{
  State, Poll, signalled, asleep, LoopResult, done, polling, after_mknod, create_gdrdrv, finish,
  after_attempt, create_gdrdrv_loop, to_u32, node_mode,
}
use ocp_efa_operator.Plugins.Gdrdrv.Node.Tracking.{Nodes, made, SameNodes, IsNode, IsQuiet, Tracked}

module _ (sys : System) (nodes : Nodes sys) (own_socket : Bytes)
    (laws : IsNode sys nodes own_socket) where
  -- behind the creation: no error and tracked nodes, or an error and the nodes of before
  abbrev pub Created : sys.World → LoopResult sys × State sys → Type 0
  Created w0 (done none, st) = Tracked sys nodes w0 st.created_dev_file st.world
  Created w0 (done (some e), st) = SameNodes sys nodes w0 st.world
  Created w0 (polling, st) = SameNodes sys nodes w0 st.world

  -- before it
  abbrev pub Untouched : sys.World → State sys → Type 0
  Untouched w0 st = (st.created_dev_file ≡ []) × SameNodes sys nodes w0 st.world

  create_gdrdrv-Created :
      (w0 : sys.World) (major : ℤ) (c : ℕ) (s : Bytes) (st : State sys)
      → Untouched w0 st
      → Created w0 (finish sys (create_gdrdrv sys major (c ∷ s) st))
  unfolding create_gdrdrv
  create_gdrdrv-Created w0 major c s st (created, same) =
      let made_now = sys.mknod (c ∷ s) node_mode (sys.mkdev (to_u32 major) 0) st.world in
      after made_now.0 made_now.1
        (laws.made_node (c ∷ s) node_mode (sys.mkdev (to_u32 major) 0) st.world)
        (laws.fresh (c ∷ s) node_mode (sys.mkdev (to_u32 major) 0) st.world)
    where
      after :
          (e : Option Errno) (w : sys.World)
          → ((name : Bytes)
              → nodes.exists w name ≡ made e (c ∷ s) name (nodes.exists st.world name))
          → (e ≡ none → nodes.exists st.world (c ∷ s) ≡ false)
          → Created w0 (finish sys (after_mknod sys (c ∷ s) st.created_dev_file (e, w)))
      after none w now fresh = (
        sym (same (c ∷ s)) ∙ fresh refl,
        λ name. now name ∙ ap (λ b. same_bytes name (c ∷ s) || b) (same name),
      )
      after (some e) w now fresh = refused (is_eexist e)
        where
          refused :
              (b : Bool)
              → Created w0 (
                  finish sys (
                    if b then none else some e,
                    record { created_dev_file = st.created_dev_file; world = w },
                  ))
          refused true =
              subst (λ f. Tracked sys nodes w0 f w) (sym created) (λ name. now name ∙ same name)
          refused false = λ name. now name ∙ same name

  after_attempt-Created :
      (w0 : sys.World) (c : ℕ) (s : Bytes) (r : Result ℤ)
      (retry : State sys → LoopResult sys × State sys) (st : State sys)
      → Untouched w0 st
      → Created w0 (retry st)
      → Created w0 (after_attempt sys (c ∷ s) r retry st)
  after_attempt-Created w0 c s (ok major) retry st same retried =
      create_gdrdrv-Created w0 major c s st same
  after_attempt-Created w0 c s (err e) retry st same retried = split (is_enodev e)
    where
      split : (b : Bool) → Created w0 (if b then retry st else (done (some e), st))
      split true = retried
      split false = same.1

  pub create_gdrdrv_loop-Created :
      (devices_file : Bytes) (c : ℕ) (s : Bytes) (polls : List (Poll sys)) (w0 : sys.World)
      (st : State sys)
      → All (IsQuiet sys nodes) polls
      → Untouched w0 st
      → Created w0 (create_gdrdrv_loop sys devices_file (c ∷ s) polls st)
  unfolding create_gdrdrv_loop
  create_gdrdrv_loop-Created devices_file c s [] w0 st quiet same =
      after_attempt-Created w0 c s (get_gdrdrv_major sys devices_file st.world) _ st same same.1
  create_gdrdrv_loop-Created devices_file c s (signalled ∷ polls) w0 st quiet same =
      after_attempt-Created w0 c s (get_gdrdrv_major sys devices_file st.world) _ st same same.1
  create_gdrdrv_loop-Created devices_file c s (asleep env ∷ polls) w0 st quiet same =
      after_attempt-Created w0 c s (get_gdrdrv_major sys devices_file st.world) _ st same (
        create_gdrdrv_loop-Created devices_file c s polls w0 (record st { world = env st.world })
          quiet.1 (same.0, λ name. quiet.0 st.world name ∙ same.1 name))
