-- ===== src/Plugins/Gdrdrv/Node/Lifecycle.antt =====
-- The device nodes over a run of `main`.
use ocp_efa_operator.Prelude.{
  Bool, true, false, not, ◌&&◌, ◌||◌, Option, none, some, none-ne-some, List, [], ◌∷◌, ◌≡◌, refl,
  sym, ap, ◌∙◌, All, All-map,
}
use ocp_efa_operator.Plugins.Text.{Bytes, codes, same_bytes, same_bytes_refl, same_bytes_sound}
use ocp_efa_operator.Plugins.Path.{join}
use ocp_efa_operator.Plugins.System.{Errno, System}
use ocp_efa_operator.Plugins.Server.{gdrdrv_kind}
use ocp_efa_operator.Plugins.Loop.{Moment, LoopEnd, returned, waiting, dp_loop}
use ocp_efa_operator.Plugins.Loop.Kept.{dp_loop_kept}
use ocp_efa_operator.Plugins.Gdrdrv.Node.{
  State, Poll, LoopResult, done, polling, after_unlink, delete_gdrdrv, create_gdrdrv_loop,
  after_dp_loop, main_after, gdrdrv_main,
}
use ocp_efa_operator.Plugins.Gdrdrv.Node.Tracking.{
  Nodes, gone, SameNodes, IsNode, IsQuiet, QuietBefore, Tracked, Tracked-trans, Restored,
}
use ocp_efa_operator.Plugins.Gdrdrv.Node.Creation.{Created, create_gdrdrv_loop-Created}

module _ (sys : System) (nodes : Nodes sys) (own_socket : Bytes)
    (laws : IsNode sys nodes own_socket) where
  unlinked_node :
      (sb before : Bool) → (sb ≡ true → before ≡ false) → (not sb && (sb || before)) ≡ before
  unlinked_node true before h = sym (h refl)
  unlinked_node false before h = refl

  after_unlink-SameNodes :
      (w0 w : sys.World) (created : Bytes) (e : Option Errno) (w' : sys.World)
      → nodes.exists w0 created ≡ false
      → ((name : Bytes) → nodes.exists w name ≡ (same_bytes name created || nodes.exists w0 name))
      → e ≡ none
      → ((name : Bytes) → nodes.exists w' name ≡ gone e created name (nodes.exists w name))
      → SameNodes sys nodes w0 (after_unlink sys created (e, w')).1.world
  after_unlink-SameNodes w0 w created none w' fresh t h now name =
      now name
      ∙ ap (λ b. not (same_bytes name created) && b) (t name)
      ∙ unlinked_node (same_bytes name created) (nodes.exists w0 name)
          (λ same. ap (nodes.exists w0) (same_bytes_sound name created same) ∙ fresh)
  after_unlink-SameNodes w0 w created (some e) w' fresh t h now name =
      absurd (none-ne-some e (sym h))

  delete_gdrdrv-SameNodes :
      (w0 : sys.World) (created : Bytes) (w : sys.World)
      → Tracked sys nodes w0 created w
      → SameNodes sys nodes w0
          (delete_gdrdrv sys (record { created_dev_file = created; world = w })).1.world
  unfolding delete_gdrdrv
  delete_gdrdrv-SameNodes w0 [] w t = t
  delete_gdrdrv-SameNodes w0 (c ∷ s) w t =
      after_unlink-SameNodes w0 w (c ∷ s) (sys.unlink (c ∷ s) w).0 (sys.unlink (c ∷ s) w).1 t.0 t.1
        (laws.unlinks (c ∷ s) w there) (laws.gone_node (c ∷ s) w)
    where
      there : nodes.exists w (c ∷ s) ≡ true
      there = t.1 (c ∷ s) ∙ ap (λ b. b || nodes.exists w0 (c ∷ s)) (same_bytes_refl (c ∷ s))

  after_dp_loop-Restored :
      (w0 : sys.World) (end : LoopEnd) (w : sys.World) (st : State sys)
      → Tracked sys nodes w0 st.created_dev_file w
      → Restored sys nodes w0 (after_dp_loop sys (end, w) st)
  after_dp_loop-Restored w0 (waiting dp) w st t = t
  after_dp_loop-Restored w0 (returned e) w st t = delete_gdrdrv-SameNodes w0 st.created_dev_file w t

module _ (sys : System) (nodes : Nodes sys) where
  -- Where Mknod makes nodes only where there is none, Unlink removes a node that is there, and
  -- neither the calls of `dpLoop` nor anything else changes the nodes: while `main` runs its loop,
  -- there are the nodes of the start and the one that it has made itself, if it has made one, which
  -- was not there before; where its loop has returned, where `createGdrDrvLoop` has failed and while
  -- that still polls there are exactly the nodes of the start.
  pub gdrdrv_main-Restored :
      (plugin_dir kubelet_sock : Bytes)
      → IsNode sys nodes (join plugin_dir gdrdrv_kind.socket_name)
      → (polls : List (Poll sys)) (moments : List (Moment sys)) (w : sys.World)
      → All (IsQuiet sys nodes) polls
      → All (QuietBefore sys nodes) moments
      → Restored sys nodes w (gdrdrv_main sys plugin_dir kubelet_sock polls moments w)
  unfolding gdrdrv_main
  gdrdrv_main-Restored plugin_dir kubelet_sock laws polls moments w quiet undisturbed =
      after
        (create_gdrdrv_loop sys (codes "/proc/devices") (codes "/dev/gdrdrv") polls
          (record { created_dev_file = []; world = w }))
        (create_gdrdrv_loop-Created sys nodes (join plugin_dir gdrdrv_kind.socket_name) laws
          (codes "/proc/devices") _ _ polls w (record { created_dev_file = []; world = w }) quiet
          (refl, λ name. refl))
    where
      after :
          (created : LoopResult sys × State sys)
          → Created sys nodes (join plugin_dir gdrdrv_kind.socket_name) laws w created
          → Restored sys nodes w
              (main_after sys plugin_dir kubelet_sock (codes "/dev/gdrdrv") moments created)
      after (done none, st) t =
          let own_socket = join plugin_dir gdrdrv_kind.socket_name in
          let loop =
            dp_loop sys gdrdrv_kind plugin_dir kubelet_sock (codes "/dev/gdrdrv") moments
              st.world in
          after_dp_loop-Restored sys nodes own_socket laws w loop.0 loop.1 st (
            Tracked-trans sys nodes w st.created_dev_file st.world loop.1 t (
              dp_loop_kept sys gdrdrv_kind plugin_dir kubelet_sock (codes "/dev/gdrdrv")
                (SameNodes sys nodes st.world) (laws.calls st.world) moments st.world
                (All-map _ _ (λ m same w1 e name. same w1 name ∙ e name) moments undisturbed)
                (λ name. refl)))
      after (done (some e), st) t = t
      after (polling, st) t = t
