-- ===== src/Plugins/Gdrdrv/Node.antt =====
-- `createGdrDrv`, `deleteGdrDrv`, `createGdrDrvLoop` and `main`: the device node of the kernel module.

pub mod Tracking
pub mod Creation
pub mod Lifecycle
pub mod Waiting
use ocp_efa_operator.Prelude.{
  ℕ, ◌+◌, ◌-◌, ◌%◌, ◌^◌, Bool, true, false, Option, none, some, List, [], ◌∷◌, is_empty,
  if◌then◌else◌,
}
use ocp_efa_operator.Controllers.Action.{Action}
use ocp_efa_operator.Plugins.Text.{Bytes, codes}
use ocp_efa_operator.Plugins.Decimal.{ℤ, pos, negsuc}
use ocp_efa_operator.Plugins.System.{
  Errno, enodev, eintr, is_enoent, is_eexist, is_enodev, Result, ok, err, System,
}
use ocp_efa_operator.Plugins.Server.{gdrdrv_kind}
use ocp_efa_operator.Plugins.Loop.{Moment, LoopEnd, returned, waiting, dp_loop}
use ocp_efa_operator.Plugins.Gdrdrv.Major.{get_gdrdrv_major}

-- `uint32(major)`
abbrev pub to_u32 : ℤ → ℕ
to_u32 (pos n) = n % 2 ^ 32
to_u32 (negsuc n) = 2 ^ 32 - 1 - n % 2 ^ 32

-- `0666 | unix.S_IFCHR`
abbrev pub node_mode : ℕ
node_mode = 438 + 8192

module _ (sys : System) where
  -- the world with the global `createdDevFile`
  pub record State : Type 0 where
    pub created_dev_file : Bytes
    pub world : sys.World

  -- one poll for the module: whether a signal is waiting, and what happens while it sleeps otherwise
  pub data Poll : Type 0 where
    signalled : Poll
    asleep : (sys.World → sys.World) → Poll

  -- where the loop stands when the polls are over
  pub data LoopResult : Type 0 where
    done : Option Errno → LoopResult
    polling : LoopResult

  abbrev pub after_mknod : Bytes → Bytes → Option Errno × sys.World → Option Errno × State
  after_mknod target created (none, w) = (none, record { created_dev_file = target; world = w })
  after_mknod target created (some e, w) =
      (if is_eexist e then none else some e, record { created_dev_file = created; world = w })

  unfoldable pub create_gdrdrv : ℤ → Bytes → Action State (Option Errno)
  create_gdrdrv major target st =
      after_mknod target st.created_dev_file
        (sys.mknod target node_mode (sys.mkdev (to_u32 major) 0) st.world)

  abbrev pub after_unlink : Bytes → Option Errno × sys.World → Option Errno × State
  after_unlink created (none, w) = (none, record { created_dev_file = []; world = w })
  after_unlink created (some e, w) =
      (if is_enoent e then none else some e, record { created_dev_file = created; world = w })

  unfoldable pub delete_gdrdrv : Action State (Option Errno)
  delete_gdrdrv st =
      if is_empty st.created_dev_file
      then (none, st)
      else after_unlink st.created_dev_file (sys.unlink st.created_dev_file st.world)

  abbrev pub finish : Option Errno × State → LoopResult × State
  finish (e, st) = (done e, st)

  abbrev pub after_attempt :
      Bytes → Result ℤ → (State → LoopResult × State) → State → LoopResult × State
  after_attempt target (err e) retry st = if is_enodev e then retry st else (done (some e), st)
  after_attempt target (ok major) retry st = finish (create_gdrdrv major target st)

  -- the rounds of the loop, each with the poll that it makes where the module is not there
  unfoldable pub create_gdrdrv_loop : Bytes → Bytes → List Poll → State → LoopResult × State
  unfolding create_gdrdrv
  create_gdrdrv_loop devices_file target [] st =
      after_attempt target (get_gdrdrv_major sys devices_file st.world) (λ st'. (polling, st')) st
  create_gdrdrv_loop devices_file target (signalled ∷ polls) st =
      after_attempt target (get_gdrdrv_major sys devices_file st.world)
        (λ st'. (done (some eintr), st')) st
  create_gdrdrv_loop devices_file target (asleep env ∷ polls) st =
      after_attempt target (get_gdrdrv_major sys devices_file st.world)
        (λ st'. create_gdrdrv_loop devices_file target polls (record st' { world = env st'.world }))
        st

  abbrev pub gdrdrv_dp_loop :
      Bytes → Bytes → Bytes → List (Moment sys) → sys.World → LoopEnd × sys.World
  gdrdrv_dp_loop plugin_dir kubelet_sock target moments w =
      dp_loop sys gdrdrv_kind plugin_dir kubelet_sock target moments w

  -- `main` behind `dpLoop`
  abbrev pub after_dp_loop : LoopEnd × sys.World → State → Option LoopEnd × State
  after_dp_loop (waiting dp, w) st = (some (waiting dp), record st { world = w })
  after_dp_loop (returned e, w) st =
      (some (returned e), (delete_gdrdrv (record st { world = w })).1)

  -- `main` behind `createGdrDrvLoop`, which ends where that returns an error
  abbrev pub main_after :
      Bytes → Bytes → Bytes → List (Moment sys) → LoopResult × State → Option LoopEnd × State
  main_after plugin_dir kubelet_sock target moments (polling, st) = (none, st)
  main_after plugin_dir kubelet_sock target moments (done (some e), st) = (none, st)
  main_after plugin_dir kubelet_sock target moments (done none, st) =
      after_dp_loop (gdrdrv_dp_loop plugin_dir kubelet_sock target moments st.world) st

  -- with the polls and the events that there are; the directories are the kubelet's
  unfoldable pub gdrdrv_main :
      Bytes → Bytes → List Poll → List (Moment sys) → sys.World → Option LoopEnd × State
  unfolding create_gdrdrv_loop delete_gdrdrv
  gdrdrv_main plugin_dir kubelet_sock polls moments w =
      main_after plugin_dir kubelet_sock (codes "/dev/gdrdrv") moments (
        create_gdrdrv_loop (codes "/proc/devices") (codes "/dev/gdrdrv") polls
          (record { created_dev_file = []; world = w }))
