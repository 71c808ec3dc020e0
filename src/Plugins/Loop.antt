-- ===== src/Plugins/Loop.antt =====
-- `dpLoop` of the two device plugins, which share it word for word: a server that is started anew
-- when the kubelet makes its socket or on SIGHUP, until another signal comes.
pub mod Laws
pub mod Kept
pub mod Serving
pub mod OneServer
use ocp_efa_operator.Prelude.{
  ℕ, Bool, true, false, ◌&&◌, Option, none, some, List, [], ◌∷◌, if◌then◌else◌,
}
use ocp_efa_operator.Controllers.Action.{Action}
use ocp_efa_operator.Plugins.Text.{Bytes, same_bytes}
use ocp_efa_operator.Plugins.System.{Errno, System}
use ocp_efa_operator.Plugins.Server.{Kind, Plugin, new_plugin, serve, stop}

pub data Signal : Type 0 where
  sighup sigint sigterm sigquit : Signal

-- what `select` can receive; `created` says that the event's operation contains Create
pub data Wake : Type 0 where
  file_event : Bytes → Bool → Wake
  watch_error : Errno → Wake
  signal : Signal → Wake

pub data Reaction : Type 0 where
  stay restart quit : Reaction

unfoldable pub reaction : Bytes → Wake → Reaction
reaction kubelet_sock (file_event name created) =
    if same_bytes name kubelet_sock && created then restart else stay
reaction kubelet_sock (watch_error e) = stay
reaction kubelet_sock (signal sighup) = restart
reaction kubelet_sock (signal sigint) = quit
reaction kubelet_sock (signal sigterm) = quit
reaction kubelet_sock (signal sigquit) = quit

-- where the loop stands when the events are over: it has returned, or it waits for the next one
pub data LoopEnd : Type 0 where
  returned : Option Errno → LoopEnd
  waiting : Plugin → LoopEnd

-- what happens to the world before `select` receives something, and what it receives
abbrev pub Moment : System → Type 0
Moment sys = (sys.World → sys.World) × Wake

module _ (sys : System) (kind : Kind) (plugin_dir kubelet_sock device_path : Bytes) where
  -- the body of `if restart` where there is no plugin yet, and where there is one
  unfoldable pub start_plugin : sys.World → Option Errno × (Plugin × sys.World)
  start_plugin w = serve sys kubelet_sock (new_plugin sys kind plugin_dir device_path w, w)

  unfoldable pub restart_plugin : Plugin → sys.World → Option Errno × (Plugin × sys.World)
  unfolding start_plugin
  restart_plugin dp w = let (e, (dp', w')) = stop sys (dp, w) in start_plugin w'

  abbrev Rounds : Type 0
  Rounds = Plugin → sys.World → LoopEnd × sys.World

  abbrev pub after_serve : Rounds → Option Errno × (Plugin × sys.World) → LoopEnd × sys.World
  after_serve next (none, (dp, w)) = next dp w
  after_serve next (some e, (dp, w)) = (returned (some e), w)

  abbrev pub react : Reaction → Rounds → Rounds
  react stay next dp w = next dp w
  react restart next dp w = after_serve next (restart_plugin dp w)
  react quit next dp w = let (e, (dp', w')) = stop sys (dp, w) in (returned none, w')

  -- the rounds of the loop, one for each thing that `select` receives
  unfoldable pub dp_rounds : List (Moment sys) → Rounds
  dp_rounds [] dp w = (waiting dp, w)
  dp_rounds ((env, wake) ∷ moments) dp w =
      react (reaction kubelet_sock wake) (dp_rounds moments) dp (env w)

  abbrev pub if_watching :
      Option Errno × sys.World → (sys.World → LoopEnd × sys.World) → LoopEnd × sys.World
  if_watching (none, w) next = next w
  if_watching (some e, w) next = (returned (some e), w)

  unfoldable pub dp_loop : List (Moment sys) → sys.World → LoopEnd × sys.World
  unfolding dp_rounds start_plugin
  dp_loop moments w = if_watching (sys.new_watcher w) (λ w1.
      if_watching (sys.watch plugin_dir w1)
        (λ w2. after_serve (dp_rounds moments) (start_plugin w2)))
