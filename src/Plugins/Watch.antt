-- ===== src/Plugins/Watch.antt =====
-- `ListAndWatch` of the two device plugins, which share it but for the directory that is watched,
-- `GetDevices` and `IsDeviceName`.
pub mod UpToDate
use ocp_efa_operator.Prelude.{Bool, Option, none, some, List, [], ◌∷◌, if◌then◌else◌}
use ocp_efa_operator.Plugins.Text.{Bytes}
use ocp_efa_operator.Plugins.System.{Errno, Device, System}

pub data WatchEnd : Type 0 where
  returned : Option Errno → WatchEnd
  watching : WatchEnd

abbrev pub reply : Option (List Device) → List Device
reply none = []
reply (some devs) = devs

module _ (sys : System) (watched : Bytes) (get_devices : sys.World → Option (List Device))
    (is_device_name : Bytes → Bool) where
  -- what `select` can receive: that `stop` is closed, or an event, before which the world has changed
  pub data WatchEvent : Type 0 where
    closed : WatchEvent
    changed : Bytes → (sys.World → sys.World) → WatchEvent

  abbrev pub Rounds : Type 0
  Rounds = sys.World → WatchEnd × sys.World

  abbrev pub after_send : Rounds → Option Errno × sys.World → WatchEnd × sys.World
  after_send next (none, w) = next w
  after_send next (some e, w) = (returned (some e), w)

  -- send the devices of now
  unfoldable pub report : sys.World → Option Errno × sys.World
  report w = sys.send (reply (get_devices w)) w

  abbrev pub on_event : WatchEvent → Rounds → Rounds
  on_event closed next w = (returned none, w)
  on_event (changed name env) next w =
      if is_device_name name then after_send next (report (env w)) else next (env w)

  unfoldable pub watch_rounds : List WatchEvent → Rounds
  watch_rounds [] w = (watching, w)
  watch_rounds (event ∷ events) w = on_event event (watch_rounds events) w

  -- where there is no watcher it returns without an error
  abbrev pub if_watching : Option Errno × sys.World → Rounds → WatchEnd × sys.World
  if_watching (none, w) next = next w
  if_watching (some e, w) next = (returned none, w)

  unfoldable pub list_and_watch : List WatchEvent → Rounds
  unfolding watch_rounds report
  list_and_watch events w = if_watching (sys.new_watcher w) (λ w1.
      if_watching (sys.watch watched w1) (λ w2. after_send (watch_rounds events) (report w2)))
