-- ===== src/Plugins/Watch/UpToDate.antt =====
-- While `ListAndWatch` watches, the kubelet knows the devices of now.
use ocp_efa_operator.Prelude.{
  Bool, true, false, Option, none, some, List, [], ◌∷◌, ◌≡◌, refl, sym, ap, ◌∙◌, if◌then◌else◌, All,
}
use ocp_efa_operator.Plugins.Text.{Bytes}
use ocp_efa_operator.Plugins.System.{Errno, Device, System}
use ocp_efa_operator.Plugins.Watch.{
  WatchEnd, returned, watching, reply, WatchEvent, closed, changed, after_send, report, on_event,
  watch_rounds, if_watching, list_and_watch, Rounds,
}

-- the devices in the last reply that the kubelet has received
pub record Replies (sys : System) : Type 0 where
  pub last : sys.World → Option (List Device)

-- a reply that has been sent is received, and sending changes no device
pub record IsStream (sys : System) (r : Replies sys)
    (get_devices : sys.World → Option (List Device)) : Type 0 where
  pub sent :
      (devs : List Device) (w : sys.World)
      → (sys.send devs w).0 ≡ none
      → r.last (sys.send devs w).1 ≡ some devs
  pub same_devices :
      (devs : List Device) (w : sys.World) → get_devices (sys.send devs w).1 ≡ get_devices w

module _ (sys : System) (r : Replies sys) (watched : Bytes)
    (get_devices : sys.World → Option (List Device)) (is_device_name : Bytes → Bool)
    (laws : IsStream sys r get_devices) where
  abbrev Event : Type 0
  Event = WatchEvent sys watched get_devices is_device_name

  -- the watcher tells of each change of the devices by the name of a device, and nobody else sends
  abbrev pub IsNoticed : Event → Type 0
  IsNoticed closed = Unit
  IsNoticed (changed name env) =
      (is_device_name name ≡ false → (w : sys.World) → get_devices (env w) ≡ get_devices w)
      × ((w : sys.World) → r.last (env w) ≡ r.last w)

  abbrev pub UpToDate : sys.World → Type 0
  UpToDate w = r.last w ≡ some (reply (get_devices w))

  abbrev pub Informed : WatchEnd × sys.World → Type 0
  Informed (watching, w) = UpToDate w
  Informed (returned e, w) = Unit

  report-UpToDate :
      (w : sys.World)
      → (report sys watched get_devices is_device_name w).0 ≡ none
      → UpToDate (report sys watched get_devices is_device_name w).1
  unfolding report
  report-UpToDate w h =
      laws.sent (reply (get_devices w)) w h
      ∙ ap (λ d. some (reply d)) (sym (laws.same_devices (reply (get_devices w)) w))

  after_send-Informed :
      (next : Rounds sys watched get_devices is_device_name) (end : Option Errno × sys.World)
      → (end.0 ≡ none → UpToDate end.1)
      → ((w : sys.World) → UpToDate w → Informed (next w))
      → Informed (after_send sys watched get_devices is_device_name next end)
  after_send-Informed next (none, w) now keep = keep w (now refl)
  after_send-Informed next (some e, w) now keep = tt

  on_event-Informed :
      (event : Event) (next : Rounds sys watched get_devices is_device_name)
      → IsNoticed event
      → ((w : sys.World) → UpToDate w → Informed (next w))
      → (w : sys.World) → UpToDate w
      → Informed (on_event sys watched get_devices is_device_name event next w)
  on_event-Informed closed next noticed keep w now = tt
  on_event-Informed (changed name env) next (tells, quiet) keep w now =
      told (is_device_name name) refl
    where
      told :
          (b : Bool)
          → is_device_name name ≡ b
          → Informed (
              if b
              then after_send sys watched get_devices is_device_name next
                  (report sys watched get_devices is_device_name (env w))
              else next (env w))
      told true e =
          after_send-Informed next (report sys watched get_devices is_device_name (env w))
            (report-UpToDate (env w)) keep
      told false e = keep (env w) (quiet w ∙ now ∙ ap (λ d. some (reply d)) (sym (tells e w)))

  watch_rounds-Informed :
      (events : List Event)
      → All IsNoticed events
      → (w : sys.World) → UpToDate w
      → Informed (watch_rounds sys watched get_devices is_device_name events w)
  unfolding watch_rounds
  watch_rounds-Informed [] all w now = now
  watch_rounds-Informed (event ∷ events) (noticed, all) w now =
      on_event-Informed event (watch_rounds sys watched get_devices is_device_name events) noticed
        (watch_rounds-Informed events all) w now

  if_watching-Informed :
      (end : Option Errno × sys.World) (next : Rounds sys watched get_devices is_device_name)
      → ((w : sys.World) → Informed (next w))
      → Informed (if_watching sys watched get_devices is_device_name end next)
  if_watching-Informed (none, w) next keep = keep w
  if_watching-Informed (some e, w) next keep = tt

  -- Where a reply that is sent is received and sending changes no device, and where each event is
  -- noticed: as long as `ListAndWatch` watches, the devices in the last reply that the kubelet has
  -- received are those that `GetDevices` finds now, which are none where it finds no device.
  pub list_and_watch-Informed :
      (events : List Event)
      → All IsNoticed events
      → (w : sys.World) → Informed (list_and_watch sys watched get_devices is_device_name events w)
  unfolding list_and_watch
  list_and_watch-Informed events all w = if_watching-Informed (sys.new_watcher w) _ λ w1.
      if_watching-Informed (sys.watch watched w1) _ λ w2.
        after_send-Informed (watch_rounds sys watched get_devices is_device_name events)
          (report sys watched get_devices is_device_name w2) (report-UpToDate w2)
          (watch_rounds-Informed events all)
