-- ===== src/Plugins/Gdrdrv.antt =====
-- cmd/ocp-gdrdrv-device-plugin/dp.go: what the GDRCOPY plugin has of its own.

pub mod Allocation
pub mod Advertised
pub mod Major
pub mod Node
use ocp_efa_operator.Prelude.{
  ℕ, zero, suc, ◌+◌, Bool, true, false, Option, none, some, List, [], ◌∷◌, ◌++◌, if◌then◌else◌,
}
use ocp_efa_operator.Plugins.Text.{Bytes, same_bytes}
use ocp_efa_operator.Plugins.Decimal.{ℤ, pos}
use ocp_efa_operator.Plugins.Path.{dir}
use ocp_efa_operator.Plugins.System.{
  Device, System, Response, device_spec, AllocateError, malformed_id, no_device_file, answer,
}
use ocp_efa_operator.Plugins.Ids.{get_device_id, get_idx_from_device_id, is_minus_one}
use ocp_efa_operator.Plugins.Server.{Plugin}
use ocp_efa_operator.Plugins.Watch.{WatchEvent, WatchEnd, list_and_watch}

-- `maxGdrdrvUsers`
abbrev pub max_users : ℕ
max_users = 128

abbrev pub device_id : Plugin → ℤ → Bytes
device_id dp idx = get_device_id dp.kind.id_tag dp.host_name idx

abbrev pub idx_of_id : Plugin → Bytes → ℤ
idx_of_id dp id = get_idx_from_device_id dp.kind.id_tag dp.host_name id

unfoldable pub is_device_name : Plugin → Bytes → Bool
is_device_name dp name = same_bytes name dp.device_path

-- the loop of `GetDevices`, with this many rounds to go
unfoldable pub devices_from : Plugin → ℕ → ℕ → List Device → List Device
devices_from dp i zero devs = devs
devices_from dp i (suc rounds) devs =
    devices_from dp (i + 1) rounds
      (devs ++ record { id = device_id dp (pos i); topology = none } ∷ [])

-- the loop over the ids of one container: whether it asks for the device, and the last error
unfoldable pub request_ids :
    Plugin → List Bytes → Bool → Option AllocateError → Bool × Option AllocateError
request_ids dp [] request_gdrdrv last_error = (request_gdrdrv, last_error)
request_ids dp (id ∷ ids) request_gdrdrv last_error =
    let malformed = request_ids dp ids request_gdrdrv (some (malformed_id id)) in
    if is_minus_one (idx_of_id dp id) then malformed else (true, last_error)

-- the device file, if the device has been asked for
abbrev pub add_response : Plugin → Bool → List Response → List Response
add_response dp true responses = responses ++ (device_spec dp.device_path ∷ []) ∷ []
add_response dp false responses = responses

-- the loop over the containers, which share `requestGdrdrv`
unfoldable pub request_containers :
    Plugin
    → List (List Bytes)
    → List Response
    → Bool
    → Option AllocateError
    → List Response × Option AllocateError
unfolding request_ids
request_containers dp [] responses request_gdrdrv last_error = (responses, last_error)
request_containers dp (ids ∷ requests) responses request_gdrdrv last_error =
    let (request_gdrdrv', last_error') = request_ids dp ids request_gdrdrv last_error in
    request_containers dp requests (add_response dp request_gdrdrv' responses) request_gdrdrv'
      last_error'

module _ (sys : System) where
  -- `none` is nil
  unfoldable pub get_devices : Plugin → sys.World → Option (List Device)
  unfolding devices_from
  get_devices dp w =
      if sys.stat dp.device_path w then some (devices_from dp 0 max_users []) else none

  abbrev pub gdrdrv_list_and_watch :
      (dp : Plugin)
      → List (WatchEvent sys (dir dp.device_path) (get_devices dp) (is_device_name dp))
      → sys.World
      → WatchEnd × sys.World
  gdrdrv_list_and_watch dp events w =
      list_and_watch sys (dir dp.device_path) (get_devices dp) (is_device_name dp) events w

  unfoldable pub allocate :
      Plugin → sys.World → List (List Bytes) → Option (List Response) × Option AllocateError
  unfolding request_containers
  allocate dp w requests =
      let (responses, last_error) = request_containers dp requests [] false none in
      if sys.stat dp.device_path w
      then answer responses last_error
      else (none, some (no_device_file dp.device_path))
