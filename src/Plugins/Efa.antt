-- ===== src/Plugins/Efa.antt =====
-- cmd/ocp-efa-device-plugin/dp.go: what the EFA plugin has of its own.
pub mod Allocation
pub mod Advertised
use ocp_efa_operator.Prelude.{
  ℕ, Bool, true, false, Option, none, some, List, [], ◌∷◌, ◌++◌, if◌then◌else◌,
}
use ocp_efa_operator.Plugins.Text.{Bytes, codes, has_prefix, after_prefix, trim_suffix}
use ocp_efa_operator.Plugins.Decimal.{ℤ, parse_int, format_int}
use ocp_efa_operator.Plugins.System.{
  Errno, num_error, Result, ok, err, Device, System, Response, device_spec, AllocateError,
  malformed_id, no_device_file, answer,
}
use ocp_efa_operator.Plugins.Ids.{get_device_id, get_idx_from_device_id, is_minus_one}
use ocp_efa_operator.Plugins.Server.{Plugin, efa_kind}
use ocp_efa_operator.Plugins.Loop.{Moment, LoopEnd, dp_loop}
use ocp_efa_operator.Plugins.Watch.{WatchEvent, WatchEnd, list_and_watch}

abbrev pub uverbs : Bytes
uverbs = codes "uverbs"

abbrev pub numa_node_file : ℤ → Bytes
numa_node_file idx =
    codes "/sys/class/infiniband/efa_" ++ (format_int idx ++ codes "/device/numa_node")

abbrev pub device_id : Plugin → ℤ → Bytes
device_id dp idx = get_device_id dp.kind.id_tag dp.host_name idx

abbrev pub idx_of_id : Plugin → Bytes → ℤ
idx_of_id dp id = get_idx_from_device_id dp.kind.id_tag dp.host_name id

unfoldable pub is_device_name : Plugin → Bytes → Bool
is_device_name dp name = has_prefix name (dp.device_path ++ codes "/uverbs")

-- the device file of an index
abbrev pub uverbs_file : Plugin → ℤ → Bytes
uverbs_file dp idx = dp.device_path ++ (codes "/" ++ (uverbs ++ format_int idx))

abbrev or_num_error : Option ℤ → Result ℤ
or_num_error none = err num_error
or_num_error (some n) = ok n

abbrev topology : Result ℤ → Option ℤ
topology (ok n) = some n
topology (err e) = none

-- the devices where there is one, else nil
abbrev pub none_if_empty : Option (List Device) → Option (List Device)
none_if_empty none = none
none_if_empty (some []) = none
none_if_empty (some (dev ∷ devs)) = some (dev ∷ devs)

-- a response without devices is left out
abbrev pub add_response : List Response → Response → List Response
add_response responses [] = responses
add_response responses (dev ∷ devs) = responses ++ (dev ∷ devs) ∷ []

module _ (sys : System) where
  abbrev parse_file : Result (Bytes × Option Errno) → Result ℤ
  parse_file (err e) = err e
  parse_file (ok (buf, some e)) = err e
  parse_file (ok (buf, none)) = or_num_error (sys.parse_any (trim_suffix buf (b'\n' ∷ [])))

  unfoldable pub read_sys_file : Bytes → sys.World → Result ℤ
  read_sys_file file w = parse_file (sys.open_file file w)

  unfoldable pub device : Plugin → sys.World → ℤ → Device
  unfolding read_sys_file
  device dp w idx = record {
    id = device_id dp idx;
    topology = topology (read_sys_file (numa_node_file idx) w);
  }

  -- the device of one entry in front of the others
  abbrev pub add_device :
      Plugin → sys.World → Option ℤ → Option (List Device) → Option (List Device)
  add_device dp w none devs = none
  add_device dp w (some idx) none = none
  add_device dp w (some idx) (some devs) = some (device dp w idx ∷ devs)

  -- the loop over the entries; `none` where it returns nil for a name that it cannot parse
  unfoldable pub devices_of : Plugin → sys.World → List Bytes → Option (List Device)
  devices_of dp w [] = some []
  devices_of dp w (name ∷ names) =
      let devs = devices_of dp w names in
      if has_prefix name uverbs
      then add_device dp w (parse_int (after_prefix name uverbs)) devs
      else devs

  abbrev pub devices_in : Plugin → sys.World → Option (List Bytes) → Option (List Device)
  devices_in dp w none = none
  devices_in dp w (some names) = none_if_empty (devices_of dp w names)

  -- `none` is nil
  unfoldable pub get_devices : Plugin → sys.World → Option (List Device)
  unfolding devices_of
  get_devices dp w = devices_in dp w (sys.read_dir dp.device_path w)

  abbrev pub efa_list_and_watch :
      (dp : Plugin)
      → List (WatchEvent sys dp.device_path (get_devices dp) (is_device_name dp))
      → sys.World
      → WatchEnd × sys.World
  efa_list_and_watch dp events w =
      list_and_watch sys dp.device_path (get_devices dp) (is_device_name dp) events w

  -- the loop over the ids of one container
  unfoldable pub allocate_ids :
      Plugin
      → sys.World
      → List Bytes
      → Response
      → Option AllocateError
      → Response × Option AllocateError
  allocate_ids dp w [] devices last_error = (devices, last_error)
  allocate_ids dp w (id ∷ ids) devices last_error =
      let file = uverbs_file dp (idx_of_id dp id) in
      let malformed = allocate_ids dp w ids devices (some (malformed_id id)) in
      let missing = allocate_ids dp w ids devices (some (no_device_file file)) in
      let granted = allocate_ids dp w ids (devices ++ device_spec file ∷ []) last_error in
      if is_minus_one (idx_of_id dp id)
      then malformed
      else if sys.stat file w
      then granted
      else missing

  -- the loop over the containers
  unfoldable pub allocate_containers :
      Plugin
      → sys.World
      → List (List Bytes)
      → List Response
      → Option AllocateError
      → List Response × Option AllocateError
  unfolding allocate_ids
  allocate_containers dp w [] responses last_error = (responses, last_error)
  allocate_containers dp w (ids ∷ requests) responses last_error =
      let (response, last_error') = allocate_ids dp w ids [] last_error in
      allocate_containers dp w requests (add_response responses response) last_error'

  unfoldable pub allocate :
      Plugin → sys.World → List (List Bytes) → Option (List Response) × Option AllocateError
  unfolding allocate_containers
  allocate dp w requests =
      let (responses, last_error) = allocate_containers dp w requests [] none in
      answer responses last_error

  -- the directories are the kubelet's
  abbrev pub efa_main : Bytes → Bytes → List (Moment sys) → sys.World → LoopEnd × sys.World
  efa_main plugin_dir kubelet_sock moments w =
      dp_loop sys efa_kind plugin_dir kubelet_sock (codes "/dev/infiniband") moments w
