-- ===== src/Plugins/Samples/DeviceCases.antt =====
-- The theorems on ids, devices and allocations at a machine with two EFA devices.
use ocp_efa_operator.Prelude.{false, some, none, List, [], ◌∷◌, ◌++◌, map, ◌≡◌, refl, arith}
use ocp_efa_operator.Plugins.Text.{Bytes, codes, same_bytes, has_prefix, after_prefix}
use ocp_efa_operator.Plugins.Decimal.{pos, parse_int, format_int, scan, print_digits}
use ocp_efa_operator.Plugins.System.{device_spec}
use ocp_efa_operator.Plugins.Ids.{get_idx_from_device_id}
use ocp_efa_operator.Plugins.Server.{Plugin, Kind, efa_kind, gdrdrv_kind}
use ocp_efa_operator.Plugins.Efa.{get_devices, allocate, uverbs_file}
use ocp_efa_operator.Plugins.Efa.Allocation.{allocate_lem}
use ocp_efa_operator.Plugins.Efa.Advertised.{device_at, get_devices-allocate}
use ocp_efa_operator.Plugins.Gdrdrv.{allocate as gdrdrv_allocate, get_devices as gdrdrv_get_devices}
use ocp_efa_operator.Plugins.Gdrdrv.Advertised.{
  devices_at, IsAllocatable, get_devices-IsAllocatable,
}
use ocp_efa_operator.Plugins.Gdrdrv.{max_users}
use ocp_efa_operator.Prelude.{All, length}
use ocp_efa_operator.Plugins.Gdrdrv.Allocation.{the_device, allocate_gdrdrv_lem}
use ocp_efa_operator.Plugins.Samples.{Machine, host, machine, machine_mknod}

abbrev plugin : Kind → Bytes → Plugin
plugin kind device_path = record {
  kind = kind;
  host_name = codes "node1";
  socket = codes "/plugins/" ++ kind.socket_name;
  device_path = device_path;
  stopped = false;
  server = none;
}

abbrev pub efa : Plugin
efa = plugin efa_kind (codes "/dev/infiniband")

abbrev pub gdrdrv : Plugin
gdrdrv = plugin gdrdrv_kind (codes "/dev/gdrdrv")

-- the machine with the node of the kernel module
abbrev with_node : Machine
with_node = (machine_mknod (codes "/dev/gdrdrv") machine).1

get_devices-IsAllocatable_example :
    (gdrdrv_get_devices host gdrdrv with_node ≡ some (devices_at gdrdrv 0 max_users))
    × (length (devices_at gdrdrv 0 max_users) ≡ 128)
    × All (IsAllocatable host gdrdrv with_node) (devices_at gdrdrv 0 max_users)
unfolding same_bytes
get_devices-IsAllocatable_example = get_devices-IsAllocatable host gdrdrv with_node refl

get_devices-allocate_example :
    (get_devices host efa machine ≡ some (map (device_at host efa machine) (0 ∷ 1 ∷ [])))
    × (allocate host efa machine
          (map (λ dev. dev.id) (map (device_at host efa machine) (0 ∷ 1 ∷ [])) ∷ [])
        ≡ (some (map (λ i. device_spec (uverbs_file efa (pos i))) (0 ∷ 1 ∷ []) ∷ []), none))
unfolding format_int same_bytes has_prefix print_digits
get_devices-allocate_example =
    get_devices-allocate host efa machine machine.entries 0 (1 ∷ []) refl refl
      (omega arith, (omega arith, tt)) (refl, (refl, tt))

-- the second container asks for a device of another host, the third for one that is not there
abbrev requests : List (List Bytes)
requests =
    (codes "ocp-efa-node1-0" ∷ codes "ocp-efa-node1-1" ∷ [])
    ∷ (codes "ocp-efa-node2-0" ∷ [])
    ∷ (codes "ocp-efa-node1-7" ∷ codes "ocp-efa-node1-1" ∷ [])
    ∷ []

allocate_lem_example : allocate host efa machine requests ≡ (
  some (
      (device_spec (codes "/dev/infiniband/uverbs0")
        ∷ device_spec (codes "/dev/infiniband/uverbs1")
        ∷ [])
      ∷ (device_spec (codes "/dev/infiniband/uverbs1") ∷ [])
      ∷ []),
  none,
)
unfolding get_idx_from_device_id parse_int format_int has_prefix after_prefix scan same_bytes
    print_digits
allocate_lem_example = allocate_lem host efa machine requests

-- the second container asks for a device of another host and gets it, since the first has it
allocate_gdrdrv_lem_example :
    gdrdrv_allocate host gdrdrv with_node
      ((codes "ocp-gdrdrv-node1-5" ∷ []) ∷ (codes "ocp-gdrdrv-node2-0" ∷ []) ∷ [])
    ≡ (some (the_device gdrdrv [] ∷ the_device gdrdrv [] ∷ []), none)
unfolding get_idx_from_device_id parse_int has_prefix after_prefix scan same_bytes
allocate_gdrdrv_lem_example =
    allocate_gdrdrv_lem gdrdrv host with_node
      ((codes "ocp-gdrdrv-node1-5" ∷ []) ∷ (codes "ocp-gdrdrv-node2-0" ∷ []) ∷ [])
