-- ===== src/Plugins/Samples.antt =====
-- An operating system on which the theorems on the device plugins are applied.
pub mod Laws
mod DeviceCases
mod NodeCases
mod LoopCases
mod TextCases
use ocp_efa_operator.Prelude.{
  ℕ, suc, ◌+◌, ◌*◌, Bool, true, false, not, ◌&&◌, ◌||◌, Option, none, some, List, [], ◌∷◌, ◌++◌,
  if◌then◌else◌,
}
use ocp_efa_operator.Plugins.Text.{Bytes, codes, same_bytes}
use ocp_efa_operator.Plugins.Decimal.{parse_int}
use ocp_efa_operator.Plugins.System.{
  Errno, eexist, enoent, Result, ok, err, Device, RegisterRequest, System,
}
use ocp_efa_operator.Plugins.Server.{Plugin, Kind}
use ocp_efa_operator.Plugins.Loop.Laws.{without}

-- the entries of /dev/infiniband, the device nodes, /proc/devices, and what the servers and the
-- kubelet have seen
pub record Machine : Type 0 where
  pub entries : List Bytes
  pub nodes : Bytes → Bool
  pub proc_devices : Bytes
  pub running : List ℕ
  pub next_server : ℕ
  pub requests : List RegisterRequest
  pub last_reply : Option (List Device)

abbrev pub fails : {A : Type 0} → Option Errno → A → Option Errno × A
fails e a = (e, a)

abbrev pub machine_mknod : Bytes → Machine → Option Errno × Machine
machine_mknod name w =
    if w.nodes name
    then (some eexist, w)
    else (none, record w { nodes = λ other. same_bytes other name || w.nodes other })

abbrev pub machine_unlink : Bytes → Machine → Option Errno × Machine
machine_unlink name w =
    if w.nodes name
    then (none, record w { nodes = λ other. not (same_bytes other name) && w.nodes other })
    else (some enoent, w)

abbrev pub host : System
host = record {
  World = Machine;
  parse_any = parse_int;
  mkdev = λ major minor. major * 256 + minor;
  hostname = λ w. some (codes "node1");
  read_dir = λ name w. if same_bytes name (codes "/dev/infiniband") then some w.entries else none;
  open_file = λ name w.
      if same_bytes name (codes "/proc/devices") then ok (w.proc_devices, none) else err enoent;
  stat = λ name w. w.nodes name;
  remove = λ name w. (some enoent, w);
  listen = λ socket w. (none, w);
  new_server = λ w. (w.next_server, record w { next_server = suc w.next_server });
  serve = λ h socket w. record w { running = h ∷ w.running };
  stop_server = λ h w. record w { running = without h w.running };
  dial = λ target w. (none, w);
  register = λ sock req w. (none, record w { requests = req ∷ w.requests });
  new_watcher = λ w. (none, w);
  watch = λ name w. (none, w);
  send = λ devs w. (none, record w { last_reply = some devs });
  mknod = λ name mode dev. machine_mknod name;
  unlink = machine_unlink;
}

-- two EFA devices, and another file beside them
abbrev pub machine : Machine
machine = record {
  entries = codes "rdma_cm" ∷ codes "uverbs0" ∷ codes "uverbs1" ∷ [];
  nodes = λ name.
      same_bytes name (codes "/dev/infiniband/uverbs0")
      || same_bytes name (codes "/dev/infiniband/uverbs1");
  proc_devices = codes "  1 mem";
  running = [];
  next_server = 0;
  requests = [];
  last_reply = none;
}

-- a machine on which the kernel module is loaded
abbrev pub loaded : Machine → Machine
loaded w = record w { proc_devices = codes "  1 mem" ++ (b'\n' ∷ codes "242 gdrdrv" ++ b'\n' ∷ []) }
