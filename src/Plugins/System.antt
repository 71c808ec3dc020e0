-- ===== src/Plugins/System.antt =====
-- What the device plugins call outside the repository: the operating system, the gRPC library, the
-- file watcher and the kubelet, over an unknown state `World`.
use ocp_efa_operator.Prelude.{ℕ, Bool, true, false, Option, none, some, List, [], ◌∷◌}
use ocp_efa_operator.Controllers.Action.{Action, ◌>>=◌, pure}
use ocp_efa_operator.Plugins.Text.{Bytes, codes}
use ocp_efa_operator.Plugins.Decimal.{ℤ}

-- an error, as far as the code tells it from others
pub data Errno : Type 0 where
  enodev eintr eexist enoent num_error : Errno
  other : ℕ → Errno

abbrev pub is_enoent : Errno → Bool
is_enoent enoent = true
is_enoent _ = false

abbrev pub is_eexist : Errno → Bool
is_eexist eexist = true
is_eexist _ = false

abbrev pub is_enodev : Errno → Bool
is_enodev enodev = true
is_enodev _ = false

-- a value, or the error that came in its place
pub data Result (A : Type 0) : Type 0 where
  ok : A → Result A
  err : Errno → Result A

-- `pluginapi.Device`: always healthy here; the topology is the id of one NUMA node, if it is known
pub record Device : Type 0 where
  pub id : Bytes
  pub topology : Option ℤ

-- `pluginapi.DevicePluginOptions`
pub record PluginOptions : Type 0 where
  pub pre_start_required : Bool
  pub get_preferred_allocation_available : Bool

-- `pluginapi.RegisterRequest`, less the version, which is a constant of that package
pub record RegisterRequest : Type 0 where
  pub endpoint : Bytes
  pub resource_name : Bytes
  pub options : PluginOptions

-- `open_file` gives the bytes that can be read, and the error that ends the reading if it is not the end of
-- the file. `parse_any` is `strconv.ParseInt` at base 0 and 64 bits, `mkdev` is `unix.Mkdev`. A server is named
-- by a number; `serve` starts the goroutine that serves it, which only logs its error. `send` is
-- that of the stream of `ListAndWatch`, where a reply is its list of devices.
pub record System : Type 1 where
  pub World : Type 0
  pub parse_any : Bytes → Option ℤ
  pub mkdev : ℕ → ℕ → ℕ
  pub hostname : World → Option Bytes
  pub read_dir : Bytes → World → Option (List Bytes)
  pub open_file : Bytes → World → Result (Bytes × Option Errno)
  pub stat : Bytes → World → Bool
  pub remove : Bytes → World → Option Errno × World
  pub listen : Bytes → World → Option Errno × World
  pub new_server : World → ℕ × World
  pub serve : ℕ → Bytes → World → World
  pub stop_server : ℕ → World → World
  pub dial : Bytes → World → Option Errno × World
  pub register : Bytes → RegisterRequest → World → Option Errno × World
  pub new_watcher : World → Option Errno × World
  pub watch : Bytes → World → Option Errno × World
  pub send : List Device → World → Option Errno × World
  pub mknod : Bytes → ℕ → ℕ → World → Option Errno × World
  pub unlink : Bytes → World → Option Errno × World

abbrev pub after_error :
    {W : Type 0} → Option Errno → Action W (Option Errno) → Action W (Option Errno)
after_error none rest = rest
after_error (some e) rest = pure (some e)

-- `if err := m; err != nil { return err }`, then the rest
infixr 4 ◌▸◌
abbrev pub ◌▸◌ :
    {W : Type 0} → Action W (Option Errno) → Action W (Option Errno) → Action W (Option Errno)
m ▸ rest = do e ← m; after_error e rest

-- `pluginapi.DeviceSpec`
pub record DeviceSpec : Type 0 where
  pub container_path : Bytes
  pub host_path : Bytes
  pub permissions : Bytes

-- `pluginapi.ContainerAllocateResponse`
abbrev pub Response : Type 0
Response = List DeviceSpec

-- the errors that `Allocate` makes
pub data AllocateError : Type 0 where
  malformed_id no_device_file : Bytes → AllocateError

-- a device file, readable and writable in the container under its own name
abbrev pub device_spec : Bytes → DeviceSpec
device_spec file = record { container_path = file; host_path = file; permissions = codes "rw" }

-- the end of `Allocate`: the responses, or none and the last error
abbrev pub answer :
    List Response → Option AllocateError → Option (List Response) × Option AllocateError
answer [] last_error = (none, last_error)
answer (r ∷ rs) last_error = (some (r ∷ rs), none)
