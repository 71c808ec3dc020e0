-- ===== src/Plugins/Server.antt =====
-- A device plugin and its gRPC server: `New...`, `DeleteSocket`, `Serve` and `Stop`, the same in both
-- plugins but for the names in `Kind`.
use ocp_efa_operator.Prelude.{ℕ, Bool, true, false, Option, none, some, ◌++◌, if◌then◌else◌}
use ocp_efa_operator.Controllers.Action.{Action, ◌>>=◌, pure}
use ocp_efa_operator.Plugins.Text.{Bytes, codes}
use ocp_efa_operator.Plugins.Path.{join, base}
use ocp_efa_operator.Plugins.System.{Errno, is_enoent, RegisterRequest, PluginOptions, System, ◌▸◌}

-- what one plugin has of its own: the text that ids begin with, the name of its socket, the resource
pub record Kind : Type 0 where
  pub id_tag : Bytes
  pub socket_name : Bytes
  pub resource_name : Bytes

abbrev pub efa_kind : Kind
efa_kind = record {
  id_tag = codes "ocp-efa-";
  socket_name = codes "ocp-efa.sock";
  resource_name = codes "fms.io/efa";
}

abbrev pub gdrdrv_kind : Kind
gdrdrv_kind = record {
  id_tag = codes "ocp-gdrdrv-";
  socket_name = codes "ocp-gdrdrv.sock";
  resource_name = codes "fms.io/gdrdrv";
}

-- `EfaDevicePlugin` and `GdrdrvDevicePlugin`, whose `efaDirPath` or `gdrdrvPath` is `device_path`;
-- `stopped` says that the channel `stop` has been closed
pub record Plugin : Type 0 where
  pub kind : Kind
  pub host_name : Bytes
  pub socket : Bytes
  pub device_path : Bytes
  pub stopped : Bool
  pub server : Option ℕ

abbrev or_unknown : Option Bytes → Bytes
or_unknown none = codes "unknown"
or_unknown (some host_name) = host_name

abbrev pub ignore_enoent : Option Errno → Option Errno
ignore_enoent none = none
ignore_enoent (some e) = if is_enoent e then none else some e

-- what `GetDevicePluginOptions` answers; `PreStartContainer` and `GetPreferredAllocation` answer with
-- an empty message
abbrev pub get_device_plugin_options : PluginOptions
get_device_plugin_options = record {
  pre_start_required = false;
  get_preferred_allocation_available = false;
}

module _ (sys : System) where
  unfoldable pub new_plugin : Kind → Bytes → Bytes → sys.World → Plugin
  new_plugin kind plugin_dir device_path w = record {
    kind = kind;
    host_name = or_unknown (sys.hostname w);
    socket = join plugin_dir kind.socket_name;
    device_path = device_path;
    stopped = false;
    server = none;
  }

  -- code with a plugin that it changes
  abbrev pub Run : Type 0 → Type 0
  Run A = Action (Plugin × sys.World) A

  abbrev pub system_call : {A : Type 0} → (Plugin → Action sys.World A) → Run A
  system_call m (dp, w) = let (a, w') = m dp w in (a, (dp, w'))

  unfoldable pub delete_socket : Run (Option Errno)
  delete_socket = do e ← system_call (λ dp. sys.remove dp.socket); pure (ignore_enoent e)

  -- `grpc.NewServer`, and the goroutine that serves it
  abbrev pub start_server : Run (Option Errno)
  start_server (dp, w) =
      let (server, w') = sys.new_server w in
      (none, (record dp { server = some server }, sys.serve server dp.socket w'))

  abbrev pub register_request : Plugin → RegisterRequest
  register_request dp = record {
    endpoint = base dp.socket;
    resource_name = dp.kind.resource_name;
    options = get_device_plugin_options;
  }

  -- the connections are closed again on every path
  unfoldable pub serve : Bytes → Run (Option Errno)
  unfolding delete_socket
  serve kubelet_sock =
      delete_socket
      ▸ system_call (λ dp. sys.listen dp.socket)
      ▸ start_server
      ▸ system_call (λ dp. sys.dial (codes "unix://" ++ dp.socket))
      ▸ system_call (λ dp. sys.dial (codes "unix://" ++ kubelet_sock))
      ▸ system_call (λ dp. sys.register kubelet_sock (register_request dp))

  abbrev pub stop_at : Option ℕ → Run (Option Errno)
  stop_at none (dp, w) = (none, (dp, w))
  stop_at (some server) (dp, w) =
      delete_socket (record dp { server = none; stopped = true }, sys.stop_server server w)

  unfoldable pub stop : Run (Option Errno)
  unfolding delete_socket
  stop (dp, w) = stop_at dp.server (dp, w)
