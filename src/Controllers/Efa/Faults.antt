-- ===== src/Controllers/Efa/Faults.antt =====
-- Which errors the creation of the daemon set returns, in the EFA reconciler.
use ocp_efa_operator.Prelude.{true, some, ◌≡◌, ◌⊎◌}
use ocp_efa_operator.Api.Driver.{EfaDriver, EfaDriverSpec}
use ocp_efa_operator.Api.Objects.{OwnerReference, daemon_set, of_daemon_set}
use ocp_efa_operator.Api.Client.{ApiError, is_already_exists, err}
use ocp_efa_operator.Controllers.Owned.{Reconciler}
use ocp_efa_operator.Controllers.Owned.Faults.{ensure-faults}
use ocp_efa_operator.Controllers.Efa.Manifests.{device_plugin_key}
use ocp_efa_operator.Controllers.Efa.DevicePlugin.{device_plugin_manifest}
use ocp_efa_operator.Controllers.Efa.Create.{create_device_plugin}

-- With any server, an error that `CreateDevicePlugin` of the EFA reconciler returns is one of
-- reading the daemon set, or says that it already exists: no other error of `Create` comes back.
pub create_device_plugin-faults :
    (r : Reconciler EfaDriverSpec) (efa : EfaDriver) (owner : OwnerReference) (w : r.client.World)
    (e : ApiError)
    → (create_device_plugin r efa owner w).0.1 ≡ some e
    → ((r.client.get daemon_set (device_plugin_key r efa) w).0 ≡ err e)
      ⊎ (is_already_exists e ≡ true)
unfolding create_device_plugin
create_device_plugin-faults r efa owner w e h =
    ensure-faults r is_already_exists daemon_set (device_plugin_key r efa)
      (of_daemon_set (device_plugin_manifest r efa owner)) w e h
