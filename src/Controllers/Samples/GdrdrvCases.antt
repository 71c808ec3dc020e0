-- ===== src/Controllers/Samples/GdrdrvCases.antt =====
-- What the two reconcilers find out of the nodes, at concrete nodes, and the theorems on the GDRCOPY
-- reconciler at a concrete server and driver.
use ocp_efa_operator.Prelude.{true, false, none, some, lookup, insert, [], ◌∷◌, ◌≡◌, refl}
use ocp_efa_operator.Api.Driver.{GdrdrvDriverSpec, GdrdrvDriver}
use ocp_efa_operator.Api.Objects.{config_map, of_config_map, ObjectKey, ConfigMap}
use ocp_efa_operator.Api.Client.{ok}
use ocp_efa_operator.Api.Laws.{View, IsLawful}
use ocp_efa_operator.Api.Memory.{Memory, memory_view, stored}
use ocp_efa_operator.Api.Memory.Lawful.{memory-IsLawful}
use ocp_efa_operator.Controllers.Exec.{State}
use ocp_efa_operator.Controllers.Status.{ready, with_status, Progress}
use ocp_efa_operator.Controllers.Owned.{Reconciler, ensure, remove, remove_all}
use ocp_efa_operator.Controllers.Gdrdrv.Manifests.{scc_manifest}
use ocp_efa_operator.Controllers.Gdrdrv.Kmm.{dockerfile_manifest, kmm_manifest}
use ocp_efa_operator.Controllers.Gdrdrv.DevicePlugin.{device_plugin_manifest}
use ocp_efa_operator.Controllers.Gdrdrv.Nodes.{
  add_version, scan_node, scan_nodes, node_status, get_node_status,
}
use ocp_efa_operator.Controllers.Gdrdrv.Create.{
  create_kmm_dockerfile, create_kmm, create_device_plugin_scc, create_device_plugin, create_modules,
  create_for_nodes, create_owned, create_as, create_cluster,
}
use ocp_efa_operator.Controllers.Gdrdrv.Delete.{
  delete_device_plugin, delete_device_plugin_scc, delete_kmm, delete_config_map, delete_cluster,
}
use ocp_efa_operator.Controllers.Reconcile.{
  retry_creating, after_create, reconcile_creation, mark_deleting, drop_finalizer, after_delete,
  reconcile_deletion,
}
use ocp_efa_operator.Controllers.Gdrdrv.Footprint.{belongs}
use ocp_efa_operator.Controllers.Gdrdrv.Completeness.{Complete}
use ocp_efa_operator.Controllers.Owned.Creates.{Holds}
use ocp_efa_operator.Controllers.Gdrdrv.Coverage.{create_cluster-covers}
use ocp_efa_operator.Controllers.Gdrdrv.Labels.{any_versions}
use ocp_efa_operator.Controllers.Gdrdrv.Manifests.{dockerfile_key, kmm_key}
use ocp_efa_operator.Api.Objects.{kmm_module}
use ocp_efa_operator.Controllers.Gdrdrv.Ready.{
  reconcile_creation-ready_gdrdrv, reconcile_deletion-clean_gdrdrv,
}
use ocp_efa_operator.Controllers.Samples.{sample_reconciler, gdrdrv_driver, server, start}

abbrev r : Reconciler GdrdrvDriverSpec
r = sample_reconciler GdrdrvDriverSpec

abbrev v : View r.client
v = memory_view GdrdrvDriverSpec

abbrev laws : IsLawful r.client v
laws = memory-IsLawful GdrdrvDriverSpec

abbrev w : Memory GdrdrvDriverSpec
w = server (gdrdrv_driver ∷ [])

abbrev s : State r.client.World
s = start (gdrdrv_driver ∷ [])

abbrev plugin_key : ObjectKey
plugin_key = record { name = "a-gdrdrv-device-plugin"; namespace = "efa-operator" }

create_succeeds : (create_cluster r gdrdrv_driver w).0 ≡ (false, none)
unfolding create_cluster create_as create_owned create_for_nodes create_modules
    create_kmm_dockerfile create_kmm create_device_plugin_scc create_device_plugin ensure
    get_node_status node_status scan_nodes scan_node add_version lookup insert
create_succeeds = refl

abbrev w' : Memory GdrdrvDriverSpec
w' = (create_cluster r gdrdrv_driver w).1

abbrev is_ready : Progress GdrdrvDriverSpec
is_ready = record {
  efa = with_status gdrdrv_driver ready ready;
  update_status = true;
  requeue = false;
  error = none;
}

returns_ready :
    (reconcile_creation r (create_cluster r) (delete_cluster r) gdrdrv_driver s).0 ≡ ok is_ready
unfolding create_cluster create_as create_owned create_for_nodes create_modules
    create_kmm_dockerfile create_kmm create_device_plugin_scc create_device_plugin ensure
    get_node_status node_status scan_nodes scan_node add_version lookup insert reconcile_creation
    retry_creating after_create
returns_ready = refl

reconcile_creation-ready_gdrdrv_example :
    Complete r v laws gdrdrv_driver
      (reconcile_creation r (create_cluster r) (delete_cluster r) gdrdrv_driver s).1.world
reconcile_creation-ready_gdrdrv_example =
    reconcile_creation-ready_gdrdrv r v laws gdrdrv_driver s is_ready returns_ready refl

abbrev doomed : GdrdrvDriver
doomed = record gdrdrv_driver { deletion_timestamp = some 7 }

abbrev foreign_key : ObjectKey
foreign_key = record { name = "other"; namespace = "kmm" }

abbrev foreign : ConfigMap
foreign = record {
  meta = record { name = "other"; namespace = "kmm"; owner_references = []; labels = [] };
  content = [];
}

abbrev w1 : Memory GdrdrvDriverSpec
w1 = (r.client.create (of_config_map foreign) w').1

abbrev s' : State r.client.World
s' = record s { world = record w1 { drivers = doomed ∷ [] } }

abbrev is_released : Progress GdrdrvDriverSpec
is_released = record {
  efa = record (with_status doomed "Deleting" "Deleting") { finalizers = [] };
  update_status = false;
  requeue = false;
  error = none;
}

returns_released :
    (reconcile_deletion r (create_cluster r) (delete_cluster r) doomed s').0 ≡ ok is_released
unfolding create_cluster create_as create_owned create_for_nodes create_modules
    create_kmm_dockerfile create_kmm create_device_plugin_scc create_device_plugin ensure
    get_node_status node_status scan_nodes scan_node add_version lookup insert delete_cluster
    delete_device_plugin delete_device_plugin_scc delete_kmm delete_config_map remove remove_all
    device_plugin_manifest scc_manifest reconcile_deletion mark_deleting after_delete drop_finalizer
    dockerfile_manifest
returns_released = refl

foreign_stays :
    stored
      (reconcile_deletion r (create_cluster r) (delete_cluster r) doomed s').1.world
      config_map
      foreign_key
    ≡ some (of_config_map foreign)
unfolding create_cluster create_as create_owned create_for_nodes create_modules
    create_kmm_dockerfile create_kmm create_device_plugin_scc create_device_plugin ensure
    get_node_status node_status scan_nodes scan_node add_version lookup insert delete_cluster
    delete_device_plugin delete_device_plugin_scc delete_kmm delete_config_map remove remove_all
    device_plugin_manifest scc_manifest dockerfile_manifest kmm_manifest reconcile_deletion
    mark_deleting after_delete drop_finalizer
foreign_stays = refl

reconcile_deletion-clean_gdrdrv_example : belongs r doomed (of_config_map foreign) ≡ false
reconcile_deletion-clean_gdrdrv_example =
    reconcile_deletion-clean_gdrdrv r v laws doomed s' refl is_released returns_released refl
      config_map foreign_key (of_config_map foreign) foreign_stays

is_labelled : any_versions "535.104.05" "4.18" w.nodes ≡ true
unfolding lookup
is_labelled = refl

create_cluster-covers_example :
    Holds r v config_map
      (dockerfile_key r gdrdrv_driver "535.104.05")
      (create_cluster r gdrdrv_driver w).1
    × Holds r v kmm_module
        (kmm_key r gdrdrv_driver "535.104.05")
        (create_cluster r gdrdrv_driver w).1
create_cluster-covers_example =
    create_cluster-covers r v laws gdrdrv_driver (λ keys key h. h) w create_succeeds "535.104.05"
      "4.18" is_labelled
