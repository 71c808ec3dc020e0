-- ===== src/Controllers/Samples/EfaCases.antt =====
-- The theorems on the EFA reconciler at concrete servers, drivers and requests.
use ocp_efa_operator.Prelude.{true, false, none, some, lookup, insert, [], ◌∷◌, ◌≡◌, ◌⊎◌, refl}
use ocp_efa_operator.Api.Driver.{EfaDriverSpec, EfaDriver}
use ocp_efa_operator.Api.Objects.{
  daemon_set, config_map, of_config_map, ObjectKey, Object, ConfigMap,
}
use ocp_efa_operator.Api.Client.{ok}
use ocp_efa_operator.Api.Laws.{View, IsLawful, drop}
use ocp_efa_operator.Api.Memory.{Memory, memory_view, stored}
use ocp_efa_operator.Api.Memory.Lawful.{memory-IsLawful}
use ocp_efa_operator.Controllers.Exec.{State}
use ocp_efa_operator.Controllers.Status.{ready, with_status, Progress}
use ocp_efa_operator.Controllers.Owned.{Reconciler, ensure, remove, remove_all}
use ocp_efa_operator.Controllers.Efa.Manifests.{node_feature_rule_manifest, scc_manifest}
use ocp_efa_operator.Controllers.Efa.Kmm.{dockerfile_manifest, kmm_manifest}
use ocp_efa_operator.Controllers.Efa.DevicePlugin.{device_plugin_manifest}
use ocp_efa_operator.Controllers.Efa.Nodes.{scan_node, scan_nodes, node_status, get_node_status}
use ocp_efa_operator.Controllers.Efa.Create.{
  create_nfr, create_kmm_dockerfile, create_kmm, create_device_plugin_scc, create_device_plugin,
  create_for_nodes, create_owned, create_as, create_cluster,
}
use ocp_efa_operator.Controllers.Efa.Delete.{
  delete_device_plugin, delete_device_plugin_scc, delete_kmm, delete_config_map, delete_nfr,
  delete_cluster,
}
use ocp_efa_operator.Controllers.Reconcile.{
  retry_creating, after_create, reconcile_creation, mark_deleting, drop_finalizer, after_delete,
  reconcile_deletion,
}
use ocp_efa_operator.Controllers.Reconcile.Ready.{Reports, reconcile_creation-Reports}
use ocp_efa_operator.Controllers.Efa.Footprint.{belongs}
use ocp_efa_operator.Controllers.Efa.Completeness.{
  Complete, create_cluster-Complete, create_cluster-adds,
}
use ocp_efa_operator.Controllers.Efa.Cleanup.{delete_cluster-exact}
use ocp_efa_operator.Controllers.Efa.RoundTrip.{delete_cluster-create_cluster}
use ocp_efa_operator.Controllers.Efa.Ready.{reconcile_creation-ready, reconcile_deletion-clean}
use ocp_efa_operator.Controllers.Samples.{
  sample_reconciler, efa_driver, other_driver, server, start,
}

abbrev pub r : Reconciler EfaDriverSpec
r = sample_reconciler EfaDriverSpec

abbrev pub v : View r.client
v = memory_view EfaDriverSpec

abbrev pub laws : IsLawful r.client v
laws = memory-IsLawful EfaDriverSpec

abbrev pub w : Memory EfaDriverSpec
w = server (efa_driver ∷ other_driver ∷ [])

abbrev pub s : State r.client.World
s = start (efa_driver ∷ other_driver ∷ [])

abbrev pub plugin_key : ObjectKey
plugin_key = record { name = "a-efa-device-plugin"; namespace = "efa-operator" }

create_succeeds : (create_cluster r efa_driver w).0 ≡ (false, none)
unfolding create_cluster create_as create_owned create_for_nodes create_nfr create_kmm_dockerfile
    create_kmm create_device_plugin_scc create_device_plugin ensure get_node_status node_status
    scan_nodes scan_node lookup insert
create_succeeds = refl

create_cluster-Complete_example : Complete r v laws efa_driver (create_cluster r efa_driver w).1
create_cluster-Complete_example = create_cluster-Complete r v laws efa_driver w create_succeeds

create_cluster-adds_example :
    ((stored (create_cluster r efa_driver w).1 daemon_set plugin_key)
      ≡ stored w daemon_set plugin_key)
    ⊎ ((stored w daemon_set plugin_key ≡ none)
        × (x : Object) × (stored (create_cluster r efa_driver w).1 daemon_set plugin_key ≡ some x)
        × (belongs r efa_driver x ≡ true))
create_cluster-adds_example = create_cluster-adds r v laws efa_driver w daemon_set plugin_key

abbrev w' : Memory EfaDriverSpec
w' = (create_cluster r efa_driver w).1

delete_succeeds : (delete_cluster r efa_driver (create_cluster r efa_driver w).1).0 ≡ none
unfolding create_cluster create_as create_owned create_for_nodes create_nfr create_kmm_dockerfile
    create_kmm create_device_plugin_scc create_device_plugin ensure get_node_status node_status
    scan_nodes scan_node lookup insert delete_cluster delete_device_plugin delete_device_plugin_scc
    delete_kmm delete_config_map delete_nfr remove remove_all device_plugin_manifest scc_manifest
    node_feature_rule_manifest
delete_succeeds = refl

delete_cluster-exact_example :
    stored (delete_cluster r efa_driver w').1 daemon_set plugin_key
    ≡ drop (belongs r efa_driver) (stored w' daemon_set plugin_key)
delete_cluster-exact_example =
    delete_cluster-exact r v laws efa_driver w' delete_succeeds daemon_set plugin_key

delete_cluster-create_cluster_example :
    stored (delete_cluster r efa_driver w').1 daemon_set plugin_key ≡ stored w daemon_set plugin_key
delete_cluster-create_cluster_example =
    delete_cluster-create_cluster r v laws efa_driver w (λ k key x h. cc) delete_succeeds daemon_set
      plugin_key

abbrev is_ready : Progress EfaDriverSpec
is_ready = record {
  efa = with_status efa_driver ready ready;
  update_status = true;
  requeue = false;
  error = none;
}

returns_ready :
    (reconcile_creation r (create_cluster r) (delete_cluster r) efa_driver s).0 ≡ ok is_ready
unfolding create_cluster create_as create_owned create_for_nodes create_nfr create_kmm_dockerfile
    create_kmm create_device_plugin_scc create_device_plugin ensure get_node_status node_status
    scan_nodes scan_node lookup insert reconcile_creation retry_creating after_create
returns_ready = refl

reconcile_creation-ready_example :
    Complete r v laws efa_driver
      (reconcile_creation r (create_cluster r) (delete_cluster r) efa_driver s).1.world
reconcile_creation-ready_example =
    reconcile_creation-ready r v laws efa_driver s is_ready returns_ready refl

reconcile_creation-Reports_example :
    Reports r v laws
      (create_cluster r)
      (delete_cluster r)
      efa_driver
      s
      is_ready
      (reconcile_creation r (create_cluster r) (delete_cluster r) efa_driver s).1.world
reconcile_creation-Reports_example =
    reconcile_creation-Reports r v laws (create_cluster r) (delete_cluster r) efa_driver s is_ready
      returns_ready

abbrev doomed : EfaDriver
doomed = record efa_driver { deletion_timestamp = some 7 }

abbrev foreign_key : ObjectKey
foreign_key = record { name = "other"; namespace = "kmm" }

abbrev foreign : ConfigMap
foreign = record {
  meta = record { name = "other"; namespace = "kmm"; owner_references = []; labels = [] };
  content = [];
}

abbrev w1 : Memory EfaDriverSpec
w1 = (r.client.create (of_config_map foreign) w').1

abbrev s' : State r.client.World
s' = record s { world = record w1 { drivers = doomed ∷ [] } }

abbrev is_released : Progress EfaDriverSpec
is_released = record {
  efa = record (with_status doomed "Deleting" "Deleting") { finalizers = [] };
  update_status = false;
  requeue = false;
  error = none;
}

returns_released :
    (reconcile_deletion r (create_cluster r) (delete_cluster r) doomed s').0 ≡ ok is_released
unfolding create_cluster create_as create_owned create_for_nodes create_nfr create_kmm_dockerfile
    create_kmm create_device_plugin_scc create_device_plugin ensure get_node_status node_status
    scan_nodes scan_node lookup insert delete_cluster delete_device_plugin delete_device_plugin_scc
    delete_kmm delete_config_map delete_nfr remove remove_all device_plugin_manifest scc_manifest
    node_feature_rule_manifest reconcile_deletion mark_deleting after_delete drop_finalizer
    dockerfile_manifest
returns_released = refl

foreign_stays :
    stored
      (reconcile_deletion r (create_cluster r) (delete_cluster r) doomed s').1.world
      config_map
      foreign_key
    ≡ some (of_config_map foreign)
unfolding create_cluster create_as create_owned create_for_nodes create_nfr create_kmm_dockerfile
    create_kmm create_device_plugin_scc create_device_plugin ensure get_node_status node_status
    scan_nodes scan_node lookup insert delete_cluster delete_device_plugin delete_device_plugin_scc
    delete_kmm delete_config_map delete_nfr remove remove_all device_plugin_manifest scc_manifest
    node_feature_rule_manifest dockerfile_manifest kmm_manifest reconcile_deletion mark_deleting
    after_delete drop_finalizer
foreign_stays = refl

reconcile_deletion-clean_example : belongs r doomed (of_config_map foreign) ≡ false
reconcile_deletion-clean_example =
    reconcile_deletion-clean r v laws doomed s' refl is_released returns_released refl config_map
      foreign_key (of_config_map foreign) foreign_stays
