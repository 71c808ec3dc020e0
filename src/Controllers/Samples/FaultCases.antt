-- ===== src/Controllers/Samples/FaultCases.antt =====
-- The creation of a daemon set at servers that fail.
use ocp_efa_operator.Prelude.{true, false, some, none, [], ◌∷◌, ◌≡◌, ◌⊎◌, refl}
use ocp_efa_operator.Api.Driver.{EfaDriverSpec}
use ocp_efa_operator.Api.Objects.{OwnerReference, daemon_set}
use ocp_efa_operator.Api.Client.{ApiError, is_already_exists, err}
use ocp_efa_operator.Api.Memory.{refusal}
use ocp_efa_operator.Controllers.Owned.{Reconciler, ensure}
use ocp_efa_operator.Controllers.Efa.Manifests.{device_plugin_key as efa_plugin_key}
use ocp_efa_operator.Controllers.Efa.Create.{create_device_plugin as create_efa_plugin}
use ocp_efa_operator.Controllers.Efa.Faults.{create_device_plugin-faults}
use ocp_efa_operator.Controllers.Samples.{sample_reconciler, efa_driver, server}

abbrev owner : OwnerReference
owner = record {
  api_version = "efa.fms.io/v1alpha1";
  kind = "Driver";
  name = "a";
  uid = "1";
  block_owner_deletion = true;
  controller = true;
}

-- a server that refuses to create the daemon set: the refusal is taken for success
refused_daemon_set :
    (create_efa_plugin
      (sample_reconciler EfaDriverSpec)
      efa_driver
      owner
      (record (server (efa_driver ∷ [])) { refuse_create = λ o. some "quota" })).0
    ≡ (false, none)
unfolding create_efa_plugin ensure
refused_daemon_set = refl

abbrev down : ApiError
down = refusal "down"

-- the reconciler, with a client that cannot read
abbrev unreadable : (Spec : Type 0) → Reconciler Spec
unreadable Spec = record (sample_reconciler Spec) {
  client = record (sample_reconciler Spec).client { get = λ k key w. (err down, w) };
}

create_device_plugin-faults_example :
    ((unreadable EfaDriverSpec).client.get daemon_set
        (efa_plugin_key (unreadable EfaDriverSpec) efa_driver)
        (server (efa_driver ∷ []))).0
      ≡ err down
    ⊎ (is_already_exists down ≡ true)
unfolding create_efa_plugin ensure
create_device_plugin-faults_example =
    create_device_plugin-faults (unreadable EfaDriverSpec) efa_driver owner
      (server (efa_driver ∷ [])) down refl
