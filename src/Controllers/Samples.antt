-- ===== src/Controllers/Samples.antt =====
-- A reconciler over the server in memory, two drivers and a few nodes, on which the code runs.
pub mod EfaCases
pub mod GdrdrvCases
pub mod LoopCases
pub mod NodeCases
pub mod FaultCases
pub mod SettleCases
pub mod GdrdrvSettleCases
use ocp_efa_operator.Prelude.{
  String, Bool, true, false, Option, none, some, List, [], ◌∷◌, str_eq, if◌then◌else◌,
}
use ocp_efa_operator.Api.Driver.{Driver, EfaDriverSpec, EfaDriver, GdrdrvDriverSpec, GdrdrvDriver}
use ocp_efa_operator.Api.Objects.{Node}
use ocp_efa_operator.Api.Client.{ok}
use ocp_efa_operator.Api.Memory.{Memory, memory_client}
use ocp_efa_operator.Controllers.Exec.{State}
use ocp_efa_operator.Controllers.Owned.{Reconciler, Request}

abbrev pub finalizer : String
finalizer = "ocp-efa-operator.fms.io/finalizer"

abbrev pub has : String → List String → Bool
has x [] = false
has x (y ∷ ys) = if str_eq x y then true else has x ys

abbrev pub without : String → List String → List String
without x [] = []
without x (y ∷ ys) = if str_eq x y then without x ys else y ∷ without x ys

abbrev pub sample_reconciler : (Spec : Type 0) → Reconciler Spec
sample_reconciler Spec = record {
  client = memory_client Spec;
  operator_namespace = "efa-operator";
  gvk_for_object = λ d. ok (record { group_version = "efa.fms.io/v1alpha1"; kind = "Driver" });
  range = λ keys. keys;
  device_plugin_path = "/var/lib/kubelet/device-plugins/";
  request_string = λ req. req.name;
  contains_finalizer = λ fs. has finalizer fs;
  add_finalizer = λ fs. if has finalizer fs then fs else finalizer ∷ fs;
  remove_finalizer = λ fs. (without finalizer fs, has finalizer fs);
}

abbrev pub efa_spec : EfaDriverSpec
efa_spec = record {
  kmm_namespace = "kmm";
  aws_efa_installer_ver = "1.22";
  device_plugin_service_account = "plugin";
  open_shift = some true;
  node_selector = [];
  efa_device_plugin_image = "plugin:latest";
  image_pull_secrets = [];
}

abbrev pub driver_named : {Spec : Type 0} → Spec → String → String → Driver Spec
driver_named spec name condition = record {
  name = name;
  uid = "1";
  deletion_timestamp = none;
  finalizers = finalizer ∷ [];
  spec = spec;
  status = record { condition = condition; description = "" };
}

abbrev pub efa_driver : EfaDriver
efa_driver = driver_named efa_spec "a" ""

abbrev pub other_driver : EfaDriver
other_driver = driver_named efa_spec "b" ""

abbrev pub gdrdrv_spec : GdrdrvDriverSpec
gdrdrv_spec = record {
  kmm_namespace = "kmm";
  gdrdrv_ver = "2.4";
  device_plugin_service_account = "plugin";
  open_shift = some true;
  node_selector = [];
  gdrdrv_device_plugin_image = "plugin:latest";
  image_pull_secrets = [];
}

abbrev pub gdrdrv_driver : GdrdrvDriver
gdrdrv_driver = driver_named gdrdrv_spec "a" ""

abbrev pub worker : Node
worker =
    ("feature.node.kubernetes.io/kernel-version.major", "4")
    ∷ ("feature.node.kubernetes.io/kernel-version.minor", "18")
    ∷ ("feature.node.kubernetes.io/fms.io.dev.count", "4")
    ∷ ("feature.node.kubernetes.io/fms.io.efa.present", "true")
    ∷ ("nvidia.com/cuda.driver.major", "535")
    ∷ ("nvidia.com/cuda.driver.minor", "104")
    ∷ ("nvidia.com/cuda.driver.rev", "05")
    ∷ []

abbrev pub server : {Spec : Type 0} → List (Driver Spec) → Memory Spec
server drivers = record {
  drivers = drivers;
  objects = λ k key. none;
  nodes = worker ∷ [];
  list_refused = none;
  refuse_update = λ d. none;
  refuse_create = λ o. none;
  refuse_delete = λ k. none;
}

abbrev pub start : {Spec : Type 0} → List (Driver Spec) → State (Memory Spec)
start drivers = record { world = server drivers; back_off_duration = [] }

abbrev pub request : String → Request
request name = record { namespace = ""; name = name }
