-- ===== src/Controllers/Owned.antt =====
-- The reconciler's fields, and how both reconcilers make sure of an owned object and remove it.
pub mod Ensure
pub mod Creates
pub mod Sweeps
pub mod Remove
pub mod RemoveAll
pub mod Faults
pub mod Undo
pub mod Provides
pub mod Clears
pub mod Needed
use Prim.Native.String.{String, ◌++◌}
use ocp_efa_operator.Prelude.{
  Bool, true, false, Option, none, some, List, [], ◌∷◌, if◌then◌else◌, not,
}
use ocp_efa_operator.Api.Driver.{Labels, Driver}
use ocp_efa_operator.Api.Objects.{Kind, ObjectKey, Object, OwnerReference, ObjectMeta}
use ocp_efa_operator.Api.Client.{ApiError, is_not_found, is_already_exists, Result, ok, err, Client}
use ocp_efa_operator.Controllers.Action.{Action, ◌>>=◌, pure, Outcome}

pub record GroupVersionKind : Type 0 where
  pub group_version : String
  pub kind : String

pub record Request : Type 0 where
  pub namespace : String
  pub name : String

-- `EfaDriverReconciler` and `GdrdrvDriverReconciler`, less the back-off map, which is state.
-- `gvk_for_object` is `apiutil.GVKForObject` at the reconciler's scheme. `range` is the order in
-- which a range loop visits the keys of a map, which Go leaves open. `device_plugin_path` is
-- the kubelet's `pluginapi.DevicePluginPath`. `request_string` is `Request.String`. The last three
-- are those of `controllerutil` at `efaFinalizer`, on an object's list of finalizers.
pub record Reconciler (Spec : Type 0) : Type 1 where
  pub client : Client Spec
  pub operator_namespace : String
  pub gvk_for_object : Driver Spec → Result GroupVersionKind
  pub range : List String → List String
  pub device_plugin_path : String
  pub request_string : Request → String
  pub contains_finalizer : List String → Bool
  pub add_finalizer : List String → List String
  pub remove_finalizer : List String → List String × Bool

abbrev pub label_key : String
label_key = "ocp-efa-operator.fms.io"

-- the `owner` that `CreateCluster` builds
unfoldable pub owner_reference : {Spec : Type 0} → Driver Spec → GroupVersionKind → OwnerReference
owner_reference efa gvk = record {
  api_version = gvk.group_version;
  kind = gvk.kind;
  name = efa.name;
  uid = efa.uid;
  block_owner_deletion = true;
  controller = true;
}

-- the metadata that every created object gets
abbrev pub meta_at : ObjectKey → Labels → OwnerReference → ObjectMeta
meta_at key labels owner = record {
  name = key.name;
  namespace = key.namespace;
  owner_references = owner ∷ [];
  labels = labels;
}

-- `openShift != nil && *openShift`
abbrev pub is_open_shift : Option Bool → Bool
is_open_shift none = false
is_open_shift (some b) = b

-- which errors of `Create` are returned: all but AlreadyExists
abbrev pub unless_exists : ApiError → Bool
unless_exists e = not (is_already_exists e)

abbrev pub ignore_not_found : Option ApiError → Option ApiError
ignore_not_found none = none
ignore_not_found (some e) = if is_not_found e then none else some e

abbrev pub report : (ApiError → Bool) → Option ApiError → Outcome
report reported none = (false, none)
report reported (some e) = if reported e then (false, some e) else (false, none)

module _ {Spec : Type 0} (r : Reconciler Spec) where
  abbrev pub create_unless_found :
      (ApiError → Bool) → Object → Result Object → Action r.client.World Outcome
  create_unless_found reported o (ok orig) = pure (false, none)
  create_unless_found reported o (err e) =
      if is_not_found e
      then (do created ← r.client.create o; pure (report reported created))
      else pure (false, some e)

  -- `Get`; return if the object is there or cannot be read; `Create`, and report an error of it if
  -- `reported` says so.
  unfoldable pub ensure :
      (ApiError → Bool) → Kind → ObjectKey → Object → Action r.client.World Outcome
  ensure reported kind key o = do
    found ← r.client.get kind key
    create_unless_found reported o found

  abbrev delete_found : Result Object → Action r.client.World (Option ApiError)
  delete_found (ok orig) = do e ← r.client.delete orig; pure (ignore_not_found e)
  delete_found (err e) = pure (ignore_not_found (some e))

  -- `Get` and `Delete`, where an object that is not there counts as deleted.
  unfoldable pub remove : Kind → ObjectKey → Action r.client.World (Option ApiError)
  remove kind key = do found ← r.client.get kind key; delete_found found

  -- `DeleteAllOf` by namespace and labels, likewise.
  unfoldable pub remove_all : Kind → String → Labels → Action r.client.World (Option ApiError)
  remove_all kind namespace labels = do
    e ← r.client.delete_all_of kind namespace labels
    pure (ignore_not_found e)
