-- ===== src/Api/Driver.antt =====
-- api/v1alpha1/efadriver_types.go and gdrdrv_types.go. `Driver` is the custom resource with the
-- fields that the two kinds share; `EfaDriver` and `GdrdrvDriver` differ in their `Spec`.
use ocp_efa_operator.Prelude.{ℕ, String, Bool, Option, List}

-- A key is one of a `map[string]string`.
abbrev pub Labels : Type 0
Labels = List (String × String)

pub record EfaDriverSpec : Type 0 where
  pub kmm_namespace : String
  pub aws_efa_installer_ver : String
  pub device_plugin_service_account : String
  pub open_shift : Option Bool
  pub node_selector : Labels
  pub efa_device_plugin_image : String
  pub image_pull_secrets : List String

pub record GdrdrvDriverSpec : Type 0 where
  pub kmm_namespace : String
  pub gdrdrv_ver : String
  pub device_plugin_service_account : String
  pub open_shift : Option Bool
  pub node_selector : Labels
  pub gdrdrv_device_plugin_image : String
  pub image_pull_secrets : List String

-- `EfaDriverStatus` and `GdrdrvDriverStatus`
pub record DriverStatus : Type 0 where
  pub condition : String
  pub description : String

-- A resource is cluster-scoped, so its metadata has no namespace.
pub record Driver (Spec : Type 0) : Type 0 where
  pub name : String
  pub uid : String
  pub deletion_timestamp : Option ℕ
  pub finalizers : List String
  pub spec : Spec
  pub status : DriverStatus

abbrev pub EfaDriver : Type 0
EfaDriver = Driver EfaDriverSpec

abbrev pub GdrdrvDriver : Type 0
GdrdrvDriver = Driver GdrdrvDriverSpec
