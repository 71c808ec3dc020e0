-- ===== src/Api/Objects.antt =====
-- The objects that the controllers create, with the fields that the controllers set, and the
-- nodes that they read.
use ocp_efa_operator.Prelude.{ℕ, String, Bool, Option, List, ◌&&◌, str_eq, true, false}
use ocp_efa_operator.Api.Driver.{Labels}

pub record OwnerReference : Type 0 where
  pub api_version : String
  pub kind : String
  pub name : String
  pub uid : String
  pub block_owner_deletion : Bool
  pub controller : Bool

-- A cluster-scoped object has the namespace "".
pub record ObjectMeta : Type 0 where
  pub name : String
  pub namespace : String
  pub owner_references : List OwnerReference
  pub labels : Labels

pub data MatchOp : Type 0 where
  match_in match_exists : MatchOp

pub record MatchExpression : Type 0 where
  pub feature : String
  pub key : String
  pub op : MatchOp
  pub value : List String

pub record Rule : Type 0 where
  pub name : String
  pub labels : Labels
  pub labels_template : String
  pub match_features : List MatchExpression

pub record NodeFeatureRule : Type 0 where
  pub meta : ObjectMeta
  pub rules : List Rule

pub record ConfigMap : Type 0 where
  pub meta : ObjectMeta
  pub content : Labels

pub record KernelMapping : Type 0 where
  pub regexp : String
  pub container_image : String

pub record KmmModule : Type 0 where
  pub meta : ObjectMeta
  pub in_tree_module_to_remove : String
  pub module_name : String
  pub kernel_mappings : List KernelMapping
  pub dockerfile_config_map : String
  pub selector : Labels

-- Constants of the API packages that the controllers name.
pub data Strategy : Type 0 where
  run_as_any : Strategy

pub data FsType : Type 0 where
  secret persistent_volume_claim : FsType

pub data PullPolicy : Type 0 where
  pull_always : PullPolicy

pub data HostPathType : Type 0 where
  host_path_directory : HostPathType

pub record SecurityContextConstraints : Type 0 where
  pub meta : ObjectMeta
  pub allow_host_dir_volume_plugin : Bool
  pub allow_privilege_escalation : Option Bool
  pub allow_privileged_container : Bool
  pub allow_host_ipc : Bool
  pub allow_host_network : Bool
  pub allow_host_pid : Bool
  pub allow_host_ports : Bool
  pub priority : Option ℕ
  pub allowed_capabilities : List String
  pub forbidden_sysctls : List String
  pub read_only_root_filesystem : Bool
  pub fs_group : Strategy
  pub run_as_user : Strategy
  pub se_linux_context : Strategy
  pub supplemental_groups : Strategy
  pub volumes : List FsType
  pub users : List String

pub record NodeSelectorRequirement : Type 0 where
  pub key : String
  pub operator : String
  pub values : List String

pub record Toleration : Type 0 where
  pub key : String
  pub operator : String
  pub effect : String

pub record VolumeMount : Type 0 where
  pub name : String
  pub mount_path : String

pub record Volume : Type 0 where
  pub name : String
  pub host_path : String
  pub host_path_type : HostPathType

pub record Container : Type 0 where
  pub name : String
  pub image : String
  pub image_pull_policy : PullPolicy
  pub command : List String
  pub privileged : Option Bool
  pub capabilities_add : List String
  pub run_as_user : Option ℕ
  pub volume_mounts : List VolumeMount

pub record DaemonSet : Type 0 where
  pub meta : ObjectMeta
  pub match_labels : Labels
  pub template_labels : Labels
  pub image_pull_secrets : List String
  pub service_account_name : String
  pub affinity : List NodeSelectorRequirement
  pub node_selector : Labels
  pub tolerations : List Toleration
  pub containers : List Container
  pub volumes : List Volume

pub data Kind : Type 0 where
  node_feature_rule config_map kmm_module security_context_constraints daemon_set : Kind

-- `client.ObjectKey`
pub record ObjectKey : Type 0 where
  pub name : String
  pub namespace : String

pub data Object : Type 0 where
  of_rule : NodeFeatureRule → Object
  of_config_map : ConfigMap → Object
  of_module : KmmModule → Object
  of_scc : SecurityContextConstraints → Object
  of_daemon_set : DaemonSet → Object

abbrev pub kind_of : Object → Kind
kind_of (of_rule o) = node_feature_rule
kind_of (of_config_map o) = config_map
kind_of (of_module o) = kmm_module
kind_of (of_scc o) = security_context_constraints
kind_of (of_daemon_set o) = daemon_set

abbrev pub meta_of : Object → ObjectMeta
meta_of (of_rule o) = o.meta
meta_of (of_config_map o) = o.meta
meta_of (of_module o) = o.meta
meta_of (of_scc o) = o.meta
meta_of (of_daemon_set o) = o.meta

abbrev pub key_of : Object → ObjectKey
key_of o = record { name = (meta_of o).name; namespace = (meta_of o).namespace }

abbrev pub kind_eq : Kind → Kind → Bool
kind_eq node_feature_rule node_feature_rule = true
kind_eq config_map config_map = true
kind_eq kmm_module kmm_module = true
kind_eq security_context_constraints security_context_constraints = true
kind_eq daemon_set daemon_set = true
kind_eq _ _ = false

abbrev pub key_eq : ObjectKey → ObjectKey → Bool
key_eq a b = str_eq a.name b.name && str_eq a.namespace b.namespace

-- `Node`: its labels
abbrev pub Node : Type 0
Node = Labels
