-- ===== src/Startup/Scheme.antt =====
-- The scheme: `init` and `addKnownTypes` of main.go, and api/v1alpha1/groupversion_info.go with the
-- two functions `init` that register their types there.

pub mod Known
use ocp_efa_operator.Prelude.{String, Bool, Option, none, some, List, [], ◌∷◌}
use ocp_efa_operator.Controllers.Action.{Action, ◌>>=◌, pure}
use ocp_efa_operator.Api.Objects.{node_feature_rule}
use ocp_efa_operator.Startup.{Watched, object}

-- the Go types that the code names to the scheme or to the client
pub data GoType : Type 0 where
  watched : Watched → GoType
  efa_driver efa_driver_list gdrdrv_driver gdrdrv_driver_list : GoType
  node_feature node_feature_list node_feature_rule_list node_list : GoType

pub record GroupVersion : Type 0 where
  pub group : String
  pub version : String

abbrev pub group_version : GroupVersion
group_version = record { group = "efa.fms.io"; version = "v1alpha1" }

-- apimachinery's schemes, controller-runtime's `scheme.Builder` with the types that are registered
-- at it, the other packages' `AddToScheme`, and `SchemeBuilder` with one function
pub record SchemeLibrary : Type 1 where
  pub Scheme : Type 0
  pub Error : Type 0
  pub scheme_add_known_types : GroupVersion → List GoType → Scheme → Scheme
  pub add_to_group_version : GroupVersion → Scheme → Scheme
  pub nfd_group_version : GroupVersion
  pub builder : GroupVersion → List GoType → Action Scheme (Option Error)
  pub scheme_builder : Action Scheme (Option Error) → Action Scheme (Option Error)
  pub client_go : Action Scheme (Option Error)
  pub security : Action Scheme (Option Error)
  pub kmm : Action Scheme (Option Error)

module _ (lib : SchemeLibrary) where
  -- `AddToScheme`
  abbrev pub add_to_scheme : Action lib.Scheme (Option lib.Error)
  add_to_scheme =
      lib.builder group_version
        (efa_driver ∷ efa_driver_list ∷ gdrdrv_driver ∷ gdrdrv_driver_list ∷ [])

  -- `addKnownTypes`
  abbrev pub add_known_types : Action lib.Scheme (Option lib.Error)
  add_known_types scheme = (
    none,
    lib.add_to_group_version lib.nfd_group_version (
        lib.scheme_add_known_types lib.nfd_group_version
          (node_feature
            ∷ node_feature_list
            ∷ watched (object node_feature_rule)
            ∷ node_feature_rule_list
            ∷ [])
          scheme),
  )

  -- `utilruntime.Must`, which panics on an error, and what comes after
  abbrev pub or_panic :
      Option lib.Error → Action lib.Scheme (Option lib.Error) → Action lib.Scheme (Option lib.Error)
  or_panic none rest = rest
  or_panic (some failure) rest = pure (some failure)

  abbrev pub must :
      Action lib.Scheme (Option lib.Error)
      → Action lib.Scheme (Option lib.Error)
      → Action lib.Scheme (Option lib.Error)
  must step rest = do e ← step; or_panic e rest

  -- `init`: the error with which it panics
  unfoldable pub init : Action lib.Scheme (Option lib.Error)
  init = must lib.client_go (
      must add_to_scheme
        (must lib.security (must lib.kmm (must (lib.scheme_builder add_known_types) (pure none)))))
