-- ===== src/Startup/Samples.antt =====
-- What the manager hears of, at a server in memory, and a scheme that is a list of types.
use ocp_efa_operator.Prelude.{
  String, Option, none, some, List, [], ◌∷◌, ◌++◌, All, Has, ◌≡◌, ◌⊎◌, inl, inr, refl,
}
use ocp_efa_operator.Api.Objects.{
  Object, config_map, kmm_module, security_context_constraints, daemon_set,
}
use ocp_efa_operator.Controllers.Efa.Create.{create_cluster}
use ocp_efa_operator.Controllers.Samples.{efa_driver as sample_driver}
use ocp_efa_operator.Controllers.Samples.EfaCases.{plugin_key}
use ocp_efa_operator.Controllers.Samples.SettleCases.{r, v, laws, up, gvk, s}
use ocp_efa_operator.Startup.{object, node, efa_setup, gdrdrv_setup}
use ocp_efa_operator.Startup.Scheme.{
  GoType, watched, efa_driver, efa_driver_list, gdrdrv_driver, gdrdrv_driver_list, node_list,
  SchemeLibrary, init,
}
use ocp_efa_operator.Startup.Scheme.Known.{Adds, IsSchemeLibrary, init-knows}
use ocp_efa_operator.Startup.Watches.{IsHeard}
use ocp_efa_operator.Startup.Watches.Efa.{create_cluster-IsHeard}

create_cluster-IsHeard_example :
    (v.stored (create_cluster r sample_driver s.world).1 daemon_set plugin_key
      ≡ v.stored s.world daemon_set plugin_key)
    ⊎ ((v.stored s.world daemon_set plugin_key ≡ none)
        × (x : Object) × (v.stored (create_cluster r sample_driver s.world).1 daemon_set plugin_key
            ≡ some x)
        × IsHeard efa_setup gvk sample_driver x)
create_cluster-IsHeard_example =
    create_cluster-IsHeard r v laws up sample_driver gvk refl s.world daemon_set plugin_key

abbrev put : List GoType → List GoType → Option String × List GoType
put ts s = (none, ts ++ s)

abbrev library : SchemeLibrary
library = record {
  Scheme = List GoType;
  Error = String;
  scheme_add_known_types = λ gv ts s. ts ++ s;
  add_to_group_version = λ gv s. s;
  nfd_group_version = record { group = "nfd.openshift.io"; version = "v1alpha1" };
  builder = λ gv ts. put ts;
  scheme_builder = λ m. m;
  client_go =
      put
        (watched (object config_map) ∷ watched (object daemon_set) ∷ watched node ∷ node_list ∷ []);
  security = put (watched (object security_context_constraints) ∷ []);
  kmm = put (watched (object kmm_module) ∷ []);
}

abbrev Knows : List GoType → GoType → Type 0
Knows s t = Has t s

Has-put : (t : GoType) (ts s : List GoType) → Has t ts ⊎ Has t s → Has t (ts ++ s)
Has-put t [] s (inl h) = absurd h
Has-put t [] s (inr h) = h
Has-put t (x ∷ ts) s (inl (inl e)) = inl e
Has-put t (x ∷ ts) s (inl (inr h)) = inr (Has-put t ts s (inl h))
Has-put t (x ∷ ts) s (inr h) = inr (Has-put t ts s (inr h))

put-Adds : (ts : List GoType) → Adds library Knows ts (put ts)
put-Adds ts = record { at = λ s t e h. Has-put t ts s h }

library-IsSchemeLibrary : IsSchemeLibrary library Knows
library-IsSchemeLibrary = record {
  known_types = λ gv ts s t h. Has-put t ts s h;
  group_version_keeps = λ gv s t h. h;
  builder_adds = λ gv ts. put-Adds ts;
  scheme_builder_runs = λ m s. refl;
  client_go_adds = put-Adds _;
  security_adds = put-Adds _;
  kmm_adds = put-Adds _;
}

init-knows_example :
    All (λ k. Knows (init library []).1 (watched k)) efa_setup.owns
    × All (λ k. Knows (init library []).1 (watched k)) gdrdrv_setup.owns
    × All
        (Knows (init library []).1)
        (efa_driver ∷ efa_driver_list ∷ gdrdrv_driver ∷ gdrdrv_driver_list ∷ node_list ∷ [])
unfolding init
init-knows_example = init-knows library Knows library-IsSchemeLibrary [] refl
