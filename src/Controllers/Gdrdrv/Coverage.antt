-- ===== src/Controllers/Gdrdrv/Coverage.antt =====
-- Every driver version of the nodes gets its kernel module.
use ocp_efa_operator.Prelude.{
  refl, String, true, false, none, some, List, [], ◌∷◌, ◌≡◌, inl, inr, ◌∙◌, arith, map, lookup,
  str_eq, eq_iff, Has, All-Has, Bool-cases,
}
use ocp_efa_operator.Api.Driver.{GdrdrvDriver, GdrdrvDriverSpec}
use ocp_efa_operator.Api.Objects.{config_map, kmm_module}
use ocp_efa_operator.Api.Laws.{View, IsLawful}
use ocp_efa_operator.Controllers.Owned.{Reconciler}
use ocp_efa_operator.Controllers.Owned.Creates.{Holds}
use ocp_efa_operator.Controllers.Gdrdrv.Nodes.{CudaDrvVers, node_status}
use ocp_efa_operator.Controllers.Gdrdrv.Manifests.{dockerfile_key, kmm_key}
use ocp_efa_operator.Controllers.Gdrdrv.Create.{create_cluster}
use ocp_efa_operator.Controllers.Gdrdrv.Labels.{entry, any_versions, node_status-entry}
use ocp_efa_operator.Controllers.Gdrdrv.Completeness.{
  VersionHolds, create_cluster-Complete_gdrdrv, create_cluster-Grows,
}

entry-Has :
    (cuda kernel : String) (vers : CudaDrvVers)
    → entry cuda kernel vers ≡ some true
    → Has cuda (map (λ e. e.0) vers)
unfolding lookup
entry-Has cuda kernel [] h = cc
entry-Has cuda kernel (e ∷ vers) h = elim (Bool-cases (str_eq e.0 cuda)) [
  | inl same ↦ inl (ground (arith, eq_iff e.0 cuda))
  | inr other ↦ inr (entry-Has cuda kernel vers (rw other at h))
]

-- If `CreateCluster` of the GDRCOPY reconciler reports success on a lawful server, and a range loop
-- visits every key of a map, then for each driver version that some node has in its labels, beside a
-- kernel version, the Dockerfile and the `Module` are stored.
pub create_cluster-covers :
    (r : Reconciler GdrdrvDriverSpec) (v : View r.client) (laws : IsLawful r.client v)
    (efa : GdrdrvDriver)
    (visits : (keys : List String) (key : String) → Has key keys → Has key (r.range keys))
    (w : r.client.World)
    → (create_cluster r efa w).0 ≡ (false, none)
    → (cuda kernel : String) → any_versions cuda kernel (v.nodes w) ≡ true
    → Holds r v config_map (dockerfile_key r efa cuda) (create_cluster r efa w).1
      × Holds r v kmm_module (kmm_key r efa cuda) (create_cluster r efa w).1
create_cluster-covers r v laws efa visits w h cuda kernel labelled =
    let end = (create_cluster r efa w).1 in
    let same = (create_cluster-Grows r v laws efa w).frame.nodes in
    let vers = (node_status (v.nodes end)).1 in
    let found : entry cuda kernel vers ≡ some true =
      node_status-entry cuda kernel (v.nodes end) ∙ rw same (rw labelled refl) in
    All-Has (VersionHolds r v laws efa end) cuda (r.range (map (λ e. e.0) vers))
      (create_cluster-Complete_gdrdrv r v laws efa w h).0
      (visits (map (λ e. e.0) vers) cuda (entry-Has cuda kernel vers found))
