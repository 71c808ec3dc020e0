-- ===== src/Controllers/Samples/NodeCases.antt =====
-- What the two reconcilers find out of the nodes and write for them, at concrete nodes and versions.
use ocp_efa_operator.Prelude.{
  true, false, some, none, [], ◌∷◌, List, ◌≡◌, refl, lookup, insert, if◌then◌else◌,
}
use ocp_efa_operator.Api.Objects.{Node}
use ocp_efa_operator.Api.Driver.{GdrdrvDriverSpec}
use ocp_efa_operator.Controllers.Owned.{Reconciler}
use ocp_efa_operator.Controllers.Efa.Nodes.{
  scan_node as scan_efa_node, scan_nodes as scan_efa_nodes, node_status as efa_node_status,
}
use ocp_efa_operator.Controllers.Efa.Labels.{
  any_waits, node_status-waits, any_version, node_status-vers,
}
use ocp_efa_operator.Controllers.Gdrdrv.Nodes.{node_status}
use ocp_efa_operator.Controllers.Gdrdrv.Labels.{entry, any_versions, node_status-entry}
use ocp_efa_operator.Controllers.Gdrdrv.Create.{create_cluster}
use ocp_efa_operator.Controllers.Gdrdrv.Waiting.{create_cluster_never_requeues}
use ocp_efa_operator.Controllers.Samples.{sample_reconciler, gdrdrv_driver, worker, server}

abbrev nodes : List Node
nodes = worker ∷ [] ∷ []

node_status-waits_example : (efa_node_status nodes).0 ≡ any_waits nodes
node_status-waits_example = node_status-waits nodes

nobody_waits : (efa_node_status nodes).0 ≡ false
unfolding efa_node_status scan_efa_nodes scan_efa_node lookup insert
nobody_waits = refl

node_status-vers_example :
    lookup "4.18" (efa_node_status nodes).1 ≡ (if any_version "4.18" nodes then some true else none)
node_status-vers_example = node_status-vers "4.18" nodes nobody_waits

node_status-entry_example :
    entry "535.104.05" "4.18" (node_status nodes).1
    ≡ (if any_versions "535.104.05" "4.18" nodes then some true else none)
node_status-entry_example = node_status-entry "535.104.05" "4.18" nodes

abbrev r : Reconciler GdrdrvDriverSpec
r = sample_reconciler GdrdrvDriverSpec

create_cluster_never_requeues_example :
    (create_cluster r gdrdrv_driver (server (gdrdrv_driver ∷ []))).0.0 ≡ false
create_cluster_never_requeues_example =
    create_cluster_never_requeues r gdrdrv_driver (server (gdrdrv_driver ∷ []))
