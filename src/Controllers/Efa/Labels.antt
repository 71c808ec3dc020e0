-- ===== src/Controllers/Efa/Labels.antt =====
-- What `GetNodeStatus` of the EFA reconciler finds out.
use Prim.Native.String.{String}
use ocp_efa_operator.Prelude.{
  Bool, true, false, ◌&&◌, ◌||◌, not, Option, none, some, List, [], ◌∷◌, ◌≡◌, refl, arith, ltb,
  if◌then◌else◌, lookup, lookup-insert, str_eq,
}
use ocp_efa_operator.Api.Objects.{Node}
use ocp_efa_operator.Controllers.Efa.Nodes.{
  kernel_major_label, kernel_minor_label, dev_count_label, efa_present_label, NodeScan,
  kernel_version, scan_labels, scan_node, scan_nodes, node_status, no_nodes,
}

abbrev pub is_set : Option String → Bool
is_set none = false
is_set (some s) = true

-- node feature discovery has labelled the node's kernel
abbrev pub is_worker : Node → Bool
is_worker labels =
    is_set (lookup kernel_major_label labels) && is_set (lookup kernel_minor_label labels)

abbrev pub is_waiting : Node → Bool
is_waiting labels = is_worker labels && not (is_set (lookup dev_count_label labels))

abbrev pub any_waits : List Node → Bool
any_waits [] = false
any_waits (node ∷ nodes) = is_waiting node || any_waits nodes

waiting_count-scan_nodes :
    (nodes : List Node) (s : NodeScan)
    → ltb 0 (scan_nodes nodes s).waiting_count ≡ (ltb 0 s.waiting_count || any_waits nodes)
unfolding scan_nodes scan_node
waiting_count-scan_nodes [] s = ground arith
waiting_count-scan_nodes (node ∷ nodes) s =
    ground (arith, waiting_count-scan_nodes nodes (scan_node node s))

-- `GetNodeStatus` asks to wait exactly if some node has both labels of its kernel and lacks the one
-- for its number of devices.
pub node_status-waits : (nodes : List Node) → (node_status nodes).0 ≡ any_waits nodes
unfolding node_status
node_status-waits nodes = ground (arith, waiting_count-scan_nodes nodes no_nodes)

abbrev pub version_is : String → Option String → Option String → Bool
version_is ver none minor = false
version_is ver (some major) none = false
version_is ver (some major) (some minor) = str_eq (kernel_version major minor) ver

-- a node with an EFA device and this kernel version, fully labelled
abbrev pub has_version : String → Node → Bool
has_version ver labels =
    is_set (lookup dev_count_label labels)
    && (is_set (lookup efa_present_label labels)
        && version_is ver (lookup kernel_major_label labels) (lookup kernel_minor_label labels))

abbrev pub any_version : String → List Node → Bool
any_version ver [] = false
any_version ver (node ∷ nodes) = has_version ver node || any_version ver nodes

scan_labels-vers :
    (ver : String) (s : NodeScan) (major minor dev_count efa_present : Option String)
    → lookup ver (scan_labels major minor dev_count efa_present s).efa_kernel_vers ≡ (
        if is_set dev_count && (is_set efa_present && version_is ver major minor)
        then some true
        else lookup ver s.efa_kernel_vers)
scan_labels-vers ver s none minor dev_count efa_present = ground arith
scan_labels-vers ver s (some major) none dev_count efa_present = ground arith
scan_labels-vers ver s (some major) (some minor) none efa_present = ground arith
scan_labels-vers ver s (some major) (some minor) (some count) none = ground arith
scan_labels-vers ver s (some major) (some minor) (some count) (some present) =
    lookup-insert (kernel_version major minor) ver true s.efa_kernel_vers

scan_node-vers :
    (ver : String) (node : Node) (s : NodeScan)
    → lookup ver (scan_node node s).efa_kernel_vers
      ≡ (if has_version ver node then some true else lookup ver s.efa_kernel_vers)
unfolding scan_node
scan_node-vers ver node s =
    scan_labels-vers ver s (lookup kernel_major_label node) (lookup kernel_minor_label node)
      (lookup dev_count_label node) (lookup efa_present_label node)

scan_nodes-vers :
    (ver : String) (nodes : List Node) (s : NodeScan)
    → lookup ver (scan_nodes nodes s).efa_kernel_vers
      ≡ (if any_version ver nodes then some true else lookup ver s.efa_kernel_vers)
unfolding scan_nodes
scan_nodes-vers ver [] s = refl
scan_nodes-vers ver (node ∷ nodes) s =
    ground (arith, scan_nodes-vers ver nodes (scan_node node s), scan_node-vers ver node s)

-- If `GetNodeStatus` does not ask to wait, its map has a kernel version exactly if some node with the
-- label of an EFA device, the one for its number of devices and both of its kernel has that version.
pub node_status-vers :
    (ver : String) (nodes : List Node)
    → (node_status nodes).0 ≡ false
    → lookup ver (node_status nodes).1 ≡ (if any_version ver nodes then some true else none)
unfolding node_status lookup
node_status-vers ver nodes h = ground (arith, scan_nodes-vers ver nodes no_nodes)
