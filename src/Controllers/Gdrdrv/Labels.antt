-- ===== src/Controllers/Gdrdrv/Labels.antt =====
-- What `GetNodeStatus` of the GDRCOPY reconciler finds out.
use Prim.Native.String.{String}
use ocp_efa_operator.Prelude.{
  Bool, true, false, ◌&&◌, ◌||◌, Option, none, some, List, [], ◌∷◌, ◌≡◌, refl, arith, if◌then◌else◌,
  lookup, lookup-insert, str_eq, eq_iff, Bool-cases, inl, inr,
}
use ocp_efa_operator.Api.Objects.{Node}
use ocp_efa_operator.Controllers.Efa.Nodes.{kernel_major_label, kernel_minor_label, kernel_version}
use ocp_efa_operator.Controllers.Efa.Labels.{version_is}
use ocp_efa_operator.Controllers.Gdrdrv.Nodes.{
  cuda_major_label, cuda_minor_label, cuda_rev_label, cuda_version, CudaDrvVers, NodeScan,
  kernel_vers_or_new, add_version, scan_cuda, scan_kernel, scan_node, scan_nodes, node_status,
  no_nodes,
}
use ocp_efa_operator.Controllers.Gdrdrv.Waiting.{node_status_never_waits}

-- the map's entry for a driver version and a kernel version
abbrev pub entry : String → String → CudaDrvVers → Option Bool
entry cuda kernel vers = lookup kernel (kernel_vers_or_new (lookup cuda vers))

entry-add_version :
    (cuda kernel c k : String) (vers : CudaDrvVers)
    → entry c k (add_version cuda kernel vers)
      ≡ (if str_eq cuda c && str_eq kernel k then some true else entry c k vers)
unfolding add_version
entry-add_version cuda kernel c k vers = elim (Bool-cases (str_eq cuda c)) [
  | inl same ↦ rw lookup-insert (rw same (rw lookup-insert (ground (arith, eq_iff cuda c))))
  | inr other ↦ rw lookup-insert (rw other refl)
]

abbrev pub cuda_is : String → Option String → Option String → Option String → Bool
cuda_is cuda (some major) (some minor) (some rev) = str_eq (cuda_version major minor rev) cuda
cuda_is cuda (some major) (some minor) none = false
cuda_is cuda (some major) none rev = false
cuda_is cuda none minor rev = false

-- a node that is labelled with both versions
abbrev pub has_versions : String → String → Node → Bool
has_versions cuda kernel labels =
    cuda_is cuda (lookup cuda_major_label labels) (lookup cuda_minor_label labels)
      (lookup cuda_rev_label labels)
    && version_is kernel (lookup kernel_major_label labels) (lookup kernel_minor_label labels)

abbrev pub any_versions : String → String → List Node → Bool
any_versions cuda kernel [] = false
any_versions cuda kernel (node ∷ nodes) =
    has_versions cuda kernel node || any_versions cuda kernel nodes

scan_cuda-entry :
    (c k kernel : String) (major minor rev : Option String) (vers : CudaDrvVers)
    → entry c k (scan_cuda major minor rev kernel vers)
      ≡ (if cuda_is c major minor rev && str_eq kernel k then some true else entry c k vers)
scan_cuda-entry c k kernel none minor rev vers = ground arith
scan_cuda-entry c k kernel (some major) none rev vers = ground arith
scan_cuda-entry c k kernel (some major) (some minor) none vers = ground arith
scan_cuda-entry c k kernel (some major) (some minor) (some rev) vers =
    entry-add_version (cuda_version major minor rev) kernel c k vers

scan_kernel-entry :
    (c k : String) (major minor : Option String) (node : Node) (s : NodeScan)
    → entry c k (scan_kernel major minor node s).cuda_drv_vers ≡ (
        if cuda_is c
            (lookup cuda_major_label node)
            (lookup cuda_minor_label node)
            (lookup cuda_rev_label node)
          && version_is k major minor
        then some true
        else entry c k s.cuda_drv_vers)
scan_kernel-entry c k none minor node s = ground arith
scan_kernel-entry c k (some major) none node s = ground arith
scan_kernel-entry c k (some major) (some minor) node s =
    scan_cuda-entry c k (kernel_version major minor) (lookup cuda_major_label node)
      (lookup cuda_minor_label node) (lookup cuda_rev_label node) s.cuda_drv_vers

scan_nodes-entry :
    (c k : String) (nodes : List Node) (s : NodeScan)
    → entry c k (scan_nodes nodes s).cuda_drv_vers
      ≡ (if any_versions c k nodes then some true else entry c k s.cuda_drv_vers)
unfolding scan_nodes scan_node
scan_nodes-entry c k [] s = refl
scan_nodes-entry c k (node ∷ nodes) s = ground (
  arith,
  scan_nodes-entry c k nodes (scan_node node s),
  scan_kernel-entry c k (lookup kernel_major_label node) (lookup kernel_minor_label node) node s,
)

-- The map of `GetNodeStatus` has a kernel version under a driver version exactly if some node has
-- the labels of both.
pub node_status-entry :
    (cuda kernel : String) (nodes : List Node)
    → entry cuda kernel (node_status nodes).1
      ≡ (if any_versions cuda kernel nodes then some true else none)
unfolding node_status lookup
node_status-entry cuda kernel nodes =
    ground (arith, scan_nodes-entry cuda kernel nodes no_nodes, node_status_never_waits nodes)
