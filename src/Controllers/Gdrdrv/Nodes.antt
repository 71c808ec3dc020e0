-- ===== src/Controllers/Gdrdrv/Nodes.antt =====
-- `GetNodeStatus` of the GDRCOPY reconciler: the CUDA driver versions, each with the kernel versions
-- of its nodes.
use Prim.Native.String.{String, ◌++◌}
use ocp_efa_operator.Prelude.{
  ℕ, ◌+◌, Bool, true, false, Option, none, some, List, [], ◌∷◌, ltb, if◌then◌else◌, lookup, insert,
}
use ocp_efa_operator.Api.Objects.{Node}
use ocp_efa_operator.Api.Client.{Result, ok, err}
use ocp_efa_operator.Controllers.Action.{Action, ◌>>=◌, pure}
use ocp_efa_operator.Controllers.Owned.{Reconciler}
use ocp_efa_operator.Controllers.Efa.Nodes.{
  kernel_major_label, kernel_minor_label, KernelVers, kernel_version,
}

abbrev pub cuda_major_label : String
cuda_major_label = "nvidia.com/cuda.driver.major"

abbrev pub cuda_minor_label : String
cuda_minor_label = "nvidia.com/cuda.driver.minor"

abbrev pub cuda_rev_label : String
cuda_rev_label = "nvidia.com/cuda.driver.rev"

-- a `map[string]map[string]bool`
abbrev pub CudaDrvVers : Type 0
CudaDrvVers = List (String × KernelVers)

-- the loop's variables
pub record NodeScan : Type 0 where
  pub waiting_count : ℕ
  pub complete_count : ℕ
  pub cuda_drv_vers : CudaDrvVers

abbrev pub cuda_version : String → String → String → String
cuda_version major minor rev = major ++ "." ++ minor ++ "." ++ rev

-- `if _, ok := vers[cuda]; !ok { vers[cuda] = make(map[string]bool) }; vers[cuda][kernelVer] = true`
abbrev pub kernel_vers_or_new : Option KernelVers → KernelVers
kernel_vers_or_new none = []
kernel_vers_or_new (some kernel_vers) = kernel_vers

unfoldable pub add_version : String → String → CudaDrvVers → CudaDrvVers
add_version cuda kernel_ver vers =
    insert cuda (insert kernel_ver true (kernel_vers_or_new (lookup cuda vers))) vers

abbrev pub scan_cuda :
    Option String → Option String → Option String → String → CudaDrvVers → CudaDrvVers
scan_cuda (some major) (some minor) (some rev) kernel_ver vers =
    add_version (cuda_version major minor rev) kernel_ver vers
scan_cuda (some major) (some minor) none kernel_ver vers = vers
scan_cuda (some major) none rev kernel_ver vers = vers
scan_cuda none minor rev kernel_ver vers = vers

abbrev pub scan_kernel : Option String → Option String → Node → NodeScan → NodeScan
scan_kernel (some major) (some minor) labels s = record s {
  complete_count = s.complete_count + 1;
  cuda_drv_vers =
      scan_cuda (lookup cuda_major_label labels) (lookup cuda_minor_label labels)
        (lookup cuda_rev_label labels) (kernel_version major minor) s.cuda_drv_vers;
}
scan_kernel (some major) none labels s = s
scan_kernel none minor labels s = s

unfoldable pub scan_node : Node → NodeScan → NodeScan
unfolding add_version
scan_node labels s =
    scan_kernel (lookup kernel_major_label labels) (lookup kernel_minor_label labels) labels s

unfoldable pub scan_nodes : List Node → NodeScan → NodeScan
scan_nodes [] s = s
scan_nodes (node ∷ nodes) s = scan_nodes nodes (scan_node node s)

abbrev pub no_nodes : NodeScan
no_nodes = record { waiting_count = 0; complete_count = 0; cuda_drv_vers = [] }

-- `(true, nil, nil)` where the waiting count is positive, else `(false, cudaDrvVers, nil)`
unfoldable pub node_status : List Node → Bool × CudaDrvVers
unfolding scan_nodes scan_node
node_status nodes =
    let s = scan_nodes nodes no_nodes in
    if ltb 0 s.waiting_count then (true, []) else (false, s.cuda_drv_vers)

module _ {Spec : Type 0} (r : Reconciler Spec) where
  abbrev pub listed_status : Result (List Node) → Result (Bool × CudaDrvVers)
  listed_status (ok nodes) = ok (node_status nodes)
  listed_status (err e) = err e

  unfoldable pub get_node_status : Action r.client.World (Result (Bool × CudaDrvVers))
  get_node_status = do nodes ← r.client.list_nodes; pure (listed_status nodes)
