-- ===== src/Controllers/Efa/Nodes.antt =====
-- `GetNodeStatus` of the EFA reconciler.
use Prim.Native.String.{String, ◌++◌}
use ocp_efa_operator.Prelude.{
  ℕ, ◌+◌, Bool, true, false, Option, none, some, List, [], ◌∷◌, ltb, if◌then◌else◌, lookup, insert,
}
use ocp_efa_operator.Api.Objects.{Node}
use ocp_efa_operator.Api.Client.{Result, ok, err}
use ocp_efa_operator.Controllers.Action.{Action, ◌>>=◌, pure}
use ocp_efa_operator.Controllers.Owned.{Reconciler}

abbrev pub kernel_major_label : String
kernel_major_label = "feature.node.kubernetes.io/kernel-version.major"

abbrev pub kernel_minor_label : String
kernel_minor_label = "feature.node.kubernetes.io/kernel-version.minor"

abbrev pub dev_count_label : String
dev_count_label = "feature.node.kubernetes.io/fms.io.dev.count"

abbrev pub efa_present_label : String
efa_present_label = "feature.node.kubernetes.io/fms.io.efa.present"

-- a `map[string]bool` with the kernel versions for its keys
abbrev pub KernelVers : Type 0
KernelVers = List (String × Bool)

-- the loop's variables
pub record NodeScan : Type 0 where
  pub waiting_count : ℕ
  pub complete_count : ℕ
  pub efa_kernel_vers : KernelVers

abbrev pub kernel_version : String → String → String
kernel_version major minor = major ++ "." ++ minor

abbrev add_kernel_version : Option String → String → KernelVers → KernelVers
add_kernel_version none kernel_ver vers = vers
add_kernel_version (some present) kernel_ver vers = insert kernel_ver true vers

-- one round, at the labels that it looks up
abbrev pub scan_labels :
    Option String → Option String → Option String → Option String → NodeScan → NodeScan
scan_labels (some major) (some minor) (some dev_count) efa_present s = record s {
  complete_count = s.complete_count + 1;
  efa_kernel_vers = add_kernel_version efa_present (kernel_version major minor) s.efa_kernel_vers;
}
scan_labels (some major) (some minor) none efa_present s = record s {
  waiting_count = s.waiting_count + 1;
}
scan_labels (some major) none dev_count efa_present s = s
scan_labels none minor dev_count efa_present s = s

unfoldable pub scan_node : Node → NodeScan → NodeScan
scan_node labels s =
    scan_labels (lookup kernel_major_label labels) (lookup kernel_minor_label labels)
      (lookup dev_count_label labels) (lookup efa_present_label labels) s

unfoldable pub scan_nodes : List Node → NodeScan → NodeScan
scan_nodes [] s = s
scan_nodes (node ∷ nodes) s = scan_nodes nodes (scan_node node s)

abbrev pub no_nodes : NodeScan
no_nodes = record { waiting_count = 0; complete_count = 0; efa_kernel_vers = [] }

-- `(true, nil, nil)` while a worker waits for its labels, else `(false, efaKernelVers, nil)`
unfoldable pub node_status : List Node → Bool × KernelVers
unfolding scan_nodes scan_node
node_status nodes =
    let s = scan_nodes nodes no_nodes in
    if ltb 0 s.waiting_count then (true, []) else (false, s.efa_kernel_vers)

module _ {Spec : Type 0} (r : Reconciler Spec) where
  abbrev pub listed_status : Result (List Node) → Result (Bool × KernelVers)
  listed_status (ok nodes) = ok (node_status nodes)
  listed_status (err e) = err e

  unfoldable pub get_node_status : Action r.client.World (Result (Bool × KernelVers))
  get_node_status = do nodes ← r.client.list_nodes; pure (listed_status nodes)
