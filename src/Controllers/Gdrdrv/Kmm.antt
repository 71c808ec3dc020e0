-- ===== src/Controllers/Gdrdrv/Kmm.antt =====
-- The kernel modules of the GDRCOPY reconciler: for each CUDA driver version a config map with a
-- Dockerfile, and a `Module` that maps each kernel version to an image.
use Prim.Native.String.{String, ◌++◌}
use ocp_efa_operator.Prelude.{List, [], ◌∷◌, map, insert}
use ocp_efa_operator.Api.Driver.{Labels, GdrdrvDriver, GdrdrvDriverSpec}
use ocp_efa_operator.Api.Objects.{OwnerReference, ConfigMap, KernelMapping, KmmModule}
use ocp_efa_operator.Controllers.Owned.{Reconciler, meta_at}
use ocp_efa_operator.Controllers.Strings.{split_dot, copy_into}
use ocp_efa_operator.Controllers.Efa.Nodes.{KernelVers}
use ocp_efa_operator.Controllers.Gdrdrv.Nodes.{cuda_major_label, cuda_minor_label, cuda_rev_label}
use ocp_efa_operator.Controllers.Gdrdrv.Manifests.{
  mod_name, gpu_present_label, dockerfile_key, kmm_key, kmm_labels,
}

unfoldable pub dockerfile : String → String → String
dockerfile cuda ver =
    "ARG DTK_AUTO\n FROM ${DTK_AUTO} as builder\n ARG KERNEL_VERSION\n RUN dnf install -y gcc && "
    ++ "wget -q https://github.com/NVIDIA/open-gpu-kernel-modules/archive/refs/tags/" ++ cuda
    ++ ".tar.gz -O /tmp/nvidia-driver.tar.gz && tar -xf /tmp/nvidia-driver.tar.gz -C /tmp && \\\n "
    ++ "wget -q https://github.com/NVIDIA/gdrcopy/archive/refs/tags/v" ++ ver
    ++ ".tar.gz -O /tmp/gdrcopy.tar.gz && tar -xf /tmp/gdrcopy.tar.gz -C /tmp && \\\n "
    ++ "cd /tmp/gdrcopy-" ++ ver ++ " && make NVIDIA_SRC_DIR=/tmp/open-gpu-kernel-modules-" ++ cuda
    ++ "/kernel-open/nvidia driver && cp /tmp/gdrcopy-" ++ ver
    ++ "/src/gdrdrv/gdrdrv.ko / && rm -rf /tmp/gdrcopy-" ++ ver ++ " /tmp/open-gpu-kernel-modules-"
    ++ cuda ++ "\n \n FROM registry.redhat.io/ubi8/ubi-minimal\n ARG KERNEL_VERSION\n "
    ++ "RUN microdnf install kmod\n RUN mkdir -p /opt/lib/modules/${KERNEL_VERSION}\n "
    ++ "COPY --from=builder /gdrdrv.ko /opt/lib/modules/${KERNEL_VERSION}\n "
    ++ "RUN echo -e '#!/bin/sh\\nif [ $# -gt 1 -a \"$1\" = \"-r\" ]; then\\n"
    ++ "if ! /sbin/modprobe $@; then\\n/sbin/modprobe -d /opt $@\\nfi\\nelse\\n/sbin/modprobe $@\\nfi' "
    ++ "> /usr/local/sbin/modprobe  && chmod 755 /usr/local/sbin/modprobe\n "
    ++ "RUN depmod -b /opt ${KERNEL_VERSION}"

abbrev major_part : List String → String
major_part [] = ""
major_part (major ∷ parts) = major

abbrev minor_part : List String → String
minor_part [] = ""
minor_part (major ∷ []) = ""
minor_part (major ∷ minor ∷ parts) = "\\." ++ minor

unfoldable pub kernel_regexp : String → String
kernel_regexp kernel_ver =
    let parts = split_dot kernel_ver in
    "^" ++ major_part parts ++ minor_part parts ++ ".*\\.x86_64$"

-- the parts of the driver version, as far as they go, under the labels of the nodes
abbrev pub select_driver : List String → Labels → Labels
select_driver [] selector = selector
select_driver (major ∷ []) selector = insert cuda_major_label major selector
select_driver (major ∷ minor ∷ []) selector =
    insert cuda_minor_label minor (insert cuda_major_label major selector)
select_driver (major ∷ minor ∷ rev ∷ parts) selector =
    insert cuda_rev_label rev
      (insert cuda_minor_label minor (insert cuda_major_label major selector))

module _ (r : Reconciler GdrdrvDriverSpec) (efa : GdrdrvDriver) where
  unfoldable pub kernel_mapping : String → String → KernelMapping
  kernel_mapping cuda_drv_ver kernel_ver = record {
    regexp = kernel_regexp kernel_ver;
    container_image =
        "image-registry.openshift-image-registry.svc:5000/openshift-kmm/" ++ efa.name ++ "-"
        ++ mod_name ++ "-kmm:linux-" ++ kernel_ver ++ "-cudadrv-" ++ cuda_drv_ver;
  }

  unfoldable pub node_selector : String → Labels
  node_selector cuda_drv_ver =
      select_driver (split_dot cuda_drv_ver)
        (insert gpu_present_label "true" (copy_into [] efa.spec.node_selector))

  unfoldable pub dockerfile_manifest : String → OwnerReference → ConfigMap
  dockerfile_manifest cuda_drv_ver owner = record {
    meta = meta_at (dockerfile_key r efa cuda_drv_ver) (kmm_labels r efa) owner;
    content = ("dockerfile", dockerfile cuda_drv_ver efa.spec.gdrdrv_ver) ∷ [];
  }

  abbrev kernel_versions : KernelVers → List String
  kernel_versions vers = r.range (map (λ entry. entry.0) vers)

  unfoldable pub kmm_manifest : String → KernelVers → OwnerReference → KmmModule
  kmm_manifest cuda_drv_ver vers owner = record {
    meta = meta_at (kmm_key r efa cuda_drv_ver) (kmm_labels r efa) owner;
    in_tree_module_to_remove = mod_name;
    module_name = mod_name;
    kernel_mappings = map (kernel_mapping cuda_drv_ver) (kernel_versions vers);
    dockerfile_config_map =
        efa.name ++ "-" ++ mod_name ++ "-kmm-dockerfile-cudadrv-" ++ cuda_drv_ver;
    selector = node_selector cuda_drv_ver;
  }
