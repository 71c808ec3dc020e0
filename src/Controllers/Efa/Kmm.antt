-- ===== src/Controllers/Efa/Kmm.antt =====
-- The kernel module of the EFA reconciler: the config map with its Dockerfile, and the `Module`
-- that maps each kernel version to an image.
use Prim.Native.String.{String, ◌++◌}
use ocp_efa_operator.Prelude.{List, [], ◌∷◌, map, insert}
use ocp_efa_operator.Api.Driver.{Labels, EfaDriver, EfaDriverSpec}
use ocp_efa_operator.Api.Objects.{OwnerReference, ConfigMap, KernelMapping, KmmModule}
use ocp_efa_operator.Controllers.Owned.{Reconciler, meta_at}
use ocp_efa_operator.Controllers.Strings.{split_dot, copy_into}
use ocp_efa_operator.Controllers.Efa.Nodes.{KernelVers, efa_present_label}
use ocp_efa_operator.Controllers.Efa.Manifests.{mod_name, dockerfile_key, kmm_key, kmm_labels}

unfoldable pub dockerfile : String → String
dockerfile ver =
    "ARG DTK_AUTO\nFROM ${DTK_AUTO} as builder\nARG KERNEL_VERSION\n"
    ++ "RUN wget -q https://s3-us-west-2.amazonaws.com/aws-efa-installer/aws-efa-installer-" ++ ver
    ++ ".tar.gz -O /tmp/aws-efa-installer-" ++ ver ++ ".tar.gz && \\\n"
    ++ "tar -xf /tmp/aws-efa-installer-" ++ ver
    ++ ".tar.gz -C /tmp && cd /tmp/aws-efa-installer && dnf install -y cmake && \\\n"
    ++ "rpm -i RPMS/RHEL8/x86_64/dkms-*.el8.noarch.rpm && "
    ++ "rpm -i RPMS/RHEL8/x86_64/efa-driver/efa-*.el8.x86_64.rpm\n\n# copy module\n"
    ++ "FROM registry.redhat.io/ubi8/ubi-minimal\n#FROM ${DTK_AUTO}\nARG KERNEL_VERSION\n"
    ++ "RUN microdnf install kmod\nRUN mkdir -p /opt/lib/modules/${KERNEL_VERSION}\n"
    ++ "RUN echo -e '#!/bin/sh\\nif [ $# -gt 1 -a \"$1\" = \"-r\" ]; then\\n"
    ++ "if ! /sbin/modprobe $@; then\\n/sbin/modprobe -d /opt $@\\nfi\\nelse\\n/sbin/modprobe $@\\nfi' "
    ++ "> /usr/local/sbin/modprobe  && chmod 755 /usr/local/sbin/modprobe\n"
    ++ "COPY --from=builder /lib/modules/${KERNEL_VERSION}/extra/efa.ko.xz "
    ++ "/opt/lib/modules/${KERNEL_VERSION}/\nRUN depmod -b /opt ${KERNEL_VERSION}"

abbrev major_part : List String → String
major_part [] = "[0-9]+"
major_part (major ∷ parts) = major

abbrev minor_part : List String → String
minor_part [] = "\\.[0-9]+"
minor_part (major ∷ []) = "\\.[0-9]+"
minor_part (major ∷ minor ∷ parts) = "\\." ++ minor

unfoldable pub kernel_regexp : String → String
kernel_regexp kernel_ver =
    let parts = split_dot kernel_ver in
    "^" ++ major_part parts ++ minor_part parts ++ ".*\\.x86_64$"

module _ (r : Reconciler EfaDriverSpec) (efa : EfaDriver) where
  unfoldable pub kernel_mapping : String → KernelMapping
  kernel_mapping kernel_ver = record {
    regexp = kernel_regexp kernel_ver;
    container_image =
        "image-registry.openshift-image-registry.svc:5000/openshift-kmm/" ++ efa.name ++ "-"
        ++ mod_name ++ "-kmm:linux-" ++ kernel_ver;
  }

  unfoldable pub node_selector : Labels
  node_selector = insert efa_present_label "true" (copy_into [] efa.spec.node_selector)

  unfoldable pub dockerfile_manifest : OwnerReference → ConfigMap
  dockerfile_manifest owner = record {
    meta = meta_at (dockerfile_key r efa) (kmm_labels r efa) owner;
    content = ("dockerfile", dockerfile efa.spec.aws_efa_installer_ver) ∷ [];
  }

  -- the keys of the map, in the order of the range loop
  abbrev kernel_versions : KernelVers → List String
  kernel_versions vers = r.range (map (λ entry. entry.0) vers)

  unfoldable pub kmm_manifest : KernelVers → OwnerReference → KmmModule
  kmm_manifest vers owner = record {
    meta = meta_at (kmm_key r efa) (kmm_labels r efa) owner;
    in_tree_module_to_remove = mod_name;
    module_name = mod_name;
    kernel_mappings = map kernel_mapping (kernel_versions vers);
    dockerfile_config_map = efa.name ++ "-" ++ mod_name ++ "-kmm-dockerfile";
    selector = node_selector;
  }
