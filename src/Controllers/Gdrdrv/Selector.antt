-- ===== src/Controllers/Gdrdrv/Selector.antt =====
-- Which nodes and kernels a `Module` of the GDRCOPY reconciler is for.
use Prim.Native.String.{String, ◌++◌}
use ocp_efa_operator.Prelude.{true, some, [], ◌∷◌, ◌≡◌, refl, ap, ◌∙◌, lookup, lookup-insert}
use ocp_efa_operator.Api.Driver.{GdrdrvDriver, GdrdrvDriverSpec}
use ocp_efa_operator.Controllers.Owned.{Reconciler}
use ocp_efa_operator.Controllers.Strings.{split_dot}
use ocp_efa_operator.Controllers.Strings.Split.{is_dotless, split_dot-join, split_dot-dotless}
use ocp_efa_operator.Controllers.Efa.Nodes.{kernel_version}
use ocp_efa_operator.Controllers.Gdrdrv.Nodes.{
  cuda_major_label, cuda_minor_label, cuda_rev_label, cuda_version,
}
use ocp_efa_operator.Controllers.Gdrdrv.Manifests.{gpu_present_label}
use ocp_efa_operator.Controllers.Gdrdrv.Kmm.{node_selector, kernel_regexp}

split_dot-cuda_version :
    (major minor rev : String)
    → is_dotless major ≡ true
    → is_dotless minor ≡ true
    → is_dotless rev ≡ true
    → split_dot (cuda_version major minor rev) ≡ major ∷ minor ∷ rev ∷ []
split_dot-cuda_version major minor rev h k l =
    split_dot-join major (minor ++ "." ++ rev) h
    ∙ ap (λ parts. major ∷ parts)
        (split_dot-join minor rev k ∙ ap (λ parts. minor ∷ parts) (split_dot-dotless rev l))

-- The nodes that a `Module` selects are those with a GPU and with the three labels that its driver
-- version was put together from, if these labels hold no dot.
pub node_selector-cuda_version :
    (r : Reconciler GdrdrvDriverSpec) (efa : GdrdrvDriver) (major minor rev : String)
    → is_dotless major ≡ true
    → is_dotless minor ≡ true
    → is_dotless rev ≡ true
    → (lookup cuda_major_label (node_selector r efa (cuda_version major minor rev)) ≡ some major)
      × (lookup cuda_minor_label (node_selector r efa (cuda_version major minor rev)) ≡ some minor)
      × (lookup cuda_rev_label (node_selector r efa (cuda_version major minor rev)) ≡ some rev)
      × (lookup gpu_present_label (node_selector r efa (cuda_version major minor rev))
          ≡ some "true")
unfolding node_selector
node_selector-cuda_version r efa major minor rev h k l =
    rw (split_dot-cuda_version major minor rev h k l) (
      rw (lookup-insert, lookup-insert, lookup-insert) refl,
      rw (lookup-insert, lookup-insert) refl,
      rw lookup-insert refl,
      rw (lookup-insert, lookup-insert, lookup-insert, lookup-insert) refl,
    )

-- The pattern of a kernel mapping is, for a version that was put together from two labels without a
-- dot, the two parts with an escaped dot between them, then anything, then `.x86_64`.
pub kernel_regexp-kernel_version :
    (major minor : String)
    → is_dotless major ≡ true
    → is_dotless minor ≡ true
    → kernel_regexp (kernel_version major minor)
      ≡ "^" ++ major ++ ("\\." ++ minor) ++ ".*\\.x86_64$"
unfolding kernel_regexp
kernel_regexp-kernel_version major minor h k =
    rw (split_dot-join major minor h, split_dot-dotless minor k) refl
