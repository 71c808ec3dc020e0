-- ===== src/Startup/Watches.antt =====
-- Which objects the manager hears of: `Owns` in `SetupWithManager` asks for the events of a kind, and
-- the owner reference of an object says which resource is to be reconciled then.
pub mod Efa
pub mod Gdrdrv
use ocp_efa_operator.Prelude.{true, [], ◌∷◌, Has, ◌≡◌, refl}
use ocp_efa_operator.Api.Driver.{Driver}
use ocp_efa_operator.Api.Objects.{Object, OwnerReference, kind_of, meta_of}
use ocp_efa_operator.Controllers.Owned.{GroupVersionKind, owner_reference}
use ocp_efa_operator.Startup.{object, ControllerSetup}

-- The reference is to the resource of this kind, name and uid, as the one that controls the object:
-- `Owns` hears of no other owner.
abbrev pub IsController : {Spec : Type 0} → GroupVersionKind → Driver Spec → OwnerReference → Type 0
IsController gvk efa owner =
    (owner.controller ≡ true)
    × (owner.api_version ≡ gvk.group_version)
    × (owner.kind ≡ gvk.kind)
    × (owner.name ≡ efa.name)
    × (owner.uid ≡ efa.uid)

-- an event of this object brings the controller to the resource, and to no other
abbrev pub IsHeard :
    {Spec : Type 0} → ControllerSetup → GroupVersionKind → Driver Spec → Object → Type 0
IsHeard setup gvk efa o =
    ((owner : OwnerReference) × ((meta_of o).owner_references ≡ owner ∷ [])
      × IsController gvk efa owner)
    × Has (object (kind_of o)) setup.owns

-- the owner that `CreateCluster` builds is such a reference
pub owner_reference-IsController :
    {Spec : Type 0} (gvk : GroupVersionKind) (efa : Driver Spec)
    → IsController gvk efa (owner_reference efa gvk)
unfolding owner_reference
owner_reference-IsController gvk efa = (refl, refl, refl, refl, refl)
