-- ===== src/Controllers/Efa.antt =====
-- controllers/efadriver_controller.go, the part that is the EFA reconciler's own: what it reads of
-- the nodes, the manifests that it writes, and the two functions that create and delete them.
pub mod Nodes
pub mod Manifests
pub mod Kmm
pub mod DevicePlugin
pub mod Create
pub mod Delete
pub mod Loop
pub mod Footprint
pub mod Creation
pub mod Completeness
pub mod Cleanup
pub mod RoundTrip
pub mod Provision
pub mod Settles
pub mod Removal
pub mod Needed
pub mod LifeCycle
pub mod Beside
pub mod Ready
pub mod Faults
pub mod Labels
