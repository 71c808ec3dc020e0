-- ===== src/Plugins.antt =====
-- cmd/: the two kubelet device plugins.
pub mod Text
pub mod Decimal
pub mod Path
pub mod System
pub mod Ids
pub mod Server
pub mod Loop
pub mod Watch
pub mod Efa
pub mod Gdrdrv
mod Samples
