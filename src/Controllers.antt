-- ===== src/Controllers.antt =====
-- controllers/: the two reconcilers. `Action` and `Exec` are the monads in which they are written,
-- `Owned` the way in which both make sure of an object and remove it, `Strings` what they use of Go's
-- strings, `Status` and `Reconcile` the loop that both share word for word, `Efa` and `Gdrdrv` what is
-- their own, `Samples` values on which they run.
pub mod Action
pub mod Strings
pub mod Owned
pub mod Exec
pub mod Status
pub mod Reconcile
pub mod Efa
pub mod Gdrdrv
pub mod Samples
