-- ===== src/Mesh.antt =====
-- The admission of sequences, of internal/mesh/scheduler.go.
pub mod State
pub mod Reconcile
pub mod Admit
pub mod Evidence
pub mod Bindings
pub mod Incarnations
pub mod Finish
pub mod Capacity
pub mod Lookup
pub mod Reserved
pub mod Admission
pub mod Ledger
pub mod Balance
pub mod Retained
pub mod Interleaving
pub mod Accounting
pub mod Poison
pub mod Charged
pub mod Session
mod Tests
