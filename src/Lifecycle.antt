-- ===== src/Lifecycle.antt =====
-- rintel/design_lifecycle: a design change on its way from a plan to its close, with its gates.
pub mod Models
pub mod Values
pub mod Context
pub mod Comparison
pub mod DesignDrc
pub mod Gates
pub mod Adoption
pub mod Commands
pub mod Receipts
pub mod Repository
