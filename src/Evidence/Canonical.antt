-- ===== src/Evidence/Canonical.antt =====
-- rintel/provider_arch/canonical.py: reconciliation of admitted candidates.
pub mod Identity
pub mod Reconcile
pub mod Fates
pub mod Accounts
pub mod Agreement
