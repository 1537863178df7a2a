-- ===== src/Evidence.antt =====
-- Evidence: what providers claim, what the authority registry lets through, how admitted claims are
-- reconciled, and how a batch of them is published.
pub mod Contract
pub mod Registry
pub mod DefaultRegistry
pub mod Envelope
pub mod Wire
pub mod Candidate
pub mod Admission
pub mod Canonical
pub mod Batch
pub mod Publication
pub mod Alignment
pub mod Bridge
pub mod Query
pub mod Support
