-- ===== src/Protocol.antt =====
-- rintel/provider_protocol: what an untrusted provider process may send, and where its facts go.
pub mod Validation
pub mod Staging
