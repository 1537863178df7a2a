-- ===== src/Examples.antt =====
-- Concrete inputs, at which the theorems are applied and the definitions run.
mod Masking
mod Samples
mod Admitting
mod Reconciling
mod Publishing
mod Aligning
mod Receiving
mod Running
mod Supporting
mod Changing
mod Locating
