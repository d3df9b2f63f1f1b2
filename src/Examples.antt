-- ===== src/Examples.antt =====
-- Concrete inputs for the theorems: parameters that satisfy their laws, and runs of the code on them.
pub mod Addresses
pub mod Ranges
pub mod Allocation
pub mod Search
pub mod Storage
pub mod Endless
pub mod Pods
pub mod Leases
pub mod Checks
pub mod Canonical
pub mod Caches
pub mod Resources
pub mod Configuration
pub mod Attachments
pub mod Commands
pub mod Networks
pub mod Rounds
pub mod Records
pub mod Watches
