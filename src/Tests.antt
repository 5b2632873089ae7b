-- ===== src/Tests.antt =====
-- Examples: the theorems at one signer with one attempt.
pub mod Data
pub mod Accepted
pub mod Journal
pub mod Coordinator
pub mod Queue
pub mod NonceSync
pub mod Released
pub mod Chain
pub mod Node
