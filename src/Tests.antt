-- ===== src/Tests.antt =====
-- Runs of the modelled code of src/ on concrete inputs, with concrete crates.
pub mod Fixtures
pub mod Peers
pub mod Builder
pub mod Client
pub mod Execute
pub mod Stats
pub mod Body
pub mod Request
pub mod Response
pub mod Limits
pub mod Delivery
pub mod Tasks
pub mod Provider
