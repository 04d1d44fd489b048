-- ===== src/Store.antt =====
-- The graph store of crates/cfglib/src/graph/store.rs and the modules below it.
pub mod LiveSet
pub mod Chains
pub mod Graph
pub mod Walk
pub mod Invariant
pub mod Started
pub mod Adjacent
pub mod Append
pub mod Retire
pub mod Isolate
pub mod Degree
pub mod Drain
pub mod Listing
pub mod Contents
pub mod Found
pub mod Ends
pub mod Neighbors
pub mod Viewed
pub mod Renumbering
mod Tests
pub mod Scenario
