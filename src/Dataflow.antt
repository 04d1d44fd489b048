-- ===== src/Dataflow.antt =====
-- Solvers of crates/cfglib/src/dataflow: their bit rows, their worklist and the node solver.
pub mod Bits
pub mod Worklist
pub mod Solver
pub mod Blocks
mod Tests
