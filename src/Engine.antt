-- ===== src/Engine.antt =====
-- sassessment/graph/engine.py: selection, execution, routing and recovery of the graph engine.
pub mod Env
pub mod Select
pub mod Route
pub mod Execute
pub mod Loop
pub mod Recover
pub mod Completion
