-- ===== src/Graph.antt =====
-- sassessment/graph: the graph document, the named predicates and the reachability check.
pub mod Model
pub mod Reach
pub mod Validate
pub mod Load
pub mod Predicates
