-- ===== src/Agent.antt =====
-- sassessment/opencode_adapter/envelope.py and the agent nodes of graph/engine.py.
pub mod Blocks
pub mod Envelope
pub mod Retry
pub mod Cli
