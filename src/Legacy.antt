-- ===== src/Legacy.antt =====
-- sassessment/legacy_logs: the assembly of a log into records, and what is derived from parsed ones.
pub mod Records
pub mod Outcome
pub mod Lifecycle
pub mod Loops
pub mod Patterns
pub mod Assembler
