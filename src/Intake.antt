-- ===== src/Intake.antt =====
-- sassessment/intake: registration of source batches and staging of archives.
pub mod Registration
pub mod Media
pub mod Records
pub mod Staging
