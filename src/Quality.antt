-- ===== src/Quality.antt =====
-- quality/: the evidence that builds reproduce publications.
pub mod VerificationModels
pub mod VerificationStore
