-- ===== src/Catalog.antt =====
-- The catalog package: what has been published, and what awaits a decision.
pub mod PublicationModels
pub mod PublicationStore
pub mod CandidateModels
pub mod CandidateStore
pub mod TemporalCoverage
pub mod ProjectionModels
pub mod ProjectionStore
