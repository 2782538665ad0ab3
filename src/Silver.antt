-- ===== src/Silver.antt =====
-- The Silver stage of the pipeline: builds, rebuild decisions and publication decisions.
pub mod BuildModels
pub mod BuildStore
pub mod RebuildDecision
pub mod PublicationDecision
pub mod EngineModels
pub mod EngineStore
pub mod EnginePolicy
pub mod ApprovedPublication
pub mod DecisionUnit
pub mod VersionPeriod
