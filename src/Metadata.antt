-- ===== src/Metadata.antt =====
-- metadata/: the lifecycle of the source files.
pub mod ArtifactPaths
pub mod MarshalModels
pub mod MarshalStore
pub mod FileMarshal
