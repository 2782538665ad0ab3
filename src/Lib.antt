-- ===== src/Lib.antt =====
-- A verification library for metrka-core: publishing the Silver builds of datasets.
--
-- A Silver build turns one Bronze file of a dataset into tables. Its life goes through these parts of
-- the program, and each is a part of this library:
-- * `decide_silver_rebuild` compares the inputs with the latest builds and decides whether to build
--   (Silver.RebuildDecision, src/metrka_core/pipeline/silver/rebuild_decision.py);
-- * `PostgresSilverBuildStore` keeps the attempts and the materializations of builds
--   (Silver.BuildModels and Silver.BuildStore, src/metrka_core/pipeline/silver/build_models.py and
--   postgres_build_store.py);
-- * `decide_silver_publication` compares a successful build with the active publication: it either
--   reproduces it or asks for an approval (Silver.PublicationDecision,
--   src/metrka_core/pipeline/silver/publication_decision.py);
-- * a build that asks for an approval becomes a candidate, which a person approves or rejects
--   (Catalog.CandidateModels and Catalog.CandidateStore,
--   src/metrka_core/catalog/publication_candidate_models.py and
--   postgres_publication_candidate_store.py), and an approved candidate becomes a revision of the
--   dataset's publications (Catalog.PublicationModels and Catalog.PublicationStore,
--   src/metrka_core/catalog/publication_models.py and postgres_publication_store.py);
-- * `PostgresApprovedPublicationUnitOfWork.commit` does the last step in one transaction over the
--   candidates, the builds, the publications and the projection states (Silver.ApprovedPublication,
--   src/metrka_core/pipeline/silver/postgres_approved_publication_unit_of_work.py); the manifest
--   reader, the assets and the evidence are an interface there;
-- * before any of this, the engine gate decides whether the installed code may build at all, from the
--   policy of the run and the release that a person approved (Silver.EngineModels, Silver.EngineStore
--   and Silver.EnginePolicy, src/metrka_core/pipeline/silver/engine_models.py,
--   postgres_engine_store.py and engine_policy.py);
--
-- * `FileMarshal` keeps the registered source files, their Bronze artifacts and which file is promoted
--   for a period, each write with its audit event (Metadata.ArtifactPaths, Metadata.MarshalModels,
--   Metadata.MarshalStore and Metadata.FileMarshal, src/metrka_core/metadata/file_marshal_models.py,
--   postgres_file_marshal.py and file_marshal.py);
-- * a build that reproduces the active publication is counted as evidence for it
--   (Quality.VerificationModels and Quality.VerificationStore,
--   src/metrka_core/quality/publication_verification_models.py and
--   postgres_publication_verification_store.py);
-- * `PostgresSilverPublicationDecisionUnitOfWork.commit` finishes a build in one transaction: it
--   decides, marks the build as succeeded, promotes its file, and records a verification or registers a
--   candidate (Silver.DecisionUnit,
--   src/metrka_core/pipeline/silver/postgres_publication_decision_unit_of_work.py and
--   publication_decision_unit_of_work.py);
-- * the version of a build has a period and a partition value (Silver.VersionPeriod,
--   src/metrka_core/pipeline/silver/version_period.py and candidate_processing.py), and a publication
--   covers periods of years (Catalog.TemporalCoverage, src/metrka_core/catalog/temporal_coverage.py);
-- * the projections of the publications to files report their health (Catalog.ProjectionModels and
--   Catalog.ProjectionStore, src/metrka_core/catalog/publication_projection_models.py and
--   postgres_publication_projection_store.py);
-- * digests have two textual forms (Storage.Checksums, src/metrka_core/storage/checksums.py).
-- Prelude has what the parts share: Boolean tests on the native numbers (Tests), lists (Lists), the
-- rows that queries find or select after writes (Rows and Selections), Python and PostgreSQL text (Text), exceptions as
-- values (Result), dates (Time) and dates as text (Dates). Examples has concrete inputs and applies
-- the theorems to them.
--
-- State. A table is the list of its rows, and a store method is a function from its arguments and
-- the table to a `Result`: `ok` with the returned value and the new table, or `raise` with the
-- exception, after which the transaction leaves the old table. An UPDATE is `update` with its WHERE
-- clause and SET list, a SELECT is `find`, and an INSERT is refused by the constraints of
-- src/metrka_core/metadata/migrations/sql/0001_initial.sql: CHECK constraints, primary keys, unique
-- constraints and partial unique indexes.
--
-- Bounds. Counts and versions are natural numbers, without PostgreSQL's upper bound on an integer.
-- No definition uses fuel: every loop of the modelled code runs over a list. `json.dumps` with SHA-256
-- is a parameter, a function of the payload of a build signature; a clock is a parameter, the function
-- from the number of a reading to its time; and what pandas reads of a column is data.
--
-- Not modelled: foreign keys, so that a call that returns here is refused by the program if it names an
-- engine release, a build or a publication that is not stored; uuid columns as other than text; what two transactions see of each
-- other, since the advisory locks and row locks serialise them; the variable part of an exception's
-- message; the listings; and the parts of the program that read and write files, call the network or
-- render tables.
pub mod Prelude
pub mod Storage
pub mod Metadata
pub mod Catalog
pub mod Silver
pub mod Quality
pub mod Examples
