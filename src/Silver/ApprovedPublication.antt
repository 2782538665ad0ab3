-- ===== src/Silver/ApprovedPublication.antt =====
-- pipeline/silver/postgres_approved_publication_unit_of_work.py: one transaction over the candidates,
-- the builds, the publications, the projection states and the other stores, which are an interface here.
pub mod Checks
pub mod Commit
pub mod Inspection
pub mod Failure
pub mod Ready
pub mod Steps
pub mod Success
use metrka_core.Prelude.{ℕ, String, Bool, true, false, ◌&&◌, not, Option, none, some, str_eq}
use metrka_core.Prelude.Tests.{◌==◌}
use metrka_core.Prelude.Text.{is_blank, opt_eq}
use metrka_core.Prelude.Time.{Date, DateTime, date_eq}
use metrka_core.Prelude.Result.{
  Result, ok, raise, value_error, runtime_error, key_error, ◌>>=◌, ◌>>◌, raise_if,
}
use metrka_core.Catalog.PublicationModels.{
  DatasetPublicationRequest, DatasetPublication, check_publication_request,
}
use metrka_core.Catalog.PublicationStore.{Publications, find_current, find_active, publish, id_of}
use metrka_core.Catalog.PublicationStore.{get_by_id as get_publication}
use metrka_core.Catalog.CandidateModels.{
  DatasetPublicationCandidate, DatasetPublicationCandidateStatus, approved, published,
}
use metrka_core.Catalog.CandidateStore.{Candidates, get_by_id_for_update, mark_published}
use metrka_core.Catalog.ProjectionStore.{ProjectionStates, mark_pending}
use metrka_core.Silver.BuildModels.{SilverBuild, is_succeeded}
use metrka_core.Silver.BuildStore.{BuildTables}
use metrka_core.Silver.BuildStore.{get_by_id as get_build}

pub record ApprovedPublicationCommand : Type 0 where
  pub candidate_id : String
  pub published_at : DateTime

-- The collaborators that the transaction calls besides the four stores, over their own state `S`:
-- manifests `M`, requested assets `A`, integrity batches `B` and registered assets `R`.
pub record Collaborators (S M A B R : Type 0) : Type 0 where
  pub read_manifest : String → Result M
  pub publication_assets_from_manifest : M → Result A
  pub inspect : A → DateTime → Result B
  pub passed : B → Bool
  pub insert_batch : B → S → Result (String × S)
  -- The candidate, the build, the pipeline run and the batch.
  pub insert_attempt : String → String → String → String → S → Result S
  pub new_publication_id : S → String × S
  pub validate_publication_manifest : DatasetPublication → M → Result (Unit {0})
  pub register_assets : String → A → Publications → S → Result (R × S)
  pub list_for_publication : String → Publications → S → R
  pub has_assets : R → Bool
  pub link_batch : String → String → S → Result S

pub record System (S : Type 0) : Type 0 where
  pub candidates : Candidates
  pub builds : BuildTables
  pub publications : Publications
  pub projections : ProjectionStates
  pub others : S

pub record ApprovedPublicationResult (R : Type 0) : Type 0 where
  pub candidate : DatasetPublicationCandidate
  pub publication : DatasetPublication
  pub current_publication : DatasetPublication
  pub publication_assets : R

-- `build is None`
abbrev pub require_build : Option SilverBuild → Result SilverBuild
require_build none =
    raise (runtime_error "Publication candidate references an unknown Silver build")
require_build (some build) = ok build

abbrev pub opt_date_eq : Date → Option Date → Bool
opt_date_eq a none = false
opt_date_eq a (some b) = date_eq a b

-- The loop over `expected_values`.
unfoldable pub matches_build : DatasetPublicationCandidate → SilverBuild → Bool
matches_build c b =
    str_eq c.silver_build_id b.silver_build_id
    && (str_eq c.dataset_id b.dataset_id
        && (opt_date_eq c.version_period b.version_period
            && (opt_eq (some c.partition_key) b.partition_key
                && (opt_eq (some c.partition_value) b.partition_value
                    && (c.fingerprint_version == b.fingerprint_version
                        && (str_eq c.logical_hash_algorithm b.logical_hash_algorithm
                            && (str_eq c.schema_hash_algorithm b.schema_hash_algorithm
                                && (opt_eq (some c.logical_data_hash) b.logical_data_hash
                                    && opt_eq (some c.schema_hash) b.schema_hash))))))))

-- The manifest path, which a successful build must have.
abbrev pub require_path : Option String → Result String
require_path none = raise (runtime_error "Successful Silver build contains no manifest path")
require_path (some path) = do
  raise_if (is_blank path) (runtime_error "Successful Silver build contains no manifest path")
  ok path

-- `_validate_candidate_build`
unfoldable pub validate_candidate_build : DatasetPublicationCandidate → SilverBuild → Result String
unfolding matches_build
validate_candidate_build c b = do
  raise_if (not (is_succeeded b.status))
      (runtime_error "Only a successful Silver build can be published")
  raise_if (not (matches_build c b))
      (runtime_error "Publication candidate does not match its Silver build field")
  require_path b.manifest_path

-- `_validate_baseline`
unfoldable pub validate_baseline : DatasetPublicationCandidate → Publications → Result (Unit {0})
validate_baseline c publications =
    find_active c.dataset_id c.partition_value publications >>= λ active.
    raise_if (not (opt_eq (id_of active) c.baseline_publication_id))
      (runtime_error "Publication candidate is stale")

-- The request that the transaction makes.
unfoldable pub request_for :
    String
    → DatasetPublicationCandidate
    → SilverBuild
    → String
    → DateTime
    → DatasetPublicationRequest
request_for publication_id c b manifest_path published_at = record {
  publication_id = publication_id;
  pipeline_run_id = b.pipeline_run_id;
  dataset_id = c.dataset_id;
  version_period = c.version_period;
  partition_key = c.partition_key;
  partition_value = c.partition_value;
  silver_build_id = c.silver_build_id;
  engine_release_id = b.engine_release_id;
  processing_config_hash = b.processing_config_hash;
  quality_config_hash = b.quality_config_hash;
  fingerprint_version = c.fingerprint_version;
  logical_hash_algorithm = c.logical_hash_algorithm;
  schema_hash_algorithm = c.schema_hash_algorithm;
  logical_data_hash = c.logical_data_hash;
  schema_hash = c.schema_hash;
  manifest_path = manifest_path;
  published_at = published_at;
}

abbrev pub require_current : Option DatasetPublication → Result DatasetPublication
require_current none =
    raise (runtime_error "Publishing a candidate produced no current dataset publication")
require_current (some current) = ok current

abbrev pub require_own_current : Option DatasetPublication → Result DatasetPublication
require_own_current none =
    raise (runtime_error "Published candidate belongs to a dataset without a current publication")
require_own_current (some current) = ok current

abbrev pub require_publication : Option DatasetPublication → Result DatasetPublication
require_publication none =
    raise (runtime_error "Published candidate references an unknown publication")
require_publication (some publication) = ok publication

abbrev pub require_id : Option String → Result String
require_id none = raise (runtime_error "Published candidate contains no publication_id")
require_id (some publication_id) = ok publication_id

module _ {S M A B R : Type 0} (via : Collaborators S M A B R) where
  -- The outer result is the transaction's, the inner one what is raised or returned after it.
  abbrev pub CommitResult : Type 0
  CommitResult = Result (Result (ApprovedPublicationResult R) × System S)

  -- The calls after `publish`.
  unfoldable pub record_publication :
      ApprovedPublicationCommand
      → DatasetPublicationCandidate
      → M
      → A
      → String
      → DatasetPublication
      → System S
      → CommitResult
  record_publication command c manifest assets batch_id publication s = do
    via.validate_publication_manifest publication manifest
    registered ← via.register_assets publication.publication_id assets s.publications s.others
    linked ← via.link_batch publication.publication_id batch_id registered.1
    marked ← mark_published c.candidate_id publication.publication_id s.candidates
    found ← find_current publication.dataset_id s.publications
    current ← require_current found
    pending ←
        mark_pending publication.dataset_id current.publication_id publication.publication_id
          command.published_at s.projections
    ok (
      ok (record {
        candidate = marked.0;
        publication = publication;
        current_publication = current;
        publication_assets = registered.0;
      }),
      record s { candidates = marked.1; projections = pending.1; others = linked },
    )

  -- The publication of a build whose files passed the inspection.
  unfoldable pub publish_verified :
      ApprovedPublicationCommand
      → DatasetPublicationCandidate
      → SilverBuild
      → String
      → M
      → A
      → String
      → System S
      → CommitResult
  publish_verified command c build path manifest assets batch_id s =
      let fresh = via.new_publication_id s.others in
      let request = request_for fresh.0 c build path command.published_at in
      do
        check_publication_request request
        done ← publish request s.publications
        raise_if (not (str_eq done.0.publication_id fresh.0))
            (runtime_error "Publication store returned a different publication_id")
        record_publication command c manifest assets batch_id done.0
            (record s { publications = done.1; others = fresh.1 })

  -- A failed inspection keeps its evidence and is raised after the transaction.
  abbrev pub after_inspection :
      Bool
      → ApprovedPublicationCommand
      → DatasetPublicationCandidate
      → SilverBuild
      → String
      → M
      → A
      → String
      → System S
      → CommitResult
  after_inspection false command c build path manifest assets batch_id s =
      ok (raise (runtime_error "Publication asset integrity verification failed"), s)
  after_inspection true command c build path manifest assets batch_id s =
      publish_verified command c build path manifest assets batch_id s

  -- The commit of an approved candidate.
  unfoldable pub publish_candidate :
      ApprovedPublicationCommand → DatasetPublicationCandidate → System S → CommitResult
  publish_candidate command c s = do
    found ← get_build c.silver_build_id s.builds
    build ← require_build found
    path ← validate_candidate_build c build
    validate_baseline c s.publications
    manifest ← via.read_manifest path
    assets ← via.publication_assets_from_manifest manifest
    batch ← via.inspect assets command.published_at
    inserted ← via.insert_batch batch s.others
    others ←
        via.insert_attempt c.candidate_id c.silver_build_id build.pipeline_run_id inserted.0
          inserted.1
    after_inspection (via.passed batch) command c build path manifest assets inserted.0
        (record s { others = others })

  -- `_existing_result`
  unfoldable pub existing_result :
      DatasetPublicationCandidate → System S → Result (ApprovedPublicationResult R)
  existing_result c s = do
    publication_id ← require_id c.publication_id
    found ← get_publication publication_id s.publications
    publication ← require_publication found
    raise_if
        (not (via.has_assets (via.list_for_publication publication_id s.publications s.others)))
        (runtime_error "Published candidate has no registered assets")
    found_current ← find_current publication.dataset_id s.publications
    current ← require_own_current found_current
    ok (record {
      candidate = c;
      publication = publication;
      current_publication = current;
      publication_assets = via.list_for_publication publication_id s.publications s.others;
    })

  abbrev pub commit_status :
      DatasetPublicationCandidateStatus
      → ApprovedPublicationCommand
      → DatasetPublicationCandidate
      → System S
      → CommitResult
  commit_status published command c s = existing_result c s >>= λ result. ok (ok result, s)
  commit_status approved command c s = publish_candidate command c s
  commit_status _ command c s =
      raise (runtime_error "Publication candidate must be approved before publishing")

  abbrev pub commit_found :
      ApprovedPublicationCommand → System S → Option DatasetPublicationCandidate → CommitResult
  commit_found command s none = raise (key_error "Unknown publication candidate")
  commit_found command s (some c) = commit_status c.status command c s

  unfoldable pub commit_approved : ApprovedPublicationCommand → System S → CommitResult
  commit_approved command s = get_by_id_for_update command.candidate_id s.candidates >>= λ found.
      commit_found command s found
