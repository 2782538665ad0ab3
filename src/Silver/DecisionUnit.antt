-- ===== src/Silver/DecisionUnit.antt =====
-- pipeline/silver/postgres_publication_decision_unit_of_work.py: one transaction over the builds, the
-- file marshal, the publications, the verifications and the candidates.
pub mod Commit
pub mod Outcome
use Prim.Native.Nat.{suc}
use metrka_core.Prelude.{
  ℕ, String, Bool, true, false, ◌&&◌, not, Option, none, some, List, [], ◌∷◌, str_eq,
}
use metrka_core.Prelude.Tests.{ltb, ◌==◌}
use metrka_core.Prelude.Text.{is_some}
use metrka_core.Prelude.Time.{Date, DateTime, is_aware}
use metrka_core.Prelude.Result.{
  Result, ok, raise, value_error, runtime_error, ◌>>=◌, ◌>>◌, raise_if, require_non_blank,
}
use metrka_core.Catalog.PublicationModels.{DatasetPublication, require_sha256}
use metrka_core.Catalog.PublicationStore.{Publications, find_active}
use metrka_core.Catalog.CandidateModels.{
  SilverPublicationChangeKind, none_changed, initial_publication, fingerprint_version_changed,
  fingerprint_algorithm_changed, logical_data_changed, schema_changed,
  logical_data_and_schema_changed, DatasetPublicationCandidateRequest, DatasetPublicationCandidate,
  check_candidate_request,
}
use metrka_core.Catalog.CandidateStore.{Candidates, register}
use metrka_core.Metadata.MarshalModels.{Meta, MetaValue, text}
use metrka_core.Metadata.FileMarshal.{Marshal, promote, set_key, value_of}
use metrka_core.Quality.VerificationModels.{
  SilverPublicationVerificationRequest, SilverPublicationVerification, check_verification_request,
}
use metrka_core.Quality.VerificationStore.{Verifications, record_verification}
use metrka_core.Silver.BuildModels.{SilverBuild}
use metrka_core.Silver.BuildStore.{BuildTables, Success, mark_succeeded}
use metrka_core.Silver.PublicationDecision.{
  SilverDatasetFingerprint, SilverPublicationDecision, SilverPublicationDecisionStatus,
  verified_equivalent, awaiting_approval, is_equivalent, decide_silver_publication,
}

pub record SilverPublicationDecisionCommand : Type 0 where
  pub dataset_id : String
  pub bronze_file_id : String
  pub silver_build_id : String
  pub engine_hash : String
  pub quality_config_hash : String
  pub version_period : Date
  pub partition_key : String
  pub partition_value : String
  pub manifest_path : String
  pub output_hash : String
  pub output_file_count : ℕ
  pub output_byte_count : ℕ
  pub completed_at : DateTime
  pub fingerprint : SilverDatasetFingerprint
  pub marshal_meta : Meta

pub record SilverPublicationDecisionResult : Type 0 where
  pub completed_build : SilverBuild
  pub decision : SilverPublicationDecision
  pub verification : Option SilverPublicationVerification
  pub candidate : Option DatasetPublicationCandidate

-- `SilverPublicationDecisionCommand.__post_init__`; a byte count is a natural number here.
unfoldable pub check_command : SilverPublicationDecisionCommand → Result (Unit {0})
unfolding require_non_blank
check_command c = do
  require_non_blank (
      ("dataset_id", c.dataset_id)
      ∷ ("bronze_file_id", c.bronze_file_id)
      ∷ ("silver_build_id", c.silver_build_id)
      ∷ ("partition_key", c.partition_key)
      ∷ ("partition_value", c.partition_value)
      ∷ ("manifest_path", c.manifest_path)
      ∷ [])
  require_sha256 "engine_hash" c.engine_hash
  require_sha256 "quality_config_hash" c.quality_config_hash
  require_sha256 "output_hash" c.output_hash
  raise_if (ltb c.output_file_count 1) (value_error "output_file_count must be positive")
  raise_if (not (is_aware c.completed_at)) (value_error "completed_at must be timezone-aware")

-- `SilverPublicationDecisionResult.__post_init__`
unfoldable pub check_result : SilverPublicationDecisionResult → Result (Unit {0})
check_result r = do
  raise_if (is_equivalent r.decision.status && not (is_some r.verification))
      (value_error "Equivalent build requires verification")
  raise_if (is_equivalent r.decision.status && is_some r.candidate)
      (value_error "Equivalent build cannot create a candidate")
  raise_if (not (is_equivalent r.decision.status) && not (is_some r.candidate))
      (value_error "Changed build requires a candidate")
  raise_if (not (is_equivalent r.decision.status) && is_some r.verification)
      (value_error "Changed build cannot create verification")

-- The state that the transaction reads and writes; `issued` counts the candidate identifiers drawn.
pub record DecisionSystem : Type 0 where
  pub builds : BuildTables
  pub marshal : Marshal
  pub publications : Publications
  pub verifications : Verifications
  pub candidates : Candidates
  pub issued : ℕ

-- `decision.status.value`
abbrev pub status_value : SilverPublicationDecisionStatus → String
status_value verified_equivalent = "verified_equivalent"
status_value awaiting_approval = "awaiting_approval"

-- `decision.change_kind.value`
abbrev pub change_kind_value : SilverPublicationChangeKind → String
change_kind_value none_changed = "none"
change_kind_value initial_publication = "initial_publication"
change_kind_value fingerprint_version_changed = "fingerprint_version_changed"
change_kind_value fingerprint_algorithm_changed = "fingerprint_algorithm_changed"
change_kind_value logical_data_changed = "logical_data_changed"
change_kind_value schema_changed = "schema_changed"
change_kind_value logical_data_and_schema_changed = "logical_data_and_schema_changed"

-- `marshal_meta.update({…})`
unfoldable pub decision_meta : SilverPublicationDecision → Meta → Meta
unfolding set_key
decision_meta d meta = set_key "baseline_publication_id" (value_of d.baseline_publication_id) (
    set_key "publication_change_kind" (text (change_kind_value d.change_kind))
      (set_key "publication_decision_status" (text (status_value d.status)) meta))

-- The arguments of `mark_succeeded`.
unfoldable pub success_of : SilverPublicationDecisionCommand → Success
success_of c = record {
  version_period = some c.version_period;
  partition_key = some c.partition_key;
  partition_value = some c.partition_value;
  manifest_path = c.manifest_path;
  output_hash = some c.output_hash;
  output_file_count = c.output_file_count;
  output_byte_count = c.output_byte_count;
  fingerprint_version = c.fingerprint.fingerprint_version;
  logical_hash_algorithm = c.fingerprint.logical_hash_algorithm;
  schema_hash_algorithm = c.fingerprint.schema_hash_algorithm;
  logical_data_hash = c.fingerprint.logical_data_hash;
  schema_hash = c.fingerprint.schema_hash;
  completed_at = c.completed_at;
}

unfoldable pub verification_request :
    SilverPublicationDecisionCommand → DatasetPublication → SilverPublicationVerificationRequest
verification_request c p = record {
  publication_id = p.publication_id;
  engine_hash = c.engine_hash;
  logical_hash_algorithm = c.fingerprint.logical_hash_algorithm;
  schema_hash_algorithm = c.fingerprint.schema_hash_algorithm;
  silver_build_id = c.silver_build_id;
  quality_config_hash = c.quality_config_hash;
  verified_at = c.completed_at;
}

unfoldable pub candidate_request :
    SilverPublicationDecisionCommand
    → SilverPublicationDecision
    → String
    → DatasetPublicationCandidateRequest
candidate_request c d candidate_id = record {
  candidate_id = candidate_id;
  dataset_id = c.dataset_id;
  version_period = c.version_period;
  partition_key = c.partition_key;
  partition_value = c.partition_value;
  silver_build_id = c.silver_build_id;
  baseline_publication_id = d.baseline_publication_id;
  change_kind = d.change_kind;
  fingerprint_version = c.fingerprint.fingerprint_version;
  logical_hash_algorithm = c.fingerprint.logical_hash_algorithm;
  schema_hash_algorithm = c.fingerprint.schema_hash_algorithm;
  logical_data_hash = c.fingerprint.logical_data_hash;
  schema_hash = c.fingerprint.schema_hash;
  requested_at = c.completed_at;
}

abbrev pub UnitResult : Type 0
UnitResult = Result (SilverPublicationDecisionResult × DecisionSystem)

abbrev pub require_baseline : Option DatasetPublication → Result DatasetPublication
require_baseline none =
    raise (runtime_error "Equivalent publication decision requires a baseline publication")
require_baseline (some p) = ok p

-- The branch of an equivalent build.
unfoldable pub verify_baseline :
    SilverPublicationDecisionCommand
    → SilverPublicationDecision
    → SilverBuild
    → Option DatasetPublication
    → DecisionSystem
    → UnitResult
unfolding verification_request check_verification_request record_verification check_result
verify_baseline c d build active s = do
  baseline ← require_baseline active
  check_verification_request (verification_request c baseline)
  recorded ← record_verification (verification_request c baseline) s.verifications
  let result : SilverPublicationDecisionResult = record {
    completed_build = build;
    decision = d;
    verification = some recorded.0;
    candidate = none;
  }
  check_result result
  ok (result, record s { verifications = recorded.1 })

module _ (now_utc : ℕ → DateTime) (new_publication_candidate_id : ℕ → String) where
  -- The branch of a changed build.
  unfoldable pub propose_candidate :
      SilverPublicationDecisionCommand
      → SilverPublicationDecision
      → SilverBuild
      → DecisionSystem
      → UnitResult
  unfolding candidate_request check_candidate_request register check_result
  propose_candidate c d build s =
      let request = candidate_request c d (new_publication_candidate_id s.issued) in
      do
        check_candidate_request request
        registered ← register request s.candidates
        let result : SilverPublicationDecisionResult = record {
          completed_build = build;
          decision = d;
          verification = none;
          candidate = some registered.0;
        }
        check_result result
        ok (result, record s { candidates = registered.1; issued = suc s.issued })

  abbrev pub conclude :
      SilverPublicationDecisionStatus
      → SilverPublicationDecisionCommand
      → SilverPublicationDecision
      → SilverBuild
      → Option DatasetPublication
      → DecisionSystem
      → UnitResult
  conclude verified_equivalent c d build active s = verify_baseline c d build active s
  conclude awaiting_approval c d build active s = propose_candidate c d build s

  -- The dataset's advisory lock makes the calls consecutive with those of `publish`.
  unfoldable pub commit_decision : SilverPublicationDecisionCommand → DecisionSystem → UnitResult
  unfolding find_active decide_silver_publication mark_succeeded success_of promote decision_meta
      verify_baseline propose_candidate
  commit_decision c s = do
    active ← find_active c.dataset_id c.partition_value s.publications
    decision ← decide_silver_publication active c.fingerprint
    completed ← mark_succeeded c.silver_build_id (success_of c) s.builds
    marshal ←
        promote now_utc c.bronze_file_id c.version_period (decision_meta decision c.marshal_meta)
          s.marshal
    conclude decision.status c decision completed.0 active
        (record s { builds = completed.1; marshal = marshal })
