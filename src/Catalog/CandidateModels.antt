-- ===== src/Catalog/CandidateModels.antt =====
-- catalog/publication_candidate_models.py: a proposed publication and its lifecycle.
use metrka_core.Prelude.{ℕ, String, not, Option, [], ◌∷◌}
use metrka_core.Prelude.Tests.{ltb}
use metrka_core.Prelude.Text.{is_some}
use metrka_core.Prelude.Time.{Date, DateTime, is_aware}
use metrka_core.Prelude.Result.{Result, raise, value_error, ◌>>◌, raise_if, require_non_blank}
use metrka_core.Catalog.PublicationModels.{require_sha256}

pub data SilverPublicationChangeKind : Type 0 where
  none_changed initial_publication fingerprint_version_changed fingerprint_algorithm_changed
        logical_data_changed schema_changed logical_data_and_schema_changed :
      SilverPublicationChangeKind

-- `a is b`
unfoldable pub SilverPublicationChangeKind-discrete : Discrete SilverPublicationChangeKind
SilverPublicationChangeKind-discrete = hlevel

pub data DatasetPublicationCandidateStatus : Type 0 where
  awaiting_approval approved rejected published : DatasetPublicationCandidateStatus

pub record DatasetPublicationCandidateRequest : Type 0 where
  pub candidate_id : String
  pub dataset_id : String
  pub version_period : Date
  pub partition_key : String
  pub partition_value : String
  pub silver_build_id : String
  pub baseline_publication_id : Option String
  pub change_kind : SilverPublicationChangeKind
  pub fingerprint_version : ℕ
  pub logical_hash_algorithm : String
  pub schema_hash_algorithm : String
  pub logical_data_hash : String
  pub schema_hash : String
  pub requested_at : DateTime

pub record DatasetPublicationCandidate : Type 0 where
  pub candidate_id : String
  pub dataset_id : String
  pub version_period : Date
  pub partition_key : String
  pub partition_value : String
  pub silver_build_id : String
  pub baseline_publication_id : Option String
  pub change_kind : SilverPublicationChangeKind
  pub status : DatasetPublicationCandidateStatus
  pub fingerprint_version : ℕ
  pub logical_hash_algorithm : String
  pub schema_hash_algorithm : String
  pub logical_data_hash : String
  pub schema_hash : String
  pub requested_at : DateTime
  pub approved_at : Option DateTime
  pub approved_by : Option String
  pub rejected_at : Option DateTime
  pub rejected_by : Option String
  pub rejection_reason : Option String
  pub publication_id : Option String

-- The tests on `change_kind` and `baseline_publication_id`.
unfoldable pub check_change : SilverPublicationChangeKind → Option String → Result (Unit {0})
check_change none_changed baseline =
    raise (value_error "A publication candidate must describe what changed")
check_change initial_publication baseline =
    raise_if (is_some baseline)
      (value_error "Initial publication cannot reference a baseline publication")
check_change _ baseline =
    raise_if (not (is_some baseline))
      (value_error "Changed publication candidate requires a baseline publication")

-- `DatasetPublicationCandidateRequest.__post_init__`
unfoldable pub check_candidate_request : DatasetPublicationCandidateRequest → Result (Unit {0})
unfolding require_non_blank check_change
check_candidate_request r = do
  require_non_blank (
      ("candidate_id", r.candidate_id)
      ∷ ("dataset_id", r.dataset_id)
      ∷ ("partition_key", r.partition_key)
      ∷ ("partition_value", r.partition_value)
      ∷ ("silver_build_id", r.silver_build_id)
      ∷ ("logical_hash_algorithm", r.logical_hash_algorithm)
      ∷ ("schema_hash_algorithm", r.schema_hash_algorithm)
      ∷ [])
  check_change r.change_kind r.baseline_publication_id
  raise_if (ltb r.fingerprint_version 1) (value_error "fingerprint_version must be positive")
  require_sha256 "logical_data_hash" r.logical_data_hash
  require_sha256 "schema_hash" r.schema_hash
  raise_if (not (is_aware r.requested_at)) (value_error "requested_at must be timezone-aware")
