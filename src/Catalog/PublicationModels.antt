-- ===== src/Catalog/PublicationModels.antt =====
-- catalog/publication_models.py: a request to publish, a published revision, and the checks that
-- their constructors make.
use metrka_core.Prelude.{ℕ, String, Bool, ◌&&◌, not, Option, List, [], ◌∷◌}
use metrka_core.Prelude.Tests.{ltb, ◌==◌}
use metrka_core.Prelude.Text.{str_len, is_blank}
use metrka_core.Prelude.Time.{Date, DateTime, is_aware}
use metrka_core.Prelude.Result.{Result, value_error, ◌>>◌, raise_if, require_non_blank}

pub record DatasetPublicationRequest : Type 0 where
  pub publication_id : String
  pub pipeline_run_id : String
  pub dataset_id : String
  pub version_period : Date
  pub partition_key : String
  pub partition_value : String
  pub silver_build_id : String
  pub engine_release_id : String
  pub processing_config_hash : String
  pub quality_config_hash : String
  pub fingerprint_version : ℕ
  pub logical_hash_algorithm : String
  pub schema_hash_algorithm : String
  pub logical_data_hash : String
  pub schema_hash : String
  pub manifest_path : String
  pub published_at : DateTime

pub record DatasetPublication : Type 0 where
  pub publication_id : String
  pub pipeline_run_id : String
  pub dataset_id : String
  pub version_period : Date
  pub partition_key : String
  pub partition_value : String
  pub revision : ℕ
  pub silver_build_id : String
  pub engine_release_id : String
  pub processing_config_hash : String
  pub quality_config_hash : String
  pub fingerprint_version : ℕ
  pub logical_hash_algorithm : String
  pub schema_hash_algorithm : String
  pub logical_data_hash : String
  pub schema_hash : String
  pub manifest_path : String
  pub published_at : DateTime
  pub is_active_revision : Bool
  pub is_current : Bool
  pub supersedes_publication_id : Option String

-- `if len(value) != 64: raise ValueError`
abbrev pub require_sha256 : String → String → Result (Unit {0})
require_sha256 field_name value = raise_if (not (str_len value == 64)) (value_error field_name)

-- The identifier fields, in the order of the source's dictionary.
abbrev pub required_strings : DatasetPublicationRequest → List (String × String)
required_strings r =
    ("publication_id", r.publication_id)
    ∷ ("pipeline_run_id", r.pipeline_run_id)
    ∷ ("dataset_id", r.dataset_id)
    ∷ ("partition_key", r.partition_key)
    ∷ ("partition_value", r.partition_value)
    ∷ ("silver_build_id", r.silver_build_id)
    ∷ ("engine_release_id", r.engine_release_id)
    ∷ ("processing_config_hash", r.processing_config_hash)
    ∷ ("quality_config_hash", r.quality_config_hash)
    ∷ ("logical_hash_algorithm", r.logical_hash_algorithm)
    ∷ ("schema_hash_algorithm", r.schema_hash_algorithm)
    ∷ ("logical_data_hash", r.logical_data_hash)
    ∷ ("schema_hash", r.schema_hash)
    ∷ ("manifest_path", r.manifest_path)
    ∷ []

-- `DatasetPublicationRequest.__post_init__`
unfoldable pub check_publication_request : DatasetPublicationRequest → Result (Unit {0})
unfolding require_non_blank
check_publication_request r = do
  require_non_blank (required_strings r)
  require_sha256 "processing_config_hash" r.processing_config_hash
  require_sha256 "quality_config_hash" r.quality_config_hash
  require_sha256 "logical_data_hash" r.logical_data_hash
  require_sha256 "schema_hash" r.schema_hash
  raise_if (ltb r.fingerprint_version 1) (value_error "fingerprint_version must be positive")
  raise_if (not (is_aware r.published_at)) (value_error "published_at must be timezone-aware")

-- `DatasetPublication.__post_init__`
unfoldable pub check_publication : DatasetPublication → Result (Unit {0})
check_publication p = do
  raise_if (is_blank p.logical_hash_algorithm)
      (value_error "logical_hash_algorithm must not be empty")
  raise_if (is_blank p.schema_hash_algorithm)
      (value_error "schema_hash_algorithm must not be empty")
  raise_if (ltb p.revision 1) (value_error "revision must be positive")
  raise_if (not (is_aware p.published_at)) (value_error "published_at must be timezone-aware")
  raise_if (p.is_current && not p.is_active_revision)
      (value_error "Current publication must also be the active revision")
