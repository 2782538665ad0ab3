-- ===== src/Silver/BuildModels.antt =====
-- pipeline/silver/build_models.py: one attempt to materialise a Bronze asset, and the decision that
-- starts it.
use metrka_core.Prelude.{ℕ, String, Bool, true, false, ◌&&◌, not, Option, none, some, List, [], ◌∷◌}
use metrka_core.Prelude.Tests.{ltb, ◌==◌}
use metrka_core.Prelude.Text.{str_len, is_blank, is_some, all_hex}
use metrka_core.Prelude.Time.{Date, DateTime, is_aware}
use metrka_core.Prelude.Result.{Result, ok, value_error, ◌>>◌, raise_if, require_non_blank}
use metrka_core.Catalog.PublicationModels.{require_sha256}

pub data SilverBuildStatus : Type 0 where
  running succeeded failed : SilverBuildStatus

pub data RebuildMode : Type 0 where
  automatic manual : RebuildMode

pub data RebuildReason : Type 0 where
  initial_build previous_build_failed bronze_file_changed contract_changed silver_engine_changed
        processing_config_changed quality_config_changed manual_force :
      RebuildReason

pub record RebuildDecision : Type 0 where
  pub required : Bool
  pub mode : RebuildMode
  pub build_signature : String
  pub reasons : List RebuildReason
  pub matching_silver_build_id : Option String

pub record SilverBuild : Type 0 where
  pub silver_build_id : String
  pub pipeline_run_id : String
  pub silver_run_id : String
  pub dataset_file_id : String
  pub dataset_id : String
  pub contract_hash : String
  pub engine_release_id : String
  pub processing_config_hash : String
  pub quality_config_hash : String
  pub build_signature : String
  pub fingerprint_version : ℕ
  pub logical_hash_algorithm : String
  pub schema_hash_algorithm : String
  pub status : SilverBuildStatus
  pub rebuild_mode : RebuildMode
  pub rebuild_reasons : List RebuildReason
  pub started_at : DateTime
  pub version_period : Option Date
  pub partition_key : Option String
  pub partition_value : Option String
  pub logical_data_hash : Option String
  pub schema_hash : Option String
  pub manifest_path : Option String
  pub output_hash : Option String
  pub output_file_count : Option ℕ
  pub output_byte_count : Option ℕ
  pub completed_at : Option DateTime
  pub error_code : Option String
  pub error_message : Option String

abbrev pub is_running : SilverBuildStatus → Bool
is_running running = true
is_running _ = false

abbrev pub is_succeeded : SilverBuildStatus → Bool
is_succeeded succeeded = true
is_succeeded _ = false

abbrev pub is_failed : SilverBuildStatus → Bool
is_failed failed = true
is_failed _ = false

abbrev pub is_empty {ℓ} : {A : Type ℓ} → List A → Bool
is_empty [] = true
is_empty (x ∷ xs) = false

-- `RebuildDecision.__post_init__`
unfoldable pub check_decision : RebuildDecision → Result (Unit {0})
check_decision d = do
  raise_if (is_blank d.build_signature) (value_error "build_signature must not be empty")
  raise_if (d.required && is_empty d.reasons)
      (value_error "A required Silver rebuild must include at least one reason")
  raise_if (not d.required && not (is_some d.matching_silver_build_id))
      (value_error "A skipped Silver rebuild must reference the matching build")

-- `SHA256_HEX_PATTERN.fullmatch(value)`: storage/checksums.py.
unfoldable pub is_sha256_hex : String → Bool
unfolding str_len all_hex
is_sha256_hex value = str_len value == 64 && all_hex value

abbrev pub require_sha256_hex : String → Option String → Result (Unit {0})
require_sha256_hex field_name none = ok tt
require_sha256_hex field_name (some value) =
    raise_if (not (is_sha256_hex value)) (value_error field_name)

abbrev pub opt_aware : Option DateTime → Bool
opt_aware none = true
opt_aware (some t) = is_aware t

-- `SilverBuild.__post_init__`
unfoldable pub check_build : SilverBuild → Result (Unit {0})
unfolding require_non_blank is_sha256_hex
check_build b = do
  require_non_blank (
      ("silver_build_id", b.silver_build_id)
      ∷ ("pipeline_run_id", b.pipeline_run_id)
      ∷ ("silver_run_id", b.silver_run_id)
      ∷ ("dataset_file_id", b.dataset_file_id)
      ∷ ("dataset_id", b.dataset_id)
      ∷ ("contract_hash", b.contract_hash)
      ∷ ("engine_release_id", b.engine_release_id)
      ∷ ("processing_config_hash", b.processing_config_hash)
      ∷ ("quality_config_hash", b.quality_config_hash)
      ∷ ("build_signature", b.build_signature)
      ∷ ("logical_hash_algorithm", b.logical_hash_algorithm)
      ∷ ("schema_hash_algorithm", b.schema_hash_algorithm)
      ∷ [])
  require_sha256 "processing_config_hash" b.processing_config_hash
  require_sha256 "quality_config_hash" b.quality_config_hash
  require_sha256 "build_signature" b.build_signature
  raise_if (ltb b.fingerprint_version 1) (value_error "fingerprint_version must be positive")
  require_sha256_hex "logical_data_hash" b.logical_data_hash
  require_sha256_hex "schema_hash" b.schema_hash
  require_sha256_hex "output_hash" b.output_hash
  raise_if (not (opt_aware b.completed_at)) (value_error "completed_at must be timezone-aware")
  raise_if (is_succeeded b.status && not (is_some b.logical_data_hash))
      (value_error "Successful Silver build requires logical_data_hash")
  raise_if (is_succeeded b.status && not (is_some b.schema_hash))
      (value_error "Successful Silver build requires schema_hash")
