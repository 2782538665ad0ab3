-- ===== src/Silver/BuildStore/Failures.antt =====
-- What `mark_failed` makes of a running attempt, and how its row is read and checked.
use metrka_core.Prelude.{
  String, ◌≡◌, refl, Bool, true, not, none, some, List, [], ◌∷◌, str_eq, arith,
}
use metrka_core.Prelude.Tests.{leb}
use metrka_core.Prelude.Lists.{find, update}
use metrka_core.Prelude.Time.{DateTime, is_aware}
use metrka_core.Prelude.Result.{ok, require_non_blank}
use metrka_core.Silver.BuildModels.{SilverBuild, failed, is_running, check_build}
use metrka_core.Silver.BuildStore.{Attempt, running_attempt, joined, attempt_checks, fail_with}

-- The build `b` is the attempt `a` after a failure: its outcome, no output, and the columns it keeps.
pub record IsFailure (at : DateTime) (code message : String) (a : Attempt) (b : SilverBuild)
    : Type 0 where
  pub status : b.status ≡ failed
  pub completed_at : b.completed_at ≡ some at
  pub error_code : b.error_code ≡ some code
  pub error_message : b.error_message ≡ some message
  pub no_manifest : b.manifest_path ≡ none
  pub no_hashes : (b.output_hash ≡ none) × (b.logical_data_hash ≡ none) × (b.schema_hash ≡ none)
  pub no_files : (b.output_file_count ≡ none) × (b.output_byte_count ≡ none)
  pub identity :
      (b.silver_build_id ≡ a.silver_build_id)
      × (b.pipeline_run_id ≡ a.pipeline_run_id)
      × (b.silver_run_id ≡ a.silver_run_id)
      × (b.dataset_file_id ≡ a.dataset_file_id)
      × (b.dataset_id ≡ a.dataset_id)
      × (b.engine_release_id ≡ a.engine_release_id)
  pub version :
      (b.version_period ≡ a.version_period)
      × (b.partition_key ≡ a.partition_key)
      × (b.partition_value ≡ a.partition_value)
  pub signature :
      (b.contract_hash ≡ a.contract_hash)
      × (b.processing_config_hash ≡ a.processing_config_hash)
      × (b.quality_config_hash ≡ a.quality_config_hash)
      × (b.build_signature ≡ a.build_signature)
  pub fingerprint :
      (b.fingerprint_version ≡ a.fingerprint_version)
      × (b.logical_hash_algorithm ≡ a.logical_hash_algorithm)
      × (b.schema_hash_algorithm ≡ a.schema_hash_algorithm)
  pub rebuild : (b.rebuild_mode ≡ a.rebuild_mode) × (b.rebuild_reasons ≡ a.rebuild_reasons)
  pub started_at : b.started_at ≡ a.started_at

abbrev pub is_other : String → Attempt → Bool
is_other i a = not (str_eq a.silver_build_id i)

pub failed-IsFailure :
    (a : Attempt) (at : DateTime) (code message : String)
    → IsFailure at code message a (joined (fail_with at code message a) none)
unfolding joined
failed-IsFailure a at code message = record {
  status = refl;
  completed_at = refl;
  error_code = refl;
  error_message = refl;
  no_manifest = refl;
  no_hashes = (refl, refl, refl);
  no_files = (refl, refl);
  identity = (refl, refl, refl, refl, refl, refl);
  version = (refl, refl, refl);
  signature = (refl, refl, refl, refl);
  fingerprint = (refl, refl, refl);
  rebuild = (refl, refl);
  started_at = refl;
}

pub none_running :
    (at : DateTime) (code message i : String) (rows : List Attempt)
    → find (running_attempt i) (update (running_attempt i) (fail_with at code message) rows) ≡ none
unfolding find update
none_running at code message i [] = refl
none_running at code message i (x ∷ rows) = ground (arith, none_running at code message i rows)

pub failed_readable :
    (a : Attempt) (at : DateTime) (code message : String)
    → is_aware at ≡ true
    → is_running a.status ≡ true
    → check_build (joined a none) ≡ ok tt
    → check_build (joined (fail_with at code message a) none) ≡ ok tt
unfolding check_build joined require_non_blank
failed_readable a at code message aware r h = ground arith

pub failed_accepted :
    (a : Attempt) (at : DateTime) (code message : String)
    → leb a.started_at.instant at.instant ≡ true
    → attempt_checks a ≡ true
    → attempt_checks (fail_with at code message a) ≡ true
unfolding attempt_checks
failed_accepted a at code message later h = ground arith
