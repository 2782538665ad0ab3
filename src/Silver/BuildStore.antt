-- ===== src/Silver/BuildStore.antt =====
-- pipeline/silver/postgres_build_store.py over the tables `logs.silver_build_attempts` and
-- `meta.silver_materializations`. A statement is a function of the two tables.
pub mod Soundness
pub mod Traces
pub mod Failures
pub mod Outcomes
use metrka_core.Prelude.{
  ℕ, ◌≤◌, String, Bool, true, false, ◌&&◌, ◌||◌, not, Option, none, some, List, [], ◌∷◌, ◌++◌,
  str_eq,
}
use metrka_core.Prelude.Tests.{ltb, leb, ◌==◌, if◌then◌else◌}
use metrka_core.Prelude.Lists.{find, any, update, select}
use metrka_core.Prelude.Text.{str_len, is_blank, is_btrim_blank, is_some, opt_eq}
use metrka_core.Prelude.Time.{Date, DateTime, is_aware}
use metrka_core.Prelude.Result.{
  Result, ok, raise, value_error, runtime_error, integrity_error, ◌>>=◌, ◌>>◌, raise_if,
}
use metrka_core.Catalog.PublicationModels.{require_sha256}
use metrka_core.Silver.BuildModels.{
  SilverBuildStatus, running, succeeded, failed, RebuildMode, RebuildReason, SilverBuild,
  is_running, is_succeeded, is_sha256_hex, require_sha256_hex, check_build,
}

-- A row of `logs.silver_build_attempts`.
pub record Attempt : Type 0 where
  pub silver_build_id : String
  pub pipeline_run_id : String
  pub silver_run_id : String
  pub dataset_file_id : String
  pub dataset_id : String
  pub version_period : Option Date
  pub partition_key : Option String
  pub partition_value : Option String
  pub contract_hash : String
  pub engine_release_id : String
  pub processing_config_hash : String
  pub quality_config_hash : String
  pub build_signature : String
  pub fingerprint_version : ℕ
  pub logical_hash_algorithm : String
  pub schema_hash_algorithm : String
  pub status : SilverBuildStatus
  pub rebuild_mode : RebuildMode
  pub rebuild_reasons : List RebuildReason
  pub started_at : DateTime
  pub completed_at : Option DateTime
  pub error_code : Option String
  pub error_message : Option String

-- A row of `meta.silver_materializations`.
pub record Materialization : Type 0 where
  pub silver_build_id : String
  pub manifest_path : String
  pub output_hash : Option String
  pub output_file_count : ℕ
  pub output_byte_count : ℕ
  pub logical_data_hash : String
  pub schema_hash : String
  pub materialized_at : DateTime

pub record BuildTables : Type 0 where
  pub attempts : List Attempt
  pub materializations : List Materialization

abbrev pub has_attempt_id : String → Attempt → Bool
has_attempt_id i a = str_eq a.silver_build_id i

abbrev pub materializes : String → Materialization → Bool
materializes i m = str_eq m.silver_build_id i

-- The columns that a LEFT JOIN takes from the other table, NULL where it has no row.
abbrev pub column {ℓ} : {A : Type ℓ} → Option Materialization → (Materialization → A) → Option A
column none f = none
column (some m) f = some (f m)

abbrev pub opt_column {ℓ} :
    {A : Type ℓ} → Option Materialization → (Materialization → Option A) → Option A
opt_column none f = none
opt_column (some m) f = f m

-- `SILVER_BUILD_COLUMNS` of the joined row.
unfoldable pub joined : Attempt → Option Materialization → SilverBuild
joined a m = record {
  silver_build_id = a.silver_build_id;
  pipeline_run_id = a.pipeline_run_id;
  silver_run_id = a.silver_run_id;
  dataset_file_id = a.dataset_file_id;
  dataset_id = a.dataset_id;
  contract_hash = a.contract_hash;
  engine_release_id = a.engine_release_id;
  processing_config_hash = a.processing_config_hash;
  quality_config_hash = a.quality_config_hash;
  build_signature = a.build_signature;
  fingerprint_version = a.fingerprint_version;
  logical_hash_algorithm = a.logical_hash_algorithm;
  schema_hash_algorithm = a.schema_hash_algorithm;
  status = a.status;
  rebuild_mode = a.rebuild_mode;
  rebuild_reasons = a.rebuild_reasons;
  started_at = a.started_at;
  version_period = a.version_period;
  partition_key = a.partition_key;
  partition_value = a.partition_value;
  logical_data_hash = column m (λ x. x.logical_data_hash);
  schema_hash = column m (λ x. x.schema_hash);
  manifest_path = column m (λ x. x.manifest_path);
  output_hash = opt_column m (λ x. x.output_hash);
  output_file_count = column m (λ x. x.output_file_count);
  output_byte_count = column m (λ x. x.output_byte_count);
  completed_at = a.completed_at;
  error_code = a.error_code;
  error_message = a.error_message;
}

-- `_row_to_silver_build`: the constructor checks what was read.
unfoldable pub row_to_silver_build : Attempt → Option Materialization → Result SilverBuild
row_to_silver_build a m = do check_build (joined a m); ok (joined a m)

-- `SILVER_BUILD_FROM`
unfoldable pub load : BuildTables → Attempt → Result SilverBuild
load t a = row_to_silver_build a (find (materializes a.silver_build_id) t.materializations)

abbrev pub not_before : Option DateTime → DateTime → Bool
not_before none start = true
not_before (some t) start = leb start.instant t.instant

-- The CHECK constraints of `logs.silver_build_attempts`.
unfoldable pub attempt_checks : Attempt → Bool
attempt_checks a =
    not_before a.completed_at a.started_at
    && (str_len a.contract_hash == 64
        && (ltb 0 a.fingerprint_version
            && (not (is_btrim_blank a.logical_hash_algorithm)
                && (str_len a.processing_config_hash == 64
                    && (str_len a.quality_config_hash == 64
                        && (not (is_btrim_blank a.schema_hash_algorithm)
                            && str_len a.build_signature == 64))))))

-- The CHECK constraints of `meta.silver_materializations`.
unfoldable pub materialization_checks : Materialization → Bool
materialization_checks m =
    str_len m.logical_data_hash == 64
    && (ltb 0 m.output_file_count
        && (elim m.output_hash [ none ↦ true | some h ↦ str_len h == 64 ]
            && str_len m.schema_hash == 64))

abbrev pub attempt_of : SilverBuild → Attempt
attempt_of b = record {
  silver_build_id = b.silver_build_id;
  pipeline_run_id = b.pipeline_run_id;
  silver_run_id = b.silver_run_id;
  dataset_file_id = b.dataset_file_id;
  dataset_id = b.dataset_id;
  version_period = b.version_period;
  partition_key = b.partition_key;
  partition_value = b.partition_value;
  contract_hash = b.contract_hash;
  engine_release_id = b.engine_release_id;
  processing_config_hash = b.processing_config_hash;
  quality_config_hash = b.quality_config_hash;
  build_signature = b.build_signature;
  fingerprint_version = b.fingerprint_version;
  logical_hash_algorithm = b.logical_hash_algorithm;
  schema_hash_algorithm = b.schema_hash_algorithm;
  status = b.status;
  rebuild_mode = b.rebuild_mode;
  rebuild_reasons = b.rebuild_reasons;
  started_at = b.started_at;
  completed_at = b.completed_at;
  error_code = b.error_code;
  error_message = b.error_message;
}

unfoldable pub insert_started : SilverBuild → BuildTables → Result (String × BuildTables)
insert_started b t = do
  raise_if (not (is_running b.status))
      (value_error "A newly inserted Silver build must have running status")
  raise_if (not (attempt_checks (attempt_of b))) (integrity_error "silver_build_attempts_check")
  raise_if (any (has_attempt_id b.silver_build_id) t.attempts)
      (integrity_error "silver_build_attempts_pkey")
  ok (b.silver_build_id, record t { attempts = t.attempts ++ attempt_of b ∷ [] })

unfoldable pub get_by_id : String → BuildTables → Result (Option SilverBuild)
get_by_id i t = elim (find (has_attempt_id i) t.attempts) [
  | none ↦ ok none
  | some a ↦ load t a >>= λ b. ok (some b)
]

-- The arguments of `mark_succeeded`, the identifier apart.
pub record Success : Type 0 where
  pub version_period : Option Date
  pub partition_key : Option String
  pub partition_value : Option String
  pub manifest_path : String
  pub output_hash : Option String
  pub output_file_count : ℕ
  pub output_byte_count : ℕ
  pub fingerprint_version : ℕ
  pub logical_hash_algorithm : String
  pub schema_hash_algorithm : String
  pub logical_data_hash : String
  pub schema_hash : String
  pub completed_at : DateTime

-- `_validate_success`; a byte count is a natural number here, so its test cannot fail.
unfoldable pub validate_success : Success → Result (Unit {0})
unfolding is_sha256_hex
validate_success s = do
  raise_if (not (is_aware s.completed_at)) (value_error "completed_at must be timezone-aware")
  raise_if (is_blank s.manifest_path) (value_error "manifest_path must not be empty")
  require_sha256_hex "output_hash must be a SHA-256 hash" s.output_hash
  raise_if (ltb s.output_file_count 1)
      (value_error "A successful Silver build must produce at least one file")
  raise_if (ltb s.fingerprint_version 1) (value_error "fingerprint_version must be positive")
  raise_if (is_blank s.logical_hash_algorithm)
      (value_error "logical_hash_algorithm must not be empty")
  raise_if (is_blank s.schema_hash_algorithm)
      (value_error "schema_hash_algorithm must not be empty")
  require_sha256 "logical_data_hash" s.logical_data_hash
  require_sha256 "schema_hash" s.schema_hash

-- The SET list of the UPDATE.
abbrev pub complete : Success → Attempt → Attempt
complete s a = record a {
  status = succeeded;
  version_period = s.version_period;
  partition_key = s.partition_key;
  partition_value = s.partition_value;
  fingerprint_version = s.fingerprint_version;
  logical_hash_algorithm = s.logical_hash_algorithm;
  schema_hash_algorithm = s.schema_hash_algorithm;
  completed_at = some s.completed_at;
  error_code = none;
  error_message = none;
}

abbrev pub materialization_of : String → Success → Materialization
materialization_of i s = record {
  silver_build_id = i;
  manifest_path = s.manifest_path;
  output_hash = s.output_hash;
  output_file_count = s.output_file_count;
  output_byte_count = s.output_byte_count;
  logical_data_hash = s.logical_data_hash;
  schema_hash = s.schema_hash;
  materialized_at = s.completed_at;
}

-- `WHERE silver_build_id = %s AND status = 'running'`
abbrev pub running_attempt : String → Attempt → Bool
running_attempt i a = has_attempt_id i a && is_running a.status

-- The statement of `mark_succeeded`: both writes or none.
unfoldable pub complete_attempt :
    String → Success → Attempt → BuildTables → Result (SilverBuild × BuildTables)
complete_attempt i s a t = do
  raise_if (not (attempt_checks (complete s a))) (integrity_error "silver_build_attempts_check")
  raise_if (not (materialization_checks (materialization_of a.silver_build_id s)))
      (integrity_error "silver_materializations_check")
  raise_if (any (materializes a.silver_build_id) t.materializations)
      (integrity_error "silver_materializations_pkey")
  build ← row_to_silver_build (complete s a) (some (materialization_of a.silver_build_id s))
  ok (
    build,
    record t {
      attempts = update (running_attempt i) (complete s) t.attempts;
      materializations = t.materializations ++ materialization_of a.silver_build_id s ∷ [];
    },
  )

unfoldable pub mark_succeeded : String → Success → BuildTables → Result (SilverBuild × BuildTables)
mark_succeeded i s t = validate_success s >> elim (find (running_attempt i) t.attempts) [
  | none ↦ raise (value_error "Silver build does not exist or is no longer running")
  | some a ↦ complete_attempt i s a t
]

-- The SET list of the UPDATE of `mark_failed`.
abbrev pub fail_with : DateTime → String → String → Attempt → Attempt
fail_with at code message a = record a {
  status = failed;
  completed_at = some at;
  error_code = some code;
  error_message = some message;
}

-- The UPDATE and the read that follows it.
unfoldable pub fail_attempt :
    String → DateTime → String → String → Attempt → BuildTables → Result (SilverBuild × BuildTables)
fail_attempt i at code message a t =
    let t' = record t {
      attempts = update (running_attempt i) (fail_with at code message) t.attempts;
    } in
    do
      raise_if (not (attempt_checks (fail_with at code message a)))
          (integrity_error "silver_build_attempts_check")
      failed_build ← get_by_id i t'
      elim failed_build [
        | none ↦ raise (runtime_error "Failed Silver build disappeared after update")
        | some build ↦ ok (build, t')
      ]

unfoldable pub mark_failed :
    String → DateTime → String → String → BuildTables → Result (SilverBuild × BuildTables)
mark_failed i at code message t = do
  raise_if (not (is_aware at)) (value_error "completed_at must be timezone-aware")
  raise_if (is_blank code) (value_error "error_code must not be empty")
  raise_if (is_blank message) (value_error "error_message must not be empty")
  elim (find (running_attempt i) t.attempts) [
    | none ↦ raise (value_error "Silver build does not exist or is no longer running")
    | some a ↦ fail_attempt i at code message a t
  ]
