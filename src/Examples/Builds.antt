-- ===== src/Examples/Builds.antt =====
-- A build that is started and succeeds, and one that fails.
use metrka_core.Prelude.{◌≡◌, refl, none, some, [], ◌∷◌, arith}
use metrka_core.Prelude.Lists.{find, select, count, any}
use metrka_core.Prelude.Text.{str_len, is_blank, is_btrim_blank, all_hex}
use metrka_core.Prelude.Result.{ok, require_non_blank}
use metrka_core.Silver.BuildModels.{
  running, SilverBuild, automatic, initial_build, is_sha256_hex, check_build,
}
use metrka_core.Silver.BuildStore.{
  BuildTables, Attempt, Success, attempt_of, insert_started, mark_failed, joined, fail_with,
  has_attempt_id, attempt_checks, get_by_id, running_attempt,
}
use metrka_core.Silver.BuildStore.Failures.{IsFailure, is_other}
use metrka_core.Silver.BuildStore.Soundness.{IsSound, started_tables}
use metrka_core.Silver.BuildStore.Traces.{here, next, start, Reach-IsSound, finished_is_final}
use metrka_core.Silver.BuildStore.Outcomes.{IsRunningRow, mark_failed_lem}
use metrka_core.Examples.{hash_a, hash_b, june, noon}

abbrev pub build : SilverBuild
build = record {
  silver_build_id = "build-1";
  pipeline_run_id = "run";
  silver_run_id = "silver-run";
  dataset_file_id = "file-1";
  dataset_id = "postcodes";
  contract_hash = hash_a;
  engine_release_id = "engine-1";
  processing_config_hash = hash_a;
  quality_config_hash = hash_b;
  build_signature = hash_b;
  fingerprint_version = 1;
  logical_hash_algorithm = "sha256";
  schema_hash_algorithm = "sha256";
  status = running;
  rebuild_mode = automatic;
  rebuild_reasons = initial_build ∷ [];
  started_at = noon 3;
  version_period = some june;
  partition_key = some "month";
  partition_value = some "2024-06";
  logical_data_hash = none;
  schema_hash = none;
  manifest_path = none;
  output_hash = none;
  output_file_count = none;
  output_byte_count = none;
  completed_at = none;
  error_code = none;
  error_message = none;
}

abbrev no_tables : BuildTables
no_tables = record { attempts = []; materializations = [] }

pub no_tables-IsSound : IsSound no_tables
unfolding count
no_tables-IsSound = record { ids = λ i. ground arith; materialized = λ i. refl }

abbrev pub tables : BuildTables
tables = started_tables build no_tables

starts : insert_started build no_tables ≡ ok ("build-1", tables)
unfolding insert_started attempt_checks any is_btrim_blank str_len
starts = refl

pub tables-IsSound : IsSound tables
tables-IsSound = Reach-IsSound (next here (start build "build-1" starts)) no_tables-IsSound

Reach-IsSound_example : IsSound tables
Reach-IsSound_example = Reach-IsSound (next here (start build "build-1" starts)) no_tables-IsSound

pub row_runs : IsRunningRow "build-1" tables (attempt_of build)
unfolding find check_build joined attempt_checks require_non_blank is_blank is_btrim_blank
    is_sha256_hex str_len all_hex
row_runs = record { found = refl; readable = refl; accepted = refl }

mark_failed_lem_example :
    (b : SilverBuild) × (t' : BuildTables) × (mark_failed "build-1" (noon 9) "io" "disk full" tables
      ≡ ok (b, t'))
    × IsFailure (noon 9) "io" "disk full" (attempt_of build) b
    × (get_by_id "build-1" t' ≡ ok (some b))
    × (find (running_attempt "build-1") t'.attempts ≡ none)
    × (select (is_other "build-1") t'.attempts ≡ select (is_other "build-1") tables.attempts)
    × (t'.materializations ≡ tables.materializations)
    × IsSound t'
unfolding is_blank
mark_failed_lem_example =
    mark_failed_lem "build-1" "io" "disk full" (noon 9) tables (attempt_of build)
      (Reach-IsSound (next here (start build "build-1" starts)) no_tables-IsSound) row_runs refl
      refl refl refl

abbrev pub success : Success
success = record {
  version_period = some june;
  partition_key = some "month";
  partition_value = some "2024-06";
  manifest_path = "silver/manifest.json";
  output_hash = some hash_a;
  output_file_count = 2;
  output_byte_count = 2048;
  fingerprint_version = 1;
  logical_hash_algorithm = "sha256";
  schema_hash_algorithm = "sha256";
  logical_data_hash = hash_a;
  schema_hash = hash_b;
  completed_at = noon 9;
}

abbrev failed_row : Attempt
failed_row = fail_with (noon 9) "io" "disk full" (attempt_of build)

abbrev after_failure : BuildTables
after_failure = record { attempts = failed_row ∷ []; materializations = [] }

abbrev other_build : SilverBuild
other_build = record build { silver_build_id = "build-2" }

starts_again :
    insert_started other_build after_failure
    ≡ ok ("build-2", started_tables other_build after_failure)
unfolding insert_started attempt_checks any is_btrim_blank str_len
starts_again = refl

failed_found : find (has_attempt_id "build-1") after_failure.attempts ≡ some failed_row
unfolding find
failed_found = refl

finished_is_final_example :
    find (has_attempt_id "build-1") (started_tables other_build after_failure).attempts
    ≡ some failed_row
finished_is_final_example =
    finished_is_final "build-1" failed_row (next here (start other_build "build-2" starts_again))
      failed_found refl
