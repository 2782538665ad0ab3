-- ===== src/Examples/DecisionUnits.antt =====
-- The decision on the first build of a dataset.
use metrka_core.Prelude.{◌≡◌, refl, String, ℕ, none, [], arith}
use metrka_core.Prelude.Lists.{find, any, select}
use metrka_core.Prelude.Text.{is_blank, str_len, all_hex}
use metrka_core.Prelude.Result.{ok, require_non_blank}
use metrka_core.Catalog.PublicationStore.{find_active, fetch_one}
use metrka_core.Quality.VerificationStore.Evidence.{evidence_of, build_runs, summary}
use metrka_core.Silver.BuildModels.{is_sha256_hex}
use metrka_core.Silver.BuildStore.{validate_success, attempt_of}
use metrka_core.Silver.DecisionUnit.{
  SilverPublicationDecisionCommand, SilverPublicationDecisionResult, DecisionSystem, check_command,
  success_of, commit_decision,
}
use metrka_core.Silver.DecisionUnit.Commit.{IsCommitted, commit_decision_lem}
use metrka_core.Silver.DecisionUnit.Outcome.{IsCommittable, commit_decision_returns}
use metrka_core.Examples.{hash_a, hash_b, june, noon}
use metrka_core.Examples.Builds.{build, tables, row_runs, tables-IsSound}
use metrka_core.Examples.Marshals.{two, two-IsGoverned, file-IsPromotable, entry_2}

abbrev command : SilverPublicationDecisionCommand
command = record {
  dataset_id = "postcodes";
  bronze_file_id = "file-1";
  silver_build_id = "build-1";
  engine_hash = hash_a;
  quality_config_hash = hash_b;
  version_period = june;
  partition_key = "month";
  partition_value = "2024-06";
  manifest_path = "silver/manifest.json";
  output_hash = hash_a;
  output_file_count = 2;
  output_byte_count = 2048;
  completed_at = noon 9;
  fingerprint = record {
    fingerprint_version = 1;
    logical_hash_algorithm = "sha256";
    schema_hash_algorithm = "sha256";
    logical_data_hash = hash_a;
    schema_hash = hash_b;
  };
  marshal_meta = [];
}

abbrev system : DecisionSystem
system = record {
  builds = tables;
  marshal = two;
  publications = [];
  verifications = [];
  candidates = [];
  issued = 0;
}

abbrev candidate_ids : ℕ → String
candidate_ids n = "publication_candidate_1"

committable : IsCommittable noon candidate_ids command system
unfolding check_command require_non_blank is_blank str_len validate_success success_of is_sha256_hex
    all_hex find_active fetch_one find evidence_of build_runs summary select any
committable = record {
  command_valid = refl;
  success_valid = refl;
  logical = refl;
  schema = refl;
  active = none;
  found = refl;
  named = λ p e. absurd (ground (arith, e));
  sound = tables-IsSound;
  attempt = attempt_of build;
  running_row = row_runs;
  later = refl;
  governed = two-IsGoverned;
  target = entry_2;
  existing = none;
  promotable = file-IsPromotable;
  history = [];
  history_valid = tt;
  evidence = λ k. refl;
  new_build = refl;
  new_candidate_id = refl;
  id_named = refl;
}

commit_decision_returns_example :
    (r : SilverPublicationDecisionResult) × (s' : DecisionSystem) × (commit_decision noon
        candidate_ids command system
      ≡ ok (r, s'))
    × IsCommitted noon candidate_ids command system s' r
commit_decision_returns_example =
    commit_decision_returns noon candidate_ids command system committable

outcome :
    (r : SilverPublicationDecisionResult) × (s' : DecisionSystem) × (commit_decision noon
        candidate_ids command system
      ≡ ok (r, s'))
outcome =
    let (r, s', returned, done) =
      commit_decision_returns noon candidate_ids command system committable in
    (r, s', returned)

commit_decision_lem_example : IsCommitted noon candidate_ids command system outcome.1 outcome.0
commit_decision_lem_example =
    commit_decision_lem noon candidate_ids command system outcome.1 outcome.0 outcome.2
