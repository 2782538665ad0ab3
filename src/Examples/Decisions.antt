-- ===== src/Examples/Decisions.antt =====
-- A rebuild after a change of the contract, and a build that reproduces a publication.
use metrka_core.Prelude.{String, ◌≡◌, refl, true, false, none, some, arith}
use metrka_core.Prelude.Text.{is_blank, strip, ≡→str_eq}
use metrka_core.Prelude.Result.{ok}
use metrka_core.Catalog.PublicationModels.{DatasetPublication}
use metrka_core.Silver.BuildModels.{succeeded, SilverBuild, RebuildDecision}
use metrka_core.Silver.RebuildDecision.{
  BuildInputs, SignaturePayload, payload_of, decide_silver_rebuild,
}
use metrka_core.Silver.RebuildDecision.Outcome.{
  IsRebuildDecision, IsOther, inputs_of, decide_silver_rebuild_lem,
}
use metrka_core.Silver.PublicationDecision.{
  SilverDatasetFingerprint, SilverPublicationDecision, decide_silver_publication,
}
use metrka_core.Silver.PublicationDecision.Soundness.{IsDecided, decide_silver_publication_lem}
use metrka_core.Examples.{hash_a, hash_b, june, noon, marked}
use metrka_core.Examples.Builds.{build}

-- A digest that is never blank, and that tells contracts apart.
abbrev digest : SignaturePayload → String
digest p = marked p.contract_hash

digest_nonblank : (p : SignaturePayload) → is_blank (digest p) ≡ false
unfolding is_blank
digest_nonblank p = refl

abbrev inputs : BuildInputs
inputs = record {
  dataset_file_id = "file-1";
  contract_hash = hash_b;
  engine_release_id = "engine-1";
  processing_config_hash = hash_a;
  quality_config_hash = hash_b;
}

abbrev latest_build : SilverBuild
latest_build = record build {
  status = succeeded;
  build_signature = digest (payload_of (inputs_of build));
}

latest_differs : IsOther digest digest_nonblank inputs none (some latest_build)
unfolding strip
latest_differs = (
  refl,
  λ h.
      ground
        (arith, ≡→str_eq (digest (payload_of (inputs_of build))) (digest (payload_of inputs)) h),
)

decide_silver_rebuild_lem_example :
    (d : RebuildDecision) × (decide_silver_rebuild digest inputs none (some latest_build) none false
      ≡ ok d)
    × IsRebuildDecision inputs (digest (payload_of inputs)) none (some latest_build) none false d
unfolding is_blank
decide_silver_rebuild_lem_example =
    decide_silver_rebuild_lem digest digest_nonblank inputs none (some latest_build) none false refl
      latest_differs

abbrev fingerprint : SilverDatasetFingerprint
fingerprint = record {
  fingerprint_version = 1;
  logical_hash_algorithm = "sha256";
  schema_hash_algorithm = "sha256";
  logical_data_hash = hash_b;
  schema_hash = hash_b;
}

abbrev publication : DatasetPublication
publication = record {
  publication_id = "publication-1";
  pipeline_run_id = "run";
  dataset_id = "postcodes";
  version_period = june;
  partition_key = "month";
  partition_value = "2024-06";
  revision = 1;
  silver_build_id = "build-1";
  engine_release_id = "engine-1";
  processing_config_hash = hash_a;
  quality_config_hash = hash_b;
  fingerprint_version = 1;
  logical_hash_algorithm = "sha256";
  schema_hash_algorithm = "sha256";
  logical_data_hash = hash_a;
  schema_hash = hash_b;
  manifest_path = "silver/manifest.json";
  published_at = noon 5;
  is_active_revision = true;
  is_current = true;
  supersedes_publication_id = none;
}

decide_silver_publication_lem_example :
    (d : SilverPublicationDecision) × (decide_silver_publication (some publication) fingerprint
      ≡ ok d)
    × IsDecided (some publication) fingerprint d
decide_silver_publication_lem_example = decide_silver_publication_lem (some publication) fingerprint
