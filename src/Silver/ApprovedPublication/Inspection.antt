-- ===== src/Silver/ApprovedPublication/Inspection.antt =====
-- A failed inspection of the files of an approved candidate, and the steps before it.
use metrka_core.Prelude.{String, ◌≡◌, true, false, Option, some}
use metrka_core.Prelude.Text.{is_blank, opt_eq}
use metrka_core.Prelude.Result.{Error, ok, runtime_error}
use metrka_core.Catalog.PublicationModels.{DatasetPublication}
use metrka_core.Catalog.PublicationStore.{find_active, id_of}
use metrka_core.Catalog.CandidateModels.{DatasetPublicationCandidate}
use metrka_core.Catalog.CandidateStore.{is_approved}
use metrka_core.Silver.BuildModels.{SilverBuild, is_succeeded}
use metrka_core.Silver.BuildStore.{get_by_id as get_build}
use metrka_core.Silver.ApprovedPublication.{
  ApprovedPublicationCommand, Collaborators, System, matches_build,
}

-- The candidates, the builds, the publications and the projection states are as before.
pub record IsUntouched {S : Type 0} (s s' : System S) : Type 0 where
  pub candidates_kept : s'.candidates ≡ s.candidates
  pub builds_kept : s'.builds ≡ s.builds
  pub publications_kept : s'.publications ≡ s.publications
  pub projections_kept : s'.projections ≡ s.projections

abbrev pub inspection_error : Error
inspection_error = runtime_error "Publication asset integrity verification failed"

-- The inspection of the files of the approved candidate `c` failed: its build succeeded, matches it
-- and names a manifest, and its baseline is the active publication; the batch of the inspection did
-- not pass; and the batch and the attempt of the candidate, in this order, are all that is stored.
pub record IsFailedInspection {S M A B R : Type 0} (via : Collaborators S M A B R)
    (command : ApprovedPublicationCommand) (c : DatasetPublicationCandidate) (s s' : System S)
    : Type 0 where
  pub build : SilverBuild
  pub manifest_path : String
  pub active : Option DatasetPublication
  pub manifest : M
  pub assets : A
  pub batch : B
  pub inserted : String × S
  pub is_ready : is_approved c.status ≡ true
  pub loaded : get_build c.silver_build_id s.builds ≡ ok (some build)
  pub succeeded : is_succeeded build.status ≡ true
  pub matching : matches_build c build ≡ true
  pub path_of : build.manifest_path ≡ some manifest_path
  pub has_path : is_blank manifest_path ≡ false
  pub active_read : find_active c.dataset_id c.partition_value s.publications ≡ ok active
  pub baseline : opt_eq (id_of active) c.baseline_publication_id ≡ true
  pub manifest_read : via.read_manifest manifest_path ≡ ok manifest
  pub assets_of : via.publication_assets_from_manifest manifest ≡ ok assets
  pub inspected : via.inspect assets command.published_at ≡ ok batch
  pub has_failed : via.passed batch ≡ false
  pub batch_stored : via.insert_batch batch s.others ≡ ok inserted
  pub attempt_stored :
      via.insert_attempt c.candidate_id c.silver_build_id build.pipeline_run_id inserted.0
        inserted.1
      ≡ ok s'.others
  pub untouched : IsUntouched s s'
