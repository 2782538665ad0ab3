-- ===== src/Examples/Approvals.antt =====
-- An approved candidate that is published, and one whose files fail the inspection.
use metrka_core.Prelude.{
  ℕ, ◌+◌, String, ◌≡◌, ◌↔◌, refl, Bool, true, false, ◌&&◌, ◌||◌, not, none, some, List, [], ◌∷◌,
  str_eq,
}
use metrka_core.Prelude.Lists.{find, any, update, select}
use metrka_core.Prelude.Text.{is_blank, is_btrim_blank, strip, str_len, all_hex}
use metrka_core.Prelude.Time.{date_eq}
use metrka_core.Prelude.Result.{
  Result, ok, raise, value_error, runtime_error, ◌>>◌, raise_if, require_non_blank,
}
use metrka_core.Catalog.PublicationModels.{
  DatasetPublication, check_publication_request, check_publication,
}
use metrka_core.Catalog.PublicationStore.{
  Publications, has_id, publish, new_row, fetch_one, publish_new, publish_revision, max_revision,
  retire_previous, make_room, insert_row, satisfies_checks, row_to_publication, find_active,
  find_current,
}
use metrka_core.Catalog.CandidateModels.{DatasetPublicationCandidate}
use metrka_core.Catalog.CandidateStore.{
  new_candidate, set_approved, set_published, get_by_id_for_update, mark_published, transition,
  reread, lifecycle_check, require_non_empty, is_approved,
}
use metrka_core.Silver.BuildModels.{SilverBuild, check_build, is_sha256_hex}
use metrka_core.Silver.BuildStore.{
  attempt_of, complete, materialization_of, joined, row_to_silver_build, load,
}
use metrka_core.Silver.BuildStore.{get_by_id as get_build}
use metrka_core.Silver.BuildStore.Soundness.{succeeded_tables}
use metrka_core.Silver.ApprovedPublication.{
  ApprovedPublicationCommand, Collaborators, System, ApprovedPublicationResult, commit_approved,
  publish_candidate, validate_candidate_build, matches_build, validate_baseline, request_for,
  publish_verified, record_publication,
}
use metrka_core.Silver.ApprovedPublication.Commit.{IsPublished, commit_approved_lem}
use metrka_core.Silver.ApprovedPublication.Failure.{commit_failure_lem}
use metrka_core.Silver.ApprovedPublication.Inspection.{IsFailedInspection}
use metrka_core.Silver.ApprovedPublication.Ready.{IsReady}
use metrka_core.Catalog.ProjectionModels.{current, history, check_projection_state}
use metrka_core.Catalog.ProjectionStore.{
  pending_state, mark_pending, upsert_state, projection_checks, both_states,
  row_to_projection_state,
}
use metrka_core.Catalog.ProjectionStore.Health.{IsHealthy}
use metrka_core.Silver.ApprovedPublication.Success.{commit_publishes}
use metrka_core.Catalog.PublicationStore.Consistency.{IsConsistent}
use metrka_core.Catalog.CandidateStore.Lifecycle.{IsWellFormed}
use metrka_core.Prelude.{arith}
use metrka_core.Prelude.Lists.{count}
use metrka_core.Examples.{noon}
use metrka_core.Examples.Candidates.{request}
use metrka_core.Examples.Builds.{build, tables, success}

-- The other stores: the evidence that was counted, and the files registered for each publication.
record Others : Type 0 where
  evidence : ℕ
  files : List (String × List String)

abbrev files_of : String → Others → List (String × List String)
files_of p o = select (λ f. str_eq f.0 p) o.files

abbrev in_order : List String → List String → Bool
in_order [] [] = true
in_order (x ∷ xs) (y ∷ ys) = let rest = in_order xs ys in str_eq x y && rest
in_order _ _ = false

abbrev has_duplicates : List String → Bool
has_duplicates [] = false
has_duplicates (x ∷ xs) = let rest = has_duplicates xs in any (str_eq x) xs || rest

abbrev is_empty : List String → Bool
is_empty [] = true
is_empty _ = false

-- The registration refuses what catalog/postgres_publication_asset_store.py refuses: a blank
-- identifier, no or duplicate files, an unknown publication, and other files than those stored.
abbrev register : String → List String → Publications → Others → Result (List String × Others)
register p paths rows o = do
  raise_if (is_blank p) (value_error "publication_id must not be empty")
  raise_if (is_empty paths) (value_error "A publication must contain at least one asset")
  raise_if (has_duplicates paths) (value_error "Publication assets contain duplicate paths")
  raise_if (not (any (has_id p) rows))
      (runtime_error "Cannot register assets for an unknown publication")
  elim (files_of p o) [
    | [] ↦ ok (paths, record o { files = (p, paths) ∷ o.files })
    | f ∷ _ ↦ do
      raise_if (not (in_order f.1 paths)) (runtime_error "Publication assets are immutable")
      ok (f.1, o)
  ]

abbrev count_evidence : Others → Others
count_evidence o = record o { evidence = o.evidence + 1 }

-- Collaborators whose inspection has a fixed result, and whose stores refuse blank identifiers.
abbrev collaborators : Bool → Collaborators Others String (List String) Bool (List String)
collaborators result = record {
  read_manifest = λ path. ok path;
  publication_assets_from_manifest = λ m. ok ("silver/postcodes.parquet" ∷ m ∷ []);
  inspect = λ a at. ok result;
  passed = λ b. b;
  insert_batch = λ b o. ok ("batch", count_evidence o);
  insert_attempt = λ c b r i o.
      raise_if (is_blank i) (value_error "integrity_batch_id must not be empty")
      >> ok (count_evidence o);
  new_publication_id = λ o. ("publication-1", o);
  validate_publication_manifest = λ p m.
      raise_if (not (str_eq p.manifest_path m)) (runtime_error "Publication manifest differs");
  register_assets = register;
  list_for_publication = λ p rows o. elim (files_of p o) [ [] ↦ [] | f ∷ _ ↦ f.1 ];
  has_assets = λ r. not (is_empty r);
  link_batch = λ p b o.
      raise_if (is_blank p || is_blank b) (value_error "identifiers must not be empty")
      >> ok (count_evidence o);
}

abbrev paths : List String
paths = "silver/postcodes.parquet" ∷ "silver/manifest.json" ∷ []

abbrev approved_candidate : DatasetPublicationCandidate
approved_candidate = set_approved (noon 6) "alice" (new_candidate (request "candidate-1" "build-1"))

abbrev system : System Others
system = record {
  candidates = approved_candidate ∷ [];
  builds = succeeded_tables "build-1" success tables;
  publications = [];
  projections = [];
  others = record { evidence = 0; files = [] };
}

abbrev command : ApprovedPublicationCommand
command = record { candidate_id = "candidate-1"; published_at = noon 10 }

abbrev succeeded_build : SilverBuild
succeeded_build =
    joined (complete success (attempt_of build)) (some (materialization_of "build-1" success))

abbrev publication : DatasetPublication
publication =
    new_row
      (request_for "publication-1" approved_candidate succeeded_build "silver/manifest.json"
        (noon 10))
      1 true none

abbrev result : ApprovedPublicationResult (List String)
result = record {
  candidate = set_published "publication-1" approved_candidate;
  publication = publication;
  current_publication = publication;
  publication_assets = paths;
}

abbrev system_after : System Others
system_after = record system {
  candidates = set_published "publication-1" approved_candidate ∷ [];
  publications = publication ∷ [];
  projections =
      pending_state "postcodes" current "publication-1" (noon 10)
      ∷ pending_state "postcodes" history "publication-1" (noon 10)
      ∷ [];
  others = record { evidence = 3; files = ("publication-1", paths) ∷ [] };
}

found : get_by_id_for_update "candidate-1" system.candidates ≡ ok (some approved_candidate)
unfolding get_by_id_for_update require_non_empty strip find new_candidate
found = refl

commits : commit_approved (collaborators true) command system ≡ ok (ok result, system_after)
unfolding commit_approved get_by_id_for_update require_non_empty strip find new_candidate
    publish_candidate get_build load row_to_silver_build check_build joined require_non_blank
    is_blank is_sha256_hex all_hex str_len update validate_candidate_build matches_build date_eq
    validate_baseline find_active fetch_one publish_verified request_for check_publication_request
    publish publish_new publish_revision max_revision retire_previous make_room new_row insert_row
    satisfies_checks any is_btrim_blank row_to_publication check_publication record_publication
    mark_published transition reread lifecycle_check find_current select mark_pending upsert_state
    projection_checks both_states row_to_projection_state check_projection_state
commits = refl

commit_approved_lem_example :
    (is_approved approved_candidate.status ≡ true)
    × IsPublished command approved_candidate system system_after result
commit_approved_lem_example =
    commit_approved_lem (collaborators true) command approved_candidate system system_after result
      found refl commits

abbrev system_refused : System Others
system_refused = record system { others = record { evidence = 2; files = [] } }

refused :
    commit_approved (collaborators false) command system
    ≡ ok (raise (runtime_error "Publication asset integrity verification failed"), system_refused)
unfolding commit_approved get_by_id_for_update require_non_empty strip find new_candidate
    publish_candidate get_build load row_to_silver_build check_build joined require_non_blank
    is_blank is_sha256_hex all_hex str_len update validate_candidate_build matches_build date_eq
    validate_baseline find_active fetch_one
refused = refl

commit_failure_lem_example :
    (commit_approved (collaborators false) command system
      ≡ ok
          (raise (runtime_error "Publication asset integrity verification failed"), system_refused))
    ↔ ((runtime_error "Publication asset integrity verification failed"
          ≡ runtime_error "Publication asset integrity verification failed")
        × IsFailedInspection (collaborators false) command approved_candidate system system_refused)
commit_failure_lem_example =
    commit_failure_lem (collaborators false) command approved_candidate system system_refused
      (runtime_error "Publication asset integrity verification failed") found

no_publications-IsConsistent : IsConsistent []
unfolding count
no_publications-IsConsistent = record {
  loadable = tt;
  ids = λ i. ground arith;
  builds = λ b. ground arith;
  revisions = λ d v n. ground arith;
  active = λ d v. ground arith;
  current = λ d. ground arith;
}

no_projections-IsHealthy : IsHealthy []
unfolding count
no_projections-IsHealthy = record { keys = λ d k. ground arith; readable = tt }

approved-IsWellFormed : IsWellFormed system.candidates
unfolding count lifecycle_check new_candidate
approved-IsWellFormed = record {
  lifecycle = (refl, tt);
  ids = λ i. ground arith;
  builds = λ b. ground arith;
}

ready :
    IsReady
      (collaborators true)
      command
      approved_candidate
      succeeded_build
      "silver/manifest.json"
      "silver/manifest.json"
      paths
      true
      system
unfolding get_by_id_for_update require_non_empty strip find new_candidate get_build load
    row_to_silver_build check_build joined require_non_blank is_blank is_sha256_hex all_hex str_len
    update matches_build date_eq request_for check_publication_request count find_active fetch_one
    any select new_row max_revision retire_previous make_room
ready = record {
  well_formed = approved-IsWellFormed;
  locked = refl;
  stored = refl;
  is_ready = refl;
  stripped = refl;
  named = refl;
  publishable = record {
    loaded = refl;
    succeeded = refl;
    matching = refl;
    path_of = refl;
    baseline = λ active e. ground (arith, e);
  };
  has_path = refl;
  manifest = refl;
  assets_of = refl;
  inspected = refl;
  has_passed = refl;
  inserted = _;
  batch_stored = refl;
  evidence = _;
  attempt_stored = refl;
  consistent = no_publications-IsConsistent;
  unpublished = refl;
  latest = tt;
  all_named = tt;
  request = refl;
  fresh = refl;
  not_blank = refl;
  periods = tt;
  described = refl;
  registered = _;
  assets_registered = refl;
  linked = _;
  batch_linked = refl;
  healthy = no_projections-IsHealthy;
}

commit_publishes_example :
    (r : ApprovedPublicationResult (List String)) × (s' : System Others) × (commit_approved
        (collaborators true)
        command
        system
      ≡ ok (ok r, s'))
    × (r.publication.silver_build_id ≡ approved_candidate.silver_build_id)
    × (r.candidate ≡ set_published (strip r.publication.publication_id) approved_candidate)
    × IsHealthy s'.projections
    × IsConsistent s'.publications
commit_publishes_example =
    commit_publishes (collaborators true) command approved_candidate succeeded_build
      "silver/manifest.json" "silver/manifest.json" paths true system ready
