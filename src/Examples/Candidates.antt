-- ===== src/Examples/Candidates.antt =====
-- A candidate that is registered and approved, and one that is rejected.
use metrka_core.Prelude.{String, ◌≡◌, refl, true, false, none, some, List, [], ◌∷◌, arith}
use metrka_core.Prelude.Lists.{find, count, any, update}
use metrka_core.Prelude.Text.{strip, lstrip, rstrip, str_len, is_btrim_blank}
use metrka_core.Prelude.Time.{date_eq}
use mathlib.Core.Bool.{decide}
use metrka_core.Catalog.CandidateModels.{
  initial_publication, SilverPublicationChangeKind-discrete, DatasetPublicationCandidateRequest,
  DatasetPublicationCandidate,
}
use metrka_core.Catalog.CandidateStore.{
  Candidates, has_candidate_id, new_candidate, register, insert_candidate, candidate_checks,
  lifecycle_check, add_unless, matches_request, transition, reread, set_rejected, approve, reject,
  mark_published,
}
use metrka_core.Catalog.CandidateStore.Lifecycle.{IsWellFormed}
use metrka_core.Catalog.CandidateStore.Commands.{
  Command, register_request, approve_by, reject_by, publish_as, apply, run,
}
use metrka_core.Catalog.CandidateStore.Traces.{
  run-IsWellFormed, decision_is_final, has_approval, asks_approval, publication_needs_approval,
}
use metrka_core.Catalog.CandidateStore.Outcomes.{
  approve_outcome, approve_lem, publish_outcome, mark_published_lem,
}
use metrka_core.Examples.{hash_a, hash_b, june, noon}

abbrev pub request : String → String → DatasetPublicationCandidateRequest
request id build = record {
  candidate_id = id;
  dataset_id = "postcodes";
  version_period = june;
  partition_key = "month";
  partition_value = "2024-06";
  silver_build_id = build;
  baseline_publication_id = none;
  change_kind = initial_publication;
  fingerprint_version = 1;
  logical_hash_algorithm = "sha256";
  schema_hash_algorithm = "sha256";
  logical_data_hash = hash_a;
  schema_hash = hash_b;
  requested_at = noon 3;
}

abbrev registrations : List Command
registrations =
    register_request (request "candidate-1" "build-1")
    ∷ register_request (request "candidate-2" "build-2")
    ∷ []

abbrev approvals : List Command
approvals =
    approve_by "candidate-1" "alice" (noon 6)
    ∷ reject_by "candidate-2" "bob" "stale" (noon 7)
    ∷ publish_as "candidate-1" "publication-1"
    ∷ []

nothing-IsWellFormed : IsWellFormed []
unfolding count
nothing-IsWellFormed = record {
  lifecycle = tt;
  ids = λ i. ground arith;
  builds = λ b. ground arith;
}

run-IsWellFormed_example : IsWellFormed (run registrations [])
run-IsWellFormed_example = run-IsWellFormed registrations [] nothing-IsWellFormed

abbrev registered : Candidates
registered = run registrations []

registered-IsWellFormed : IsWellFormed registered
registered-IsWellFormed = run-IsWellFormed registrations [] nothing-IsWellFormed

approve_lem_example :
    approve " candidate-1" "alice" (noon 6) registered
    ≡ approve_outcome
        (strip " candidate-1")
        (strip "alice")
        (noon 6)
        (find (has_candidate_id (strip " candidate-1")) registered)
        registered
unfolding strip
approve_lem_example =
    approve_lem " candidate-1" "alice" (noon 6) registered registered-IsWellFormed refl refl refl

abbrev first_approval : List Command
first_approval = approve_by "candidate-1" "alice" (noon 6) ∷ []

abbrev one_approved : Candidates
one_approved = run first_approval registered

mark_published_lem_example :
    mark_published "candidate-1" "publication-1" one_approved
    ≡ publish_outcome
        (strip "candidate-1")
        (strip "publication-1")
        (find (has_candidate_id (strip "candidate-1")) one_approved)
        one_approved
unfolding strip
mark_published_lem_example =
    mark_published_lem "candidate-1" "publication-1" one_approved
      (run-IsWellFormed first_approval registered registered-IsWellFormed) refl refl

abbrev rejected_row : DatasetPublicationCandidate
rejected_row = set_rejected (noon 7) "bob" "stale" (new_candidate (request "candidate-2" "build-2"))

abbrev one_rejected : Candidates
one_rejected = rejected_row ∷ []

rejected_found : find (has_candidate_id "candidate-2") one_rejected ≡ some rejected_row
unfolding find new_candidate
rejected_found = refl

decision_is_final_example :
    find
      (has_candidate_id "candidate-2")
      (run (approve_by "candidate-2" "alice" (noon 8) ∷ approvals) one_rejected)
    ≡ some rejected_row
decision_is_final_example =
    decision_is_final (approve_by "candidate-2" "alice" (noon 8) ∷ approvals) "candidate-2"
      one_rejected rejected_row rejected_found refl

abbrev attempts_to_publish : List Command
attempts_to_publish =
    reject_by "candidate-2" "bob" "stale" (noon 7) ∷ publish_as "candidate-1" "publication-1" ∷ []

not_yet : has_approval (find (has_candidate_id "candidate-1") registered) ≡ false
unfolding run apply register insert_candidate candidate_checks lifecycle_check add_unless
    new_candidate find any matches_request is_btrim_blank str_len date_eq decide
    SilverPublicationChangeKind-discrete
not_yet = refl

no_approval : asks_approval "candidate-1" attempts_to_publish ≡ false
unfolding asks_approval
no_approval = refl

publication_needs_approval_example :
    has_approval (find (has_candidate_id "candidate-1") (run attempts_to_publish registered))
    ≡ false
publication_needs_approval_example =
    publication_needs_approval attempts_to_publish "candidate-1" registered not_yet no_approval

-- A run of the whole life of the first candidate.
published_run :
    has_approval (find (has_candidate_id "candidate-1") (run approvals registered)) ≡ true
unfolding run apply register insert_candidate candidate_checks lifecycle_check add_unless
    new_candidate find any matches_request approve reject mark_published transition update reread
    strip lstrip rstrip is_btrim_blank str_len date_eq decide SilverPublicationChangeKind-discrete
published_run = refl
