-- ===== src/Silver/ApprovedPublication/Ready.antt =====
-- What the publication of an approved candidate relies on.
use metrka_core.Prelude.{String, ◌≡◌, true, false, some, str_eq}
use metrka_core.Prelude.Lists.{find, count, All}
use metrka_core.Prelude.Text.{is_blank, strip}
use metrka_core.Prelude.Result.{ok}
use metrka_core.Catalog.PublicationModels.{
  DatasetPublicationRequest, DatasetPublication, check_publication_request,
}
use metrka_core.Catalog.PublicationStore.{has_id, has_build}
use metrka_core.Catalog.PublicationStore.Consistency.{IsConsistent}
use metrka_core.Catalog.PublicationStore.Publishing.{published_row}
use metrka_core.Catalog.PublicationStore.Commit.{rows_after}
use metrka_core.Catalog.PublicationStore.Latest.{HasPeriod, CurrentIsLatest}
use metrka_core.Catalog.CandidateModels.{DatasetPublicationCandidate}
use metrka_core.Catalog.CandidateStore.{has_candidate_id, get_by_id_for_update, is_approved}
use metrka_core.Catalog.CandidateStore.Lifecycle.{IsWellFormed}
use metrka_core.Catalog.ProjectionStore.Health.{IsHealthy}
use metrka_core.Silver.BuildModels.{SilverBuild}
use metrka_core.Silver.ApprovedPublication.Commit.{IsPublishable}
use metrka_core.Silver.ApprovedPublication.{
  ApprovedPublicationCommand, Collaborators, System, request_for,
}

-- A publication with an identifier that is not blank.
abbrev pub IsNamed : DatasetPublication → Type 0
IsNamed p = is_blank p.publication_id ≡ false

-- The request that a state of the other collaborators leads to, by the identifier that is new in it.
abbrev pub next_request :
    {S M A B R : Type 0}
    → Collaborators S M A B R
    → ApprovedPublicationCommand
    → DatasetPublicationCandidate
    → SilverBuild
    → String
    → S
    → DatasetPublicationRequest
next_request via command c b path o =
    request_for (via.new_publication_id o).0 c b path command.published_at

-- Everything that the publication of the candidate `c` relies on: the states of the four stores, and
-- what each call of another collaborator returns to the arguments that it is given.
pub record IsReady {S M A B R : Type 0} (via : Collaborators S M A B R)
    (command : ApprovedPublicationCommand) (c : DatasetPublicationCandidate) (b : SilverBuild)
    (path : String) (m : M) (a : A) (batch : B) (s : System S) : Type 0 where
  -- The candidate is stored, approved, and under a stripped identifier.
  pub well_formed : IsWellFormed s.candidates
  pub locked : get_by_id_for_update command.candidate_id s.candidates ≡ ok (some c)
  pub stored : find (has_candidate_id c.candidate_id) s.candidates ≡ some c
  pub is_ready : is_approved c.status ≡ true
  pub stripped : strip c.candidate_id ≡ c.candidate_id
  pub named : str_eq (strip c.candidate_id) "" ≡ false
  -- The build matches it, and the active publication is its baseline.
  pub publishable : IsPublishable c b path s.builds s.publications
  pub has_path : is_blank path ≡ false
  -- The manifest and the files are in order, and the evidence is stored.
  pub manifest : via.read_manifest path ≡ ok m
  pub assets_of : via.publication_assets_from_manifest m ≡ ok a
  pub inspected : via.inspect a command.published_at ≡ ok batch
  pub has_passed : via.passed batch ≡ true
  pub inserted : String × S
  pub batch_stored : via.insert_batch batch s.others ≡ ok inserted
  pub evidence : S
  pub attempt_stored :
      via.insert_attempt c.candidate_id c.silver_build_id b.pipeline_run_id inserted.0 inserted.1
      ≡ ok evidence
  -- The publications are consistent, have none of the build, and do not have the new identifier.
  pub consistent : IsConsistent s.publications
  pub unpublished : count (has_build c.silver_build_id) s.publications ≡ 0
  pub latest : CurrentIsLatest c.dataset_id s.publications
  pub all_named : All IsNamed s.publications
  pub request : check_publication_request (next_request via command c b path evidence) ≡ ok tt
  pub fresh : count (has_id (via.new_publication_id evidence).0) s.publications ≡ 0
  pub not_blank : str_eq (strip (via.new_publication_id evidence).0) "" ≡ false
  pub periods : All (HasPeriod (next_request via command c b path evidence)) s.publications
  -- The manifest is that of the new publication, whose files are registered and whose batch is linked.
  pub described :
      via.validate_publication_manifest
        (published_row (next_request via command c b path evidence) s.publications)
        m
      ≡ ok tt
  pub registered : R × S
  pub assets_registered :
      via.register_assets
        (via.new_publication_id evidence).0
        a
        (rows_after (next_request via command c b path evidence) s.publications)
        (via.new_publication_id evidence).1
      ≡ ok registered
  pub linked : S
  pub batch_linked :
      via.link_batch (via.new_publication_id evidence).0 inserted.0 registered.1 ≡ ok linked
  -- The projection states are healthy.
  pub healthy : IsHealthy s.projections
