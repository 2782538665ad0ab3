-- ===== src/Silver/ApprovedPublication/Success.antt =====
-- When a commit publishes.
use metrka_core.Prelude.{String, ◌≡◌, refl, ap, ◌∙◌, sym, subst, Bool, true, some, arith}
use metrka_core.Prelude.Lists.{find, All-find}
use metrka_core.Prelude.Text.{strip}
use metrka_core.Prelude.Result.{Result, ok, bind_to}
use metrka_core.Catalog.PublicationModels.{DatasetPublicationRequest, DatasetPublication}
use metrka_core.Catalog.PublicationStore.{
  Publications, active_in, current_in, find_active, find_current, publish, new_row,
}
use metrka_core.Catalog.PublicationStore.Consistency.{IsConsistent, fetch_one-eq-find}
use metrka_core.Catalog.PublicationStore.Publishing.{published_row, cleared_rows}
use metrka_core.Catalog.PublicationStore.Commit.{rows_after, publish_commits}
use metrka_core.Catalog.PublicationStore.Latest.{publish_keeps_latest}
use metrka_core.Catalog.CandidateModels.{
  DatasetPublicationCandidate, DatasetPublicationCandidateStatus, awaiting_approval, approved,
  rejected, published,
}
use metrka_core.Catalog.CandidateStore.{Candidates, mark_published, set_published, is_approved}
use metrka_core.Catalog.ProjectionStore.Health.{IsHealthy}
use metrka_core.Catalog.ProjectionStore.Marks.{IsProper}
use metrka_core.Silver.BuildModels.{SilverBuild}
use metrka_core.Silver.BuildStore.{BuildTables}
use metrka_core.Silver.ApprovedPublication.Commit.{IsPublishable}
use metrka_core.Silver.ApprovedPublication.Checks.{validated}
use metrka_core.Silver.ApprovedPublication.{
  ApprovedPublicationCommand, Collaborators, System, ApprovedPublicationResult, validate_baseline,
  request_for, record_publication, publish_verified, after_inspection, publish_candidate,
  commit_status, commit_approved,
}
use metrka_core.Silver.ApprovedPublication.Ready.{IsNamed, next_request, IsReady}
use metrka_core.Silver.ApprovedPublication.Steps.{
  current_exists, same_id, marked_lem, rows_after-IsNamed, pending_lem, request_named,
}

module _ {S M A B R : Type 0} (via : Collaborators S M A B R) where
  record_lem :
      (command : ApprovedPublicationCommand) (c : DatasetPublicationCandidate) (m : M) (a : A)
      (batch : String) (p x : DatasetPublication) (s : System S) (registered : R × S) (linked : S)
      (marked : DatasetPublicationCandidate × Candidates)
      → via.validate_publication_manifest p m ≡ ok tt
      → via.register_assets p.publication_id a s.publications s.others ≡ ok registered
      → via.link_batch p.publication_id batch registered.1 ≡ ok linked
      → mark_published c.candidate_id p.publication_id s.candidates ≡ ok marked
      → find_current p.dataset_id s.publications ≡ ok (some x)
      → IsProper p.dataset_id x.publication_id command.published_at
      → IsProper p.dataset_id p.publication_id command.published_at
      → IsHealthy s.projections
      → (r : ApprovedPublicationResult R) × (s' : System S) × (record_publication via command c m a
            batch p s
          ≡ ok (ok r, s'))
        × (r.publication ≡ p)
        × (r.candidate ≡ marked.0)
        × IsHealthy s'.projections
        × (s'.publications ≡ s.publications)
  unfolding record_publication
  record_lem command c m a batch p x s registered linked marked fits e0 e1 e2 e3 proper proper'
        healthy =
      let pending =
        pending_lem p.dataset_id x.publication_id p.publication_id command.published_at
          s.projections proper proper' healthy in
      (
        _,
        _,
        bind_to _ _ tt _ fits (
            bind_to _ _ registered _ e0 (
              bind_to _ _ linked _ e1 (
                bind_to _ _ marked _ e2
                  (bind_to _ _ (some x) _ e3 (bind_to _ _ pending.0 _ pending.1 refl))))),
        refl,
        refl,
        pending.2,
        refl,
      )

  published_lem :
      (command : ApprovedPublicationCommand) (c : DatasetPublicationCandidate) (b : SilverBuild)
      (path : String) (m : M) (a : A) (batch : B) (s : System S)
      (ready : IsReady via command c b path m a batch s)
      → let request = next_request via command c b path ready.evidence in
        (r : ApprovedPublicationResult R) × (s' : System S) × (publish request s.publications
          ≡ ok (published_row request s.publications, rows_after request s.publications))
        × (record_publication via command c m a ready.inserted.0
              (published_row request s.publications)
              (record s {
                publications = rows_after request s.publications;
                others = (via.new_publication_id ready.evidence).1;
              })
            ≡ ok (ok r, s'))
        × (r.publication ≡ published_row request s.publications)
        × (r.candidate ≡ set_published (strip request.publication_id) c)
        × IsHealthy s'.projections
        × IsConsistent s'.publications
  unfolding find_current new_row request_for
  published_lem command c b path m a batch s ready =
      let request : DatasetPublicationRequest = next_request via command c b path ready.evidence in
      let rows : Publications = rows_after request s.publications in
      let committed =
        publish_commits request s.publications ready.request ready.fresh ready.unpublished
          ready.consistent in
      let current =
        current_exists request.dataset_id (cleared_rows request s.publications)
          (published_row request s.publications) (find (current_in request.dataset_id) rows) refl
          (publish_keeps_latest request s.publications ready.consistent ready.periods
            ready.latest) in
      let marked =
        marked_lem c request.publication_id s.candidates ready.well_formed ready.stored
          ready.is_ready ready.stripped ready.named ready.not_blank in
      let (dataset, publication, aware) = request_named request ready.request in
      let own =
        All-find IsNamed (current_in request.dataset_id) rows current.0
          (rows_after-IsNamed request s.publications ready.all_named publication) current.1 in
      let recorded =
        record_lem command c m a ready.inserted.0 (published_row request s.publications) current.0
          (record s { publications = rows; others = (via.new_publication_id ready.evidence).1 })
          ready.registered ready.linked marked.0 ready.described ready.assets_registered
          ready.batch_linked marked.1
          (fetch_one-eq-find (current_in request.dataset_id) rows committed.1.loadable
            ∙ ap ok current.1)
          (record { dataset_named = dataset; publication_named = own; aware = aware })
          (record { dataset_named = dataset; publication_named = publication; aware = aware })
          ready.healthy in
      (
        recorded.0,
        recorded.1,
        committed.0,
        recorded.2,
        recorded.3,
        recorded.4 ∙ marked.2,
        recorded.5,
        subst IsConsistent (sym recorded.6) committed.1,
      )

  publish_verified_lem :
      (command : ApprovedPublicationCommand) (c : DatasetPublicationCandidate) (b : SilverBuild)
      (path : String) (m : M) (a : A) (batch : B) (s : System S)
      (ready : IsReady via command c b path m a batch s)
      → (r : ApprovedPublicationResult R) × (s' : System S) × (publish_verified via command c b path
            m a ready.inserted.0
            (record s { others = ready.evidence })
          ≡ ok (ok r, s'))
        × (r.publication.silver_build_id ≡ c.silver_build_id)
        × (r.candidate ≡ set_published (strip r.publication.publication_id) c)
        × IsHealthy s'.projections
        × IsConsistent s'.publications
  unfolding publish_verified request_for new_row
  publish_verified_lem command c b path m a batch s ready =
      let i : String = (via.new_publication_id ready.evidence).0 in
      let request : DatasetPublicationRequest = next_request via command c b path ready.evidence in
      let done = published_lem command c b path m a batch s ready in
      (
        done.0,
        done.1,
        bind_to _ _ tt _ ready.request (
            bind_to _ _ (published_row request s.publications, rows_after request s.publications) _
              done.2 (bind_to _ _ tt _ (same_id i _) done.3)),
        ap (λ (p : DatasetPublication). p.silver_build_id) done.4,
        done.5
            ∙ ap (λ (p : DatasetPublication). set_published (strip p.publication_id) c)
                (sym done.4),
        done.6,
        done.7,
      )

  baseline_checked :
      (c : DatasetPublicationCandidate) (b : SilverBuild) (path : String) (builds : BuildTables)
      (rows : Publications)
      → IsPublishable c b path builds rows
      → IsConsistent rows
      → validate_baseline c rows ≡ ok tt
  unfolding validate_baseline find_active
  baseline_checked c b path builds rows fits consistent =
      let e =
        fetch_one-eq-find (active_in c.dataset_id c.partition_value) rows consistent.loadable in
      bind_to _ _ _ _ e (ground (arith, fits.baseline _ e))

  commit_started :
      (command : ApprovedPublicationCommand) (c : DatasetPublicationCandidate) (s s' : System S)
      (r : Result (ApprovedPublicationResult R)) (status : DatasetPublicationCandidateStatus)
      → is_approved status ≡ true
      → publish_candidate via command c s ≡ ok (r, s')
      → commit_status via status command c s ≡ ok (r, s')
  commit_started command c s s' r approved e h = h
  commit_started command c s s' r awaiting_approval e h = absurd (ground (arith, e))
  commit_started command c s s' r rejected e h = absurd (ground (arith, e))
  commit_started command c s s' r published e h = absurd (ground (arith, e))

  -- If everything in `IsReady` holds, then the commit returns. The candidate is stored and approved in a
  -- well-formed table and publishable; the publications are consistent, with identifiers that are not
  -- blank and the latest one current, one period for each version, and none of the build; the
  -- projection states are healthy; the new identifier is new and the request is valid; and each call
  -- of another collaborator, with the arguments that it is given, returns. The result has a publication
  -- of the candidate's build, and the candidate marked as published with it; afterwards the projection
  -- states are healthy and the publications consistent.
  pub commit_publishes :
      (command : ApprovedPublicationCommand) (c : DatasetPublicationCandidate) (b : SilverBuild)
      (path : String) (m : M) (a : A) (batch : B) (s : System S)
      → IsReady via command c b path m a batch s
      → (r : ApprovedPublicationResult R) × (s' : System S) × (commit_approved via command s
          ≡ ok (ok r, s'))
        × (r.publication.silver_build_id ≡ c.silver_build_id)
        × (r.candidate ≡ set_published (strip r.publication.publication_id) c)
        × IsHealthy s'.projections
        × IsConsistent s'.publications
  unfolding commit_approved publish_candidate
  commit_publishes command c b path m a batch s ready =
      let done = publish_verified_lem command c b path m a batch s ready in
      (
        done.0,
        done.1,
        bind_to _ _ (some c) _ ready.locked (
            commit_started command c s done.1 (ok done.0) c.status ready.is_ready (
              bind_to _ _ (some b) _ ready.publishable.loaded (
                bind_to _ _ path _
                  (validated c b path ready.publishable.succeeded ready.publishable.matching
                    ready.publishable.path_of ready.has_path)
                  (bind_to _ _ tt _
                    (baseline_checked c b path s.builds s.publications ready.publishable
                      ready.consistent)
                    (bind_to _ _ m _ ready.manifest (
                      bind_to _ _ a _ ready.assets_of (
                        bind_to _ _ batch _ ready.inspected (
                          bind_to _ _ ready.inserted _ ready.batch_stored (
                            bind_to _ _ ready.evidence _ ready.attempt_stored (
                              ap
                                (λ (t : Bool).
                                  after_inspection via t command c b path m a ready.inserted.0
                                    (record s { others = ready.evidence }))
                                ready.has_passed
                              ∙ done.2)))))))))),
        done.3,
        done.4,
        done.5,
        done.6,
      )
