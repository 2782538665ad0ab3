-- ===== src/Silver/ApprovedPublication/Failure.antt =====
-- What a commit leaves behind when the files of a candidate fail their inspection.
use metrka_core.Prelude.{
  String, ◌≡◌, ◌↔◌, refl, ap, ◌∙◌, Bool, true, false, not, some, str_eq, arith,
}
use metrka_core.Prelude.Result.{Error, ok, raise, runtime_error, raise_if, bind_ok, bind_to}
use metrka_core.Catalog.PublicationModels.{
  DatasetPublicationRequest, DatasetPublication, check_publication_request,
}
use metrka_core.Catalog.PublicationStore.{find_current, publish}
use metrka_core.Catalog.CandidateModels.{
  DatasetPublicationCandidate, DatasetPublicationCandidateStatus, awaiting_approval, approved,
  rejected, published,
}
use metrka_core.Catalog.CandidateStore.{get_by_id_for_update, mark_published, is_approved}
use metrka_core.Catalog.ProjectionStore.{mark_pending}
use metrka_core.Silver.BuildModels.{SilverBuild}
use metrka_core.Silver.BuildStore.{get_by_id as get_build}
use metrka_core.Silver.ApprovedPublication.{
  ApprovedPublicationCommand, Collaborators, System, require_build, validate_candidate_build,
  validate_baseline, request_for, require_current, record_publication, publish_verified,
  after_inspection, publish_candidate, existing_result, commit_status, commit_approved,
}
use metrka_core.Silver.ApprovedPublication.Checks.{
  build_exact, validate_exact, validated, baseline_exact,
}
use metrka_core.Silver.ApprovedPublication.Inspection.{
  IsUntouched, inspection_error, IsFailedInspection,
}

module _ {S M A B R : Type 0} (via : Collaborators S M A B R) where
  record_returns :
      (command : ApprovedPublicationCommand) (c : DatasetPublicationCandidate) (m : M) (a : A)
      (batch : String) (p : DatasetPublication) (s s' : System S) (e : Error)
      → record_publication via command c m a batch p s ≡ ok (raise e, s')
      → ⊥
  unfolding record_publication
  record_returns command c m a batch p s s' e h =
      bind_ok (via.validate_publication_manifest p m) _ _ h (λ u e0 h0.
        bind_ok (via.register_assets p.publication_id a s.publications s.others) _ _ h0
          (λ registered e1 h1.
            bind_ok (via.link_batch p.publication_id batch registered.1) _ _ h1 (λ linked e2 h2.
              bind_ok (mark_published c.candidate_id p.publication_id s.candidates) _ _ h2
                (λ marked e3 h3.
                  bind_ok (find_current p.dataset_id s.publications) _ _ h3 (λ found e4 h4.
                    bind_ok (require_current found) _ _ h4 (λ current e5 h5.
                      bind_ok
                        (mark_pending p.dataset_id current.publication_id p.publication_id
                          command.published_at s.projections)
                        _ _ h5 (λ marks e6 h6. ground (arith, h6))))))))

  publish_returns :
      (command : ApprovedPublicationCommand) (c : DatasetPublicationCandidate) (b : SilverBuild)
      (path : String) (m : M) (a : A) (batch : String) (s s' : System S) (e : Error)
      → publish_verified via command c b path m a batch s ≡ ok (raise e, s')
      → ⊥
  unfolding publish_verified
  publish_returns command c b path m a batch s s' e h =
      let i : String = (via.new_publication_id s.others).0 in
      let request : DatasetPublicationRequest = request_for i c b path command.published_at in
      bind_ok (check_publication_request request) _ _ h (λ u e0 h0.
        bind_ok (publish request s.publications) _ _ h0 (λ done e1 h1.
          bind_ok (raise_if (not (str_eq done.0.publication_id i)) _) _ _ h1 (λ v e2 h2.
            record_returns command c m a batch done.0
              (record s { publications = done.1; others = (via.new_publication_id s.others).1 }) s'
              e h2)))

  inspected_failure :
      (command : ApprovedPublicationCommand) (c : DatasetPublicationCandidate) (b : SilverBuild)
      (path : String) (m : M) (a : A) (batch : String) (others : S) (s s' : System S) (e : Error)
      (passed : Bool)
      → after_inspection via passed command c b path m a batch (record s { others = others })
        ≡ ok (raise e, s')
      → (passed ≡ false) × (e ≡ inspection_error) × (others ≡ s'.others) × IsUntouched s s'
  inspected_failure command c b path m a batch others s s' e false h = (
    refl,
    ground (arith, h),
    ground (arith, h),
    record {
      candidates_kept = ground (arith, h);
      builds_kept = ground (arith, h);
      publications_kept = ground (arith, h);
      projections_kept = ground (arith, h);
    },
  )
  inspected_failure command c b path m a batch others s s' e true h =
      absurd (publish_returns command c b path m a batch (record s { others = others }) s' e h)

  candidate_failure :
      (command : ApprovedPublicationCommand) (c : DatasetPublicationCandidate) (s s' : System S)
      (e : Error)
      → is_approved c.status ≡ true
      → publish_candidate via command c s ≡ ok (raise e, s')
      → (e ≡ inspection_error) × IsFailedInspection via command c s s'
  unfolding publish_candidate
  candidate_failure command c s s' e ready h =
      bind_ok (get_build c.silver_build_id s.builds) _ _ h (λ found e0 h0.
        bind_ok (require_build found) _ _ h0 (λ b e1 h1.
          bind_ok (validate_candidate_build c b) _ _ h1 (λ path e2 h2.
            bind_ok (validate_baseline c s.publications) _ _ h2 (λ u e3 h3.
              bind_ok (via.read_manifest path) _ _ h3 (λ m e4 h4.
                bind_ok (via.publication_assets_from_manifest m) _ _ h4 (λ a e5 h5.
                  bind_ok (via.inspect a command.published_at) _ _ h5 (λ batch e6 h6.
                    bind_ok (via.insert_batch batch s.others) _ _ h6 (λ inserted e7 h7.
                      bind_ok
                        (via.insert_attempt c.candidate_id c.silver_build_id b.pipeline_run_id
                          inserted.0 inserted.1)
                        _ _ h7
                        (λ others e8 h8.
                          let (succeeded, matching, at, not_blank) = validate_exact c b path e2 in
                          let (active, read, same) = baseline_exact c s.publications e3 in
                          let (failed, error, left, untouched) =
                            inspected_failure command c b path m a inserted.0 others s s' e
                              (via.passed batch) h8 in
                          (
                            error,
                            record {
                              build = b;
                              manifest_path = path;
                              active = active;
                              manifest = m;
                              assets = a;
                              batch = batch;
                              inserted = inserted;
                              is_ready = ready;
                              loaded = e0 ∙ ap ok (build_exact found b e1);
                              succeeded = succeeded;
                              matching = matching;
                              path_of = at;
                              has_path = not_blank;
                              active_read = read;
                              baseline = same;
                              manifest_read = e4;
                              assets_of = e5;
                              inspected = e6;
                              has_failed = failed;
                              batch_stored = e7;
                              attempt_stored = e8 ∙ ap ok left;
                              untouched = untouched;
                            },
                          ))))))))))

  status_failure :
      (command : ApprovedPublicationCommand) (c : DatasetPublicationCandidate) (s s' : System S)
      (e : Error) (status : DatasetPublicationCandidateStatus)
      → c.status ≡ status
      → commit_status via status command c s ≡ ok (raise e, s')
      → (e ≡ inspection_error) × IsFailedInspection via command c s s'
  status_failure command c s s' e awaiting_approval same h = absurd (ground (arith, h))
  status_failure command c s s' e approved same h =
      candidate_failure command c s s' e (ground (arith, same)) h
  status_failure command c s s' e rejected same h = absurd (ground (arith, h))
  status_failure command c s s' e published same h =
      bind_ok (existing_result via c s) _ _ h (λ r e0 h0. absurd (ground (arith, h0)))

  status_started :
      (command : ApprovedPublicationCommand) (c : DatasetPublicationCandidate) (s s' : System S)
      (status : DatasetPublicationCandidateStatus)
      → is_approved status ≡ true
      → publish_candidate via command c s ≡ ok (raise inspection_error, s')
      → commit_status via status command c s ≡ ok (raise inspection_error, s')
  status_started command c s s' approved e h = h
  status_started command c s s' awaiting_approval e h = absurd (ground (arith, e))
  status_started command c s s' rejected e h = absurd (ground (arith, e))
  status_started command c s s' published e h = absurd (ground (arith, e))

  failure_returned :
      (command : ApprovedPublicationCommand) (c : DatasetPublicationCandidate) (s s' : System S)
      → IsFailedInspection via command c s s'
      → publish_candidate via command c s ≡ ok (raise inspection_error, s')
  unfolding publish_candidate validate_baseline
  failure_returned command c s s' f = bind_to _ _ (some f.build) _ f.loaded (
      bind_to _ _ f.manifest_path _
        (validated c f.build f.manifest_path f.succeeded f.matching f.path_of f.has_path)
        (bind_to _ _ tt _ (bind_to _ _ f.active _ f.active_read (ground (arith, f.baseline))) (
          bind_to _ _ f.manifest _ f.manifest_read (
            bind_to _ _ f.assets _ f.assets_of (
              bind_to _ _ f.batch _ f.inspected (
                bind_to _ _ f.inserted _ f.batch_stored (
                  bind_to _ _ s'.others _ f.attempt_stored (
                    rw
                      (
                        f.has_failed, f.untouched.candidates_kept, f.untouched.builds_kept,
                        f.untouched.publications_kept, f.untouched.projections_kept,
                      )
                      refl))))))))

  -- For a stored candidate, the transaction commits and the method then raises exactly if the candidate
  -- is approved and publishable and the inspection of its files did not pass. The exception is that of
  -- the failed integrity verification; the failed batch and the candidate's attempt are stored, and the
  -- candidates, the builds, the publications and the projection states are as before.
  pub commit_failure_lem :
      (command : ApprovedPublicationCommand) (c : DatasetPublicationCandidate) (s s' : System S)
      (e : Error)
      → get_by_id_for_update command.candidate_id s.candidates ≡ ok (some c)
      → (commit_approved via command s ≡ ok (raise e, s')) ↔ (
          (e ≡ runtime_error "Publication asset integrity verification failed")
          × IsFailedInspection via command c s s')
  unfolding commit_approved
  commit_failure_lem command c s s' e locked = (
    λ h. status_failure command c s s' e c.status refl (ground (arith, locked, h)),
    λ (same, f). bind_to _ _ (some c) _ locked (
        rw same
          (status_started command c s s' c.status f.is_ready (failure_returned command c s s' f))),
  )
