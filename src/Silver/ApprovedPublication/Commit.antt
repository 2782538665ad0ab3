-- ===== src/Silver/ApprovedPublication/Commit.antt =====
-- What a commit has done when it returns.
use metrka_core.Prelude.{
  String, ◌≡◌, refl, ap, ◌∙◌, sym, subst, Bool, true, false, not, Option, some, str_eq, arith,
}
use metrka_core.Prelude.Text.{opt_eq, str_eq→≡}
use metrka_core.Prelude.Result.{ok, ◌>>=◌, raise_if, bind_ok, bind_to}
use metrka_core.Catalog.PublicationModels.{
  DatasetPublicationRequest, DatasetPublication, check_publication_request,
}
use metrka_core.Catalog.PublicationStore.{Publications, find_active, find_current, publish, id_of}
use metrka_core.Catalog.CandidateModels.{
  DatasetPublicationCandidate, DatasetPublicationCandidateStatus, awaiting_approval, approved,
  rejected, published,
}
use metrka_core.Catalog.CandidateStore.{
  get_by_id_for_update, mark_published, is_approved, is_published,
}
use metrka_core.Catalog.ProjectionModels.{DatasetPublicationProjectionState}
use metrka_core.Catalog.ProjectionStore.{ProjectionStates, mark_pending}
use metrka_core.Catalog.ProjectionStore.Sequences.{pending_for, apply_mark}
use metrka_core.Silver.BuildModels.{SilverBuild, is_succeeded}
use metrka_core.Silver.BuildStore.{BuildTables}
use metrka_core.Silver.BuildStore.{get_by_id as get_build}
use metrka_core.Silver.ApprovedPublication.{
  ApprovedPublicationCommand, Collaborators, System, ApprovedPublicationResult, require_build,
  matches_build, validate_candidate_build, validate_baseline, request_for, require_current,
  record_publication, publish_verified, after_inspection, publish_candidate, commit_status,
  commit_approved,
}
use metrka_core.Silver.ApprovedPublication.Checks.{build_exact, validate_exact}

-- The build succeeded and matches the candidate, and the candidate's baseline is the active
-- publication.
pub record IsPublishable (c : DatasetPublicationCandidate) (b : SilverBuild) (path : String)
    (builds : BuildTables) (publications : Publications) : Type 0 where
  pub loaded : get_build c.silver_build_id builds ≡ ok (some b)
  pub succeeded : is_succeeded b.status ≡ true
  pub matching : matches_build c b ≡ true
  pub path_of : b.manifest_path ≡ some path
  pub baseline :
      (active : Option DatasetPublication)
      → find_active c.dataset_id c.partition_value publications ≡ ok active
      → opt_eq (id_of active) c.baseline_publication_id ≡ true

baseline_inv :
    (c : DatasetPublicationCandidate) (publications : Publications)
    → validate_baseline c publications ≡ ok tt
    → (active : Option DatasetPublication)
    → find_active c.dataset_id c.partition_value publications ≡ ok active
    → opt_eq (id_of active) c.baseline_publication_id ≡ true
unfolding validate_baseline
baseline_inv c publications h active e = ground (arith, h, e)

-- What a commit of the candidate `c` has done: `b` is its build, and `request` was published.
pub record IsPublished {S R : Type 0} (command : ApprovedPublicationCommand)
    (c : DatasetPublicationCandidate) (s s' : System S) (r : ApprovedPublicationResult R)
    : Type 0 where
  pub build : SilverBuild
  pub manifest_path : String
  pub publication_id : String
  pub publishable : IsPublishable c build manifest_path s.builds s.publications
  pub valid :
      check_publication_request
        (request_for publication_id c build manifest_path command.published_at)
      ≡ ok tt
  pub published_now :
      publish (request_for publication_id c build manifest_path command.published_at) s.publications
      ≡ ok (r.publication, s'.publications)
  pub named : r.publication.publication_id ≡ publication_id
  pub marked :
      mark_published c.candidate_id publication_id s.candidates ≡ ok (r.candidate, s'.candidates)
  pub is_current :
      find_current r.publication.dataset_id s'.publications ≡ ok (some r.current_publication)
  pub builds_kept : s'.builds ≡ s.builds
  pub projected :
      apply_mark
        (pending_for r.publication.dataset_id r.current_publication.publication_id
          r.publication.publication_id command.published_at)
        s.projections
      ≡ ok s'.projections

module _ {S M A B R : Type 0} (via : Collaborators S M A B R) where
  projected_inv :
      (command : ApprovedPublicationCommand) (p : DatasetPublication) (s s' : System S)
      (r : ApprovedPublicationResult R) (x : DatasetPublication)
      (marks : (DatasetPublicationProjectionState × DatasetPublicationProjectionState)
        × ProjectionStates)
      → x ≡ r.current_publication
      → mark_pending p.dataset_id x.publication_id p.publication_id command.published_at
          s.projections
        ≡ ok marks
      → marks.1 ≡ s'.projections
      → apply_mark
          (pending_for p.dataset_id r.current_publication.publication_id p.publication_id
            command.published_at)
          s.projections
        ≡ ok s'.projections
  unfolding apply_mark
  projected_inv command p s s' r x marks same e left =
      subst
        (λ (k : DatasetPublication).
          (mark_pending p.dataset_id k.publication_id p.publication_id command.published_at
              s.projections
            >>= λ done. ok done.1)
          ≡ ok s'.projections)
        same (bind_to _ _ marks _ e (ap ok left))

  record_inv :
      (command : ApprovedPublicationCommand) (c : DatasetPublicationCandidate) (m : M) (a : A)
      (batch : String) (p : DatasetPublication) (s s' : System S) (r : ApprovedPublicationResult R)
      → record_publication via command c m a batch p s ≡ ok (ok r, s')
      → (mark_published c.candidate_id p.publication_id s.candidates
          ≡ ok (r.candidate, s'.candidates))
        × (r.publication ≡ p)
        × (s'.publications ≡ s.publications)
        × (s'.builds ≡ s.builds)
        × (find_current p.dataset_id s.publications ≡ ok (some r.current_publication))
        × (apply_mark
              (pending_for p.dataset_id r.current_publication.publication_id p.publication_id
                command.published_at)
              s.projections
            ≡ ok s'.projections)
  unfolding record_publication
  record_inv command c m a batch p s s' r h =
      bind_ok (via.validate_publication_manifest p m) _ _ h (λ u e0 h0.
        bind_ok (via.register_assets p.publication_id a s.publications s.others) _ _ h0
          (λ registered e1 h1.
            bind_ok (via.link_batch p.publication_id batch registered.1) _ _ h1 (λ linked e2 h2.
              bind_ok (mark_published c.candidate_id p.publication_id s.candidates) _ _ h2
                (λ marked e3 h3.
                  bind_ok (find_current p.dataset_id s.publications) _ _ h3 (λ found e4 h4.
                    bind_ok (require_current found) _ _ h4 (λ current e5 h5.
                      bind_ok
                        (mark_pending p.dataset_id current.publication_id p.publication_id
                          command.published_at s.projections)
                        _ _ h5
                        (λ marks e6 h6. (
                          ground (arith, e3, h6),
                          ground (arith, h6),
                          ground (arith, h6),
                          ground (arith, h6),
                          ground (arith, e4, e5, h6),
                          projected_inv command p s s' r current marks (ground (arith, h6)) e6
                              (ground (arith, h6)),
                        ))))))))

  publish_inv :
      (command : ApprovedPublicationCommand) (c : DatasetPublicationCandidate) (b : SilverBuild)
      (path : String) (m : M) (a : A) (batch : String) (s s' : System S)
      (r : ApprovedPublicationResult R)
      → IsPublishable c b path s.builds s.publications
      → publish_verified via command c b path m a batch s ≡ ok (ok r, s')
      → IsPublished command c s s' r
  unfolding publish_verified
  publish_inv command c b path m a batch s s' r fits h =
      let i : String = (via.new_publication_id s.others).0 in
      let request : DatasetPublicationRequest = request_for i c b path command.published_at in
      bind_ok (check_publication_request request) _ _ h (λ u e0 h0.
        bind_ok (publish request s.publications) _ _ h0 (λ done e1 h1.
          bind_ok (raise_if (not (str_eq done.0.publication_id i)) _) _ _ h1 (λ v e2 h2.
            let (marked, same, rows, builds, now, projected) =
              record_inv command c m a batch done.0
                (record s { publications = done.1; others = (via.new_publication_id s.others).1 })
                s' r h2 in
            let named : done.0.publication_id ≡ i =
              str_eq→≡ done.0.publication_id i (ground (arith, e2)) in
            record {
              build = b;
              manifest_path = path;
              publication_id = i;
              publishable = fits;
              valid = e0;
              published_now = e1 ∙ ap ok (λ k. (sym same k, sym rows k));
              named = ap (λ (p : DatasetPublication). p.publication_id) same ∙ named;
              marked =
                  ap (λ (x : String). mark_published c.candidate_id x s.candidates) (sym named)
                  ∙ marked;
              is_current = rw (same, rows) now;
              builds_kept = builds;
              projected = rw same projected;
            })))

  inspected_inv :
      (command : ApprovedPublicationCommand) (c : DatasetPublicationCandidate) (b : SilverBuild)
      (path : String) (m : M) (a : A) (batch : String) (others : S) (s s' : System S)
      (r : ApprovedPublicationResult R) (passed : Bool)
      → IsPublishable c b path s.builds s.publications
      → after_inspection via passed command c b path m a batch (record s { others = others })
        ≡ ok (ok r, s')
      → IsPublished command c s s' r
  inspected_inv command c b path m a batch others s s' r false fits h = absurd (ground (arith, h))
  inspected_inv command c b path m a batch others s s' r true fits h =
      let p = publish_inv command c b path m a batch (record s { others = others }) s' r fits h in
      record {
        build = p.build;
        manifest_path = p.manifest_path;
        publication_id = p.publication_id;
        publishable = p.publishable;
        valid = p.valid;
        published_now = p.published_now;
        named = p.named;
        marked = p.marked;
        is_current = p.is_current;
        builds_kept = p.builds_kept;
        projected = p.projected;
      }

  status_inv :
      (command : ApprovedPublicationCommand) (c : DatasetPublicationCandidate) (s s' : System S)
      (r : ApprovedPublicationResult R) (status : DatasetPublicationCandidateStatus)
      → is_published status ≡ false
      → commit_status via status command c s ≡ ok (ok r, s')
      → is_approved status ≡ true
  status_inv command c s s' r awaiting_approval n h = absurd (ground (arith, h))
  status_inv command c s s' r approved n h = refl
  status_inv command c s s' r rejected n h = absurd (ground (arith, h))
  status_inv command c s s' r published n h = absurd (ground (arith, n))

  approved_inv :
      (command : ApprovedPublicationCommand) (c : DatasetPublicationCandidate) (s : System S)
      (status : DatasetPublicationCandidateStatus)
      → is_approved status ≡ true
      → publish_candidate via command c s ≡ commit_status via status command c s
  approved_inv command c s approved e = refl
  approved_inv command c s awaiting_approval e = absurd (ground (arith, e))
  approved_inv command c s rejected e = absurd (ground (arith, e))
  approved_inv command c s published e = absurd (ground (arith, e))

  candidate_inv :
      (command : ApprovedPublicationCommand) (c : DatasetPublicationCandidate) (s s' : System S)
      (r : ApprovedPublicationResult R)
      → publish_candidate via command c s ≡ ok (ok r, s')
      → IsPublished command c s s' r
  unfolding publish_candidate
  candidate_inv command c s s' r h =
      bind_ok (get_build c.silver_build_id s.builds) _ _ h (λ found e0 h0.
        bind_ok (require_build found) _ _ h0 (λ b e1 h1.
          bind_ok (validate_candidate_build c b) _ _ h1 (λ path e2 h2.
            bind_ok (validate_baseline c s.publications) _ _ h2 (λ u e3 h3.
              bind_ok (via.read_manifest path) _ _ h3 (λ m e4 h4.
                bind_ok (via.publication_assets_from_manifest m) _ _ h4 (λ a e5 h5.
                  bind_ok (via.inspect a command.published_at) _ _ h5 (λ batch e6 h6.
                    bind_ok (via.insert_batch batch s.others) _ _ h6 (λ inserted e7 h7.
                      bind_ok
                        (via.insert_attempt c.candidate_id c.silver_build_id b.pipeline_run_id
                          inserted.0 inserted.1)
                        _ _ h7
                        (λ others e8 h8.
                          inspected_inv command c b path m a inserted.0 others s s' r
                            (via.passed batch)
                            (let (succeeded, matching, at, not_blank) =
                                validate_exact c b path e2 in
                              record {
                                loaded = e0 ∙ ap ok (build_exact found b e1);
                                succeeded = succeeded;
                                matching = matching;
                                path_of = at;
                                baseline = baseline_inv c s.publications e3;
                              })
                            h8)))))))))

  -- If the transaction on a candidate that is not published returns a result, then the candidate was
  -- approved; its build succeeded, has its identity and fingerprint, and has the manifest path; the
  -- active publication, if it can be read, was the candidate's baseline; the build was published by a
  -- valid request, and the candidate marked with the new publication; the result's current publication
  -- is the dataset's; the builds are as before; and the projections of the dataset were marked as
  -- pending for its current and its new publication.
  pub commit_approved_lem :
      (command : ApprovedPublicationCommand) (c : DatasetPublicationCandidate) (s s' : System S)
      (r : ApprovedPublicationResult R)
      → get_by_id_for_update command.candidate_id s.candidates ≡ ok (some c)
      → is_published c.status ≡ false
      → commit_approved via command s ≡ ok (ok r, s')
      → (is_approved c.status ≡ true) × IsPublished command c s s' r
  unfolding commit_approved
  commit_approved_lem command c s s' r e n h =
      let started : commit_status via c.status command c s ≡ ok (ok r, s') = ground (arith, e, h) in
      let now : is_approved c.status ≡ true = status_inv command c s s' r c.status n started in
      (now, candidate_inv command c s s' r (approved_inv command c s c.status now ∙ started))
