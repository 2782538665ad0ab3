-- ===== src/Silver/DecisionUnit/Commit.antt =====
-- What a transaction that returned has done.
use metrka_core.Prelude.{
  ℕ, String, ◌≡◌, refl, sym, ap, ◌∙◌, ◌⊎◌, inl, inr, true, false, Option, none, some, arith, subst,
}
use metrka_core.Prelude.Time.{DateTime}
use metrka_core.Prelude.Result.{ok, bind_ok, ok-injective}
use metrka_core.Catalog.PublicationModels.{DatasetPublication}
use metrka_core.Catalog.PublicationStore.{find_active}
use metrka_core.Catalog.CandidateModels.{DatasetPublicationCandidate, check_candidate_request}
use metrka_core.Catalog.CandidateStore.{register}
use metrka_core.Quality.VerificationModels.{
  SilverPublicationVerification, check_verification_request,
}
use metrka_core.Quality.VerificationStore.{record_verification}
use metrka_core.Metadata.FileMarshal.{promote}
use metrka_core.Silver.BuildModels.{SilverBuild}
use metrka_core.Silver.BuildStore.{mark_succeeded}
use metrka_core.Silver.PublicationDecision.{
  SilverPublicationDecision, SilverPublicationDecisionStatus, verified_equivalent,
  awaiting_approval, is_equivalent, decide_silver_publication,
}
use metrka_core.Silver.PublicationDecision.Soundness.{
  reproduces, IsDecided, decide_silver_publication_lem,
}
use metrka_core.Silver.DecisionUnit.{
  SilverPublicationDecisionCommand, SilverPublicationDecisionResult, DecisionSystem, decision_meta,
  success_of, verification_request, candidate_request, require_baseline, verify_baseline,
  propose_candidate, conclude, commit_decision, check_result,
}

-- The build reproduces the active publication: its verification is recorded, and no candidate.
pub record IsVerified (c : SilverPublicationDecisionCommand) (active : Option DatasetPublication)
    (s s' : DecisionSystem) (r : SilverPublicationDecisionResult) : Type 0 where
  pub publication : DatasetPublication
  pub verification : SilverPublicationVerification
  pub is_active : active ≡ some publication
  pub recorded :
      record_verification (verification_request c publication) s.verifications
      ≡ ok (verification, s'.verifications)
  pub returned : r.verification ≡ some verification
  pub candidates_kept : s'.candidates ≡ s.candidates

-- The build changes it: a candidate with the decision's baseline is registered, and no verification.
pub record IsProposed (c : SilverPublicationDecisionCommand) (candidate_id : String)
    (s s' : DecisionSystem) (r : SilverPublicationDecisionResult) : Type 0 where
  pub candidate : DatasetPublicationCandidate
  pub valid : check_candidate_request (candidate_request c r.decision candidate_id) ≡ ok tt
  pub registered :
      register (candidate_request c r.decision candidate_id) s.candidates
      ≡ ok (candidate, s'.candidates)
  pub returned : r.candidate ≡ some candidate
  pub verifications_kept : s'.verifications ≡ s.verifications

-- The branch that the comparison with the active publication takes.
abbrev pub IsConcluded :
    (ℕ → String)
    → SilverPublicationDecisionCommand
    → Option DatasetPublication
    → DecisionSystem
    → DecisionSystem
    → SilverPublicationDecisionResult
    → Type 0
IsConcluded new_id c active s s' r =
    ((reproduces active c.fingerprint ≡ true) × IsVerified c active s s' r)
    ⊎ ((reproduces active c.fingerprint ≡ false) × IsProposed c (new_id s.issued) s s' r)

pub record IsCommitted (now_utc : ℕ → DateTime) (new_id : ℕ → String)
    (c : SilverPublicationDecisionCommand) (s s' : DecisionSystem)
    (r : SilverPublicationDecisionResult) : Type 0 where
  pub active : Option DatasetPublication
  pub found : find_active c.dataset_id c.partition_value s.publications ≡ ok active
  pub decided : IsDecided active c.fingerprint r.decision
  pub completed :
      mark_succeeded c.silver_build_id (success_of c) s.builds ≡ ok (r.completed_build, s'.builds)
  pub promoted :
      promote now_utc c.bronze_file_id c.version_period
        (decision_meta r.decision c.marshal_meta)
        s.marshal
      ≡ ok s'.marshal
  pub publications_kept : s'.publications ≡ s.publications
  pub concluded : IsConcluded new_id c active s s' r

baseline_inv :
    (active : Option DatasetPublication) (p : DatasetPublication)
    → require_baseline active ≡ ok p
    → active ≡ some p
baseline_inv none p h = absurd (ground (arith, h))
baseline_inv (some q) p h = ground (arith, h)

-- What the transaction returns.
abbrev Done : Type 0
Done = SilverPublicationDecisionResult × DecisionSystem

module _ (now_utc : ℕ → DateTime) (new_id : ℕ → String) (c : SilverPublicationDecisionCommand)
    (d : SilverPublicationDecision) (build : SilverBuild) (active : Option DatasetPublication)
    (s s' : DecisionSystem) (r : SilverPublicationDecisionResult) where
  abbrev Ended : Type 0 → Type 0
  Ended P =
      (r.decision ≡ d)
      × (r.completed_build ≡ build)
      × (s'.builds ≡ s.builds)
      × (s'.marshal ≡ s.marshal)
      × (s'.publications ≡ s.publications)
      × P

  verify_inv : verify_baseline c d build active s ≡ ok (r, s') → Ended (IsVerified c active s s' r)
  unfolding verify_baseline
  verify_inv h = bind_ok (require_baseline active) _ _ h (λ p e0 h0.
      bind_ok (check_verification_request (verification_request c p)) _ _ h0 (λ u e1 h1.
        bind_ok (record_verification (verification_request c p) s.verifications) _ _ h1 (λ v e2 h2.
          bind_ok
            (check_result (record {
              completed_build = build;
              decision = d;
              verification = some v.0;
              candidate = none;
            }))
            _ _ h2
            (λ u e3 h3.
              let same = ok-injective _ _ h3 in
              (
                ap (λ (x : Done). x.0.decision) (sym same),
                ap (λ (x : Done). x.0.completed_build) (sym same),
                ap (λ (x : Done). x.1.builds) (sym same),
                ap (λ (x : Done). x.1.marshal) (sym same),
                ap (λ (x : Done). x.1.publications) (sym same),
                record {
                  publication = p;
                  verification = v.0;
                  is_active = baseline_inv active p e0;
                  recorded = e2 ∙ ap (λ (x : Done). ok (v.0, x.1.verifications)) same;
                  returned = ap (λ (x : Done). x.0.verification) (sym same);
                  candidates_kept = ap (λ (x : Done). x.1.candidates) (sym same);
                },
              )))))

  propose_inv :
      propose_candidate now_utc new_id c d build s ≡ ok (r, s')
      → Ended (IsProposed c (new_id s.issued) s s' r)
  unfolding propose_candidate
  propose_inv h =
      let q = candidate_request c d (new_id s.issued) in
      bind_ok (check_candidate_request q) _ _ h (λ u e0 h0.
        bind_ok (register q s.candidates) _ _ h0 (λ v e1 h1.
          bind_ok
            (check_result (record {
              completed_build = build;
              decision = d;
              verification = none;
              candidate = some v.0;
            }))
            _ _ h1
            (λ u e2 h2.
              let same = ok-injective _ _ h2 in
              let is : r.decision ≡ d = ap (λ (x : Done). x.0.decision) (sym same) in
              (
                is,
                ap (λ (x : Done). x.0.completed_build) (sym same),
                ap (λ (x : Done). x.1.builds) (sym same),
                ap (λ (x : Done). x.1.marshal) (sym same),
                ap (λ (x : Done). x.1.publications) (sym same),
                record {
                  candidate = v.0;
                  valid =
                      ap (λ x. check_candidate_request (candidate_request c x (new_id s.issued))) is
                      ∙ e0;
                  registered =
                      ap (λ x. register (candidate_request c x (new_id s.issued)) s.candidates) is
                      ∙ e1
                      ∙ ap (λ (x : Done). ok (v.0, x.1.candidates)) same;
                  returned = ap (λ (x : Done). x.0.candidate) (sym same);
                  verifications_kept = ap (λ (x : Done). x.1.verifications) (sym same);
                },
              ))))

  conclude_inv :
      (status : SilverPublicationDecisionStatus)
      → d.status ≡ status
      → IsDecided active c.fingerprint d
      → conclude now_utc new_id status c d build active s ≡ ok (r, s')
      → Ended (IsConcluded new_id c active s s' r)
  conclude_inv verified_equivalent e decided h =
      let (is, completed, builds, marshal, publications, done) = verify_inv h in
      (
        is,
        completed,
        builds,
        marshal,
        publications,
        inl (sym decided.equivalent ∙ ap is_equivalent e, done),
      )
  conclude_inv awaiting_approval e decided h =
      let (is, completed, builds, marshal, publications, done) = propose_inv h in
      (
        is,
        completed,
        builds,
        marshal,
        publications,
        inr (sym decided.equivalent ∙ ap is_equivalent e, done),
      )

-- If the transaction returns, then the active publication, if any, was read and left, with all others;
-- the decision is the one that its comparison with the build's fingerprint asks for; the build was
-- marked as succeeded with the command's output, and the file promoted for the command's period. A
-- build with the active publication's fingerprint was recorded as its verification, and the candidates
-- are as before. Any other build was registered as a candidate with the active publication as its
-- baseline, and the verifications are as before.
pub commit_decision_lem :
    (now_utc : ℕ → DateTime) (new_id : ℕ → String) (c : SilverPublicationDecisionCommand)
    (s s' : DecisionSystem) (r : SilverPublicationDecisionResult)
    → commit_decision now_utc new_id c s ≡ ok (r, s')
    → IsCommitted now_utc new_id c s s' r
unfolding commit_decision
commit_decision_lem now_utc new_id c s s' r h =
    bind_ok (find_active c.dataset_id c.partition_value s.publications) _ _ h (λ active e0 h0.
      bind_ok (decide_silver_publication active c.fingerprint) _ _ h0 (λ d e1 h1.
        bind_ok (mark_succeeded c.silver_build_id (success_of c) s.builds) _ _ h1 (λ done e2 h2.
          bind_ok
            (promote now_utc c.bronze_file_id c.version_period (decision_meta d c.marshal_meta)
              s.marshal)
            _ _ h2
            (λ m e3 h3.
              let (d', e', decided') = decide_silver_publication_lem active c.fingerprint in
              let decided : IsDecided active c.fingerprint d =
                subst (IsDecided active c.fingerprint) (ok-injective d' d (sym e' ∙ e1)) decided' in
              let (is, completed, builds, marshal, publications, end) =
                conclude_inv now_utc new_id c d done.0 active
                  (record s { builds = done.1; marshal = m }) s' r d.status refl decided h3 in
              record {
                active = active;
                found = e0;
                decided = subst (IsDecided active c.fingerprint) (sym is) decided;
                completed =
                    e2
                    ∙ ap (λ x. ok (x, done.1)) (sym completed)
                    ∙ ap (λ x. ok (r.completed_build, x)) (sym builds);
                promoted =
                    ap
                      (λ x.
                        promote now_utc c.bronze_file_id c.version_period
                          (decision_meta x c.marshal_meta) s.marshal)
                      is
                    ∙ e3
                    ∙ ap ok (sym marshal);
                publications_kept = publications;
                concluded = elim end [
                  | inl (t, v) ↦ inl (
                    t,
                    record {
                      publication = v.publication;
                      verification = v.verification;
                      is_active = v.is_active;
                      recorded = v.recorded;
                      returned = v.returned;
                      candidates_kept = v.candidates_kept;
                    },
                  )
                  | inr (t, v) ↦ inr (
                    t,
                    record {
                      candidate = v.candidate;
                      valid = v.valid;
                      registered = v.registered;
                      returned = v.returned;
                      verifications_kept = v.verifications_kept;
                    },
                  )
                ];
              }))))
