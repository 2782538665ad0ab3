-- ===== src/Silver/DecisionUnit/Outcome.antt =====
-- When the transaction returns.
use metrka_core.Prelude.{
  ℕ, String, ◌≡◌, refl, sym, ap, ◌∙◌, inl, inr, true, false, Option, none, some, List, arith, subst,
}
use metrka_core.Prelude.Tests.{leb, Option-cases}
use metrka_core.Prelude.Lists.{any, All}
use metrka_core.Prelude.Text.{is_blank, is_some}
use metrka_core.Prelude.Time.{DateTime}
use metrka_core.Prelude.Result.{ok, bind_to, require_non_blank}
use metrka_core.Catalog.PublicationModels.{DatasetPublication}
use metrka_core.Catalog.PublicationStore.{find_active}
use metrka_core.Catalog.CandidateModels.{check_candidate_request, check_change}
use metrka_core.Catalog.CandidateStore.{
  Candidates, has_candidate_id, has_candidate_build, register, new_candidate,
}
use metrka_core.Catalog.CandidateStore.Registering.{register_to}
use metrka_core.Metadata.MarshalModels.{MarshalEntry}
use metrka_core.Metadata.FileMarshal.{promote}
use metrka_core.Metadata.FileMarshal.Traces.{IsGoverned}
use metrka_core.Metadata.FileMarshal.Promoting.{IsPromotable, promote_lem}
use metrka_core.Quality.VerificationModels.{
  SilverPublicationVerificationRequest, check_verification_request,
}
use metrka_core.Quality.VerificationStore.{record_verification}
use metrka_core.Quality.VerificationStore.Evidence.{IsValid}
use metrka_core.Quality.VerificationStore.Recording.{IsEvidence, record-IsEvidence}
use metrka_core.Silver.BuildModels.{SilverBuild, is_sha256_hex}
use metrka_core.Silver.BuildStore.{Attempt, mark_succeeded, validate_success}
use metrka_core.Silver.BuildStore.Soundness.{IsSound}
use metrka_core.Silver.BuildStore.Outcomes.{IsRunningRow, mark_succeeded_lem}
use metrka_core.Silver.PublicationDecision.{
  SilverPublicationDecision, SilverPublicationDecisionStatus, verified_equivalent,
  awaiting_approval, is_equivalent, decide_silver_publication,
}
use metrka_core.Silver.PublicationDecision.Soundness.{
  reproduces, IsDecided, decide_silver_publication_lem,
}
use metrka_core.Silver.DecisionUnit.{
  SilverPublicationDecisionCommand, SilverPublicationDecisionResult, DecisionSystem, check_command,
  decision_meta, success_of, verification_request, candidate_request, verify_baseline,
  propose_candidate, conclude, commit_decision, check_result,
}
use metrka_core.Silver.DecisionUnit.Commit.{IsCommitted, commit_decision_lem}

-- A state in which the command can be carried out: its build runs and can be read, its file can be
-- promoted, the evidence table is one that recordings have made, and the build and the new identifier
-- have no candidate.
pub record IsCommittable (now_utc : ℕ → DateTime) (new_id : ℕ → String)
    (c : SilverPublicationDecisionCommand) (s : DecisionSystem) : Type 0 where
  pub command_valid : check_command c ≡ ok tt
  pub success_valid : validate_success (success_of c) ≡ ok tt
  pub logical : is_sha256_hex c.fingerprint.logical_data_hash ≡ true
  pub schema : is_sha256_hex c.fingerprint.schema_hash ≡ true
  pub active : Option DatasetPublication
  pub found : find_active c.dataset_id c.partition_value s.publications ≡ ok active
  pub named : (p : DatasetPublication) → active ≡ some p → is_blank p.publication_id ≡ false
  pub sound : IsSound s.builds
  pub attempt : Attempt
  pub running_row : IsRunningRow c.silver_build_id s.builds attempt
  pub later : leb attempt.started_at.instant c.completed_at.instant ≡ true
  pub governed : IsGoverned s.marshal
  pub target : MarshalEntry
  pub existing : Option MarshalEntry
  pub promotable : IsPromotable now_utc c.bronze_file_id c.version_period s.marshal target existing
  pub history : List SilverPublicationVerificationRequest
  pub history_valid : All IsValid history
  pub evidence : IsEvidence history s.verifications
  pub new_build : any (has_candidate_build c.silver_build_id) s.candidates ≡ false
  pub new_candidate_id : any (has_candidate_id (new_id s.issued)) s.candidates ≡ false
  pub id_named : is_blank (new_id s.issued) ≡ false

verification_valid :
    (c : SilverPublicationDecisionCommand) (p : DatasetPublication)
    → check_command c ≡ ok tt
    → validate_success (success_of c) ≡ ok tt
    → is_blank p.publication_id ≡ false
    → check_verification_request (verification_request c p) ≡ ok tt
unfolding check_command validate_success success_of check_verification_request verification_request
    require_non_blank
verification_valid c p h v n = ground (arith, h, v, n)

candidate_valid :
    (c : SilverPublicationDecisionCommand) (d : SilverPublicationDecision) (i : String)
    → check_command c ≡ ok tt
    → validate_success (success_of c) ≡ ok tt
    → check_change d.change_kind d.baseline_publication_id ≡ ok tt
    → is_blank i ≡ false
    → check_candidate_request (candidate_request c d i) ≡ ok tt
unfolding check_command validate_success success_of check_candidate_request candidate_request
    require_non_blank
candidate_valid c d i h v k n = ground (arith, h, v, k, n)

verified_result :
    (r : SilverPublicationDecisionResult)
    → is_some r.verification ≡ true
    → is_some r.candidate ≡ false
    → is_equivalent r.decision.status ≡ true
    → check_result r ≡ ok tt
unfolding check_result
verified_result r v n e = rw (v, n, e) refl

proposed_result :
    (r : SilverPublicationDecisionResult)
    → is_some r.verification ≡ false
    → is_some r.candidate ≡ true
    → is_equivalent r.decision.status ≡ false
    → check_result r ≡ ok tt
unfolding check_result
proposed_result r v n e = rw (v, n, e) refl

is_logical :
    (c : SilverPublicationDecisionCommand)
    → is_sha256_hex c.fingerprint.logical_data_hash ≡ true
    → is_sha256_hex (success_of c).logical_data_hash ≡ true
unfolding success_of
is_logical c h = h

is_schema :
    (c : SilverPublicationDecisionCommand)
    → is_sha256_hex c.fingerprint.schema_hash ≡ true
    → is_sha256_hex (success_of c).schema_hash ≡ true
unfolding success_of
is_schema c h = h

at_later :
    (c : SilverPublicationDecisionCommand) (a : Attempt)
    → leb a.started_at.instant c.completed_at.instant ≡ true
    → leb a.started_at.instant (success_of c).completed_at.instant ≡ true
unfolding success_of
at_later c a h = h

no_build :
    (c : SilverPublicationDecisionCommand) (d : SilverPublicationDecision) (i : String)
    (rows : Candidates)
    → any (has_candidate_build c.silver_build_id) rows ≡ false
    → any (has_candidate_build (candidate_request c d i).silver_build_id) rows ≡ false
unfolding candidate_request
no_build c d i rows h = h

no_id :
    (c : SilverPublicationDecisionCommand) (d : SilverPublicationDecision) (i : String)
    (rows : Candidates)
    → any (has_candidate_id i) rows ≡ false
    → any (has_candidate_id (candidate_request c d i).candidate_id) rows ≡ false
unfolding candidate_request
no_id c d i rows h = h

module _ (now_utc : ℕ → DateTime) (new_id : ℕ → String) (c : SilverPublicationDecisionCommand)
    (s : DecisionSystem) (k : IsCommittable now_utc new_id c s) where
  -- Each branch returns from a state with the same evidence, candidates and issued identifiers.
  module _ (d : SilverPublicationDecision) (build : SilverBuild) (s1 : DecisionSystem)
      (verifications : s1.verifications ≡ s.verifications)
      (candidates : s1.candidates ≡ s.candidates) (issued : s1.issued ≡ s.issued) where
    verified :
        (p : DatasetPublication)
        → k.active ≡ some p
        → is_equivalent d.status ≡ true
        → (done : SilverPublicationDecisionResult × DecisionSystem) × (verify_baseline c d build
              (some p)
              s1
            ≡ ok done)
    unfolding verify_baseline
    verified p a e =
        let q = verification_request c p in
        let valid : IsValid q =
          verification_valid c p k.command_valid k.success_valid (k.named p a) in
        let (v, recorded, more) =
          record-IsEvidence q k.history s.verifications valid k.history_valid k.evidence in
        (
          _,
          bind_to (check_verification_request q) _ tt _ valid (
              bind_to (record_verification q s1.verifications) _ v _
                (ap (record_verification q) verifications ∙ recorded)
                (let result : SilverPublicationDecisionResult = record {
                  completed_build = build;
                  decision = d;
                  verification = some v.0;
                  candidate = none;
                } in
                  bind_to (check_result result) _ tt _ (verified_result result refl refl e) refl)),
        )

    proposed :
        check_change d.change_kind d.baseline_publication_id ≡ ok tt
        → is_equivalent d.status ≡ false
        → (done : SilverPublicationDecisionResult × DecisionSystem) × (propose_candidate now_utc
              new_id c d build s1
            ≡ ok done)
    unfolding propose_candidate
    proposed change e =
        let q = candidate_request c d (new_id s.issued) in
        let valid =
          candidate_valid c d (new_id s.issued) k.command_valid k.success_valid change k.id_named in
        (
          _,
          bind_to (check_candidate_request (candidate_request c d (new_id s1.issued))) _ tt _
              (ap (λ n. check_candidate_request (candidate_request c d (new_id n))) issued ∙ valid)
              (bind_to (register (candidate_request c d (new_id s1.issued)) s1.candidates) _
                (new_candidate q, _) _
                (ap (λ n. register (candidate_request c d (new_id n)) s1.candidates) issued
                  ∙ ap (register q) candidates
                  ∙ register_to q s.candidates valid
                      (no_build c d (new_id s.issued) s.candidates k.new_build)
                      (no_id c d (new_id s.issued) s.candidates k.new_candidate_id))
                (let result : SilverPublicationDecisionResult = record {
                  completed_build = build;
                  decision = d;
                  verification = none;
                  candidate = some (new_candidate q);
                } in
                  bind_to (check_result result) _ tt _ (proposed_result result refl refl e) refl)),
        )

    concluded :
        (status : SilverPublicationDecisionStatus)
        → d.status ≡ status
        → IsDecided k.active c.fingerprint d
        → (done : SilverPublicationDecisionResult × DecisionSystem) × (conclude now_utc new_id
              status c d build k.active s1
            ≡ ok done)
    concluded verified_equivalent e decided = elim (Option-cases k.active) [
      | inl none_active ↦ absurd (
          ground (
            arith,
            decided.equivalent,
            ap is_equivalent e,
            ap (λ a. reproduces a c.fingerprint) none_active,
          ))
      | inr (p, a) ↦
          subst
            (λ x.
              (done : SilverPublicationDecisionResult × DecisionSystem) × (verify_baseline c d build
                  x s1
                ≡ ok done))
            (sym a) (verified p a (ap is_equivalent e))
    ]
    concluded awaiting_approval e decided =
        proposed (decided.registrable (ap is_equivalent e)) (ap is_equivalent e)

  -- In such a state the transaction of the command returns, and has done what it is for: the build is
  -- succeeded, its file promoted, and it is a verification of the active publication if it reproduces
  -- it, and a candidate otherwise.
  pub commit_decision_returns :
      (r : SilverPublicationDecisionResult) × (s' : DecisionSystem) × (commit_decision now_utc
          new_id c s
        ≡ ok (r, s'))
      × IsCommitted now_utc new_id c s s' r
  unfolding commit_decision
  commit_decision_returns =
      let (d, decide, decided) = decide_silver_publication_lem k.active c.fingerprint in
      let (completed, sound) =
        mark_succeeded_lem c.silver_build_id (success_of c) s.builds k.attempt k.sound k.running_row
          k.success_valid (is_logical c k.logical) (is_schema c k.schema)
          (at_later c k.attempt k.later) in
      let (m, promoted, governed, n, place) =
        promote_lem now_utc c.bronze_file_id c.version_period (decision_meta d c.marshal_meta)
          s.marshal k.target k.existing k.governed k.promotable in
      let (done, ended) =
        concluded d _ (record s { builds = _; marshal = m }) refl refl refl d.status refl decided in
      let returned : commit_decision now_utc new_id c s ≡ ok done =
        bind_to (find_active c.dataset_id c.partition_value s.publications) _ k.active _ k.found (
          bind_to (decide_silver_publication k.active c.fingerprint) _ d _ decide (
            bind_to (mark_succeeded c.silver_build_id (success_of c) s.builds) _ _ _ completed (
              bind_to
                (promote now_utc c.bronze_file_id c.version_period (decision_meta d c.marshal_meta)
                  s.marshal)
                _ m _ promoted ended))) in
      (done.0, done.1, returned, commit_decision_lem now_utc new_id c s done.1 done.0 returned)
