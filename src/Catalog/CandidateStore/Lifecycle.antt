-- ===== src/Catalog/CandidateStore/Lifecycle.antt =====
-- The lifecycle of a candidate under the store's operations.
use metrka_core.Prelude.{
  ◌≤◌, String, ◌≡◌, refl, Bool, true, false, ◌&&◌, not, none, some, [], ◌∷◌, arith,
}
use metrka_core.Prelude.Tests.{if◌then◌else◌}
use metrka_core.Prelude.Lists.{find, count, any, update, All, All-update, count-update-eq}
use metrka_core.Prelude.Time.{DateTime}
use metrka_core.Prelude.Result.{ok}
use metrka_core.Catalog.CandidateModels.{
  DatasetPublicationCandidateStatus, DatasetPublicationCandidate,
}
use metrka_core.Catalog.CandidateStore.{
  Candidates, has_candidate_id, has_candidate_build, is_awaiting, is_approved, lifecycle_check,
  transition, set_approved, set_rejected, set_published,
}

-- Every row satisfies the lifecycle constraint, and no two rows share their identifier or build.
pub record IsWellFormed (rows : Candidates) : Type 0 where
  pub lifecycle : All (λ c. lifecycle_check c ≡ true) rows
  pub ids : (i : String) → count (has_candidate_id i) rows ≤ 1
  pub builds : (b : String) → count (has_candidate_build b) rows ≤ 1

-- A guarded update is accepted and keeps the table well formed, if the change keeps the identity
-- columns and takes each row that passes the guard and the constraint to one that satisfies it.
module _ (from : DatasetPublicationCandidateStatus → Bool)
    (change : DatasetPublicationCandidate → DatasetPublicationCandidate)
    (same_id : (c : DatasetPublicationCandidate) → (change c).candidate_id ≡ c.candidate_id)
    (same_build : (c : DatasetPublicationCandidate)
      → (change c).silver_build_id ≡ c.silver_build_id)
    (lawful : (c : DatasetPublicationCandidate)
      → lifecycle_check c ≡ true
      → from c.status ≡ true
      → lifecycle_check (change c) ≡ true) where
  none_refused :
      (i : String) (rows : Candidates)
      → All (λ c. lifecycle_check c ≡ true) rows
      → any (λ c. has_candidate_id i c && (from c.status && not (lifecycle_check (change c)))) rows
        ≡ false
  unfolding any
  none_refused i [] h = refl
  none_refused i (c ∷ rows) h = ground (arith, lawful c h.0, none_refused i rows h.1)

  pub transition_lem :
      (i : String) (rows : Candidates)
      → IsWellFormed rows
      → (transition from change i rows
          ≡ ok (update (λ c. has_candidate_id i c && from c.status) change rows))
        × IsWellFormed (update (λ c. has_candidate_id i c && from c.status) change rows)
  unfolding transition
  transition_lem i rows w = (
    rw (none_refused i rows w.lifecycle),
    record {
      lifecycle =
          All-update (λ c. lifecycle_check c ≡ true) _ change (λ c hc g. lawful c hc (ground arith))
            rows w.lifecycle;
      ids = λ j.
          rw (count-update-eq (has_candidate_id j) _ change (λ c. rw (same_id c)) rows) (w.ids j);
      builds = λ b.
          rw (count-update-eq (has_candidate_build b) _ change (λ c. rw (same_build c)) rows)
            (w.builds b);
    },
  )

pub approve_lawful :
    (at : DateTime) (by : String) (c : DatasetPublicationCandidate)
    → lifecycle_check c ≡ true
    → is_awaiting c.status ≡ true
    → lifecycle_check (set_approved at by c) ≡ true
unfolding lifecycle_check
approve_lawful at by c h g = ground arith

pub reject_lawful :
    (at : DateTime) (by reason : String) (c : DatasetPublicationCandidate)
    → lifecycle_check c ≡ true
    → is_awaiting c.status ≡ true
    → lifecycle_check (set_rejected at by reason c) ≡ true
unfolding lifecycle_check
reject_lawful at by reason c h g = ground arith

pub publish_lawful :
    (p : String) (c : DatasetPublicationCandidate)
    → lifecycle_check c ≡ true
    → is_approved c.status ≡ true
    → lifecycle_check (set_published p c) ≡ true
unfolding lifecycle_check
publish_lawful p c h g = ground arith

-- The row with the identifier, after the update.
module _ (from : DatasetPublicationCandidateStatus → Bool)
    (change : DatasetPublicationCandidate → DatasetPublicationCandidate)
    (same_id : (c : DatasetPublicationCandidate) → (change c).candidate_id ≡ c.candidate_id) where
  abbrev after : DatasetPublicationCandidate → DatasetPublicationCandidate
  after c = if from c.status then change c else c

  pub find-transition :
      (i : String) (rows : Candidates) (c : DatasetPublicationCandidate)
      → find (has_candidate_id i) rows ≡ some c
      → find (has_candidate_id i) (update (λ c. has_candidate_id i c && from c.status) change rows)
        ≡ some (if from c.status then change c else c)
  unfolding find update
  find-transition i [] c e = ground arith
  find-transition i (x ∷ rows) c e = ground (arith, same_id x, find-transition i rows c)

  pub find-transition_none :
      (i : String) (rows : Candidates)
      → find (has_candidate_id i) rows ≡ none
      → update (λ c. has_candidate_id i c && from c.status) change rows ≡ rows
  unfolding find update
  find-transition_none i [] e = refl
  find-transition_none i (x ∷ rows) e = ground (arith, find-transition_none i rows)
