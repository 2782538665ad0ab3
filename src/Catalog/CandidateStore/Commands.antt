-- ===== src/Catalog/CandidateStore/Commands.antt =====
-- A client's calls as commands: a call that raises leaves the table as it was, since each operation
-- is one transaction.
use metrka_core.Prelude.{
  String, ◌≡◌, refl, ◌⊎◌, inl, inr, Bool, true, false, ◌&&◌, List, [], ◌∷◌, ◌++◌, eq_iff, arith,
}
use metrka_core.Prelude.Tests.{Bool-cases}
use metrka_core.Prelude.Lists.{count, any, update, All-append, count-append, count-zero_of_any}
use metrka_core.Prelude.Text.{strip}
use metrka_core.Prelude.Time.{DateTime}
use metrka_core.Prelude.Result.{Result, ok, raise}
use metrka_core.Catalog.CandidateModels.{
  DatasetPublicationCandidateRequest, DatasetPublicationCandidate,
  DatasetPublicationCandidateStatus,
}
use metrka_core.Catalog.CandidateStore.{
  Candidates, has_candidate_id, has_candidate_build, is_awaiting, is_approved, new_candidate,
  lifecycle_check, candidate_checks, add_unless, insert_candidate, register, set_approved,
  set_rejected, set_published, approve, reject, mark_published,
}
use metrka_core.Catalog.CandidateStore.Lifecycle.{
  IsWellFormed, transition_lem, approve_lawful, reject_lawful, publish_lawful,
}

pub data Command : Type 0 where
  register_request : DatasetPublicationCandidateRequest → Command
  approve_by : String → String → DateTime → Command
  reject_by : String → String → String → DateTime → Command
  publish_as : String → String → Command

-- The table after a call: the new one, or the old one if the transaction was rolled back.
abbrev pub commit {ℓ} : {A : Type ℓ} → Candidates → Result (A × Candidates) → Candidates
commit rows (ok (a, rows')) = rows'
commit rows (raise e) = rows

unfoldable pub apply : Command → Candidates → Candidates
apply (register_request r) rows = commit rows (register r rows)
apply (approve_by i by at) rows = commit rows (approve i by at rows)
apply (reject_by i by reason at) rows = commit rows (reject i by reason at rows)
apply (publish_as i p) rows = commit rows (mark_published i p rows)

unfoldable pub run : List Command → Candidates → Candidates
run [] rows = rows
run (c ∷ cs) rows = run cs (apply c rows)

-- Either nothing changed or the guarded UPDATE ran.
abbrev pub UnchangedOr :
    (DatasetPublicationCandidateStatus → Bool)
    → (DatasetPublicationCandidate → DatasetPublicationCandidate)
    → String
    → Candidates
    → Candidates
    → Type 0
UnchangedOr from change i rows rows' =
    (rows' ≡ rows) ⊎ (rows' ≡ update (λ c. has_candidate_id i c && from c.status) change rows)

pub apply-approve :
    (i by : String) (at : DateTime) (rows : Candidates)
    → UnchangedOr is_awaiting
        (set_approved at (strip by))
        (strip i)
        rows
        (apply (approve_by i by at) rows)
unfolding apply approve
apply-approve i by at rows = ground arith

pub apply-reject :
    (i by reason : String) (at : DateTime) (rows : Candidates)
    → UnchangedOr is_awaiting
        (set_rejected at (strip by) (strip reason))
        (strip i)
        rows
        (apply (reject_by i by reason at) rows)
unfolding apply reject
apply-reject i by reason at rows = ground arith

pub apply-publish :
    (i p : String) (rows : Candidates)
    → UnchangedOr is_approved (set_published (strip p)) (strip i) rows (apply (publish_as i p) rows)
unfolding apply mark_published
apply-publish i p rows = ground arith

-- Either nothing changed or the request's row was added, free of its identifier and its build.
pub apply-register :
    (r : DatasetPublicationCandidateRequest) (rows : Candidates)
    → (apply (register_request r) rows ≡ rows)
      ⊎ ((apply (register_request r) rows ≡ rows ++ new_candidate r ∷ [])
          × (any (has_candidate_id r.candidate_id) rows ≡ false)
          × (any (has_candidate_build r.silver_build_id) rows ≡ false)
          × (lifecycle_check (new_candidate r) ≡ true))
unfolding apply register insert_candidate candidate_checks new_candidate add_unless
apply-register r rows = elim (Bool-cases (any (has_candidate_build r.silver_build_id) rows)) [
  | inl old ↦ ground arith
  | inr free ↦ elim (Bool-cases (any (has_candidate_id r.candidate_id) rows)) [
    | inl taken ↦ ground arith
    | inr new ↦ ground arith
  ]
]

pub register-IsWellFormed :
    (r : DatasetPublicationCandidateRequest) (rows : Candidates)
    → IsWellFormed rows
    → IsWellFormed (apply (register_request r) rows)
register-IsWellFormed r rows w = elim (apply-register r rows) [
  | inl same ↦ rw same w
  | inr (added, id, build, check) ↦ rw added (record {
    lifecycle = All-append _ rows (new_candidate r ∷ []) w.lifecycle (check, tt);
    ids = λ i.
        unfold count new_candidate in
        ground (
          arith,
          count-append (has_candidate_id i) rows (new_candidate r ∷ []),
          w.ids i,
          eq_iff r.candidate_id i,
          count-zero_of_any (has_candidate_id r.candidate_id) rows id,
        );
    builds = λ b.
        unfold count new_candidate in
        ground (
          arith,
          count-append (has_candidate_build b) rows (new_candidate r ∷ []),
          w.builds b,
          eq_iff r.silver_build_id b,
          count-zero_of_any (has_candidate_build r.silver_build_id) rows build,
        );
  })
]

updated-IsWellFormed :
    (rows rows' rows'' : Candidates)
    → (rows' ≡ rows) ⊎ (rows' ≡ rows'')
    → IsWellFormed rows
    → IsWellFormed rows''
    → IsWellFormed rows'
updated-IsWellFormed rows rows' rows'' (inl same) w w' = rw same w
updated-IsWellFormed rows rows' rows'' (inr changed) w w' = rw changed w'

-- Every call keeps the table well formed.
pub apply-IsWellFormed :
    (c : Command) (rows : Candidates) → IsWellFormed rows → IsWellFormed (apply c rows)
apply-IsWellFormed (register_request r) rows w = register-IsWellFormed r rows w
apply-IsWellFormed (approve_by i by at) rows w =
    updated-IsWellFormed rows _ _ (apply-approve i by at rows) w
      (transition_lem is_awaiting (set_approved at (strip by)) (λ c. refl) (λ c. refl)
        (approve_lawful at (strip by)) (strip i) rows w).1
apply-IsWellFormed (reject_by i by reason at) rows w =
    updated-IsWellFormed rows _ _ (apply-reject i by reason at rows) w
      (transition_lem is_awaiting (set_rejected at (strip by) (strip reason)) (λ c. refl)
        (λ c. refl) (reject_lawful at (strip by) (strip reason)) (strip i) rows w).1
apply-IsWellFormed (publish_as i p) rows w =
    updated-IsWellFormed rows _ _ (apply-publish i p rows) w
      (transition_lem is_approved (set_published (strip p)) (λ c. refl) (λ c. refl)
        (publish_lawful (strip p)) (strip i) rows w).1
