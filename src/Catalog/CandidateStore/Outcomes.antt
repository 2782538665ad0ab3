-- ===== src/Catalog/CandidateStore/Outcomes.antt =====
-- What `approve` and `mark_published` return and write, for each status of the candidate.
use metrka_core.Prelude.{
  ◌≤◌, String, ◌≡◌, refl, inl, inr, Bool, true, false, ◌&&◌, Option, none, some, [], ◌∷◌, str_eq,
  eq_iff, arith,
}
use metrka_core.Prelude.Tests.{if◌then◌else◌, Option-cases}
use metrka_core.Prelude.Lists.{find, count, update}
use metrka_core.Prelude.Text.{opt_eq, strip}
use metrka_core.Prelude.Time.{DateTime, is_aware}
use metrka_core.Prelude.Result.{Result, ok, raise, key_error, runtime_error}
use metrka_core.Catalog.CandidateModels.{
  DatasetPublicationCandidate, DatasetPublicationCandidateStatus, awaiting_approval, approved,
  published,
}
use metrka_core.Catalog.CandidateStore.{
  Candidates, has_candidate_id, is_awaiting, is_approved, set_approved, set_published, approve,
  mark_published,
}
use metrka_core.Catalog.CandidateStore.Lifecycle.{
  IsWellFormed, transition_lem, find-transition, find-transition_none, approve_lawful,
  publish_lawful,
}

no_row_left :
    (from : DatasetPublicationCandidateStatus → Bool)
    (change : DatasetPublicationCandidate → DatasetPublicationCandidate) (i : String)
    (rows : Candidates)
    → count (has_candidate_id i) rows ≡ 0
    → update (λ x. has_candidate_id i x && from x.status) change rows ≡ rows
unfolding count update
no_row_left from change i [] h = refl
no_row_left from change i (x ∷ rows) h = ground (arith, no_row_left from change i rows)

-- An UPDATE whose guard excludes the one row with the identifier changes nothing.
update_idle :
    (from : DatasetPublicationCandidateStatus → Bool)
    (change : DatasetPublicationCandidate → DatasetPublicationCandidate) (i : String)
    (rows : Candidates) (c : DatasetPublicationCandidate)
    → count (has_candidate_id i) rows ≤ 1
    → find (has_candidate_id i) rows ≡ some c
    → from c.status ≡ false
    → update (λ x. has_candidate_id i x && from x.status) change rows ≡ rows
unfolding find count update
update_idle from change i [] c u e h = refl
update_idle from change i (x ∷ rows) c u e h =
    ground (arith, no_row_left from change i rows, update_idle from change i rows c)

abbrev pub Outcome : Type 0
Outcome = Result (DatasetPublicationCandidate × Candidates)

abbrev approve_status :
    DatasetPublicationCandidateStatus
    → String
    → String
    → DateTime
    → DatasetPublicationCandidate
    → Candidates
    → Outcome
approve_status awaiting_approval i by at c rows = ok (
  set_approved at by c,
  update (λ x. has_candidate_id i x && is_awaiting x.status) (set_approved at by) rows,
)
approve_status approved i by at c rows = ok (c, rows)
approve_status _ i by at c rows =
    raise (runtime_error "Only an awaiting_approval candidate can be approved")

-- An awaiting candidate becomes approved, an approved one is returned as it is, any other is
-- refused.
abbrev pub approve_outcome :
    String → String → DateTime → Option DatasetPublicationCandidate → Candidates → Outcome
approve_outcome i by at none rows = raise (key_error "Unknown publication candidate")
approve_outcome i by at (some c) rows = approve_status c.status i by at c rows

abbrev pub publish_status :
    DatasetPublicationCandidateStatus
    → String
    → String
    → DatasetPublicationCandidate
    → Candidates
    → Outcome
publish_status approved i p c rows = ok (
  set_published p c,
  update (λ x. has_candidate_id i x && is_approved x.status) (set_published p) rows,
)
publish_status published i p c rows =
    if opt_eq c.publication_id (some p)
    then ok (c, rows)
    else raise (runtime_error "Only an approved candidate can be published")
publish_status _ i p c rows = raise (runtime_error "Only an approved candidate can be published")

abbrev pub publish_outcome :
    String → String → Option DatasetPublicationCandidate → Candidates → Outcome
publish_outcome i p none rows = raise (key_error "Unknown publication candidate")
publish_outcome i p (some c) rows = publish_status c.status i p c rows

module _ (i by : String) (at : DateTime) (rows : Candidates) (w : IsWellFormed rows)
    (id : str_eq (strip i) "" ≡ false) (actor : str_eq (strip by) "" ≡ false)
    (aware : is_aware at ≡ true) where
  -- On a well-formed table, with an identifier and an actor that are not blank and an aware time,
  -- `approve` raises for an unknown candidate, approves an awaiting one in its row alone, returns an
  -- approved one and changes nothing, and raises for a rejected or published one.
  pub approve_lem :
      approve i by at rows
      ≡ approve_outcome (strip i) (strip by) at (find (has_candidate_id (strip i)) rows) rows
  unfolding approve
  approve_lem = elim (Option-cases (find (has_candidate_id (strip i)) rows)) [
    | inl unknown ↦ ground (
      arith,
      (transition_lem is_awaiting (set_approved at (strip by)) (λ c. refl) (λ c. refl)
          (approve_lawful at (strip by)) (strip i) rows w).0,
      find-transition_none is_awaiting (set_approved at (strip by)) (λ c. refl) (strip i) rows
          unknown,
    )
    | inr (c, e) ↦ ground (
      arith,
      (transition_lem is_awaiting (set_approved at (strip by)) (λ c. refl) (λ c. refl)
          (approve_lawful at (strip by)) (strip i) rows w).0,
      find-transition is_awaiting (set_approved at (strip by)) (λ c. refl) (strip i) rows c e,
      update_idle is_awaiting (set_approved at (strip by)) (strip i) rows c (w.ids (strip i)) e,
    )
  ]

module _ (i p : String) (rows : Candidates) (w : IsWellFormed rows)
    (id : str_eq (strip i) "" ≡ false) (publication : str_eq (strip p) "" ≡ false) where
  -- On a well-formed table, with identifiers that are not blank, `mark_published` raises for an
  -- unknown candidate, publishes an approved one in its row alone, returns a published one and changes
  -- nothing if its publication is the given one, and raises otherwise.
  pub mark_published_lem :
      mark_published i p rows
      ≡ publish_outcome (strip i) (strip p) (find (has_candidate_id (strip i)) rows) rows
  unfolding mark_published
  mark_published_lem = elim (Option-cases (find (has_candidate_id (strip i)) rows)) [
    | inl unknown ↦ ground (
      arith,
      (transition_lem is_approved (set_published (strip p)) (λ c. refl) (λ c. refl)
          (publish_lawful (strip p)) (strip i) rows w).0,
      find-transition_none is_approved (set_published (strip p)) (λ c. refl) (strip i) rows unknown,
    )
    | inr (c, e) ↦ ground (
      arith,
      (transition_lem is_approved (set_published (strip p)) (λ c. refl) (λ c. refl)
          (publish_lawful (strip p)) (strip i) rows w).0,
      find-transition is_approved (set_published (strip p)) (λ c. refl) (strip i) rows c e,
      update_idle is_approved (set_published (strip p)) (strip i) rows c (w.ids (strip i)) e,
      eq_iff (strip p) (strip p),
    )
  ]
