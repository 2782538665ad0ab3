-- ===== src/Catalog/CandidateStore/Traces.antt =====
-- What any sequence of calls keeps, whichever of them raise.
use metrka_core.Prelude.{
  String, ◌≡◌, refl, inl, inr, Bool, true, false, ◌&&◌, ◌||◌, Option, none, some, List, [], ◌∷◌,
  str_eq, eq_iff, arith,
}
use metrka_core.Prelude.Tests.{if◌then◌else◌, Option-cases}
use metrka_core.Prelude.Lists.{find, update, find-append_some, find-append_none}
use metrka_core.Prelude.Text.{strip}
use metrka_core.Catalog.CandidateModels.{
  DatasetPublicationCandidate, DatasetPublicationCandidateStatus,
}
use metrka_core.Catalog.CandidateStore.{
  Candidates, has_candidate_id, is_awaiting, is_approved, is_rejected, is_published, new_candidate,
  set_approved, set_rejected, set_published,
}
use metrka_core.Catalog.CandidateStore.Lifecycle.{IsWellFormed}
use metrka_core.Catalog.CandidateStore.Commands.{
  Command, register_request, approve_by, reject_by, publish_as, apply, run, UnchangedOr,
  apply-approve, apply-reject, apply-publish, apply-register, apply-IsWellFormed,
}

-- From a well-formed table, every sequence of calls ends in a well-formed table: the lifecycle
-- columns fit the status of every candidate, and identifiers and builds stay unique.
pub run-IsWellFormed :
    (cs : List Command) (rows : Candidates) → IsWellFormed rows → IsWellFormed (run cs rows)
unfolding run
run-IsWellFormed [] rows w = w
run-IsWellFormed (c ∷ cs) rows w = run-IsWellFormed cs (apply c rows) (apply-IsWellFormed c rows w)

-- A rejected or a published candidate.
abbrev pub is_decided : DatasetPublicationCandidateStatus → Bool
is_decided s = is_rejected s || is_published s

-- A guarded update of another identifier, or of a status that the guard excludes.
spared :
    (from : DatasetPublicationCandidateStatus → Bool)
    (change : DatasetPublicationCandidate → DatasetPublicationCandidate) (i j : String)
    (rows : Candidates) (c : DatasetPublicationCandidate)
    → ((x : DatasetPublicationCandidate) → (change x).candidate_id ≡ x.candidate_id)
    → find (has_candidate_id j) rows ≡ some c
    → from c.status ≡ false
    → find (has_candidate_id j) (update (λ x. has_candidate_id i x && from x.status) change rows)
      ≡ some c
unfolding find update
spared from change i j [] c same e h = e
spared from change i j (x ∷ rows) c same e h =
    ground (arith, same x, spared from change i j rows c same)

decided_spared :
    (from : DatasetPublicationCandidateStatus → Bool)
    (change : DatasetPublicationCandidate → DatasetPublicationCandidate) (i j : String)
    (rows rows' : Candidates) (c : DatasetPublicationCandidate)
    → ((x : DatasetPublicationCandidate) → (change x).candidate_id ≡ x.candidate_id)
    → find (has_candidate_id j) rows ≡ some c
    → from c.status ≡ false
    → UnchangedOr from change i rows rows'
    → find (has_candidate_id j) rows' ≡ some c
decided_spared from change i j rows rows' c same e h (inl u) = rw u e
decided_spared from change i j rows rows' c same e h (inr u) =
    rw u (spared from change i j rows c same e h)

apply-decided :
    (k : Command) (j : String) (rows : Candidates) (c : DatasetPublicationCandidate)
    → find (has_candidate_id j) rows ≡ some c
    → is_decided c.status ≡ true
    → find (has_candidate_id j) (apply k rows) ≡ some c
apply-decided (register_request r) j rows c e h = elim (apply-register r rows) [
  | inl same ↦ rw same e
  | inr (added, _, _, _) ↦
      rw added (find-append_some (has_candidate_id j) rows (new_candidate r ∷ []) c e)
]
apply-decided (approve_by i by at) j rows c e h =
    decided_spared is_awaiting (set_approved at (strip by)) (strip i) j rows _ c (λ x. refl) e
      (ground arith) (apply-approve i by at rows)
apply-decided (reject_by i by reason at) j rows c e h =
    decided_spared is_awaiting (set_rejected at (strip by) (strip reason)) (strip i) j rows _ c
      (λ x. refl) e (ground arith) (apply-reject i by reason at rows)
apply-decided (publish_as i p) j rows c e h =
    decided_spared is_approved (set_published (strip p)) (strip i) j rows _ c (λ x. refl) e
      (ground arith) (apply-publish i p rows)

-- A candidate that is rejected or published keeps its whole row, its approver, its rejection and its
-- publication included, through every sequence of calls.
pub decision_is_final :
    (cs : List Command) (j : String) (rows : Candidates) (c : DatasetPublicationCandidate)
    → find (has_candidate_id j) rows ≡ some c
    → is_decided c.status ≡ true
    → find (has_candidate_id j) (run cs rows) ≡ some c
unfolding run
decision_is_final [] j rows c e h = e
decision_is_final (k ∷ cs) j rows c e h =
    decision_is_final cs j (apply k rows) c (apply-decided k j rows c e h) h

-- Whether the candidate has been approved, published or not.
abbrev pub has_approval : Option DatasetPublicationCandidate → Bool
has_approval none = false
has_approval (some c) = is_approved c.status || is_published c.status

-- Whether one of the calls asks to approve the candidate.
unfoldable pub asks_approval : String → List Command → Bool
asks_approval j [] = false
asks_approval j (approve_by i by at ∷ cs) =
    let rest = asks_approval j cs in if str_eq (strip i) j then true else rest
asks_approval j (k ∷ cs) = asks_approval j cs

-- An update of another identifier.
other_id :
    (from : DatasetPublicationCandidateStatus → Bool)
    (change : DatasetPublicationCandidate → DatasetPublicationCandidate) (i j : String)
    (rows : Candidates)
    → ((x : DatasetPublicationCandidate) → (change x).candidate_id ≡ x.candidate_id)
    → str_eq i j ≡ false
    → find (has_candidate_id j) (update (λ x. has_candidate_id i x && from x.status) change rows)
      ≡ find (has_candidate_id j) rows
unfolding find update
other_id from change i j [] same ne = refl
other_id from change i j (x ∷ rows) same ne = ground (
  arith,
  same x,
  eq_iff x.candidate_id i,
  eq_iff x.candidate_id j,
  eq_iff i j,
  other_id from change i j rows same ne,
)

-- An update that gives no candidate an approval.
no_approval :
    (from : DatasetPublicationCandidateStatus → Bool)
    (change : DatasetPublicationCandidate → DatasetPublicationCandidate) (i j : String)
    (rows : Candidates)
    → ((x : DatasetPublicationCandidate) → (change x).candidate_id ≡ x.candidate_id)
    → ((x : DatasetPublicationCandidate)
        → from x.status ≡ true
        → has_approval (some x) ≡ false
        → has_approval (some (change x)) ≡ false)
    → has_approval (find (has_candidate_id j) rows) ≡ false
    → has_approval (
        find (has_candidate_id j) (update (λ x. has_candidate_id i x && from x.status) change rows))
      ≡ false
unfolding find update
no_approval from change i j [] same keeps h = h
no_approval from change i j (x ∷ rows) same keeps h =
    ground (arith, same x, keeps x, no_approval from change i j rows same keeps)

apply-unapproved :
    (k : Command) (j : String) (rows : Candidates)
    → asks_approval j (k ∷ []) ≡ false
    → has_approval (find (has_candidate_id j) rows) ≡ false
    → has_approval (find (has_candidate_id j) (apply k rows)) ≡ false
unfolding asks_approval
apply-unapproved (register_request r) j rows a h = elim (apply-register r rows) [
  | inl same ↦ rw same h
  | inr (added, _, _, _) ↦ rw added (elim (Option-cases (find (has_candidate_id j) rows)) [
    | inl fresh ↦
        rw (find-append_none (has_candidate_id j) rows (new_candidate r ∷ []) fresh)
          (unfold find new_candidate in ground arith)
    | inr (c, old) ↦
        rw (find-append_some (has_candidate_id j) rows (new_candidate r ∷ []) c old) (rw old at h)
  ])
]
apply-unapproved (approve_by i by at) j rows a h = elim (apply-approve i by at rows) [
  | inl same ↦ rw same h
  | inr changed ↦
      rw
        (
          changed,
          other_id is_awaiting (set_approved at (strip by)) (strip i) j rows (λ x. refl)
              (ground arith),
        )
        h
]
apply-unapproved (reject_by i by reason at) j rows a h = elim (apply-reject i by reason at rows) [
  | inl same ↦ rw same h
  | inr changed ↦ rw changed (
      no_approval is_awaiting (set_rejected at (strip by) (strip reason)) (strip i) j rows
        (λ x. refl) (λ x f g. ground arith) h)
]
apply-unapproved (publish_as i p) j rows a h = elim (apply-publish i p rows) [
  | inl same ↦ rw same h
  | inr changed ↦ rw changed (
      no_approval is_approved (set_published (strip p)) (strip i) j rows (λ x. refl)
        (λ x f g. ground arith) h)
]

asks_now :
    (k : Command) (cs : List Command) (j : String)
    → asks_approval j (k ∷ cs) ≡ false
    → asks_approval j (k ∷ []) ≡ false
unfolding asks_approval
asks_now (register_request r) cs j a = refl
asks_now (approve_by i by at) cs j a = ground arith
asks_now (reject_by i by reason at) cs j a = refl
asks_now (publish_as i p) cs j a = refl

asks_later :
    (k : Command) (cs : List Command) (j : String)
    → asks_approval j (k ∷ cs) ≡ false
    → asks_approval j cs ≡ false
unfolding asks_approval
asks_later (register_request r) cs j a = a
asks_later (approve_by i by at) cs j a = ground arith
asks_later (reject_by i by reason at) cs j a = a
asks_later (publish_as i p) cs j a = a

-- A candidate that is neither approved nor published stays so through every sequence of calls in
-- which no call asks to approve it: nothing is published without an approval.
pub publication_needs_approval :
    (cs : List Command) (j : String) (rows : Candidates)
    → has_approval (find (has_candidate_id j) rows) ≡ false
    → asks_approval j cs ≡ false
    → has_approval (find (has_candidate_id j) (run cs rows)) ≡ false
unfolding run
publication_needs_approval [] j rows h a = h
publication_needs_approval (k ∷ cs) j rows h a =
    publication_needs_approval cs j (apply k rows) (apply-unapproved k j rows (asks_now k cs j a) h)
      (asks_later k cs j a)
