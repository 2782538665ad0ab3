-- ===== src/Silver/ApprovedPublication/Steps.antt =====
-- The steps of a publication on the stores of publications, candidates and projection states.
use metrka_core.Prelude.{
  String, ◌≡◌, refl, ap, ◌∙◌, sym, subst, Bool, true, false, ◌&&◌, not, Option, none, some, [], ◌∷◌,
  ◌++◌, str_eq, eq_iff, arith,
}
use metrka_core.Prelude.Lists.{find, update, All, All-append, All-update}
use metrka_core.Prelude.Text.{is_blank, strip}
use metrka_core.Prelude.Time.{DateTime, is_aware}
use metrka_core.Prelude.Result.{Error, ok, raise_if, require_non_blank, bind_ok, ok-injective}
use metrka_core.Catalog.PublicationModels.{
  DatasetPublicationRequest, DatasetPublication, check_publication_request,
}
use metrka_core.Catalog.PublicationStore.{
  Publications, retire, clear_current, retire_previous, make_room, new_row,
}
use metrka_core.Catalog.PublicationStore.Publishing.{published_row, cleared_rows}
use metrka_core.Catalog.PublicationStore.Commit.{rows_after}
use metrka_core.Catalog.PublicationStore.Latest.{Ranks}
use metrka_core.Catalog.CandidateModels.{
  DatasetPublicationCandidate, DatasetPublicationCandidateStatus,
}
use metrka_core.Catalog.CandidateStore.{
  Candidates, has_candidate_id, mark_published, set_published, is_approved,
}
use metrka_core.Catalog.CandidateStore.Lifecycle.{IsWellFormed}
use metrka_core.Catalog.CandidateStore.Outcomes.{
  publish_outcome, publish_status, mark_published_lem,
}
use metrka_core.Catalog.ProjectionModels.{DatasetPublicationProjectionState}
use metrka_core.Catalog.ProjectionStore.{ProjectionStates, mark_pending}
use metrka_core.Catalog.ProjectionStore.Health.{IsHealthy}
use metrka_core.Catalog.ProjectionStore.Marks.{IsProper}
use metrka_core.Catalog.ProjectionStore.Sequences.{pending_for, apply_mark, mark_lem}
use metrka_core.Silver.ApprovedPublication.Ready.{IsNamed}

-- After a publication the dataset has a current one.
pub current_exists :
    (d : String) (rows : Publications) (p : DatasetPublication) (o : Option DatasetPublication)
    → p.dataset_id ≡ d
    → Ranks d (rows ++ p ∷ []) o
    → (x : DatasetPublication) × (o ≡ some x)
current_exists d rows p none e h = absurd (last_excluded d rows p e h)
  where
    last_excluded :
        (d : String) (rows : Publications) (p : DatasetPublication)
        → p.dataset_id ≡ d
        → All (λ q. str_eq q.dataset_id d ≡ false) (rows ++ p ∷ [])
        → ⊥
    last_excluded d [] p e h = ground (arith, h.0, eq_iff p.dataset_id d, e)
    last_excluded d (x ∷ rows) p e h = last_excluded d rows p e h.1
current_exists d rows p (some x) e h = (x, refl)

outcome_of :
    (status : DatasetPublicationCandidateStatus) (c : DatasetPublicationCandidate) (i : String)
    (rows : Candidates)
    → is_approved status ≡ true
    → publish_status status c.candidate_id (strip i) c rows
      ≡ ok (
        set_published (strip i) c,
        update
            (λ x. has_candidate_id c.candidate_id x && is_approved x.status)
            (set_published (strip i))
            rows,
      )
outcome_of status c i rows h = ground (arith, h)

pub same_id : (i : String) (x : Error) → raise_if (not (str_eq i i)) x ≡ ok tt
same_id i x = ground (arith, eq_iff i i)

pub marked_lem :
    (c : DatasetPublicationCandidate) (i : String) (rows : Candidates)
    → IsWellFormed rows
    → find (has_candidate_id c.candidate_id) rows ≡ some c
    → is_approved c.status ≡ true
    → strip c.candidate_id ≡ c.candidate_id
    → str_eq (strip c.candidate_id) "" ≡ false
    → str_eq (strip i) "" ≡ false
    → (x : DatasetPublicationCandidate × Candidates) × (mark_published c.candidate_id i rows ≡ ok x)
      × (x.0 ≡ set_published (strip i) c)
marked_lem c i rows w found ready stripped id publication = (
  (
    set_published (strip i) c,
    update (λ x. has_candidate_id c.candidate_id x && is_approved x.status)
        (set_published (strip i)) rows,
  ),
  mark_published_lem c.candidate_id i rows w id publication
      ∙ ap (λ (k : String). publish_outcome k (strip i) (find (has_candidate_id k) rows) rows)
          stripped
      ∙ ap
          (λ (o : Option DatasetPublicationCandidate).
            publish_outcome c.candidate_id (strip i) o rows)
          found
      ∙ outcome_of c.status c i rows ready,
  refl,
)

pub rows_after-IsNamed :
    (r : DatasetPublicationRequest) (rows : Publications)
    → All IsNamed rows
    → is_blank r.publication_id ≡ false
    → All IsNamed (rows_after r rows)
unfolding new_row make_room retire_previous
rows_after-IsNamed r rows h n =
    All-append IsNamed (cleared_rows r rows) (published_row r rows ∷ [])
      (cleared_named _ _ r.dataset_id rows h) (n, tt)
  where
    cleared_named :
        (o : Option DatasetPublication) (b : Bool) (d : String) (l : Publications)
        → All IsNamed l
        → All IsNamed (make_room b d (retire_previous o l))
    cleared_named none false d l k = k
    cleared_named none true d l k = All-update IsNamed _ clear_current (λ p q e. q) l k
    cleared_named (some x) false d l k = All-update IsNamed _ retire (λ p q e. q) l k
    cleared_named (some x) true d l k =
        All-update IsNamed _ clear_current (λ p q e. q) _
          (All-update IsNamed _ retire (λ p q e. q) l k)

-- The dataset's projections can be marked as pending for its publications.
pub pending_lem :
    (d p q : String) (at : DateTime) (rows : ProjectionStates)
    → IsProper d p at
    → IsProper d q at
    → IsHealthy rows
    → (x : (DatasetPublicationProjectionState × DatasetPublicationProjectionState)
        × ProjectionStates)
      × (mark_pending d p q at rows ≡ ok x)
      × IsHealthy x.1
unfolding apply_mark
pending_lem d p q at rows hp hq h =
    let marked = mark_lem (pending_for d p q at) rows (hp, hq) h in
    bind_ok (mark_pending d p q at rows) _ _ marked.applied
      (λ x e e'. (x, e, subst IsHealthy (sym (ok-injective x.1 marked.after e')) marked.healthy))

-- What the constructor of a request tests.
pub request_named :
    (r : DatasetPublicationRequest)
    → check_publication_request r ≡ ok tt
    → (is_blank r.dataset_id ≡ false)
      × (is_blank r.publication_id ≡ false)
      × (is_aware r.published_at ≡ true)
unfolding check_publication_request require_non_blank
request_named r h = (ground arith, ground arith, ground arith)
