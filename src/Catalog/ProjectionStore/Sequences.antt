-- ===== src/Catalog/ProjectionStore/Sequences.antt =====
-- Sequences of marks by several workers.
use metrka_core.Prelude.{
  String, ◌≡◌, refl, sym, ap, ◌∙◌, Bool, true, false, not, some, List, [], ◌∷◌, arith, inl, inr,
  str_eq,
}
use metrka_core.Prelude.Tests.{if◌then◌else◌, Bool-cases}
use metrka_core.Prelude.Lists.{find, All}
use metrka_core.Prelude.Text.{str_eq→≡}
use metrka_core.Prelude.Time.{DateTime}
use metrka_core.Prelude.Result.{Result, ok, value_error, raise_if, ◌>>=◌, bind_to}
use metrka_core.Catalog.ProjectionModels.{
  PublicationProjectionKind, current, history, DatasetPublicationProjectionState, ProjectionError,
  has_error,
}
use metrka_core.Catalog.ProjectionStore.{
  ProjectionStates, is_state_of, upsert_state, always, expects, pending_state, set_pending,
  both_states, reread_state, mark_pending, synchronized_state, set_synchronized, mark_synchronized,
  stale_state, set_stale, mark_stale,
}
use metrka_core.Catalog.ProjectionStore.Health.{
  IsHealthy, IsLawful, upserted, upsert_to, upsert-IsHealthy, upsert_outcome, find-upsert,
  find-upsert_other, mark_to, require_found, kind_eq,
}
use metrka_core.Catalog.ProjectionStore.Marks.{
  IsProper, synchronized_lawful, stale_lawful, pending_lawful,
}

pub data Mark : Type 0 where
  pending_for : String → String → String → DateTime → Mark
  synchronized_with : String → PublicationProjectionKind → String → DateTime → Mark
  stale_for : String → PublicationProjectionKind → String → DateTime → ProjectionError → Mark

unfoldable pub apply_mark : Mark → ProjectionStates → Result ProjectionStates
unfolding mark_pending mark_synchronized mark_stale
apply_mark (pending_for d p q at) rows = mark_pending d p q at rows >>= λ done. ok done.1
apply_mark (synchronized_with d k p at) rows = mark_synchronized d k p at rows >>= λ done. ok done.1
apply_mark (stale_for d k p at error) rows = mark_stale d k p at error rows >>= λ done. ok done.1

unfoldable pub run_marks : List Mark → ProjectionStates → Result ProjectionStates
unfolding apply_mark
run_marks [] rows = ok rows
run_marks (m ∷ marks) rows = apply_mark m rows >>= λ rows'. run_marks marks rows'

abbrev pub IsProperMark : Mark → Type 0
IsProperMark (pending_for d p q at) = IsProper d p at × IsProper d q at
IsProperMark (synchronized_with d k p at) = IsProper d p at
IsProperMark (stale_for d k p at error) = IsProper d p at × (has_error (some error) ≡ true)

-- A report on a publication that is not the one of the text.
abbrev pub is_late : String → Mark → Bool
is_late current_id (pending_for d p q at) = false
is_late current_id (synchronized_with d k p at) = not (str_eq current_id p)
is_late current_id (stale_for d k p at error) = not (str_eq current_id p)

-- One mark returns, and a state that expects another publication than a late mark stays.
pub record IsMarked (m : Mark) (rows : ProjectionStates) : Type 0 where
  pub after : ProjectionStates
  pub applied : apply_mark m rows ≡ ok after
  pub healthy : IsHealthy after
  pub spared :
      (d : String) (k : PublicationProjectionKind) (s : DatasetPublicationProjectionState)
      → find (is_state_of d k) rows ≡ some s
      → is_late s.expected_publication_id m ≡ true
      → find (is_state_of d k) after ≡ some s

module _ (publication : String)
    (change : DatasetPublicationProjectionState → DatasetPublicationProjectionState)
    (new : DatasetPublicationProjectionState) (u : IsLawful (expects publication) change new)
    (rows : ProjectionStates) where
  -- A report on another publication than the state expects leaves the state.
  report_spares :
      (d : String) (k : PublicationProjectionKind) (s : DatasetPublicationProjectionState)
      → find (is_state_of d k) rows ≡ some s
      → not (str_eq s.expected_publication_id publication) ≡ true
      → find (is_state_of d k) (upserted (expects publication) change new u rows) ≡ some s
  report_spares d k s e late = elim (Bool-cases (is_state_of d k new)) [
    | inr n ↦ find-upsert_other (expects publication) change new u d k rows n ∙ e
    | inl t ↦
        let same_d : new.dataset_id ≡ d = str_eq→≡ new.dataset_id d (ground (arith, t)) in
        let same_k : new.projection_kind ≡ k = kind_eq new.projection_kind k (ground (arith, t)) in
        let e' : find (is_state_of new.dataset_id new.projection_kind) rows ≡ some s =
          ap (λ x. find (is_state_of x new.projection_kind) rows) same_d
          ∙ ap (λ x. find (is_state_of d x) rows) same_k
          ∙ e in
        ap (λ x. find (is_state_of d x) (upserted (expects publication) change new u rows))
          (sym same_k)
        ∙ ap
            (λ x.
              find (is_state_of x new.projection_kind)
                (upserted (expects publication) change new u rows))
            (sym same_d)
        ∙ find-upsert (expects publication) change new u rows
        ∙ ap (λ o. some (upsert_outcome (expects publication) change new u o)) e'
        ∙ ap some (unguarded s late)
  ]
    where
      unguarded :
          (s : DatasetPublicationProjectionState)
          → not (str_eq s.expected_publication_id publication) ≡ true
          → (if expects publication s then change s else s) ≡ s
      unguarded s late = ground (arith, late)

reported :
    (publication : String)
    (change : DatasetPublicationProjectionState → DatasetPublicationProjectionState)
    (new : DatasetPublicationProjectionState) (u : IsLawful (expects publication) change new)
    (rows : ProjectionStates)
    → IsHealthy rows
    → (upsert_state (expects publication) change new rows >>= λ rows'.
        reread_state new.dataset_id new.projection_kind rows')
      ≡ ok (
        upsert_outcome
            (expects publication)
            change
            new
            u
            (find (is_state_of new.dataset_id new.projection_kind) rows),
        upserted (expects publication) change new u rows,
      )
reported publication change new u rows h = mark_to (expects publication) change new u rows h

mark_synchronized-IsMarked :
    (d : String) (k : PublicationProjectionKind) (p : String) (at : DateTime)
    (rows : ProjectionStates)
    → IsProper d p at
    → IsHealthy rows
    → IsMarked (synchronized_with d k p at) rows
unfolding apply_mark mark_synchronized
mark_synchronized-IsMarked d k p at rows proper h =
    let u = synchronized_lawful d p at proper k in
    record {
      after = upserted (expects p) (set_synchronized p at) (synchronized_state d k p at) u rows;
      applied =
          ap (λ x. x >>= λ done. ok done.1)
            (reported p (set_synchronized p at) (synchronized_state d k p at) u rows h);
      healthy =
          upsert-IsHealthy (expects p) (set_synchronized p at) (synchronized_state d k p at) u rows
            h;
      spared = λ d' k' s e late.
          report_spares p (set_synchronized p at) (synchronized_state d k p at) u rows d' k' s e
            late;
    }

mark_stale-IsMarked :
    (d : String) (k : PublicationProjectionKind) (p : String) (at : DateTime)
    (error : ProjectionError) (rows : ProjectionStates)
    → IsProper d p at
    → has_error (some error) ≡ true
    → IsHealthy rows
    → IsMarked (stale_for d k p at error) rows
unfolding apply_mark mark_stale
mark_stale-IsMarked d k p at error rows proper n h =
    let u = stale_lawful d p at proper k error n in
    record {
      after = upserted (expects p) (set_stale at error) (stale_state d k p at error) u rows;
      applied =
          ap (λ x. x >>= λ done. ok done.1)
            (bind_to
              (raise_if (not (has_error (some error)))
                (value_error "Projection error must not be empty"))
              (λ w.
                upsert_state (expects p) (set_stale at error) (stale_state d k p at error) rows
                >>= λ rows'. reread_state d k rows')
              tt _ (ground (arith, n))
              (reported p (set_stale at error) (stale_state d k p at error) u rows h));
      healthy =
          upsert-IsHealthy (expects p) (set_stale at error) (stale_state d k p at error) u rows h;
      spared = λ d' k' s e late.
          report_spares p (set_stale at error) (stale_state d k p at error) u rows d' k' s e late;
    }

mark_pending-IsMarked :
    (d p q : String) (at : DateTime) (rows : ProjectionStates)
    → IsProper d p at
    → IsProper d q at
    → IsHealthy rows
    → IsMarked (pending_for d p q at) rows
unfolding apply_mark mark_pending both_states
mark_pending-IsMarked d p q at rows proper_p proper_q h =
    let guard : DatasetPublicationProjectionState → Bool = λ s. not (expects p s) in
    let u = pending_lawful d p at proper_p guard current in
    let rows1 = upserted guard (set_pending p at) (pending_state d current p at) u rows in
    let h1 : IsHealthy rows1 =
      upsert-IsHealthy guard (set_pending p at) (pending_state d current p at) u rows h in
    let v = pending_lawful d q at proper_q always history in
    let rows2 = upserted always (set_pending q at) (pending_state d history q at) v rows1 in
    let h2 : IsHealthy rows2 =
      upsert-IsHealthy always (set_pending q at) (pending_state d history q at) v rows1 h1 in
    let has_current =
      find-upsert_other always (set_pending q at) (pending_state d history q at) v d current rows1
        (ground arith)
      ∙ find-upsert guard (set_pending p at) (pending_state d current p at) u rows in
    let has_history =
      find-upsert always (set_pending q at) (pending_state d history q at) v rows1 in
    record {
      after = rows2;
      applied =
          rw
            (
              upsert_to guard (set_pending p at) (pending_state d current p at) u rows h,
              upsert_to always (set_pending q at) (pending_state d history q at) v rows1 h1,
              require_found (is_state_of d current) rows2 _ h2.readable has_current,
              require_found (is_state_of d history) rows2 _ h2.readable has_history,
            )
            refl;
      healthy = h2;
      spared = λ d' k' s e late. absurd (ground (arith, late));
    }

pub mark_lem :
    (m : Mark) (rows : ProjectionStates) → IsProperMark m → IsHealthy rows → IsMarked m rows
mark_lem (pending_for d p q at) rows proper h =
    mark_pending-IsMarked d p q at rows proper.0 proper.1 h
mark_lem (synchronized_with d k p at) rows proper h =
    mark_synchronized-IsMarked d k p at rows proper h
mark_lem (stale_for d k p at error) rows proper h =
    mark_stale-IsMarked d k p at error rows proper.0 proper.1 h

-- From a healthy table, every sequence of marks with proper arguments returns, and leaves a healthy
-- table: each projection has one state at most, and every state can be read.
pub run_marks-IsHealthy :
    (marks : List Mark) (rows : ProjectionStates)
    → All IsProperMark marks
    → IsHealthy rows
    → (rows' : ProjectionStates) × (run_marks marks rows ≡ ok rows') × IsHealthy rows'
unfolding run_marks
run_marks-IsHealthy [] rows proper h = (rows, refl, h)
run_marks-IsHealthy (m ∷ marks) rows proper h =
    let k = mark_lem m rows proper.0 h in
    let (rows', ran, healthy) = run_marks-IsHealthy marks k.after proper.1 k.healthy in
    (rows', bind_to (apply_mark m rows) (run_marks marks) k.after rows' k.applied ran, healthy)

-- On a healthy table, whatever proper reports of synchronized or stale projections arrive late, for
-- publications that a projection's state does not expect, they return and leave that state as it is.
pub late_marks_spare :
    (marks : List Mark) (rows : ProjectionStates) (d : String) (k : PublicationProjectionKind)
    (s : DatasetPublicationProjectionState)
    → All IsProperMark marks
    → All (λ m. is_late s.expected_publication_id m ≡ true) marks
    → IsHealthy rows
    → find (is_state_of d k) rows ≡ some s
    → (rows' : ProjectionStates) × (run_marks marks rows ≡ ok rows')
      × (find (is_state_of d k) rows' ≡ some s)
unfolding run_marks
late_marks_spare [] rows d k s proper late h e = (rows, refl, e)
late_marks_spare (m ∷ marks) rows d k s proper late h e =
    let x = mark_lem m rows proper.0 h in
    let (rows', ran, spared) =
      late_marks_spare marks x.after d k s proper.1 late.1 x.healthy (x.spared d k s e late.0) in
    (rows', bind_to (apply_mark m rows) (run_marks marks) x.after rows' x.applied ran, spared)
