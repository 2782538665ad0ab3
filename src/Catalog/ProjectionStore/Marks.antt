-- ===== src/Catalog/ProjectionStore/Marks.antt =====
-- What the marks return and write.
use metrka_core.Prelude.{
  String, ◌≡◌, refl, ap, ◌∙◌, Bool, true, false, Option, none, some, eq_iff, arith,
}
use metrka_core.Prelude.Tests.{if◌then◌else◌}
use metrka_core.Prelude.Lists.{find}
use metrka_core.Prelude.Text.{is_blank, ≡→str_eq}
use metrka_core.Prelude.Time.{DateTime, is_aware}
use metrka_core.Prelude.Result.{ok, require_non_blank}
use metrka_core.Catalog.ProjectionModels.{
  PublicationProjectionKind, DatasetPublicationProjectionState, ProjectionError, has_error,
  check_projection_state,
}
use metrka_core.Catalog.ProjectionStore.{
  ProjectionStates, is_state_of, expects, pending_state, set_pending, synchronized_state,
  set_synchronized, mark_synchronized, stale_state, set_stale,
}
use metrka_core.Catalog.ProjectionStore.Health.{
  IsReadable, IsHealthy, IsLawful, upserted, upsert-IsHealthy, upsert_outcome, find-upsert,
  find-upsert_other, mark_to,
}

-- The arguments that the constructor of a state accepts.
pub record IsProper (dataset publication : String) (at : DateTime) : Type 0 where
  pub dataset_named : is_blank dataset ≡ false
  pub publication_named : is_blank publication ≡ false
  pub aware : is_aware at ≡ true

module _ (dataset publication : String) (at : DateTime)
    (proper : IsProper dataset publication at) where
  pending-IsReadable :
      (kind : PublicationProjectionKind) → IsReadable (pending_state dataset kind publication at)
  unfolding check_projection_state require_non_blank
  pending-IsReadable kind =
      ground (arith, proper.dataset_named, proper.publication_named, proper.aware)

  set_pending-IsReadable :
      (s : DatasetPublicationProjectionState)
      → IsReadable s
      → IsReadable (set_pending publication at s)
  unfolding check_projection_state require_non_blank
  set_pending-IsReadable s h = ground (arith, h, proper.publication_named, proper.aware)

  synchronized-IsReadable :
      (kind : PublicationProjectionKind)
      → IsReadable (synchronized_state dataset kind publication at)
  unfolding check_projection_state require_non_blank
  synchronized-IsReadable kind = ground (
    arith,
    proper.dataset_named,
    proper.publication_named,
    proper.aware,
    ≡→str_eq publication publication refl,
  )

  set_synchronized-IsReadable :
      (s : DatasetPublicationProjectionState)
      → IsReadable s
      → expects publication s ≡ true
      → IsReadable (set_synchronized publication at s)
  unfolding check_projection_state require_non_blank
  set_synchronized-IsReadable s h e = ground (
    arith,
    h,
    proper.publication_named,
    proper.aware,
    eq_iff s.expected_publication_id publication,
    eq_iff publication s.expected_publication_id,
    e,
  )

  stale-IsReadable :
      (kind : PublicationProjectionKind) (error : ProjectionError)
      → has_error (some error) ≡ true
      → IsReadable (stale_state dataset kind publication at error)
  unfolding check_projection_state require_non_blank
  stale-IsReadable kind error n =
      ground (arith, proper.dataset_named, proper.publication_named, proper.aware, n)

  set_stale-IsReadable :
      (s : DatasetPublicationProjectionState) (error : ProjectionError)
      → has_error (some error) ≡ true
      → IsReadable s
      → IsReadable (set_stale at error s)
  unfolding check_projection_state require_non_blank
  set_stale-IsReadable s error n h = ground (arith, h, n, proper.aware)

  -- The state after `mark_synchronized`: a state that expects another publication stays.
  abbrev pub synchronized_outcome :
      PublicationProjectionKind
      → Option DatasetPublicationProjectionState
      → DatasetPublicationProjectionState
  synchronized_outcome kind none = synchronized_state dataset kind publication at
  synchronized_outcome kind (some s) =
      if expects publication s then set_synchronized publication at s else s

  abbrev pub stale_outcome :
      PublicationProjectionKind
      → ProjectionError
      → Option DatasetPublicationProjectionState
      → DatasetPublicationProjectionState
  stale_outcome kind error none = stale_state dataset kind publication at error
  stale_outcome kind error (some s) = if expects publication s then set_stale at error s else s

  pub synchronized_lawful :
      (kind : PublicationProjectionKind)
      → IsLawful
          (expects publication)
          (set_synchronized publication at)
          (synchronized_state dataset kind publication at)
  synchronized_lawful kind = record {
    same_dataset = λ s. refl;
    same_projection = λ s. refl;
    new_readable = synchronized-IsReadable kind;
    change_readable = set_synchronized-IsReadable;
  }

  pub stale_lawful :
      (kind : PublicationProjectionKind) (error : ProjectionError)
      → has_error (some error) ≡ true
      → IsLawful
          (expects publication)
          (set_stale at error)
          (stale_state dataset kind publication at error)
  stale_lawful kind error n = record {
    same_dataset = λ s. refl;
    same_projection = λ s. refl;
    new_readable = stale-IsReadable kind error n;
    change_readable = λ s h e. set_stale-IsReadable s error n h;
  }

  pub pending_lawful :
      (guard : DatasetPublicationProjectionState → Bool) (kind : PublicationProjectionKind)
      → IsLawful guard (set_pending publication at) (pending_state dataset kind publication at)
  pending_lawful guard kind = record {
    same_dataset = λ s. refl;
    same_projection = λ s. refl;
    new_readable = pending-IsReadable kind;
    change_readable = λ s h e. set_pending-IsReadable s h;
  }

  synchronized_same :
      (kind : PublicationProjectionKind) (o : Option DatasetPublicationProjectionState)
      → upsert_outcome
          (expects publication)
          (set_synchronized publication at)
          (synchronized_state dataset kind publication at)
          (synchronized_lawful kind)
          o
        ≡ synchronized_outcome kind o
  synchronized_same kind none = refl
  synchronized_same kind (some s) = refl

  -- On a healthy table, `mark_synchronized` with proper arguments returns the state of the projection
  -- and leaves a healthy table that has it. A new state, and one that expects the publication, becomes
  -- synchronized with it at that time, without an error; a state that expects another publication stays
  -- as it was. Every other projection's state stays.
  pub mark_synchronized_lem :
      (kind : PublicationProjectionKind) (rows : ProjectionStates) (d : String)
      (k : PublicationProjectionKind)
      → IsHealthy rows
      → is_state_of d k (synchronized_state dataset kind publication at) ≡ false
      → (s : DatasetPublicationProjectionState) × (rows' : ProjectionStates) × (mark_synchronized
            dataset kind publication at rows
          ≡ ok (s, rows'))
        × IsHealthy rows'
        × (s ≡ synchronized_outcome kind (find (is_state_of dataset kind) rows))
        × (find (is_state_of dataset kind) rows' ≡ some s)
        × (find (is_state_of d k) rows' ≡ find (is_state_of d k) rows)
  unfolding mark_synchronized
  mark_synchronized_lem kind rows d k h n =
      let u = synchronized_lawful kind in
      let rows' : ProjectionStates = upserted (expects publication) _ _ u rows in
      let healthy : IsHealthy rows' = upsert-IsHealthy (expects publication) _ _ u rows h in
      let now : find (is_state_of dataset kind) rows'
          ≡ some (synchronized_outcome kind (find (is_state_of dataset kind) rows)) =
        find-upsert (expects publication) _ _ u rows
        ∙ ap some (synchronized_same kind (find (is_state_of dataset kind) rows)) in
      (
        _,
        rows',
        mark_to (expects publication) (set_synchronized publication at)
              (synchronized_state dataset kind publication at) u rows h
            ∙ ap (λ s. ok (s, rows'))
                (synchronized_same kind (find (is_state_of dataset kind) rows)),
        healthy,
        refl,
        now,
        find-upsert_other (expects publication) _ _ u d k rows n,
      )
