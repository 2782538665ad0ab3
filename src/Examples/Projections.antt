-- ===== src/Examples/Projections.antt =====
-- Reports on the projections of a dataset.
use metrka_core.Prelude.{◌≡◌, refl, some, [], ◌∷◌, List, arith}
use metrka_core.Prelude.Lists.{find, count}
use metrka_core.Prelude.Text.{is_blank}
use metrka_core.Prelude.Result.{ok, require_non_blank}
use metrka_core.Metadata.MarshalModels.{text}
use metrka_core.Catalog.ProjectionModels.{
  current, history, DatasetPublicationProjectionState, check_projection_state,
}
use metrka_core.Catalog.ProjectionStore.{
  ProjectionStates, is_state_of, pending_state, mark_synchronized,
}
use metrka_core.Catalog.ProjectionStore.Health.{IsHealthy}
use metrka_core.Catalog.ProjectionStore.Marks.{
  IsProper, synchronized_outcome, mark_synchronized_lem,
}
use metrka_core.Catalog.ProjectionStore.Sequences.{
  Mark, pending_for, synchronized_with, stale_for, run_marks, run_marks-IsHealthy, late_marks_spare,
}
use metrka_core.Examples.{noon}

abbrev state : DatasetPublicationProjectionState
state = pending_state "postcodes" current "publication-2" (noon 1)

abbrev rows : ProjectionStates
rows = state ∷ []

rows-IsHealthy : IsHealthy rows
unfolding count check_projection_state require_non_blank is_blank
rows-IsHealthy = record { keys = λ d k. ground arith; readable = (refl, tt) }

proper_2 : IsProper "postcodes" "publication-2" (noon 3)
unfolding is_blank
proper_2 = record { dataset_named = refl; publication_named = refl; aware = refl }

proper_1 : IsProper "postcodes" "publication-1" (noon 3)
unfolding is_blank
proper_1 = record { dataset_named = refl; publication_named = refl; aware = refl }

mark_synchronized_lem_example :
    (s : DatasetPublicationProjectionState) × (rows' : ProjectionStates) × (mark_synchronized
        "postcodes" current "publication-2"
        (noon 3)
        rows
      ≡ ok (s, rows'))
    × IsHealthy rows'
    × (s
        ≡ synchronized_outcome "postcodes" "publication-2"
            (noon 3)
            proper_2
            current
            (find (is_state_of "postcodes" current) rows))
    × (find (is_state_of "postcodes" current) rows' ≡ some s)
    × (find (is_state_of "postcodes" history) rows' ≡ find (is_state_of "postcodes" history) rows)
mark_synchronized_lem_example =
    mark_synchronized_lem "postcodes" "publication-2" (noon 3) proper_2 current rows "postcodes"
      history rows-IsHealthy refl

abbrev marks : List Mark
marks =
    pending_for "postcodes" "publication-2" "publication-1" (noon 3)
    ∷ synchronized_with "postcodes" current "publication-2" (noon 3)
    ∷ []

run_marks-IsHealthy_example :
    (rows' : ProjectionStates) × (run_marks marks rows ≡ ok rows') × IsHealthy rows'
run_marks-IsHealthy_example =
    run_marks-IsHealthy marks rows ((proper_2, proper_1), (proper_2, tt)) rows-IsHealthy

abbrev late_marks : List Mark
late_marks =
    synchronized_with "postcodes" current "publication-1" (noon 3)
    ∷ stale_for "postcodes" current "publication-1" (noon 3) (("code", text "io") ∷ [])
    ∷ []

late_marks_spare_example :
    (rows' : ProjectionStates) × (run_marks late_marks rows ≡ ok rows')
    × (find (is_state_of "postcodes" current) rows' ≡ some state)
unfolding find
late_marks_spare_example =
    late_marks_spare late_marks rows "postcodes" current state (proper_1, ((proper_1, refl), tt))
      (refl, (refl, tt)) rows-IsHealthy refl
