-- ===== src/Catalog/ProjectionStore.antt =====
-- catalog/postgres_publication_projection_store.py over the rows of
-- `catalog.dataset_publication_projection_states`.
pub mod Health
pub mod Marks
pub mod Sequences
use metrka_core.Prelude.{
  String, Bool, true, false, ◌&&◌, ◌||◌, not, Option, none, some, List, [], ◌∷◌, ◌++◌, str_eq,
}
use metrka_core.Prelude.Tests.{if◌then◌else◌}
use metrka_core.Prelude.Lists.{find, any, update}
use metrka_core.Prelude.Text.{is_some, opt_eq}
use metrka_core.Prelude.Time.{DateTime}
use metrka_core.Prelude.Result.{
  Result, ok, raise, value_error, runtime_error, integrity_error, ◌>>=◌, ◌>>◌, raise_if,
}
use metrka_core.Catalog.ProjectionModels.{
  PublicationProjectionKind, current, history, PublicationProjectionStatus, pending, synchronized,
  stale, ProjectionError, DatasetPublicationProjectionState, is_pending, is_synchronized, is_stale,
  has_error, check_projection_state,
}

abbrev pub ProjectionStates : Type 0
ProjectionStates = List DatasetPublicationProjectionState

abbrev pub same_kind : PublicationProjectionKind → PublicationProjectionKind → Bool
same_kind current current = true
same_kind history history = true
same_kind _ _ = false

-- `WHERE dataset_id = %s AND projection_kind = %s`: the primary key.
abbrev pub is_state_of :
    String → PublicationProjectionKind → DatasetPublicationProjectionState → Bool
is_state_of dataset kind s = str_eq s.dataset_id dataset && same_kind s.projection_kind kind

-- The CHECK constraints of the table.
unfoldable pub projection_checks : DatasetPublicationProjectionState → Bool
projection_checks s =
    (not (is_pending s.status) || not (is_some s.error))
    && ((not (is_stale s.status) || (is_some s.last_attempted_at && has_error s.error))
        && ((not (is_synchronized s.status)
              || opt_eq s.projected_publication_id (some s.expected_publication_id))
            && (not (is_synchronized s.status)
                || (is_some s.last_attempted_at
                    && (is_some s.last_synchronized_at && not (is_some s.error))))))

-- `_row_to_projection_state` of a row whose error is a JSON object or NULL.
unfoldable pub row_to_projection_state :
    DatasetPublicationProjectionState → Result DatasetPublicationProjectionState
unfolding check_projection_state
row_to_projection_state row = do check_projection_state row; ok row

-- `_require_row`
abbrev pub require_row :
    Option DatasetPublicationProjectionState → Result DatasetPublicationProjectionState
require_row none = raise (runtime_error "PostgreSQL returned no projection state")
require_row (some row) = row_to_projection_state row

abbrev pub upsert_row :
    Bool
    → (DatasetPublicationProjectionState → Bool)
    → (DatasetPublicationProjectionState → DatasetPublicationProjectionState)
    → DatasetPublicationProjectionState
    → ProjectionStates
    → ProjectionStates
upsert_row true where_set change new rows = update where_set change rows
upsert_row false where_set change new rows = rows ++ new ∷ []

-- `INSERT … ON CONFLICT (dataset_id, projection_kind) DO UPDATE SET … WHERE guard`
unfoldable pub upsert_state :
    (DatasetPublicationProjectionState → Bool)
    → (DatasetPublicationProjectionState → DatasetPublicationProjectionState)
    → DatasetPublicationProjectionState
    → ProjectionStates
    → Result ProjectionStates
unfolding any update projection_checks
upsert_state guard change new rows =
    let own = is_state_of new.dataset_id new.projection_kind in
    do
      raise_if (not (projection_checks new)) (integrity_error "publication_projection_check")
      raise_if (any (λ s. own s && (guard s && not (projection_checks (change s)))) rows)
          (integrity_error "publication_projection_check")
      ok (upsert_row (any own rows) (λ s. own s && guard s) change new rows)

abbrev pub pending_state :
    String → PublicationProjectionKind → String → DateTime → DatasetPublicationProjectionState
pending_state dataset kind publication at = record {
  dataset_id = dataset;
  projection_kind = kind;
  expected_publication_id = publication;
  projected_publication_id = none;
  status = pending;
  status_changed_at = at;
  last_attempted_at = none;
  last_synchronized_at = none;
  error = none;
}

-- The SET lists of `mark_pending`.
abbrev pub set_pending :
    String → DateTime → DatasetPublicationProjectionState → DatasetPublicationProjectionState
set_pending publication at s = record s {
  expected_publication_id = publication;
  status = pending;
  status_changed_at = at;
  last_attempted_at = none;
  error = none;
}

abbrev pub expects : String → DatasetPublicationProjectionState → Bool
expects publication s = str_eq s.expected_publication_id publication

abbrev pub always : DatasetPublicationProjectionState → Bool
always s = true

-- The rows of the dataset that the SELECT returns, in the order of their kinds, and the two of them
-- that the method requires.
unfoldable pub both_states :
    String
    → ProjectionStates
    → Result (DatasetPublicationProjectionState × DatasetPublicationProjectionState)
unfolding find
both_states dataset rows = do
  current_state ← require_row (find (is_state_of dataset current) rows)
  history_state ← require_row (find (is_state_of dataset history) rows)
  ok (current_state, history_state)

unfoldable pub mark_pending :
    String
    → String
    → String
    → DateTime
    → ProjectionStates
    → Result
        ((DatasetPublicationProjectionState × DatasetPublicationProjectionState) × ProjectionStates)
unfolding upsert_state both_states
mark_pending dataset current_publication history_publication at rows = do
  rows' ←
      upsert_state (λ s. not (expects current_publication s)) (set_pending current_publication at)
        (pending_state dataset current current_publication at) rows
  rows'' ←
      upsert_state always (set_pending history_publication at)
        (pending_state dataset history history_publication at) rows'
  states ← both_states dataset rows''
  ok (states, rows'')

abbrev pub synchronized_state :
    String → PublicationProjectionKind → String → DateTime → DatasetPublicationProjectionState
synchronized_state dataset kind publication at = record {
  dataset_id = dataset;
  projection_kind = kind;
  expected_publication_id = publication;
  projected_publication_id = some publication;
  status = synchronized;
  status_changed_at = at;
  last_attempted_at = some at;
  last_synchronized_at = some at;
  error = none;
}

abbrev pub set_synchronized :
    String → DateTime → DatasetPublicationProjectionState → DatasetPublicationProjectionState
set_synchronized publication at s = record s {
  projected_publication_id = some publication;
  status = synchronized;
  status_changed_at = at;
  last_attempted_at = some at;
  last_synchronized_at = some at;
  error = none;
}

-- The row that RETURNING gives, or else the SELECT: both are the row of the key.
unfoldable pub reread_state :
    String
    → PublicationProjectionKind
    → ProjectionStates
    → Result (DatasetPublicationProjectionState × ProjectionStates)
unfolding find row_to_projection_state
reread_state dataset kind rows = do
  state ← require_row (find (is_state_of dataset kind) rows)
  ok (state, rows)

unfoldable pub mark_synchronized :
    String
    → PublicationProjectionKind
    → String
    → DateTime
    → ProjectionStates
    → Result (DatasetPublicationProjectionState × ProjectionStates)
unfolding upsert_state reread_state
mark_synchronized dataset kind publication at rows = do
  rows' ←
      upsert_state (expects publication) (set_synchronized publication at)
        (synchronized_state dataset kind publication at) rows
  reread_state dataset kind rows'

abbrev pub stale_state :
    String
    → PublicationProjectionKind
    → String
    → DateTime
    → ProjectionError
    → DatasetPublicationProjectionState
stale_state dataset kind publication at error = record {
  dataset_id = dataset;
  projection_kind = kind;
  expected_publication_id = publication;
  projected_publication_id = none;
  status = stale;
  status_changed_at = at;
  last_attempted_at = some at;
  last_synchronized_at = none;
  error = some error;
}

abbrev pub set_stale :
    DateTime
    → ProjectionError
    → DatasetPublicationProjectionState
    → DatasetPublicationProjectionState
set_stale at error s = record s {
  status = stale;
  status_changed_at = at;
  last_attempted_at = some at;
  error = some error;
}

unfoldable pub mark_stale :
    String
    → PublicationProjectionKind
    → String
    → DateTime
    → ProjectionError
    → ProjectionStates
    → Result (DatasetPublicationProjectionState × ProjectionStates)
unfolding upsert_state reread_state
mark_stale dataset kind publication at error rows = do
  raise_if (not (has_error (some error))) (value_error "Projection error must not be empty")
  rows' ←
      upsert_state (expects publication) (set_stale at error)
        (stale_state dataset kind publication at error) rows
  reread_state dataset kind rows'

-- `get`
unfoldable pub get_projection_state :
    String
    → PublicationProjectionKind
    → ProjectionStates
    → Result (Option DatasetPublicationProjectionState)
unfolding find row_to_projection_state
get_projection_state dataset kind rows = elim (find (is_state_of dataset kind) rows) [
  | none ↦ ok none
  | some row ↦ row_to_projection_state row >>= λ s. ok (some s)
]
