-- ===== src/Catalog/ProjectionModels.antt =====
-- catalog/publication_projection_models.py: the health of a projection of a dataset's publications.
use metrka_core.Prelude.{String, Bool, true, false, ◌&&◌, not, Option, none, some, List, [], ◌∷◌}
use metrka_core.Prelude.Text.{is_blank, is_some, opt_eq}
use metrka_core.Prelude.Time.{DateTime, is_aware}
use metrka_core.Prelude.Result.{Result, value_error, ◌>>◌, raise_if, require_non_blank}
use metrka_core.Metadata.MarshalModels.{MetaValue}

pub data PublicationProjectionKind : Type 0 where
  current history : PublicationProjectionKind

pub data PublicationProjectionStatus : Type 0 where
  pending synchronized stale : PublicationProjectionStatus

-- A structured error: the items of a JSON object.
abbrev pub ProjectionError : Type 0
ProjectionError = List (String × MetaValue)

pub record DatasetPublicationProjectionState : Type 0 where
  pub dataset_id : String
  pub projection_kind : PublicationProjectionKind
  pub expected_publication_id : String
  pub projected_publication_id : Option String
  pub status : PublicationProjectionStatus
  pub status_changed_at : DateTime
  pub last_attempted_at : Option DateTime
  pub last_synchronized_at : Option DateTime
  pub error : Option ProjectionError

abbrev pub is_pending : PublicationProjectionStatus → Bool
is_pending pending = true
is_pending _ = false

abbrev pub is_synchronized : PublicationProjectionStatus → Bool
is_synchronized synchronized = true
is_synchronized _ = false

abbrev pub is_stale : PublicationProjectionStatus → Bool
is_stale stale = true
is_stale _ = false

-- `projected_publication_id is not None and not projected_publication_id.strip()`
abbrev pub is_blank_id : Option String → Bool
is_blank_id none = false
is_blank_id (some i) = is_blank i

-- `timestamp is not None and timestamp.utcoffset() is None`
abbrev pub is_naive : Option DateTime → Bool
is_naive none = false
is_naive (some t) = not (is_aware t)

-- `bool(error)`
abbrev pub has_error : Option ProjectionError → Bool
has_error none = false
has_error (some []) = false
has_error (some (item ∷ rest)) = true

-- `DatasetPublicationProjectionState.__post_init__`
unfoldable pub check_projection_state : DatasetPublicationProjectionState → Result (Unit {0})
unfolding require_non_blank
check_projection_state s = do
  require_non_blank
      (("dataset_id", s.dataset_id) ∷ ("expected_publication_id", s.expected_publication_id) ∷ [])
  raise_if (is_blank_id s.projected_publication_id)
      (value_error "projected_publication_id must not be empty")
  raise_if (not (is_aware s.status_changed_at)) (value_error "status_changed_at")
  raise_if (is_naive s.last_attempted_at) (value_error "last_attempted_at")
  raise_if (is_naive s.last_synchronized_at) (value_error "last_synchronized_at")
  raise_if
      (is_synchronized s.status
        && not (opt_eq s.projected_publication_id (some s.expected_publication_id)))
      (value_error "A synchronized projection must contain the expected publication")
  raise_if
      (is_synchronized s.status
        && not (is_some s.last_attempted_at && is_some s.last_synchronized_at))
      (value_error "A synchronized projection requires attempt and synchronization timestamps")
  raise_if (is_synchronized s.status && is_some s.error)
      (value_error "A synchronized projection cannot contain an error")
  raise_if (is_stale s.status && not (is_some s.last_attempted_at))
      (value_error "A stale projection requires an attempt timestamp")
  raise_if (is_stale s.status && not (has_error s.error))
      (value_error "A stale projection requires a structured error")
  raise_if (is_pending s.status && is_some s.error)
      (value_error "A pending projection cannot contain an error")
