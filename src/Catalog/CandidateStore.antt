-- ===== src/Catalog/CandidateStore.antt =====
-- catalog/postgres_publication_candidate_store.py over the rows of
-- `catalog.dataset_publication_candidates`. A statement is a function of the table, and an exception
-- leaves the transaction with the table that it began with.
pub mod Lifecycle
pub mod Commands
pub mod Traces
pub mod Outcomes
pub mod Registering
use mathlib.Core.Bool.{decide}
use metrka_core.Prelude.{
  ℕ, String, Bool, true, false, ◌&&◌, ◌||◌, not, Option, none, some, List, [], ◌∷◌, ◌++◌, str_eq,
}
use metrka_core.Prelude.Tests.{ltb, ◌==◌, if◌then◌else◌}
use metrka_core.Prelude.Lists.{find, any, update}
use metrka_core.Prelude.Text.{str_len, is_blank, is_btrim_blank, is_some, opt_eq, strip}
use metrka_core.Prelude.Time.{DateTime, is_aware, date_eq}
use metrka_core.Prelude.Result.{
  Result, ok, raise, value_error, runtime_error, key_error, integrity_error, ◌>>=◌, ◌>>◌, raise_if,
}
use metrka_core.Catalog.CandidateModels.{
  SilverPublicationChangeKind, SilverPublicationChangeKind-discrete, none_changed,
  initial_publication, DatasetPublicationCandidateStatus, awaiting_approval, approved, rejected,
  published, DatasetPublicationCandidateRequest, DatasetPublicationCandidate,
}

abbrev pub Candidates : Type 0
Candidates = List DatasetPublicationCandidate

-- `WHERE candidate_id = %s`
abbrev pub has_candidate_id : String → DatasetPublicationCandidate → Bool
has_candidate_id i c = str_eq c.candidate_id i

-- `WHERE silver_build_id = %s`
abbrev pub has_candidate_build : String → DatasetPublicationCandidate → Bool
has_candidate_build b c = str_eq c.silver_build_id b

abbrev pub is_awaiting : DatasetPublicationCandidateStatus → Bool
is_awaiting awaiting_approval = true
is_awaiting _ = false

abbrev pub is_approved : DatasetPublicationCandidateStatus → Bool
is_approved approved = true
is_approved _ = false

abbrev pub is_rejected : DatasetPublicationCandidateStatus → Bool
is_rejected rejected = true
is_rejected _ = false

abbrev pub is_published : DatasetPublicationCandidateStatus → Bool
is_published published = true
is_published _ = false

-- `_require_non_empty`, which returns the normalised text.
unfoldable pub require_non_empty : String → String → Result String
unfolding strip
require_non_empty field_name value =
    let normalized = strip value in
    do raise_if (str_eq normalized "") (value_error field_name); ok normalized

-- `_matches_request`
unfoldable pub matches_request :
    DatasetPublicationCandidate → DatasetPublicationCandidateRequest → Bool
matches_request c r =
    str_eq c.dataset_id r.dataset_id
    && (date_eq c.version_period r.version_period
        && (str_eq c.partition_key r.partition_key
            && (str_eq c.partition_value r.partition_value
                && (str_eq c.silver_build_id r.silver_build_id
                    && (opt_eq c.baseline_publication_id r.baseline_publication_id
                        && (decide
                              (SilverPublicationChangeKind-discrete c.change_kind r.change_kind)
                            && (c.fingerprint_version == r.fingerprint_version
                                && (str_eq c.logical_hash_algorithm r.logical_hash_algorithm
                                    && (str_eq c.schema_hash_algorithm r.schema_hash_algorithm
                                        && (str_eq c.logical_data_hash r.logical_data_hash
                                            && str_eq c.schema_hash r.schema_hash))))))))))

-- The values of the INSERT of `register`.
unfoldable pub new_candidate : DatasetPublicationCandidateRequest → DatasetPublicationCandidate
new_candidate r = record {
  candidate_id = r.candidate_id;
  dataset_id = r.dataset_id;
  version_period = r.version_period;
  partition_key = r.partition_key;
  partition_value = r.partition_value;
  silver_build_id = r.silver_build_id;
  baseline_publication_id = r.baseline_publication_id;
  change_kind = r.change_kind;
  status = awaiting_approval;
  fingerprint_version = r.fingerprint_version;
  logical_hash_algorithm = r.logical_hash_algorithm;
  schema_hash_algorithm = r.schema_hash_algorithm;
  logical_data_hash = r.logical_data_hash;
  schema_hash = r.schema_hash;
  requested_at = r.requested_at;
  approved_at = none;
  approved_by = none;
  rejected_at = none;
  rejected_by = none;
  rejection_reason = none;
  publication_id = none;
}

abbrev pub was_approved : DatasetPublicationCandidate → Bool
was_approved c = is_some c.approved_at && is_some c.approved_by

abbrev pub was_rejected : DatasetPublicationCandidate → Bool
was_rejected c = is_some c.rejected_at && (is_some c.rejected_by && is_some c.rejection_reason)

abbrev pub never_approved : DatasetPublicationCandidate → Bool
never_approved c = not (is_some c.approved_at) && not (is_some c.approved_by)

abbrev pub never_rejected : DatasetPublicationCandidate → Bool
never_rejected c =
    not (is_some c.rejected_at) && (not (is_some c.rejected_by) && not (is_some c.rejection_reason))

abbrev pub lifecycle_columns :
    DatasetPublicationCandidateStatus → DatasetPublicationCandidate → Bool
lifecycle_columns awaiting_approval c =
    never_approved c && (never_rejected c && not (is_some c.publication_id))
lifecycle_columns approved c =
    was_approved c && (never_rejected c && not (is_some c.publication_id))
lifecycle_columns rejected c =
    never_approved c && (was_rejected c && not (is_some c.publication_id))
lifecycle_columns published c = was_approved c && (never_rejected c && is_some c.publication_id)

-- The constraint `publication_candidates_lifecycle_check`.
unfoldable pub lifecycle_check : DatasetPublicationCandidate → Bool
lifecycle_check c = lifecycle_columns c.status c

-- The constraints on the change: `publication_candidates_change_kind_check` and `…_baseline_check`.
abbrev pub baseline_check : SilverPublicationChangeKind → Option String → Bool
baseline_check none_changed baseline = false
baseline_check initial_publication baseline = not (is_some baseline)
baseline_check _ baseline = is_some baseline

-- The CHECK constraints of the table.
unfoldable pub candidate_checks : DatasetPublicationCandidate → Bool
unfolding lifecycle_check
candidate_checks c =
    lifecycle_check c
    && (baseline_check c.change_kind c.baseline_publication_id
        && (not (is_btrim_blank c.logical_hash_algorithm)
            && (not (is_btrim_blank c.schema_hash_algorithm)
                && (str_len c.logical_data_hash == 64
                    && (str_len c.schema_hash == 64 && ltb 0 c.fingerprint_version)))))

-- The row is added unless its build has a candidate.
unfoldable pub add_unless : Bool → DatasetPublicationCandidate → Candidates → Result Candidates
unfolding any
add_unless true c rows = ok rows
add_unless false c rows = do
  raise_if (any (has_candidate_id c.candidate_id) rows)
      (integrity_error "dataset_publication_candidates_pkey")
  ok (rows ++ c ∷ [])

-- `INSERT … ON CONFLICT (silver_build_id) DO NOTHING`
unfoldable pub insert_candidate : DatasetPublicationCandidate → Candidates → Result Candidates
unfolding any candidate_checks add_unless
insert_candidate c rows = do
  raise_if (not (candidate_checks c)) (integrity_error "check")
  add_unless (any (has_candidate_build c.silver_build_id) rows) c rows

unfoldable pub register :
    DatasetPublicationCandidateRequest
    → Candidates
    → Result (DatasetPublicationCandidate × Candidates)
unfolding new_candidate insert_candidate find matches_request
register request rows = insert_candidate (new_candidate request) rows >>= λ rows'.
    elim (find (has_candidate_build request.silver_build_id) rows') [
      | none ↦ raise (runtime_error "Publication candidate was not registered")
      | some candidate ↦ do
        raise_if (not (matches_request candidate request)) (
            runtime_error
              "The Silver build is already associated with a different publication candidate")
        ok (candidate, rows')
    ]

unfoldable pub get_candidate : String → Candidates → Option DatasetPublicationCandidate
unfolding find
get_candidate candidate_id rows = find (has_candidate_id candidate_id) rows

unfoldable pub get_by_id_for_update :
    String → Candidates → Result (Option DatasetPublicationCandidate)
unfolding require_non_empty find
get_by_id_for_update candidate_id rows = do
  normalized_id ← require_non_empty "candidate_id" candidate_id
  ok (find (has_candidate_id normalized_id) rows)

-- `UPDATE … SET … WHERE candidate_id = %s AND status = …`. A changed row that breaks the lifecycle
-- constraint is refused.
unfoldable pub transition :
    (DatasetPublicationCandidateStatus → Bool)
    → (DatasetPublicationCandidate → DatasetPublicationCandidate)
    → String
    → Candidates
    → Result Candidates
unfolding any update lifecycle_check
transition from change i rows = do
  raise_if
      (any (λ c. has_candidate_id i c && (from c.status && not (lifecycle_check (change c)))) rows)
      (integrity_error "publication_candidates_lifecycle_check")
  ok (update (λ c. has_candidate_id i c && from c.status) change rows)

-- The row of the RETURNING clause or of the SELECT that follows: after the UPDATE both are the row
-- with the identifier.
unfoldable pub reread : String → Candidates → Result DatasetPublicationCandidate
unfolding find
reread i rows = elim (find (has_candidate_id i) rows) [
  | none ↦ raise (key_error "Unknown publication candidate")
  | some candidate ↦ ok candidate
]

abbrev pub set_approved :
    DateTime → String → DatasetPublicationCandidate → DatasetPublicationCandidate
set_approved at by c = record c { status = approved; approved_at = some at; approved_by = some by }

abbrev pub set_rejected :
    DateTime → String → String → DatasetPublicationCandidate → DatasetPublicationCandidate
set_rejected at by reason c = record c {
  status = rejected;
  rejected_at = some at;
  rejected_by = some by;
  rejection_reason = some reason;
}

abbrev pub set_published : String → DatasetPublicationCandidate → DatasetPublicationCandidate
set_published publication_id c = record c {
  status = published;
  publication_id = some publication_id;
}

unfoldable pub approve :
    String → String → DateTime → Candidates → Result (DatasetPublicationCandidate × Candidates)
unfolding require_non_empty transition reread
approve candidate_id approved_by approved_at rows = do
  normalized_id ← require_non_empty "candidate_id" candidate_id
  normalized_actor ← require_non_empty "approved_by" approved_by
  raise_if (not (is_aware approved_at)) (value_error "approved_at must be timezone-aware")
  rows' ← transition is_awaiting (set_approved approved_at normalized_actor) normalized_id rows
  candidate ← reread normalized_id rows'
  raise_if (not (is_approved candidate.status))
      (runtime_error "Only an awaiting_approval candidate can be approved")
  ok (candidate, rows')

unfoldable pub reject :
    String
    → String
    → String
    → DateTime
    → Candidates
    → Result (DatasetPublicationCandidate × Candidates)
unfolding require_non_empty transition reread
reject candidate_id rejected_by rejection_reason rejected_at rows = do
  normalized_id ← require_non_empty "candidate_id" candidate_id
  normalized_actor ← require_non_empty "rejected_by" rejected_by
  normalized_reason ← require_non_empty "rejection_reason" rejection_reason
  raise_if (not (is_aware rejected_at)) (value_error "rejected_at must be timezone-aware")
  rows' ←
      transition is_awaiting (set_rejected rejected_at normalized_actor normalized_reason)
        normalized_id rows
  candidate ← reread normalized_id rows'
  raise_if (not (is_rejected candidate.status))
      (runtime_error "Only an awaiting_approval candidate can be rejected")
  ok (candidate, rows')

unfoldable pub mark_published :
    String → String → Candidates → Result (DatasetPublicationCandidate × Candidates)
unfolding require_non_empty transition reread
mark_published candidate_id publication_id rows = do
  normalized_candidate_id ← require_non_empty "candidate_id" candidate_id
  normalized_publication_id ← require_non_empty "publication_id" publication_id
  rows' ←
      transition is_approved (set_published normalized_publication_id) normalized_candidate_id rows
  candidate ← reread normalized_candidate_id rows'
  raise_if
      (not (
        is_published candidate.status
        && opt_eq candidate.publication_id (some normalized_publication_id)))
      (runtime_error "Only an approved candidate can be published")
  ok (candidate, rows')
