-- ===== src/Metadata/MarshalStore.antt =====
-- metadata/postgres_file_marshal.py over the rows of `meta.marshaled_files` and the log
-- `logs.marshal_events`.
use metrka_core.Prelude.{
  String, Bool, true, false, ◌&&◌, ◌||◌, not, Option, none, some, List, [], ◌∷◌, ◌++◌, str_eq,
}
use metrka_core.Prelude.Tests.{ltb, if◌then◌else◌}
use metrka_core.Prelude.Lists.{find, any, update, select}
use metrka_core.Prelude.Text.{is_some}
use metrka_core.Prelude.Time.{Date, date_eq}
use metrka_core.Prelude.Result.{
  Result, ok, value_error, integrity_error, ◌>>=◌, ◌>>◌, raise_if, require_non_blank,
}
use metrka_core.Metadata.ArtifactPaths.{str_leb}
use metrka_core.Metadata.MarshalModels.{
  ArtifactRole, data_role, BronzeArtifactDigest, SilverCandidateFile, MarshalEntry, MarshalEvent,
  no_artifacts, check_digest, check_file, check_candidate_file, sort_artifacts, has_duplicate_paths,
}

abbrev pub Files : Type 0
Files = List MarshalEntry

-- `WHERE f.dataset_file_id = %s`
abbrev pub has_file_id : String → MarshalEntry → Bool
has_file_id i e = str_eq e.file.dataset_file_id i

abbrev pub period_is : Option Date → Date → Bool
period_is none b = false
period_is (some a) b = date_eq a b

-- `WHERE f.dataset_id = %s AND f.version_period = %s AND f.is_promoted = TRUE`
abbrev pub promoted_in : String → Date → MarshalEntry → Bool
promoted_in dataset period e =
    str_eq e.file.dataset_id dataset && (period_is e.version_period period && e.is_promoted)

-- `WHERE dataset_id = %s AND source_hash = %s`
abbrev pub has_hash : String → String → MarshalEntry → Bool
has_hash dataset hash e = str_eq e.file.dataset_id dataset && str_eq e.file.source_hash hash

-- The loop of `_bronze_artifacts`.
unfoldable pub check_digests : List BronzeArtifactDigest → Result (Unit {0})
unfolding check_digest
check_digests [] = ok tt
check_digests (a ∷ rest) = let others = check_digests rest in check_digest a >> others

-- `_bronze_artifacts`
unfoldable pub bronze_artifacts_of : List BronzeArtifactDigest → Result (List BronzeArtifactDigest)
unfolding check_digests sort_artifacts has_duplicate_paths
bronze_artifacts_of artifacts =
    let ordered = sort_artifacts artifacts in
    do
      check_digests artifacts
      raise_if (has_duplicate_paths ordered)
          (value_error "PostgreSQL bronze_artifacts contains duplicate relative paths")
      ok ordered

-- The columns that `_required_text` reads.
abbrev pub required_texts : MarshalEntry → List (String × String)
required_texts e =
    ("dataset_file_id", e.file.dataset_file_id)
    ∷ ("dataset_id", e.file.dataset_id)
    ∷ ("source_url", e.file.source_url)
    ∷ ("source_file_name", e.file.source_file_name)
    ∷ ("original_source_file_name", e.file.original_source_file_name)
    ∷ ("source_hash", e.file.source_hash)
    ∷ []

-- `_marshal_entry_from_record` of a row that has its columns' types.
unfoldable pub entry_from_record : MarshalEntry → Result MarshalEntry
unfolding require_non_blank check_file bronze_artifacts_of
entry_from_record e = do
  require_non_blank (required_texts e)
  check_file e.file
  ordered ← bronze_artifacts_of e.bronze_artifacts
  ok (record e { bronze_artifacts = ordered })

-- `_marshal_entry_from_record(record) if record else None`
unfoldable pub read_record : Option MarshalEntry → Result (Option MarshalEntry)
unfolding entry_from_record
read_record none = ok none
read_record (some e) = entry_from_record e >>= λ entry. ok (some entry)

-- `entry.superseded_by_file_id if entry.superseded_by_file_id else None`
abbrev pub nonempty : Option String → Option String
nonempty none = none
nonempty (some a) = if str_eq a "" then none else some a

-- The row of the entry.
abbrev pub stored : MarshalEntry → MarshalEntry
stored e = record e { superseded_by_file_id = nonempty e.superseded_by_file_id }

-- Another row that the index `uq_marshaled_files_promoted_period` puts in the entry's place.
abbrev pub in_place_of : Option Date → MarshalEntry → MarshalEntry → Bool
in_place_of none e x = false
in_place_of (some period) e x =
    e.is_promoted
    && (not (has_file_id e.file.dataset_file_id x) && promoted_in e.file.dataset_id period x)

abbrev pub put_row : Bool → MarshalEntry → Files → Files
put_row true e rows = update (has_file_id e.file.dataset_file_id) (λ x. e) rows
put_row false e rows = rows ++ e ∷ []

-- `INSERT … ON CONFLICT (dataset_file_id) DO UPDATE SET` every column.
unfoldable pub upsert_marshaled_file : MarshalEntry → Files → Result Files
unfolding any update
upsert_marshaled_file e rows = do
  raise_if (any (in_place_of e.version_period e) rows)
      (integrity_error "uq_marshaled_files_promoted_period")
  ok (put_row (any (has_file_id e.file.dataset_file_id) rows) (stored e) rows)

-- `insert_marshal_event`: the log keeps the insertion order.
abbrev pub insert_marshal_event : MarshalEvent → List MarshalEvent → List MarshalEvent
insert_marshal_event event events = events ++ event ∷ []

unfoldable pub check_hash_exists : String → String → Files → Bool
unfolding any
check_hash_exists dataset hash rows = any (has_hash dataset hash) rows

-- `ORDER BY f.ingestion_timestamp DESC LIMIT 1`
abbrev pub newer : MarshalEntry → Option MarshalEntry → Option MarshalEntry
newer e none = some e
newer e (some x) =
    if ltb e.file.ingestion_timestamp.instant x.file.ingestion_timestamp.instant
    then some x
    else some e

unfoldable pub newest : Files → Option MarshalEntry
newest [] = none
newest (e ∷ rows) = newer e (newest rows)

unfoldable pub get_marshaled_file_by_hash : String → String → Files → Result (Option MarshalEntry)
unfolding newest select read_record
get_marshaled_file_by_hash dataset hash rows =
    read_record (newest (select (has_hash dataset hash) rows))

unfoldable pub get_marshaled_file : String → Files → Result (Option MarshalEntry)
unfolding find read_record
get_marshaled_file i rows = read_record (find (has_file_id i) rows)

-- The unique index leaves one row at most, so that the ORDER BY has nothing to choose.
unfoldable pub get_promoted_for_version_period :
    String → Date → Files → Result (Option MarshalEntry)
unfolding find read_record
get_promoted_for_version_period dataset period rows =
    read_record (find (promoted_in dataset period) rows)

abbrev pub is_data : ArtifactRole → Bool
is_data data_role = true
is_data _ = false

abbrev pub in_dataset : Option String → MarshalEntry → Bool
in_dataset none e = true
in_dataset (some dataset) e = str_eq e.file.dataset_id dataset

-- The WHERE clause of `get_silver_candidate_files`.
unfoldable pub is_silver_candidate : Option String → MarshalEntry → Bool
is_silver_candidate dataset e =
    is_some e.bronze_run_id
    && (not (no_artifacts e.bronze_artifacts)
        && (is_data e.file.artifact_role
            && ((e.is_promoted || not (is_some e.superseded_by_file_id)) && in_dataset dataset e)))

-- `ORDER BY f.ingestion_timestamp ASC, f.dataset_file_id ASC`
unfoldable pub ingested_before : MarshalEntry → MarshalEntry → Bool
unfolding str_leb
ingested_before a b =
    if ltb a.file.ingestion_timestamp.instant b.file.ingestion_timestamp.instant
    then true
    else if ltb b.file.ingestion_timestamp.instant a.file.ingestion_timestamp.instant
    then false
    else str_leb a.file.dataset_file_id b.file.dataset_file_id

unfoldable pub insert_ingested : MarshalEntry → Files → Files
unfolding ingested_before
insert_ingested e [] = e ∷ []
insert_ingested e (x ∷ rows) =
    let later = insert_ingested e rows in if ingested_before e x then e ∷ x ∷ rows else x ∷ later

unfoldable pub order_ingested : Files → Files
unfolding insert_ingested
order_ingested [] = []
order_ingested (e ∷ rows) = insert_ingested e (order_ingested rows)

abbrev pub run_text : Option String → String
run_text none = ""
run_text (some run) = run

-- `_silver_candidate_from_record`; a run that is NULL is refused as a blank one is.
unfoldable pub candidate_from_record : MarshalEntry → Result SilverCandidateFile
unfolding check_candidate_file
candidate_from_record e =
    let c : SilverCandidateFile = record {
      dataset_file_id = e.file.dataset_file_id;
      dataset_id = e.file.dataset_id;
      bronze_run_id = run_text e.bronze_run_id;
    } in
    do check_candidate_file c; ok c

unfoldable pub candidates_from_records : Files → Result (List SilverCandidateFile)
unfolding candidate_from_record
candidates_from_records [] = ok []
candidates_from_records (e ∷ rows) = do
  let rest = candidates_from_records rows
  c ← candidate_from_record e
  others ← rest
  ok (c ∷ others)

unfoldable pub get_silver_candidate_files :
    Option String → Files → Result (List SilverCandidateFile)
unfolding candidates_from_records order_ingested select is_silver_candidate
get_silver_candidate_files dataset rows =
    candidates_from_records (order_ingested (select (is_silver_candidate dataset) rows))
