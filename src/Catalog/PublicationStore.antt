-- ===== src/Catalog/PublicationStore.antt =====
-- catalog/postgres_publication_store.py over the rows of `catalog.dataset_publications`. A statement
-- is a function of the table; the advisory lock makes the statements of one call consecutive, and an
-- exception leaves the transaction with the table that it began with.
pub mod Consistency
pub mod Publishing
pub mod Commit
pub mod Latest
pub mod History
use Prim.Native.Nat.{max}
use metrka_core.Prelude.{
  ℕ, ◌+◌, String, Bool, true, false, ◌&&◌, ◌||◌, not, Option, none, some, List, [], ◌∷◌, ◌++◌,
  str_eq,
}
use metrka_core.Prelude.Tests.{ltb, ◌==◌, if◌then◌else◌}
use metrka_core.Prelude.Lists.{find, select, any, update}
use metrka_core.Prelude.Text.{str_len, is_btrim_blank}
use metrka_core.Prelude.Time.{Date, date_eq, date_leb}
use metrka_core.Prelude.Result.{
  Result, ok, raise, runtime_error, integrity_error, ◌>>=◌, ◌>>◌, raise_if,
}
use metrka_core.Catalog.PublicationModels.{
  DatasetPublicationRequest, DatasetPublication, check_publication,
}

abbrev pub Publications : Type 0
Publications = List DatasetPublication

-- `WHERE publication_id = %s`
abbrev pub has_id : String → DatasetPublication → Bool
has_id i p = str_eq p.publication_id i

-- `WHERE silver_build_id = %s`
abbrev pub has_build : String → DatasetPublication → Bool
has_build b p = str_eq p.silver_build_id b

-- `WHERE dataset_id = %s AND partition_value = %s`
abbrev pub in_version : String → String → DatasetPublication → Bool
in_version d v p = str_eq p.dataset_id d && str_eq p.partition_value v

-- `… AND is_active_revision = true`
abbrev pub active_in : String → String → DatasetPublication → Bool
active_in d v p = in_version d v p && p.is_active_revision

-- `WHERE dataset_id = %s AND is_current = true`
abbrev pub current_in : String → DatasetPublication → Bool
current_in d p = str_eq p.dataset_id d && p.is_current

abbrev pub has_revision : String → String → ℕ → DatasetPublication → Bool
has_revision d v n p = in_version d v p && p.revision == n

-- `_row_to_publication`: the constructor checks the row that was read.
unfoldable pub row_to_publication : DatasetPublication → Result DatasetPublication
unfolding check_publication
row_to_publication row = do check_publication row; ok row

-- `fetchone` and `_row_to_publication(row) if row is not None else None`
unfoldable pub fetch_one :
    (DatasetPublication → Bool) → Publications → Result (Option DatasetPublication)
unfolding find row_to_publication
fetch_one p rows = elim (find p rows) [
  | none ↦ ok none
  | some row ↦ row_to_publication row >>= λ publication. ok (some publication)
]

unfoldable pub get_by_id : String → Publications → Result (Option DatasetPublication)
unfolding fetch_one
get_by_id publication_id rows = fetch_one (has_id publication_id) rows

unfoldable pub find_current : String → Publications → Result (Option DatasetPublication)
unfolding fetch_one
find_current dataset_id rows = fetch_one (current_in dataset_id) rows

unfoldable pub find_active : String → String → Publications → Result (Option DatasetPublication)
unfolding fetch_one
find_active dataset_id partition_value rows = fetch_one (active_in dataset_id partition_value) rows

-- `COALESCE(MAX(revision), 0)`
unfoldable pub max_revision : String → String → Publications → ℕ
max_revision d v [] = 0
max_revision d v (p ∷ rows) =
    let rest = max_revision d v rows in if in_version d v p then max p.revision rest else rest

-- The CHECK constraints of the table.
unfoldable pub satisfies_checks : DatasetPublication → Bool
satisfies_checks p =
    (not p.is_current || p.is_active_revision)
    && (ltb 0 p.fingerprint_version
        && (not (is_btrim_blank p.logical_hash_algorithm)
            && (str_len p.logical_data_hash == 64
                && (str_len p.processing_config_hash == 64
                    && (str_len p.quality_config_hash == 64
                        && (ltb 0 p.revision
                            && (not (is_btrim_blank p.schema_hash_algorithm)
                                && str_len p.schema_hash == 64)))))))

-- `INSERT`, refused by the primary key, the unique constraints, the partial unique indexes
-- and the CHECK constraints.
unfoldable pub insert_row : DatasetPublication → Publications → Result Publications
unfolding any satisfies_checks
insert_row p rows = do
  raise_if (not (satisfies_checks p)) (integrity_error "check")
  raise_if (any (has_id p.publication_id) rows) (integrity_error "dataset_publications_pkey")
  raise_if (any (has_build p.silver_build_id) rows)
      (integrity_error "dataset_publications_build_unique")
  raise_if (any (has_revision p.dataset_id p.partition_value p.revision) rows)
      (integrity_error "dataset_publications_revision_unique")
  raise_if (p.is_active_revision && any (active_in p.dataset_id p.partition_value) rows)
      (integrity_error "uq_dataset_publications_active_revision")
  raise_if (p.is_current && any (current_in p.dataset_id) rows)
      (integrity_error "uq_dataset_publications_current")
  ok (rows ++ p ∷ [])

-- `SET is_active_revision = false, is_current = false`
abbrev pub retire : DatasetPublication → DatasetPublication
retire p = record p { is_active_revision = false; is_current = false }

-- `SET is_current = false`
abbrev pub clear_current : DatasetPublication → DatasetPublication
clear_current p = record p { is_current = false }

-- Whether the new publication becomes the dataset's current one.
abbrev pub becomes_current : Option DatasetPublication → Date → Bool
becomes_current none period = true
becomes_current (some current) period = date_leb current.version_period period

abbrev pub id_of : Option DatasetPublication → Option String
id_of none = none
id_of (some p) = some p.publication_id

-- The first UPDATE, which runs if the version has an active revision.
unfoldable pub retire_previous : Option DatasetPublication → Publications → Publications
unfolding update
retire_previous none rows = rows
retire_previous (some previous) rows = update (has_id previous.publication_id) retire rows

-- The second UPDATE, which runs if the new publication becomes current.
unfoldable pub make_room : Bool → String → Publications → Publications
unfolding update
make_room false d rows = rows
make_room true d rows = update (current_in d) clear_current rows

-- The values of the INSERT.
unfoldable pub new_row : DatasetPublicationRequest → ℕ → Bool → Option String → DatasetPublication
new_row request revision is_current supersedes = record {
  publication_id = request.publication_id;
  pipeline_run_id = request.pipeline_run_id;
  dataset_id = request.dataset_id;
  version_period = request.version_period;
  partition_key = request.partition_key;
  partition_value = request.partition_value;
  revision = revision;
  silver_build_id = request.silver_build_id;
  engine_release_id = request.engine_release_id;
  processing_config_hash = request.processing_config_hash;
  quality_config_hash = request.quality_config_hash;
  fingerprint_version = request.fingerprint_version;
  logical_hash_algorithm = request.logical_hash_algorithm;
  schema_hash_algorithm = request.schema_hash_algorithm;
  logical_data_hash = request.logical_data_hash;
  schema_hash = request.schema_hash;
  manifest_path = request.manifest_path;
  published_at = request.published_at;
  is_active_revision = true;
  is_current = is_current;
  supersedes_publication_id = supersedes;
}

-- From the current and the previous publication to the end of the transaction.
unfoldable pub publish_revision :
    DatasetPublicationRequest
    → Option DatasetPublication
    → Option DatasetPublication
    → Publications
    → Result (DatasetPublication × Publications)
unfolding max_revision retire_previous make_room new_row insert_row row_to_publication
publish_revision request current previous rows =
    let revision = max_revision request.dataset_id request.partition_value rows + 1 in
    let is_current = becomes_current current request.version_period in
    let row = new_row request revision is_current (id_of previous) in
    let retired = retire_previous previous rows in
    let cleared = make_room is_current request.dataset_id retired in
    insert_row row cleared >>= λ rows'.
    row_to_publication row >>= λ publication. ok (publication, rows')

-- An already published build is returned as it stands.
abbrev pub published_before :
    DatasetPublicationRequest
    → DatasetPublication
    → Publications
    → Result (DatasetPublication × Publications)
published_before request existing rows = do
  raise_if
      (not (str_eq existing.dataset_id request.dataset_id)
        || not (str_eq existing.partition_value request.partition_value))
      (runtime_error "Silver build is already published for a different dataset version")
  ok (existing, rows)

-- The part of `publish` that runs for a build that has no publication.
unfoldable pub publish_new :
    DatasetPublicationRequest → Publications → Result (DatasetPublication × Publications)
unfolding fetch_one publish_revision
publish_new request rows = do
  current ← fetch_one (current_in request.dataset_id) rows
  previous ← fetch_one (active_in request.dataset_id request.partition_value) rows
  publish_revision request current previous rows

unfoldable pub publish :
    DatasetPublicationRequest → Publications → Result (DatasetPublication × Publications)
unfolding fetch_one publish_new
publish request rows = fetch_one (has_build request.silver_build_id) rows >>= λ existing.
    elim existing [
      | some publication ↦ published_before request publication rows
      | none ↦ publish_new request rows
    ]
