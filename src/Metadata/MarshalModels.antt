-- ===== src/Metadata/MarshalModels.antt =====
-- metadata/file_marshal_models.py: an ingested file, its lifecycle state and the audit event.
use metrka_core.Prelude.{
  ℕ, String, Bool, true, false, ◌&&◌, ◌||◌, not, Option, none, some, List, [], ◌∷◌, str_eq,
}
use metrka_core.Prelude.Tests.{ltb, ◌==◌, if◌then◌else◌}
use metrka_core.Prelude.Lists.{any}
use metrka_core.Prelude.Text.{is_blank, is_some}
use metrka_core.Prelude.Time.{Date, DateTime, is_aware, is_utc}
use metrka_core.Prelude.Result.{Result, ok, value_error, ◌>>◌, raise_if, require_non_blank}
use metrka_core.Metadata.ArtifactPaths.{str_leb, is_normalized}
use metrka_core.Silver.BuildModels.{is_sha256_hex}

pub data ArtifactRole : Type 0 where
  data_role source_schema documentation : ArtifactRole

pub record BronzeArtifactDigest : Type 0 where
  pub relative_path : String
  pub sha256 : String
  pub size_bytes : ℕ

pub record MarshaledFile : Type 0 where
  pub dataset_file_id : String
  pub dataset_id : String
  pub source_url : String
  pub source_file_name : String
  pub original_source_file_name : String
  pub source_hash : String
  pub file_size : ℕ
  pub ingestion_timestamp : DateTime
  pub source_last_modified : Option DateTime
  pub row_count_raw : ℕ
  pub column_count_raw : ℕ
  pub artifact_role : ArtifactRole

pub record SilverCandidateFile : Type 0 where
  pub dataset_file_id : String
  pub dataset_id : String
  pub bronze_run_id : String

pub record MarshalEntry : Type 0 where
  pub file : MarshaledFile
  pub bronze_run_id : Option String
  pub bronze_artifacts : List BronzeArtifactDigest
  pub silver_run_id : Option String
  pub landing_path : Option String
  pub manifest_path : Option String
  pub partition_key : Option String
  pub partition_value : Option String
  pub is_promoted : Bool
  pub superseded_by_file_id : Option String
  pub promoted_at : Option DateTime
  pub version_period : Option Date

-- A value of the `meta` dictionaries.
pub data MetaValue : Type 0 where
  null : MetaValue
  text : String → MetaValue
  number : ℕ → MetaValue

abbrev pub Meta : Type 0
Meta = List (String × MetaValue)

pub data EventType : Type 0 where
  entry_created entry_replaced : EventType

pub record MarshalEvent : Type 0 where
  pub event_ts : DateTime
  pub event_type : EventType
  pub file_id : String
  pub reason : String
  pub old : Option MarshalEntry
  pub new : MarshalEntry
  pub meta : Meta

-- `_require_utc_datetime`
abbrev pub require_utc_datetime : DateTime → String → Result (Unit {0})
require_utc_datetime value field_name = do
  raise_if (not (is_aware value)) (value_error field_name)
  raise_if (not (is_utc value)) (value_error field_name)

-- `BronzeArtifactDigest.__post_init__`; a size is a natural number here, so its test cannot fail.
unfoldable pub check_digest : BronzeArtifactDigest → Result (Unit {0})
unfolding is_normalized is_sha256_hex
check_digest a = do
  raise_if (not (is_normalized a.relative_path))
      (value_error "Bronze artifact relative_path must be a normalized relative path")
  raise_if (not (is_sha256_hex a.sha256))
      (value_error "Bronze artifact sha256 must be a lowercase SHA-256 hex digest")

abbrev pub check_modified : Option DateTime → DateTime → Result (Unit {0})
check_modified none ingested = ok tt
check_modified (some modified) ingested = do
  require_utc_datetime modified "source_last_modified"
  raise_if (ltb ingested.instant modified.instant)
      (value_error "source_last_modified cannot be after ingestion_timestamp")

-- `MarshaledFile.__post_init__`; the counts of rows are natural numbers here, and the role is one of
-- the three.
unfoldable pub check_file : MarshaledFile → Result (Unit {0})
check_file f = do
  raise_if (is_blank f.dataset_file_id) (value_error "dataset_file_id must not be blank")
  raise_if (f.file_size == 0) (value_error "file_size must be > 0")
  raise_if (ltb f.column_count_raw 1) (value_error "column_count_raw must be >= 1")
  require_utc_datetime f.ingestion_timestamp "ingestion_timestamp"
  check_modified f.source_last_modified f.ingestion_timestamp

-- `SilverCandidateFile.__post_init__`
unfoldable pub check_candidate_file : SilverCandidateFile → Result (Unit {0})
unfolding require_non_blank
check_candidate_file c = require_non_blank (
    ("dataset_file_id", c.dataset_file_id)
    ∷ ("dataset_id", c.dataset_id)
    ∷ ("bronze_run_id", c.bronze_run_id)
    ∷ [])

-- `sorted(artifacts, key=lambda artifact: artifact.relative_path)`, which is stable.
unfoldable pub insert_artifact :
    BronzeArtifactDigest → List BronzeArtifactDigest → List BronzeArtifactDigest
insert_artifact a [] = a ∷ []
insert_artifact a (b ∷ rest) =
    let later = insert_artifact a rest in
    if str_leb a.relative_path b.relative_path then a ∷ b ∷ rest else b ∷ later

unfoldable pub sort_artifacts : List BronzeArtifactDigest → List BronzeArtifactDigest
unfolding insert_artifact
sort_artifacts [] = []
sort_artifacts (a ∷ rest) = insert_artifact a (sort_artifacts rest)

abbrev pub has_path : String → BronzeArtifactDigest → Bool
has_path path a = str_eq a.relative_path path

-- `len(paths) != len(set(paths))`
unfoldable pub has_duplicate_paths : List BronzeArtifactDigest → Bool
unfolding any
has_duplicate_paths [] = false
has_duplicate_paths (a ∷ rest) = any (has_path a.relative_path) rest || has_duplicate_paths rest

unfoldable pub digest_eq : BronzeArtifactDigest → BronzeArtifactDigest → Bool
digest_eq a b =
    str_eq a.relative_path b.relative_path
    && (str_eq a.sha256 b.sha256 && a.size_bytes == b.size_bytes)

-- `a == b` of the tuples.
unfoldable pub digests_eq : List BronzeArtifactDigest → List BronzeArtifactDigest → Bool
unfolding digest_eq
digests_eq [] [] = true
digests_eq [] (b ∷ bs) = false
digests_eq (a ∷ as') [] = false
digests_eq (a ∷ as') (b ∷ bs) = digest_eq a b && digests_eq as' bs

abbrev pub no_artifacts : List BronzeArtifactDigest → Bool
no_artifacts [] = true
no_artifacts (a ∷ rest) = false

-- `MarshalEntry.with_bronze_artifacts`
unfoldable pub with_bronze_artifacts :
    List BronzeArtifactDigest → MarshalEntry → Result MarshalEntry
unfolding sort_artifacts has_duplicate_paths digests_eq
with_bronze_artifacts artifacts e =
    let ordered = sort_artifacts artifacts in
    do
      raise_if (not (is_some e.bronze_run_id))
          (value_error "Cannot record Bronze artifacts without bronze_run_id")
      raise_if (no_artifacts artifacts) (value_error "Bronze artifact manifest must not be empty")
      raise_if (has_duplicate_paths ordered)
          (value_error "Bronze artifact manifest contains duplicate relative paths")
      raise_if
          (not (no_artifacts e.bronze_artifacts) && not (digests_eq e.bronze_artifacts ordered))
          (value_error "Bronze artifact manifest is immutable once recorded")
      ok (record e { bronze_artifacts = ordered })

-- `MarshalEntry.demote`
abbrev pub demote : MarshalEntry → MarshalEntry
demote e = record e { is_promoted = false; promoted_at = none }

-- `a or b` of optional texts.
abbrev pub or_text : Option String → Option String → Option String
or_text none b = b
or_text (some a) b = if str_eq a "" then b else some a

-- The optional arguments of `as_promoted`.
pub record PromotedMeta : Type 0 where
  pub silver_run_id : Option String
  pub manifest_path : Option String
  pub partition_key : Option String
  pub partition_value : Option String

-- What `as_promoted` replaces.
abbrev pub promoted_entry : DateTime → Date → PromotedMeta → MarshalEntry → MarshalEntry
promoted_entry at period m e = record e {
  is_promoted = true;
  promoted_at = some at;
  version_period = some period;
  silver_run_id = or_text m.silver_run_id e.silver_run_id;
  manifest_path = or_text m.manifest_path e.manifest_path;
  partition_key = or_text m.partition_key e.partition_key;
  partition_value = or_text m.partition_value e.partition_value;
}

-- `MarshalEntry.as_promoted`
unfoldable pub as_promoted : DateTime → Date → PromotedMeta → MarshalEntry → Result MarshalEntry
as_promoted at period m e = do
  raise_if (is_some e.superseded_by_file_id) (value_error "superseded file cannot be promoted")
  require_utc_datetime at "promoted_at"
  ok (promoted_entry at period m e)

abbrev pub superseded_entry : String → MarshalEntry → MarshalEntry
superseded_entry new_id e = record e {
  is_promoted = false;
  promoted_at = none;
  superseded_by_file_id = some new_id;
}

-- `MarshalEntry.superseded_by`
unfoldable pub superseded_by : String → MarshalEntry → Result MarshalEntry
superseded_by new_id e = do
  raise_if (str_eq new_id e.file.dataset_file_id) (value_error "file cannot supersede itself")
  ok (superseded_entry new_id e)
