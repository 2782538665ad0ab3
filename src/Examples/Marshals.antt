-- ===== src/Examples/Marshals.antt =====
-- A file that is registered, whose artifacts are recorded, and that is promoted.
use metrka_core.Prelude.{◌≡◌, refl, ℕ, none, some, false, [], ◌∷◌, List, arith}
use metrka_core.Prelude.Lists.{find, any, count, update}
use metrka_core.Prelude.Text.{is_blank, str_len, all_hex}
use metrka_core.Prelude.Result.{ok, require_non_blank}
use metrka_core.Metadata.ArtifactPaths.{is_normalized, has_backslash, segments, str_leb}
use metrka_core.Metadata.MarshalModels.{
  MarshaledFile, MarshalEntry, MarshalEvent, entry_created, entry_replaced, number,
  BronzeArtifactDigest, data_role, Meta, text, check_file, check_digest, sort_artifacts,
  insert_artifact, has_duplicate_paths, with_bronze_artifacts, digests_eq, promoted_entry,
}
use metrka_core.Metadata.MarshalStore.{
  get_marshaled_file, read_record, entry_from_record, bronze_artifacts_of, check_digests,
  upsert_marshaled_file, check_hash_exists, get_promoted_for_version_period, has_file_id,
}
use metrka_core.Metadata.FileMarshal.{
  Marshal, register_file, record_bronze_artifacts, promote, put, merge, set_key, get_text,
  require_entry, total_bytes, promoted_meta,
}
use metrka_core.Metadata.FileMarshal.Writes.{replay_from}
use metrka_core.Metadata.FileMarshal.Traces.{
  registered, recorded, Steps, here, next, IsGoverned, IsKept,
}
use metrka_core.Metadata.FileMarshal.Invariant.{Steps-IsGoverned, Steps-IsKept}
use metrka_core.Metadata.FileMarshal.Promoting.{IsPromotable, promote_lem}
use metrka_core.Silver.BuildModels.{is_sha256_hex}
use metrka_core.Examples.{hash_a, hash_b, june, noon}

abbrev pub empty : Marshal
empty = record { files = []; events = []; ticks = 0 }

pub empty-IsGoverned : IsGoverned empty
unfolding count replay_from
empty-IsGoverned = record {
  orderly = record {
    ids = λ i. ground arith;
    hashes = λ d h. ground arith;
    promoted = λ d p. ground arith;
    consistent = tt;
    settled = tt;
  };
  log = refl;
}

abbrev file : MarshaledFile
file = record {
  dataset_file_id = "file-1";
  dataset_id = "postcodes";
  source_url = "https://example.org/postcodes.csv";
  source_file_name = "20240603T120000Z_file-1_postcodes.csv";
  original_source_file_name = "postcodes.csv";
  source_hash = hash_a;
  file_size = 1024;
  ingestion_timestamp = noon 2;
  source_last_modified = some (noon 1);
  row_count_raw = 20;
  column_count_raw = 3;
  artifact_role = data_role;
}

abbrev meta : Meta
meta = ("bronze_run_id", text "bronze-1") ∷ ("landing_path", text "landing/file-1") ∷ []

abbrev artifacts : List BronzeArtifactDigest
artifacts =
    record { relative_path = "tables/b.csv"; sha256 = hash_b; size_bytes = 20 }
    ∷ record { relative_path = "tables/a.csv"; sha256 = hash_a; size_bytes = 10 }
    ∷ []

abbrev pub entry_1 : MarshalEntry
entry_1 = record {
  file = file;
  bronze_run_id = some "bronze-1";
  bronze_artifacts = [];
  silver_run_id = none;
  landing_path = some "landing/file-1";
  manifest_path = none;
  partition_key = none;
  partition_value = none;
  is_promoted = false;
  superseded_by_file_id = none;
  promoted_at = none;
  version_period = none;
}

abbrev event_1 : MarshalEvent
event_1 = record {
  event_ts = noon 0;
  event_type = entry_created;
  file_id = "file-1";
  reason = "register";
  old = none;
  new = entry_1;
  meta = ("dataset_id", text "postcodes") ∷ meta;
}

abbrev pub one : Marshal
one = record { files = entry_1 ∷ []; events = event_1 ∷ []; ticks = 1 }

registers : register_file noon file meta empty ≡ ok one
unfolding register_file put get_marshaled_file read_record find check_hash_exists any
    upsert_marshaled_file merge set_key get_text
registers = refl

abbrev pub entry_2 : MarshalEntry
entry_2 = record entry_1 {
  bronze_artifacts =
      record { relative_path = "tables/a.csv"; sha256 = hash_a; size_bytes = 10 }
      ∷ record { relative_path = "tables/b.csv"; sha256 = hash_b; size_bytes = 20 }
      ∷ [];
}

abbrev event_2 : MarshalEvent
event_2 = record {
  event_ts = noon 1;
  event_type = entry_replaced;
  file_id = "file-1";
  reason = "record_bronze_artifacts";
  old = some entry_1;
  new = entry_2;
  meta =
      ("dataset_id", text "postcodes")
      ∷ ("bronze_run_id", text "bronze-1")
      ∷ ("bronze_artifact_count", number 2)
      ∷ ("bronze_artifact_bytes", number 30)
      ∷ [];
}

abbrev pub two : Marshal
two = record { files = entry_2 ∷ []; events = event_1 ∷ event_2 ∷ []; ticks = 2 }

records : record_bronze_artifacts noon "file-1" artifacts [] one ≡ ok two
unfolding record_bronze_artifacts put require_entry get_marshaled_file read_record find any update
    upsert_marshaled_file merge set_key with_bronze_artifacts sort_artifacts insert_artifact str_leb
    has_duplicate_paths digests_eq total_bytes entry_from_record require_non_blank is_blank
    check_file bronze_artifacts_of check_digests
records = refl

both : Steps empty two
both =
    next empty one two (registered noon file meta empty one registers)
      (next one two two (recorded noon "file-1" artifacts [] one two records) (here two))

Steps-IsGoverned_example : IsGoverned two
Steps-IsGoverned_example = Steps-IsGoverned empty two empty-IsGoverned both

one-IsGoverned : IsGoverned one
one-IsGoverned =
    Steps-IsGoverned empty one empty-IsGoverned
      (next empty one one (registered noon file meta empty one registers) (here one))

pub two-IsGoverned : IsGoverned two
two-IsGoverned = Steps-IsGoverned empty two empty-IsGoverned both

Steps-IsKept_example :
    (y : MarshalEntry) × (find (has_file_id "file-1") two.files ≡ some y) × IsKept entry_1 y
unfolding find
Steps-IsKept_example =
    Steps-IsKept one two "file-1" entry_1 one-IsGoverned
      (next one two two (recorded noon "file-1" artifacts [] one two records) (here two)) refl

-- No file is promoted for the month yet.
pub file-IsPromotable : IsPromotable noon "file-1" june two entry_2 none
unfolding require_entry get_marshaled_file read_record find entry_from_record require_non_blank
    is_blank check_file bronze_artifacts_of check_digests check_digest is_normalized has_backslash
    segments any is_sha256_hex str_len all_hex sort_artifacts insert_artifact str_leb
    has_duplicate_paths get_promoted_for_version_period
file-IsPromotable = record {
  utc = λ n. (refl, refl);
  readable = refl;
  active = refl;
  current = refl;
}

promote_lem_example :
    (s' : Marshal) × (promote noon "file-1" june [] two ≡ ok s')
    × IsGoverned s'
    × (n : ℕ) × (get_promoted_for_version_period "postcodes" june s'.files
        ≡ ok (some (promoted_entry (noon n) june (promoted_meta []) entry_2)))
promote_lem_example =
    promote_lem noon "file-1" june [] two entry_2 none two-IsGoverned file-IsPromotable
