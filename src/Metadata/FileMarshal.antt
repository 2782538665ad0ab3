-- ===== src/Metadata/FileMarshal.antt =====
-- metadata/file_marshal.py: registration, promotion and supersession of files, each write with its
-- audit event. The clock is a parameter: its readings in their order.
pub mod Writes
pub mod Calls
pub mod Promotions
pub mod Promoting
pub mod Invariant
pub mod Traces
pub mod Sorting
pub mod Governance
use Prim.Native.Nat.{suc}
use metrka_core.Prelude.{
  ℕ, ◌+◌, String, Bool, true, false, ◌&&◌, not, Option, none, some, List, [], ◌∷◌, ◌++◌, str_eq,
}
use metrka_core.Prelude.Tests.{if◌then◌else◌}
use metrka_core.Prelude.Lists.{length, any}
use metrka_core.Prelude.Text.{is_some}
use metrka_core.Prelude.Time.{Date, DateTime, date_eq}
use metrka_core.Prelude.Dates.{isoformat}
use metrka_core.Prelude.Result.{Result, ok, raise, value_error, ◌>>=◌, ◌>>◌, raise_if}
use metrka_core.Metadata.MarshalModels.{
  BronzeArtifactDigest, MarshaledFile, MarshalEntry, MarshalEvent, MetaValue, null, text, number,
  Meta, EventType, entry_created, entry_replaced, with_bronze_artifacts, demote, as_promoted,
  superseded_by, PromotedMeta,
}
use metrka_core.Metadata.MarshalStore.{
  Files, has_file_id, get_marshaled_file, check_hash_exists, get_promoted_for_version_period,
  upsert_marshaled_file, insert_marshal_event,
}

-- The two tables, and how often the clock was read.
pub record Marshal : Type 0 where
  pub files : Files
  pub events : List MarshalEvent
  pub ticks : ℕ

-- `{**meta, key: value}`: a key keeps its place.
abbrev pub names : String → String × MetaValue → Bool
names key item = str_eq item.0 key

unfoldable pub set_key : String → MetaValue → Meta → Meta
set_key key value [] = (key, value) ∷ []
set_key key value (item ∷ rest) =
    let later = set_key key value rest in
    if names key item then (key, value) ∷ rest else item ∷ later

-- `{**a, **b}`
unfoldable pub merge : Meta → Meta → Meta
unfolding set_key
merge a [] = a
merge a ((key, value) ∷ rest) = merge (set_key key value a) rest

abbrev pub text_of : MetaValue → Option String
text_of null = none
text_of (text s) = some s
text_of (number n) = none

-- `meta.get(key)`, for a key whose values are texts.
unfoldable pub get_text : String → Meta → Option String
get_text key [] = none
get_text key (item ∷ rest) =
    let later = get_text key rest in if names key item then text_of item.1 else later

abbrev pub value_of : Option String → MetaValue
value_of none = null
value_of (some s) = text s

-- `sum(artifact.size_bytes for artifact in artifacts)`
unfoldable pub total_bytes : List BronzeArtifactDigest → ℕ
total_bytes [] = 0
total_bytes (a ∷ rest) = a.size_bytes + total_bytes rest

abbrev pub event_type_of : Option MarshalEntry → EventType
event_type_of none = entry_created
event_type_of (some e) = entry_replaced

-- `_require_entry`
abbrev pub require_found : Option MarshalEntry → Result MarshalEntry
require_found none = raise (value_error "file not found in FileMarshal.")
require_found (some e) = ok e

unfoldable pub require_entry : String → Files → Result MarshalEntry
unfolding get_marshaled_file
require_entry i rows = get_marshaled_file i rows >>= λ found. require_found found

-- `old_entry.version_period and new_entry.version_period and … != …`
abbrev pub periods_differ : Option Date → Option Date → Bool
periods_differ (some a) (some b) = not (date_eq a b)
periods_differ _ _ = false

-- The entry that `register` makes.
abbrev pub registered_entry : MarshaledFile → Meta → MarshalEntry
registered_entry file meta = record {
  file = file;
  bronze_run_id = get_text "bronze_run_id" meta;
  bronze_artifacts = [];
  silver_run_id = none;
  landing_path = get_text "landing_path" meta;
  manifest_path = none;
  partition_key = none;
  partition_value = none;
  is_promoted = false;
  superseded_by_file_id = none;
  promoted_at = none;
  version_period = none;
}

abbrev pub promoted_meta : Meta → PromotedMeta
promoted_meta meta = record {
  silver_run_id = get_text "silver_run_id" meta;
  manifest_path = get_text "manifest_path" meta;
  partition_key = get_text "partition_key" meta;
  partition_value = get_text "partition_value" meta;
}

module _ (now_utc : ℕ → DateTime) where
  -- `_put`
  unfoldable pub put : String → MarshalEntry → String → Meta → Marshal → Result Marshal
  unfolding get_marshaled_file upsert_marshaled_file
  put i new reason meta s = do
    old ← get_marshaled_file i s.files
    let event : MarshalEvent = record {
      event_ts = now_utc s.ticks;
      event_type = event_type_of old;
      file_id = i;
      reason = reason;
      old = old;
      new = new;
      meta = meta;
    }
    files ← upsert_marshaled_file new s.files
    ok (record { files = files; events = insert_marshal_event event s.events; ticks = suc s.ticks })

  unfoldable pub register_file : MarshaledFile → Meta → Marshal → Result Marshal
  unfolding put get_marshaled_file check_hash_exists merge get_text
  register_file file meta s = do
    found ← get_marshaled_file file.dataset_file_id s.files
    raise_if (is_some found) (value_error "dataset_file_id already exists in FileMarshal catalog")
    raise_if (check_hash_exists file.dataset_id file.source_hash s.files)
        (value_error "Source file is already registered")
    put file.dataset_file_id (registered_entry file meta) "register"
        (merge (("dataset_id", text file.dataset_id) ∷ []) meta) s

  unfoldable pub record_bronze_artifacts :
      String → List BronzeArtifactDigest → Meta → Marshal → Result Marshal
  unfolding put require_entry with_bronze_artifacts merge total_bytes
  record_bronze_artifacts i artifacts meta s = do
    target ← require_entry i s.files
    updated ← with_bronze_artifacts artifacts target
    put i updated "record_bronze_artifacts"
        (merge meta (
          ("dataset_id", text target.file.dataset_id)
          ∷ ("bronze_run_id", value_of target.bronze_run_id)
          ∷ ("bronze_artifact_count", number (length artifacts))
          ∷ ("bronze_artifact_bytes", number (total_bytes artifacts))
          ∷ []))
        s

  -- The demotion of the file that is promoted for the period, unless it is the file itself.
  abbrev pub demote_existing :
      Option MarshalEntry → String → String → Date → Meta → Marshal → Result Marshal
  demote_existing none i dataset period meta s = ok s
  demote_existing (some existing) i dataset period meta s =
      if str_eq existing.file.dataset_file_id i
      then ok s
      else put existing.file.dataset_file_id (demote existing) "promote_demote_previous"
          (merge meta (
            ("dataset_id", text dataset)
            ∷ ("version_period", text (isoformat period))
            ∷ ("new_promoted", text i)
            ∷ []))
          s

  unfoldable pub promote : String → Date → Meta → Marshal → Result Marshal
  unfolding put require_entry get_promoted_for_version_period as_promoted merge get_text isoformat
  promote i period meta s = do
    target ← require_entry i s.files
    let dataset = target.file.dataset_id
    existing ← get_promoted_for_version_period dataset period s.files
    s' ← demote_existing existing i dataset period meta s
    promoted ← as_promoted (now_utc s'.ticks) period (promoted_meta meta) target
    put i promoted "promote"
        (merge meta
          (("dataset_id", text dataset) ∷ ("version_period", text (isoformat period)) ∷ []))
        (record s' { ticks = suc s'.ticks })

  unfoldable pub supersede : String → String → Marshal → Result Marshal
  unfolding put require_entry superseded_by
  supersede old_id new_id s = do
    raise_if (str_eq old_id new_id) (value_error "file cannot supersede itself")
    old_entry ← require_entry old_id s.files
    new_entry ← require_entry new_id s.files
    raise_if (is_some old_entry.superseded_by_file_id)
        (value_error "old file is already superseded")
    raise_if (is_some new_entry.superseded_by_file_id)
        (value_error "new file is superseded; cannot supersede others")
    raise_if (not (str_eq old_entry.file.dataset_id new_entry.file.dataset_id))
        (value_error "supersede requires same dataset_id")
    raise_if (periods_differ old_entry.version_period new_entry.version_period)
        (value_error "supersede requires same version_period")
    superseded ← superseded_by new_id old_entry
    put old_id superseded "supersede"
        (("dataset_id", text old_entry.file.dataset_id) ∷ ("superseded_by", text new_id) ∷ []) s
