-- ===== src/Silver/VersionPeriod.antt =====
-- pipeline/silver/version_period.py: the period of a dataset's version, and the partition value that
-- pipeline/silver/candidate_processing.py makes of it.
pub mod Partition
pub mod Discovery
use Prim.Native.String.{String, ◌∷◌}
use metrka_core.Prelude.{Bool, true, false, ◌&&◌, ◌||◌, not, Option, none, some, str_eq}
use metrka_core.Prelude.Tests.{◌==◌}
use metrka_core.Prelude.Text.{is_blank, is_some}
use metrka_core.Prelude.Time.{Date, DateTime}
use metrka_core.Prelude.Dates.{two_digits, four_digits, isoformat}
use metrka_core.Prelude.Result.{Result, ok, raise, value_error, ◌>>=◌, ◌>>◌, raise_if}

pub data VersionPeriodStrategy : Type 0 where
  max_column source_last_modified : VersionPeriodStrategy

pub data VersionPeriodGrain : Type 0 where
  year_grain month_grain day_grain : VersionPeriodGrain

pub record VersionPeriodSpec : Type 0 where
  pub strategy : VersionPeriodStrategy
  pub grain : VersionPeriodGrain
  pub column : Option String
  pub date_format : Option String

pub record VersionPeriod : Type 0 where
  pub value : Date
  pub grain : VersionPeriodGrain
  pub source : String

-- `not self.column`
abbrev pub is_missing : Option String → Bool
is_missing none = true
is_missing (some c) = str_eq c ""

abbrev pub check_strategy :
    VersionPeriodStrategy → Option String → Option String → Result (Unit {0})
check_strategy max_column column date_format =
    raise_if (is_missing column)
      (value_error "version_period.column is required when strategy is 'max_column'")
check_strategy source_last_modified column date_format = do
  raise_if (is_some column)
      (value_error "version_period.column is not allowed when strategy is 'source_last_modified'")
  raise_if (is_some date_format)
      (value_error "version_period.format is not allowed when strategy is 'source_last_modified'")

-- `VersionPeriodSpec.__post_init__`
unfoldable pub check_spec : VersionPeriodSpec → Result (Unit {0})
check_spec s = check_strategy s.strategy s.column s.date_format

abbrev pub is_first : VersionPeriodGrain → Date → Bool
is_first year_grain d = d.month == 1 && d.day == 1
is_first month_grain d = d.day == 1
is_first day_grain d = true

-- `VersionPeriod.__post_init__`
unfoldable pub check_period : VersionPeriod → Result (Unit {0})
check_period p = do
  raise_if (is_blank p.source) (value_error "VersionPeriod.source must not be empty")
  raise_if (not (is_first p.grain p.value)) (value_error "version periods must use the first day")

-- `_normalize_period`
unfoldable pub normalize_period : Date → VersionPeriodGrain → Date
normalize_period d year_grain = record { year = d.year; month = 1; day = 1 }
normalize_period d month_grain = record { year = d.year; month = d.month; day = 1 }
normalize_period d day_grain = d

-- The constructor call.
unfoldable pub version_period : Date → VersionPeriodGrain → String → Result VersionPeriod
unfolding check_period
version_period value grain source =
    let p : VersionPeriod = record { value = value; grain = grain; source = source } in
    do check_period p; ok p

-- What the discovery reads besides the specification: the largest date of the source's column, and the
-- date of a time.
pub record Readings : Type 0 where
  pub max_date : String → Result (Option Date)
  pub date_of : DateTime → Date

abbrev pub require_max : Option Date → Result Date
require_max none = raise (value_error "Could not discover version period from column")
require_max (some d) = ok d

abbrev pub column_source : String → String
column_source c = "c" ∷ "o" ∷ "l" ∷ "u" ∷ "m" ∷ "n" ∷ ":" ∷ c

-- `_discover_from_max_column`
unfoldable pub discover_from_max_column : Readings → VersionPeriodSpec → Result VersionPeriod
unfolding normalize_period version_period
discover_from_max_column via spec = elim spec.column [
  | none ↦ raise (value_error "Missing column for max_column version-period strategy")
  | some column ↦ do
    found ← via.max_date column
    discovered ← require_max found
    version_period (normalize_period discovered spec.grain) spec.grain (column_source column)
]

-- `_discover_from_source_last_modified`
unfoldable pub discover_from_source_last_modified :
    Readings → VersionPeriodSpec → Option DateTime → Result VersionPeriod
unfolding normalize_period version_period
discover_from_source_last_modified via spec none =
    raise (value_error "Cannot discover version_period using source_last_modified")
discover_from_source_last_modified via spec (some modified) =
    version_period (normalize_period (via.date_of modified) spec.grain) spec.grain
      "source_last_modified"

abbrev pub discover_by :
    VersionPeriodStrategy → Readings → VersionPeriodSpec → Option DateTime → Result VersionPeriod
discover_by max_column via spec modified = discover_from_max_column via spec
discover_by source_last_modified via spec modified =
    discover_from_source_last_modified via spec modified

-- `discover` of `build_version_period_discovery`
unfoldable pub discover : Readings → VersionPeriodSpec → Option DateTime → Result VersionPeriod
unfolding discover_from_max_column discover_from_source_last_modified
discover via spec modified = discover_by spec.strategy via spec modified

abbrev pub partition_text : VersionPeriodGrain → Date → String
partition_text year_grain d = four_digits d.year ""
partition_text month_grain d = four_digits d.year ("-" ∷ two_digits d.month "")
partition_text day_grain d = isoformat d

-- `_format_partition_value`, for years of four digits.
unfoldable pub format_partition_value : VersionPeriod → String
unfolding isoformat
format_partition_value p = partition_text p.grain p.value
