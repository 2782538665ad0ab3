-- ===== src/Silver/VersionPeriod/Discovery.antt =====
-- What the discovery of a period returns, and which dates share their partition value.
use metrka_core.Prelude.{
  ◌↔◌, ◌&&◌, String, ◌≡◌, refl, sym, Bool, true, false, Option, none, some, arith,
}
use metrka_core.Prelude.Text.{is_blank, is_space}
use metrka_core.Prelude.Time.{Date, DateTime}
use metrka_core.Prelude.Result.{Result, ok}
use metrka_core.Silver.VersionPeriod.{
  VersionPeriodGrain, year_grain, month_grain, day_grain, VersionPeriodStrategy, max_column,
  source_last_modified, VersionPeriodSpec, VersionPeriod, is_first, check_period, normalize_period,
  version_period, Readings, column_source, discover_from_max_column,
  discover_from_source_last_modified, discover_by, discover, format_partition_value,
}
use metrka_core.Prelude.Tests.{◌==◌}
use metrka_core.Silver.VersionPeriod.Partition.{IsDate, period_first, partition_value_determines}

normalized_first : (d : Date) (g : VersionPeriodGrain) → is_first g (normalize_period d g) ≡ true
unfolding normalize_period
normalized_first d year_grain = refl
normalized_first d month_grain = refl
normalized_first d day_grain = refl

made :
    (d : Date) (g : VersionPeriodGrain) (source : String)
    → is_blank source ≡ false
    → version_period (normalize_period d g) g source
      ≡ ok (record { value = normalize_period d g; grain = g; source = source })
unfolding version_period check_period
made d g source n = rw (n, normalized_first d g) refl

-- The date that a strategy reads, if it reads one.
abbrev pub source_date :
    VersionPeriodStrategy → Readings → Option String → Option DateTime → Result (Option Date)
source_date max_column via none modified = ok none
source_date max_column via (some column) modified = via.max_date column
source_date source_last_modified via column none = ok none
source_date source_last_modified via column (some t) = ok (some (via.date_of t))

named_column : (c : String) → is_blank (column_source c) ≡ false
unfolding is_blank is_space
named_column c = refl

named_modified : is_blank "source_last_modified" ≡ false
unfolding is_blank is_space
named_modified = refl

-- Two dates of the same year, month or day.
abbrev pub same_period : VersionPeriodGrain → Date → Date → Bool
same_period year_grain d d' = d.year == d'.year
same_period month_grain d d' = d.year == d'.year && d.month == d'.month
same_period day_grain d d' = d.year == d'.year && (d.month == d'.month && d.day == d'.day)

-- The period of a date, for a grain: the constructor accepts it, so that it
-- begins with a first day, and that day is in the year, the month or the day of the date.
pub record IsPeriodOf (g : VersionPeriodGrain) (d : Date) (p : VersionPeriod) : Type 0 where
  pub accepted : check_period p ≡ ok tt
  pub grain : p.grain ≡ g
  pub value : same_period g p.value d ≡ true
  pub value-IsDate : IsDate p.value

-- A result that is the period of a date.
abbrev IsMade : VersionPeriodGrain → Date → Result VersionPeriod → Type 0
IsMade g d r = (p : VersionPeriod) × (r ≡ ok p) × IsPeriodOf g d p

normalized_same :
    (d : Date) (g : VersionPeriodGrain) → same_period g (normalize_period d g) d ≡ true
unfolding normalize_period
normalized_same d year_grain = ground arith
normalized_same d month_grain = ground arith
normalized_same d day_grain = ground arith

normalized-IsDate : (d : Date) (g : VersionPeriodGrain) → IsDate d → IsDate (normalize_period d g)
unfolding normalize_period
normalized-IsDate d year_grain k = record {
  year_fits = k.year_fits;
  month_fits = omega arith;
  day_fits = omega arith;
}
normalized-IsDate d month_grain k = record {
  year_fits = k.year_fits;
  month_fits = k.month_fits;
  day_fits = omega arith;
}
normalized-IsDate d day_grain k = k

version_period-IsMade :
    (spec : VersionPeriodSpec) (d : Date) (source : String)
    → IsDate d
    → is_blank source ≡ false
    → IsMade spec.grain d (version_period (normalize_period d spec.grain) spec.grain source)
unfolding check_period
version_period-IsMade spec d source k n = (
  record { value = normalize_period d spec.grain; grain = spec.grain; source = source },
  made d spec.grain source n,
  record {
    accepted = rw (n, normalized_first d spec.grain) refl;
    grain = refl;
    value = normalized_same d spec.grain;
    value-IsDate = normalized-IsDate d spec.grain k;
  },
)

from_column :
    (via : Readings) (spec : VersionPeriodSpec) (o : Option String) (d : Date)
    → spec.column ≡ o
    → source_date max_column via o none ≡ ok (some d)
    → IsDate d
    → IsMade spec.grain d (discover_from_max_column via spec)
unfolding discover_from_max_column
from_column via spec none d e h k = absurd (ground (arith, h))
from_column via spec (some column) d e h k =
    rw (e, h) (version_period-IsMade spec d (column_source column) k (named_column column))

from_modified :
    (via : Readings) (spec : VersionPeriodSpec) (modified : Option DateTime) (d : Date)
    → source_date source_last_modified via spec.column modified ≡ ok (some d)
    → IsDate d
    → IsMade spec.grain d (discover_from_source_last_modified via spec modified)
unfolding discover_from_source_last_modified
from_modified via spec none d h k = absurd (ground (arith, h))
from_modified via spec (some t) d h k =
    let same : via.date_of t ≡ d = ground (arith, h) in
    rw same (version_period-IsMade spec d "source_last_modified" k named_modified)

discover_with :
    (strategy : VersionPeriodStrategy) (via : Readings) (spec : VersionPeriodSpec)
    (modified : Option DateTime) (d : Date)
    → source_date strategy via spec.column modified ≡ ok (some d)
    → IsDate d
    → IsMade spec.grain d (discover_by strategy via spec modified)
discover_with max_column via spec modified d h k =
    from_column via spec spec.column d refl (read spec.column h) k
  where
    read :
        (o : Option String)
        → source_date max_column via o modified ≡ ok (some d)
        → source_date max_column via o none ≡ ok (some d)
    read none h = h
    read (some c) h = h
discover_with source_last_modified via spec modified d h k = from_modified via spec modified d h k

discovered :
    (via : Readings) (spec : VersionPeriodSpec) (modified : Option DateTime) (d : Date)
    → source_date spec.strategy via spec.column modified ≡ ok (some d)
    → IsDate d
    → IsMade spec.grain d (discover via spec modified)
unfolding discover
discovered via spec modified d h k = discover_with spec.strategy via spec modified d h k

first_unique :
    (g : VersionPeriodGrain) (x y d d' : Date)
    → is_first g x ≡ true
    → is_first g y ≡ true
    → same_period g x d ≡ true
    → same_period g y d' ≡ true
    → same_period g d d' ≡ true
    → x ≡ y
first_unique year_grain x y d d' f f' e e' h = ground arith
first_unique month_grain x y d d' f f' e e' h = ground arith
first_unique day_grain x y d d' f f' e e' h = ground arith

same_joined :
    (g : VersionPeriodGrain) (x y d d' : Date)
    → x ≡ y
    → same_period g x d ≡ true
    → same_period g y d' ≡ true
    → same_period g d d' ≡ true
same_joined year_grain x y d d' h e e' = ground arith
same_joined month_grain x y d d' h e e' = ground arith
same_joined day_grain x y d d' h e e' = ground arith

same_partition :
    (spec : VersionPeriodSpec) (p q : VersionPeriod) (d d' : Date)
    → IsPeriodOf spec.grain d p
    → IsPeriodOf spec.grain d' q
    → (format_partition_value p ≡ format_partition_value q) ↔ (same_period spec.grain d d' ≡ true)
unfolding format_partition_value
same_partition spec p q d d' hp hq = (
  λ e.
      same_joined spec.grain p.value q.value d d'
        (partition_value_determines p q hp.accepted hq.accepted hp.value-IsDate hq.value-IsDate e).1
        hp.value hq.value,
  λ e.
      let firsts : is_first spec.grain p.value ≡ true =
        rw (sym hp.grain) (period_first p hp.accepted) in
      let others : is_first spec.grain q.value ≡ true =
        rw (sym hq.grain) (period_first q hq.accepted) in
      let same : p.value ≡ q.value =
        first_unique spec.grain p.value q.value d d' firsts others hp.value hq.value e in
      rw (hp.grain, hq.grain, same) refl,
)

-- If the source of a specification gives dates, with years of four digits and months and days of at
-- most two, to two discoveries, both return a period that the constructor accepts, with the
-- specification's grain, whose day is in the year, the month or the day of the date that was read, as
-- the grain says; and the two periods have the same partition value exactly if the two dates are of the
-- same year, month or day.
pub discover_lem :
    (via via' : Readings) (spec : VersionPeriodSpec) (modified modified' : Option DateTime)
    (d d' : Date)
    → source_date spec.strategy via spec.column modified ≡ ok (some d)
    → source_date spec.strategy via' spec.column modified' ≡ ok (some d')
    → IsDate d
    → IsDate d'
    → (p q : VersionPeriod) × (discover via spec modified ≡ ok p)
      × (discover via' spec modified' ≡ ok q)
      × IsPeriodOf spec.grain d p
      × IsPeriodOf spec.grain d' q
      × ((format_partition_value p ≡ format_partition_value q)
          ↔ (same_period spec.grain d d' ≡ true))
discover_lem via via' spec modified modified' d d' h h' k k' =
    let (p, e, fits) = discovered via spec modified d h k in
    let (q, e', fits') = discovered via' spec modified' d' h' k' in
    (p, q, e, e', fits, fits', same_partition spec p q d d' fits fits')
