-- ===== src/Catalog/TemporalCoverage.antt =====
-- catalog/temporal_coverage.py: the years of a column, as periods. The column's values are what pandas
-- read, without the null ones.
pub mod Years
pub mod Periods
pub mod Coverage
use Prim.Native.Nat.{suc}
use Prim.Native.Char.{code}
use metrka_core.Prelude.{
  ℕ, ◌+◌, ◌-◌, ◌*◌, String, Bool, true, false, ◌&&◌, ◌||◌, not, List, [], ◌∷◌, str_eq,
}
use metrka_core.Prelude.Tests.{ltb, leb, ◌==◌, if◌then◌else◌}
use metrka_core.Prelude.Lists.{length}
use metrka_core.Prelude.Text.{strip}
use metrka_core.Prelude.Time.{ℤ, pos, negsuc}
use metrka_core.Prelude.Result.{Result, ok, raise, value_error, ◌>>=◌, ◌>>◌, raise_if}

-- A value of the column: a bool, an `Integral`, a `Real` with an integer value or without one (NaN,
-- infinite or fractional), a text, or something else.
pub data ColumnValue : Type 0 where
  boolean : Bool → ColumnValue
  integral : ℤ → ColumnValue
  integer_real : ℤ → ColumnValue
  other_real : ColumnValue
  written : String → ColumnValue
  other : ColumnValue

-- `value.isdigit()`, in ASCII.
abbrev pub is_digit : ℕ → Bool
is_digit c = leb 48 c && leb c 57

unfoldable pub all_digits : String → Bool
all_digits String.[] = true
all_digits (String.◌∷◌ c s) = is_digit (code c) && all_digits s

-- `int(value)` of digits.
unfoldable pub decimal : ℕ → String → ℕ
decimal n String.[] = n
decimal n (String.◌∷◌ c s) = decimal (10 * n + (code c - 48)) s

-- The bounds of a year.
abbrev pub in_bounds : ℤ → Result ℕ
in_bounds (negsuc n) = raise (value_error "Temporal coverage year is outside 1..9999")
in_bounds (pos n) = do
  raise_if (ltb n 1 || ltb 9999 n) (value_error "Temporal coverage year is outside 1..9999")
  ok n

-- `_year_value`
unfoldable pub year_value : ColumnValue → Result ℕ
unfolding strip all_digits decimal
year_value (boolean b) = raise (value_error "Temporal coverage year values must not be booleans")
year_value (integral z) = in_bounds z
year_value (integer_real z) = in_bounds z
year_value other_real = raise (value_error "Temporal coverage contains a non-integer year")
year_value (written s) = do
  raise_if (str_eq (strip s) "" || not (all_digits (strip s)))
      (value_error "Temporal coverage contains an invalid year")
  in_bounds (pos (decimal 0 (strip s)))
year_value other = raise (value_error "Temporal coverage contains an invalid year")

-- A new element of a sorted set.
unfoldable pub insert_year : ℕ → List ℕ → List ℕ
insert_year y [] = y ∷ []
insert_year y (x ∷ years) =
    let later = insert_year y years in
    if ltb y x then y ∷ x ∷ years else if y == x then x ∷ years else x ∷ later

-- `sorted({_year_value(value) for value in values})`
unfoldable pub sorted_years : List ColumnValue → Result (List ℕ)
unfolding year_value insert_year
sorted_years [] = ok []
sorted_years (value ∷ values) = do
  let rest = sorted_years values
  year ← year_value value
  years ← rest
  ok (insert_year year years)

pub record Period : Type 0 where
  pub start : ℕ
  pub end : ℕ

-- The loop of `_compact_years`, from the period that is open.
unfoldable pub compact_from : ℕ → ℕ → List ℕ → List Period
compact_from start end [] = record { start = start; end = end } ∷ []
compact_from start end (year ∷ years) = elim (year == end + 1) [
  | true ↦ compact_from start year years
  | false ↦ record { start = start; end = end } ∷ compact_from year year years
]

pub record TemporalCoverage : Type 0 where
  pub periods : List Period
  pub minimum : ℕ
  pub maximum : ℕ
  pub distinct_value_count : ℕ

-- `years[-1]`
abbrev pub last_year : ℕ → List ℕ → ℕ
last_year y [] = y
last_year y (x ∷ years) = last_year x years

-- `_compact_years` and the result.
unfoldable pub coverage_of : List ℕ → Result TemporalCoverage
unfolding compact_from
coverage_of [] = raise (value_error "Temporal coverage source contains no non-null values")
coverage_of (year ∷ years) = ok (record {
  periods = compact_from year year years;
  minimum = year;
  maximum = last_year year years;
  distinct_value_count = length (year ∷ years);
})

abbrev pub no_values : List ColumnValue → Bool
no_values [] = true
no_values (v ∷ values) = false

-- `calculate_temporal_coverage`, for the grain of the specification.
unfoldable pub calculate_temporal_coverage : String → List ColumnValue → Result TemporalCoverage
unfolding sorted_years coverage_of
calculate_temporal_coverage grain values = do
  raise_if (no_values values) (value_error "Temporal coverage source contains no non-null values")
  raise_if (not (str_eq grain "year")) (value_error "Unsupported temporal coverage grain")
  years ← sorted_years values
  coverage_of years
