-- ===== src/Examples/Coverages.antt =====
-- The years of a years_column.
use metrka_core.Prelude.{◌≡◌, refl, [], ◌∷◌, List, arith}
use metrka_core.Prelude.Text.{strip, lstrip, rstrip, is_blank}
use metrka_core.Prelude.Time.{pos}
use metrka_core.Prelude.Result.{ok}
use metrka_core.Catalog.TemporalCoverage.{
  ColumnValue, integral, integer_real, written, Period, TemporalCoverage, year_value, insert_year,
  all_digits, decimal, sorted_years, compact_from, coverage_of, calculate_temporal_coverage,
}
use metrka_core.Catalog.TemporalCoverage.Coverage.{
  IsCoverage, calculate_temporal_coverage_lem, coverage_is_canonical,
}

abbrev years_column : List ColumnValue
years_column =
    integral (pos 2021) ∷ written " 2019 " ∷ integer_real (pos 2020) ∷ integral (pos 2024) ∷ []

abbrev periods : List Period
periods = record { start = 2019; end = 2021 } ∷ record { start = 2024; end = 2024 } ∷ []

abbrev coverage : TemporalCoverage
coverage = record { periods = periods; minimum = 2019; maximum = 2024; distinct_value_count = 4 }

calculated : calculate_temporal_coverage "year" years_column ≡ ok coverage
unfolding calculate_temporal_coverage sorted_years year_value insert_year all_digits decimal strip
    lstrip rstrip is_blank coverage_of compact_from
calculated = refl

calculate_temporal_coverage_lem_example : IsCoverage years_column coverage
calculate_temporal_coverage_lem_example =
    calculate_temporal_coverage_lem "year" years_column coverage calculated

coverage_is_canonical_example : coverage.periods ≡ periods
coverage_is_canonical_example =
    coverage_is_canonical "year" years_column coverage periods calculated
      (omega arith, omega arith, (omega arith, tt, tt))
      (λ y.
        IsCoverage.exact (calculate_temporal_coverage_lem "year" years_column coverage calculated)
          y)
