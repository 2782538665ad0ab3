-- ===== src/Catalog/TemporalCoverage/Coverage.antt =====
-- The coverage of a column.
use metrka_core.Prelude.{
  ℕ, String, ◌≤◌, ◌≡◌, sym, ◌∙◌, true, not, List, [], ◌∷◌, arith, subst, str_eq,
}
use metrka_core.Prelude.Tests.{◌==◌}
use metrka_core.Prelude.Lists.{any, All}
use metrka_core.Prelude.Result.{ok, raise_if, bind_ok, ok-injective}
use metrka_core.Catalog.TemporalCoverage.{
  ColumnValue, Period, TemporalCoverage, last_year, sorted_years, coverage_of, no_values,
  calculate_temporal_coverage,
}
use metrka_core.Catalog.TemporalCoverage.Years.{
  is_value, IsYear, IsYears, After, IsIncreasing, sorted_years-IsYears,
}
use metrka_core.Catalog.TemporalCoverage.Periods.{
  covers, IsSeparated, total, compact-covers, compact-IsSeparated, compact-total, separated_unique,
}

-- What the coverage promises for the column's values.
pub record IsCoverage (values : List ColumnValue) (c : TemporalCoverage) : Type 0 where
  pub exact : (y : ℕ) → covers y c.periods ≡ any (is_value y) values
  pub separated : IsSeparated c.periods
  pub counted : total c.periods ≡ c.distinct_value_count
  pub least : any (is_value c.minimum) values ≡ true
  pub greatest : any (is_value c.maximum) values ≡ true
  pub bounds : (1 ≤ c.minimum) × (c.minimum ≤ c.maximum) × (c.maximum ≤ 9999)

last_year_lem :
    (y : ℕ) (years : List ℕ)
    → After y years
    → IsIncreasing years
    → All IsYear (y ∷ years)
    → (y ≤ last_year y years)
      × (last_year y years ≤ 9999)
      × (any (λ x. x == last_year y years) (y ∷ years) ≡ true)
unfolding any
last_year_lem y [] a i b = ground (arith, b.0)
last_year_lem y (x ∷ years) a i b =
    let (low, high, member) = last_year_lem x years i.0 i.1 b.1 in
    ground (arith, low, high, member, a)

coverage_of-IsCoverage :
    (values : List ColumnValue) (years : List ℕ) (c : TemporalCoverage)
    → IsYears values years
    → coverage_of years ≡ ok c
    → IsCoverage values c
unfolding coverage_of any
coverage_of-IsCoverage values [] c k h = absurd (ground (arith, h))
coverage_of-IsCoverage values (year ∷ years) c k h =
    let (low, high, member) = last_year_lem year years k.increasing.0 k.increasing.1 k.bounded in
    subst (IsCoverage values) (ok-injective _ c h) (record {
      exact = λ y. compact-covers y year year years (omega arith) ∙ ground arith ∙ k.members y;
      separated =
          (compact-IsSeparated year year years (omega arith) k.increasing.0 k.increasing.1).0;
      counted =
          compact-total year year years (omega arith) k.increasing.0 k.increasing.1 ∙ omega arith;
      least = sym (k.members year) ∙ ground arith;
      greatest = sym (k.members (last_year year years)) ∙ member;
      bounds = (k.bounded.0.0, low, high);
    })

-- If the coverage of a column is returned, then a year lies in one of its periods exactly if it is the
-- year of a value of the column; no period is empty, and two consecutive ones have a year between them;
-- the numbers of years of the periods sum up to the reported number; and the reported minimum and
-- maximum are years of values, in order and between 1 and 9999.
pub calculate_temporal_coverage_lem :
    (grain : String) (values : List ColumnValue) (c : TemporalCoverage)
    → calculate_temporal_coverage grain values ≡ ok c
    → IsCoverage values c
unfolding calculate_temporal_coverage
calculate_temporal_coverage_lem grain values c h =
    bind_ok (raise_if (no_values values) _) _ _ h (λ u e0 h0.
      bind_ok (raise_if (not (str_eq grain "year")) _) _ _ h0 (λ u e1 h1.
        bind_ok (sorted_years values) _ _ h1 (λ years e2 h2.
          coverage_of-IsCoverage values years c (sorted_years-IsYears values years e2) h2)))

-- The periods that are returned are the only ones that are not empty, have a year between any two
-- consecutive ones, and cover the years of the column's values.
pub coverage_is_canonical :
    (grain : String) (values : List ColumnValue) (c : TemporalCoverage) (periods : List Period)
    → calculate_temporal_coverage grain values ≡ ok c
    → IsSeparated periods
    → ((y : ℕ) → covers y periods ≡ any (is_value y) values)
    → c.periods ≡ periods
coverage_is_canonical grain values c periods h s exact =
    let k = calculate_temporal_coverage_lem grain values c h in
    separated_unique c.periods periods k.separated s (λ y. k.exact y ∙ sym (exact y))
