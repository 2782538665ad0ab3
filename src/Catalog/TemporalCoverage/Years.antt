-- ===== src/Catalog/TemporalCoverage/Years.antt =====
-- The sorted set of the years.
use metrka_core.Prelude.{
  ℕ, ◌≤◌, ◌<◌, ◌≡◌, refl, ◌∙◌, Bool, false, ◌||◌, List, [], ◌∷◌, str_eq, not, subst, arith, inl,
  inr,
}
use metrka_core.Prelude.Tests.{◌==◌, ltb, ltb→lt, Bool-cases}
use metrka_core.Prelude.Text.{strip}
use metrka_core.Prelude.Lists.{any, All}
use metrka_core.Prelude.Result.{ok, raise, raise_if, bind_ok, ok-injective}
use metrka_core.Catalog.TemporalCoverage.{
  ColumnValue, boolean, integral, integer_real, other_real, written, other, all_digits, decimal,
  year_value, in_bounds, insert_year, sorted_years,
}
use metrka_core.Prelude.Time.{ℤ, pos, negsuc}

-- Each year is after the ones before it.
abbrev pub After : ℕ → List ℕ → Type 0
After x [] = Unit
After x (y ∷ years) = x < y

abbrev pub IsIncreasing : List ℕ → Type 0
IsIncreasing [] = Unit
IsIncreasing (x ∷ years) = After x years × IsIncreasing years

abbrev pub IsYear : ℕ → Type 0
IsYear y = (1 ≤ y) × (y ≤ 9999)

-- Some value of the column is the year.
abbrev pub is_value : ℕ → ColumnValue → Bool
is_value y v = elim (year_value v) [ ok x ↦ x == y | raise e ↦ false ]

insert_any :
    (z y : ℕ) (years : List ℕ)
    → any (λ x. x == z) (insert_year y years) ≡ ((y == z) || any (λ x. x == z) years)
unfolding any insert_year
insert_any z y [] = ground arith
insert_any z y (x ∷ years) = ground (arith, insert_any z y years)

insert-IsIncreasing :
    (y : ℕ) (years : List ℕ)
    → IsIncreasing years
    → IsIncreasing (insert_year y years)
      × ((x : ℕ) → x < y → After x years → After x (insert_year y years))
unfolding insert_year
insert-IsIncreasing y [] h = ((tt, tt), λ x l k. l)
insert-IsIncreasing y (x ∷ years) h = elim (Bool-cases (ltb y x)) [
  | inl t ↦ rw t ((ltb→lt y x t, h), λ z l k. l)
  | inr t ↦ elim (Bool-cases (y == x)) [
    | inl e ↦ rw (t, e) (h, λ z l k. k)
    | inr e ↦
        let (sorted, keep) = insert-IsIncreasing y years h.1 in
        rw (t, e) ((keep x (ground (arith, t, e)) h.0, sorted), λ z l k. k)
  ]
]

in_bounds-IsYear : (z : ℤ) (y : ℕ) → in_bounds z ≡ ok y → IsYear y
in_bounds-IsYear (negsuc n) y h = absurd (ground (arith, h))
in_bounds-IsYear (pos n) y h = ground (arith, h)

year_value-IsYear : (v : ColumnValue) (y : ℕ) → year_value v ≡ ok y → IsYear y
unfolding year_value
year_value-IsYear (boolean b) y h = absurd (ground (arith, h))
year_value-IsYear (integral z) y h = in_bounds-IsYear z y h
year_value-IsYear (integer_real z) y h = in_bounds-IsYear z y h
year_value-IsYear other_real y h = absurd (ground (arith, h))
year_value-IsYear (written s) y h =
    bind_ok (raise_if (str_eq (strip s) "" || not (all_digits (strip s))) _) _ _ h
      (λ u e0 h0. in_bounds-IsYear (pos (decimal 0 (strip s))) y h0)
year_value-IsYear other y h = absurd (ground (arith, h))

insert-All :
    (y : ℕ) (years : List ℕ) → IsYear y → All IsYear years → All IsYear (insert_year y years)
unfolding insert_year
insert-All y [] v h = (v, tt)
insert-All y (x ∷ years) v h = elim (Bool-cases (ltb y x)) [
  | inl t ↦ rw t (v, h)
  | inr t ↦ elim (Bool-cases (y == x)) [
    | inl e ↦ rw (t, e) h
    | inr e ↦ rw (t, e) (h.0, insert-All y years v h.1)
  ]
]

-- What the sorted set of a column's years is.
pub record IsYears (values : List ColumnValue) (years : List ℕ) : Type 0 where
  pub increasing : IsIncreasing years
  pub bounded : All IsYear years
  pub members : (y : ℕ) → any (λ x. x == y) years ≡ any (is_value y) values

pub sorted_years-IsYears :
    (values : List ColumnValue) (years : List ℕ)
    → sorted_years values ≡ ok years
    → IsYears values years
unfolding sorted_years any
sorted_years-IsYears [] years h =
    subst (IsYears []) (ok-injective [] years h)
      (record { increasing = tt; bounded = tt; members = λ y. refl })
sorted_years-IsYears (v ∷ values) years h = bind_ok (year_value v) _ _ h (λ x e0 h0.
    bind_ok (sorted_years values) _ _ h0 (λ rest e1 h1.
      let (increasing, bounded, members) =
        parts values rest (sorted_years-IsYears values rest e1) in
      subst (IsYears (v ∷ values)) (ok-injective (insert_year x rest) years h1) (record {
        increasing = (insert-IsIncreasing x rest increasing).0;
        bounded = insert-All x rest (year_value-IsYear v x e0) bounded;
        members = λ y. insert_any y x rest ∙ member y x v rest values e0 (members y);
      })))
  where
    parts :
        (values : List ColumnValue) (rest : List ℕ)
        → IsYears values rest
        → IsIncreasing rest
          × All IsYear rest
          × ((y : ℕ) → any (λ x. x == y) rest ≡ any (is_value y) values)
    parts values rest k = (k.increasing, k.bounded, k.members)

    member :
        (y x : ℕ) (v : ColumnValue) (rest : List ℕ) (values : List ColumnValue)
        → year_value v ≡ ok x
        → any (λ z. z == y) rest ≡ any (is_value y) values
        → ((x == y) || any (λ z. z == y) rest) ≡ any (is_value y) (v ∷ values)
    member y x v rest values e h = ground (arith, e, h)
