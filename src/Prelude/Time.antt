-- ===== src/Prelude/Time.antt =====
-- Python's `date` and `datetime`, as far as the program compares them.
use Prim.Native.Nat.{ℕ}
use mathlib.Core.Path.{◌≡◌}
use mathlib.Core.Bool.{Bool, true, false, ◌&&◌, ◌||◌}
use mathlib.Core.Option.{Option, none, some}
use native.Mathlib.Omega.{arith}
use metrka_core.Prelude.Tests.{ltb, leb, ◌==◌}

pub data ℤ : Type 0 where
  pos : ℕ → ℤ
  negsuc : ℕ → ℤ

pub record Date : Type 0 where
  pub year : ℕ
  pub month : ℕ
  pub day : ℕ

-- `a == b`
unfoldable pub date_eq : Date → Date → Bool
date_eq a b = a.year == b.year && (a.month == b.month && a.day == b.day)

-- `a <= b`: by year, then month, then day.
unfoldable pub date_leb : Date → Date → Bool
date_leb a b =
    ltb a.year b.year
    || (a.year == b.year && (ltb a.month b.month || (a.month == b.month && leb a.day b.day)))

-- An aware datetime is the instant in microseconds since the year 1 of UTC, with its offset in
-- minutes; a naive one has no offset, and `instant` is its own reading.
pub record DateTime : Type 0 where
  pub instant : ℕ
  pub utc_offset : Option ℤ

-- `value.utcoffset() is not None`
abbrev pub is_aware : DateTime → Bool
is_aware t = elim t.utc_offset [ none ↦ false | some z ↦ true ]

abbrev pub is_zero : ℤ → Bool
is_zero (pos n) = n == 0
is_zero (negsuc n) = false

-- `value.utcoffset() == timedelta(0)`
abbrev pub is_utc : DateTime → Bool
is_utc t = elim t.utc_offset [ none ↦ false | some z ↦ is_zero z ]

pub date_leb_refl : (a : Date) → date_leb a a ≡ true
unfolding date_leb
date_leb_refl a = ground arith

pub date_leb_trans :
    (a b c : Date) → date_leb a b ≡ true → date_leb b c ≡ true → date_leb a c ≡ true
unfolding date_leb
date_leb_trans a b c h k = ground arith

pub date_leb_total : (a b : Date) → date_leb a b ≡ false → date_leb b a ≡ true
unfolding date_leb
date_leb_total a b h = ground arith

pub date_eq→≡ : (a b : Date) → date_eq a b ≡ true → a ≡ b
unfolding date_eq
date_eq→≡ a b h = ground arith

pub date_eq_refl : (a : Date) → date_eq a a ≡ true
unfolding date_eq
date_eq_refl a = ground arith
