-- ===== src/Silver/VersionPeriod/Partition.antt =====
-- The partition values that tell the periods apart.
use Prim.Native.Nat.{zero, suc, ◌/◌, ◌%◌}
use Prim.Native.Char.{Char, code}
use metrka_core.Prelude.{ℕ, ◌+◌, ◌<◌, ◌≤◌, String, ◌≡◌, refl, sym, ap, Bool, true, false, arith}
use mathlib.Core.Bool.{true≢false}
use metrka_core.Prelude.Time.{Date}
use metrka_core.Prelude.Dates.{digit, two_digits, four_digits, isoformat}
use metrka_core.Prelude.Result.{ok}
use metrka_core.Silver.VersionPeriod.{
  VersionPeriodGrain, year_grain, month_grain, day_grain, VersionPeriod, is_first, check_period,
  partition_text, format_partition_value,
}

-- A date that Python's `date` can have, as far as its text needs it.
pub record IsDate (d : Date) : Type 0 where
  pub year_fits : (1000 ≤ d.year) × (d.year < 10000)
  pub month_fits : d.month < 100
  pub day_fits : d.day < 100

code-digit : (n : ℕ) → n < 10 → code (digit n) ≡ 48 + n
code-digit zero h = refl
code-digit (suc zero) h = refl
code-digit (suc (suc zero)) h = refl
code-digit (suc (suc (suc zero))) h = refl
code-digit (suc (suc (suc (suc zero)))) h = refl
code-digit (suc (suc (suc (suc (suc zero))))) h = refl
code-digit (suc (suc (suc (suc (suc (suc zero)))))) h = refl
code-digit (suc (suc (suc (suc (suc (suc (suc zero))))))) h = refl
code-digit (suc (suc (suc (suc (suc (suc (suc (suc zero)))))))) h = refl
code-digit (suc (suc (suc (suc (suc (suc (suc (suc (suc zero))))))))) h = refl
code-digit (suc (suc (suc (suc (suc (suc (suc (suc (suc (suc (n))))))))))) h =
    absurd (omega (arith, h))

digit_injective : (a b : ℕ) → a < 10 → b < 10 → digit a ≡ digit b → a ≡ b
digit_injective a b h k e = omega (arith, code-digit a h, code-digit b k, ap code e)

tail_of : String → String
tail_of String.[] = ""
tail_of (String.◌∷◌ c s) = s

head_of : String → Char
head_of String.[] = "0"
head_of (String.◌∷◌ c s) = c

two_digits_inv :
    (a b : ℕ) (s t : String)
    → a < 100
    → b < 100
    → two_digits a s ≡ two_digits b t
    → (a ≡ b) × (s ≡ t)
unfolding tail_of head_of
two_digits_inv a b s t h k e =
    let high : a / 10 % 10 ≡ b / 10 % 10 =
      digit_injective (a / 10 % 10) (b / 10 % 10) (omega arith) (omega arith) (ap head_of e) in
    let low : a % 10 ≡ b % 10 =
      digit_injective (a % 10) (b % 10) (omega arith) (omega arith)
        (ap (λ x. head_of (tail_of x)) e) in
    (omega (arith, high, low, h, k), ap (λ x. tail_of (tail_of x)) e)

four_digits_inv :
    (a b : ℕ) (s t : String)
    → a < 10000
    → b < 10000
    → four_digits a s ≡ four_digits b t
    → (a ≡ b) × (s ≡ t)
unfolding tail_of head_of
four_digits_inv a b s t h k e =
    let d1 : a / 1000 % 10 ≡ b / 1000 % 10 =
      digit_injective (a / 1000 % 10) (b / 1000 % 10) (omega arith) (omega arith) (ap head_of e) in
    let d2 : a / 100 % 10 ≡ b / 100 % 10 =
      digit_injective (a / 100 % 10) (b / 100 % 10) (omega arith) (omega arith)
        (ap (λ x. head_of (tail_of x)) e) in
    let d3 : a / 10 % 10 ≡ b / 10 % 10 =
      digit_injective (a / 10 % 10) (b / 10 % 10) (omega arith) (omega arith)
        (ap (λ x. head_of (tail_of (tail_of x))) e) in
    let d4 : a % 10 ≡ b % 10 =
      digit_injective (a % 10) (b % 10) (omega arith) (omega arith)
        (ap (λ x. head_of (tail_of (tail_of (tail_of x)))) e) in
    (omega (arith, d1, d2, d3, d4, h, k), ap (λ x. tail_of (tail_of (tail_of (tail_of x)))) e)

is_nil : String → Bool
is_nil String.[] = true
is_nil (String.◌∷◌ c s) = false

-- The periods that a partition value determines.
abbrev IsSame : VersionPeriodGrain → Date → VersionPeriodGrain → Date → Type 0
IsSame g d g' d' = (g ≡ g') × (d ≡ d')

partition_inv :
    (g g' : VersionPeriodGrain) (d d' : Date)
    → IsDate d
    → IsDate d'
    → is_first g d ≡ true
    → is_first g' d' ≡ true
    → partition_text g d ≡ partition_text g' d'
    → IsSame g d g' d'
unfolding isoformat tail_of is_nil
partition_inv year_grain year_grain d d' k k' f f' e =
    let (y, rest) = four_digits_inv d.year d'.year "" "" k.year_fits.1 k'.year_fits.1 e in
    (refl, ground (arith, y, f, f'))
partition_inv month_grain month_grain d d' k k' f f' e =
    let (y, rest) = four_digits_inv d.year d'.year _ _ k.year_fits.1 k'.year_fits.1 e in
    let (m, end) =
      two_digits_inv d.month d'.month "" "" k.month_fits k'.month_fits (ap tail_of rest) in
    (refl, ground (arith, y, m, f, f'))
partition_inv day_grain day_grain d d' k k' f f' e =
    let (y, rest) = four_digits_inv d.year d'.year _ _ k.year_fits.1 k'.year_fits.1 e in
    let (m, more) =
      two_digits_inv d.month d'.month _ _ k.month_fits k'.month_fits (ap tail_of rest) in
    let (n, end) = two_digits_inv d.day d'.day "" "" k.day_fits k'.day_fits (ap tail_of more) in
    (refl, ground (arith, y, m, n))
partition_inv year_grain month_grain d d' k k' f f' e =
    absurd
      (true≢false (ap is_nil (four_digits_inv d.year d'.year _ _ k.year_fits.1 k'.year_fits.1 e).1))
partition_inv year_grain day_grain d d' k k' f f' e =
    absurd
      (true≢false (ap is_nil (four_digits_inv d.year d'.year _ _ k.year_fits.1 k'.year_fits.1 e).1))
partition_inv month_grain year_grain d d' k k' f f' e = absurd (
    true≢false
      (sym (ap is_nil (four_digits_inv d.year d'.year _ _ k.year_fits.1 k'.year_fits.1 e).1)))
partition_inv day_grain year_grain d d' k k' f f' e = absurd (
    true≢false
      (sym (ap is_nil (four_digits_inv d.year d'.year _ _ k.year_fits.1 k'.year_fits.1 e).1)))
partition_inv month_grain day_grain d d' k k' f f' e =
    let (y, rest) = four_digits_inv d.year d'.year _ _ k.year_fits.1 k'.year_fits.1 e in
    absurd (
      true≢false (
        ap is_nil
          (two_digits_inv d.month d'.month _ _ k.month_fits k'.month_fits (ap tail_of rest)).1))
partition_inv day_grain month_grain d d' k k' f f' e =
    let (y, rest) = four_digits_inv d.year d'.year _ _ k.year_fits.1 k'.year_fits.1 e in
    absurd (
      true≢false (
        sym (
          ap is_nil
            (two_digits_inv d.month d'.month _ _ k.month_fits k'.month_fits (ap tail_of rest)).1)))

pub period_first : (p : VersionPeriod) → check_period p ≡ ok tt → is_first p.grain p.value ≡ true
unfolding check_period
period_first p h = ground (arith, h)

-- The partition value determines the version: two periods that their constructor accepts, with years of
-- four digits and months and days of at most two, have the same grain and the same date if they
-- have the same partition value.
pub partition_value_determines :
    (p q : VersionPeriod)
    → check_period p ≡ ok tt
    → check_period q ≡ ok tt
    → IsDate p.value
    → IsDate q.value
    → format_partition_value p ≡ format_partition_value q
    → (p.grain ≡ q.grain) × (p.value ≡ q.value)
unfolding format_partition_value
partition_value_determines p q hp hq kp kq e =
    partition_inv p.grain q.grain p.value q.value kp kq (period_first p hp) (period_first q hq) e
