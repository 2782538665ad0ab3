-- ===== src/Prelude/Dates.antt =====
-- Dates as text: `date.isoformat` and the formats of pipeline/silver/candidate_processing.py.
use Prim.Native.Char.{Char}
use Prim.Native.Nat.{ℕ, zero, suc, ◌/◌, ◌%◌}
use Prim.Native.String.{String, ◌∷◌}
use metrka_core.Prelude.Time.{Date}

abbrev pub digit : ℕ → Char
digit zero = "0"
digit (suc zero) = "1"
digit (suc (suc zero)) = "2"
digit (suc (suc (suc zero))) = "3"
digit (suc (suc (suc (suc zero)))) = "4"
digit (suc (suc (suc (suc (suc zero))))) = "5"
digit (suc (suc (suc (suc (suc (suc zero)))))) = "6"
digit (suc (suc (suc (suc (suc (suc (suc zero))))))) = "7"
digit (suc (suc (suc (suc (suc (suc (suc (suc zero)))))))) = "8"
digit _ = "9"

abbrev pub two_digits : ℕ → String → String
two_digits n rest = digit (n / 10 % 10) ∷ digit (n % 10) ∷ rest

abbrev pub four_digits : ℕ → String → String
four_digits n rest = digit (n / 1000 % 10) ∷ digit (n / 100 % 10) ∷ two_digits n rest

-- `value.isoformat()`
unfoldable pub isoformat : Date → String
isoformat d = four_digits d.year ("-" ∷ two_digits d.month ("-" ∷ two_digits d.day ""))
