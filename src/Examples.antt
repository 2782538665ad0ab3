-- ===== src/Examples.antt =====
-- Concrete inputs for the theorems, and runs of the operations on them.
pub mod Publications
pub mod Candidates
pub mod Builds
pub mod Decisions
pub mod Engines
pub mod Approvals
pub mod Verifications
pub mod Marshals
pub mod DecisionUnits
pub mod Coverages
pub mod Projections
pub mod Periods
use Prim.Native.String.{◌∷◌}
use metrka_core.Prelude.{ℕ, String, some}
use metrka_core.Prelude.Time.{Date, DateTime, ℤ, pos}

abbrev pub hash_a : String
hash_a = "aaaaaaaaaaaaaaaaaaaaaaaaaaaaaaaaaaaaaaaaaaaaaaaaaaaaaaaaaaaaaaaa"

abbrev pub hash_b : String
hash_b = "bbbbbbbbbbbbbbbbbbbbbbbbbbbbbbbbbbbbbbbbbbbbbbbbbbbbbbbbbbbbbbbb"

abbrev pub june : Date
june = record { year = 2024; month = 6; day = 1 }

abbrev pub july : Date
july = record { year = 2024; month = 7; day = 1 }

abbrev pub noon : ℕ → DateTime
noon n = record { instant = n; utc_offset = some (pos 0) }

-- A text that is never blank.
abbrev pub marked : String → String
marked s = "x" ∷ s
