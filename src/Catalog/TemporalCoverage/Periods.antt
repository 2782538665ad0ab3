-- ===== src/Catalog/TemporalCoverage/Periods.antt =====
-- The periods of a compaction: what they cover, and that nothing else covers it.
use Prim.Native.Nat.{suc}
use metrka_core.Prelude.{
  ℕ, ◌+◌, ◌-◌, ◌≤◌, ◌<◌, ◌≡◌, refl, ap, sym, ◌∙◌, Bool, true, false, ◌||◌, ◌&&◌, List, [], ◌∷◌,
  arith, inl, inr,
}
use metrka_core.Prelude.Tests.{◌==◌, leb, Bool-cases}
use metrka_core.Prelude.Lists.{any, length}
use metrka_core.Catalog.TemporalCoverage.{Period, compact_from}
use metrka_core.Catalog.TemporalCoverage.Years.{After, IsIncreasing}

abbrev pub in_period : ℕ → Period → Bool
in_period y p = leb p.start y && leb y p.end

unfoldable pub covers : ℕ → List Period → Bool
unfolding any
covers y periods = any (in_period y) periods

-- A year at least lies between the end and the first period.
abbrev pub Apart : ℕ → List Period → Type 0
Apart end [] = Unit
Apart end (p ∷ periods) = suc end < p.start

-- No period is empty, and a year that is not covered lies between one and the next.
abbrev pub IsSeparated : List Period → Type 0
IsSeparated [] = Unit
IsSeparated (p ∷ periods) = (p.start ≤ p.end) × Apart p.end periods × IsSeparated periods

-- The number of years.
unfoldable pub total : List Period → ℕ
total [] = 0
total (p ∷ periods) = (p.end - p.start + 1) + total periods

joined :
    (start end x : ℕ) (years : List ℕ)
    → (x == end + 1) ≡ true
    → compact_from start end (x ∷ years) ≡ compact_from start x years
unfolding compact_from
joined start end x years t = rw (compact_from, t) refl

cut :
    (start end x : ℕ) (years : List ℕ)
    → (x == end + 1) ≡ false
    → compact_from start end (x ∷ years)
      ≡ record { start = start; end = end } ∷ compact_from x x years
unfolding compact_from
cut start end x years t = rw (compact_from, t) refl

pub compact-covers :
    (y start end : ℕ) (years : List ℕ)
    → start ≤ end
    → covers y (compact_from start end years)
      ≡ ((leb start y && leb y end) || any (λ x. x == y) years)
unfolding covers compact_from any
compact-covers y start end [] h = ground arith
compact-covers y start end (x ∷ years) h = elim (Bool-cases (x == end + 1)) [
  | inl t ↦
      ap (covers y) (joined start end x years t)
      ∙ compact-covers y start x years (ground (arith, t, h))
      ∙ ground (arith, t, h)
  | inr t ↦ ap (covers y) (cut start end x years t) ∙ ground (arith, compact-covers y x x years)
]

pub compact-IsSeparated :
    (start end : ℕ) (years : List ℕ)
    → start ≤ end
    → After end years
    → IsIncreasing years
    → IsSeparated (compact_from start end years)
      × ((b : ℕ) → suc b < start → Apart b (compact_from start end years))
unfolding compact_from
compact-IsSeparated start end [] h k i = ((h, tt, tt), λ b l. l)
compact-IsSeparated start end (x ∷ years) h k i = elim (Bool-cases (x == end + 1)) [
  | inl t ↦
      rw (joined start end x years t)
        (compact-IsSeparated start x years (omega (arith, h, k)) i.0 i.1)
  | inr t ↦
      let (separated, keep) = compact-IsSeparated x x years (omega arith) i.0 i.1 in
      rw (cut start end x years t) ((h, keep end (ground (arith, t, k)), separated), λ b l. l)
]

pub compact-total :
    (start end : ℕ) (years : List ℕ)
    → start ≤ end
    → After end years
    → IsIncreasing years
    → total (compact_from start end years) ≡ (end - start + 1) + length years
unfolding compact_from total
compact-total start end [] h k i = omega arith
compact-total start end (x ∷ years) h k i = elim (Bool-cases (x == end + 1)) [
  | inl t ↦
      ap total (joined start end x years t)
      ∙ ground (arith, compact-total start x years (omega (arith, h, k)) i.0 i.1, t, h, k)
  | inr t ↦
      ap total (cut start end x years t)
      ∙ omega (arith, compact-total x x years (omega arith) i.0 i.1)
]

covers_below :
    (y end : ℕ) (periods : List Period)
    → y ≤ suc end
    → Apart end periods
    → IsSeparated periods
    → covers y periods ≡ false
unfolding covers any
covers_below y end [] h a s = refl
covers_below y end (p ∷ periods) h a s =
    ground (arith, h, a, s.0, covers_below y p.end periods (omega (arith, h, a, s.0)) s.1 s.2)

covers_first :
    (p : Period) (periods : List Period) → p.start ≤ p.end → covers p.start (p ∷ periods) ≡ true
unfolding covers any
covers_first p periods h = ground (arith, h)

-- A period that covers its start in a separated list is not before the list.
starts_before :
    (y : ℕ) (q : Period) (periods : List Period)
    → IsSeparated (q ∷ periods)
    → covers y (q ∷ periods) ≡ true
    → q.start ≤ y
unfolding covers any
starts_before y q periods s h = ground (arith, h, s.0, covers_below y q.end periods, s.1, s.2)

-- Where two lists cover the same years, the first period of one does not end before the other's.
ends_after :
    (p q : Period) (ps qs : List Period)
    → IsSeparated (p ∷ ps)
    → IsSeparated (q ∷ qs)
    → ((y : ℕ) → covers y (p ∷ ps) ≡ covers y (q ∷ qs))
    → p.start ≡ q.start
    → q.end ≤ p.end
unfolding covers any
ends_after p q ps qs s k h e =
    ground
      (arith, h (suc p.end), covers_below (suc p.end) p.end ps (omega arith) s.1 s.2, s.0, k.0, e)

covers_nothing : (y : ℕ) → covers y [] ≡ false
unfolding covers any
covers_nothing y = refl

rest_same :
    (p q : Period) (ps qs : List Period)
    → IsSeparated (p ∷ ps)
    → IsSeparated (q ∷ qs)
    → ((y : ℕ) → covers y (p ∷ ps) ≡ covers y (q ∷ qs))
    → p.start ≡ q.start
    → p.end ≡ q.end
    → (y : ℕ) → covers y ps ≡ covers y qs
unfolding covers any
rest_same p q ps qs s k h starts ends y = elim (Bool-cases (leb y p.end)) [
  | inl t ↦
      covers_below y p.end ps (ground (arith, t)) s.1 s.2
      ∙ sym (covers_below y q.end qs (ground (arith, t, ends)) k.1 k.2)
  | inr t ↦ ground (arith, t, h y, ends)
]

-- Periods with a gap between them are determined by the years that they cover.
pub separated_unique :
    (ps qs : List Period)
    → IsSeparated ps
    → IsSeparated qs
    → ((y : ℕ) → covers y ps ≡ covers y qs)
    → ps ≡ qs
separated_unique [] [] s k h = refl
separated_unique [] (q ∷ qs) s k h =
    absurd (ground (arith, covers_nothing q.start, h q.start, covers_first q qs k.0))
separated_unique (p ∷ ps) [] s k h =
    absurd (ground (arith, covers_nothing p.start, h p.start, covers_first p ps s.0))
separated_unique (p ∷ ps) (q ∷ qs) s k h =
    let starts : p.start ≡ q.start = omega (
      arith,
      starts_before p.start q qs k (sym (h p.start) ∙ covers_first p ps s.0),
      starts_before q.start p ps s (h q.start ∙ covers_first q qs k.0),
    ) in
    let ends : p.end ≡ q.end = omega (
      arith,
      ends_after p q ps qs s k h starts,
      ends_after q p qs ps k s (λ y. sym (h y)) (sym starts),
    ) in
    ground (
      arith,
      starts,
      ends,
      separated_unique ps qs s.2 k.2 (λ y. rest_same p q ps qs s k h starts ends y),
    )
