-- ===== src/Prelude/Selections.antt =====
-- What an update leaves of the rows that a test selects.
use Prim.Native.Nat.{◌+◌}
use mathlib.Core.Path.{◌≡◌, refl}
use mathlib.Core.Bool.{Bool, false, ◌&&◌, not}
use mathlib.Core.List.{List, [], ◌∷◌, ◌++◌}
use native.Mathlib.Omega.{arith}
use metrka_core.Prelude.Lists.{select, count, update}

module _ {ℓ} {A : Type ℓ} where
  pub select-append :
      (q : A → Bool) (xs ys : List A) → select q (xs ++ ys) ≡ select q xs ++ select q ys
  unfolding select
  select-append q [] ys = refl
  select-append q (x ∷ xs) ys = ground (arith, select-append q xs ys)

  -- An update that keeps the property `q` and reaches no row that has it spares the rows that have it.
  pub select-update :
      (q w : A → Bool) (f : A → A)
      → ((a : A) → q (f a) ≡ q a)
      → (xs : List A) → count (λ a. w a && q a) xs ≡ 0
      → select q (update w f xs) ≡ select q xs
  unfolding select update count
  select-update q w f same [] h = refl
  select-update q w f same (x ∷ xs) h = ground (arith, same x, select-update q w f same xs)

  pub count-none : (p : A → Bool) → ((a : A) → p a ≡ false) → (xs : List A) → count p xs ≡ 0
  unfolding count
  count-none p none_has [] = refl
  count-none p none_has (x ∷ xs) = ground (arith, none_has x, count-none p none_has xs)

  -- The rows with a property are those that have another one too, and those that do not.
  pub count-split :
      (p q : A → Bool) (xs : List A)
      → count (λ a. p a && q a) xs + count (λ a. p a && not (q a)) xs ≡ count p xs
  unfolding count
  count-split p q [] = refl
  count-split p q (x ∷ xs) = ground (arith, count-split p q xs)
