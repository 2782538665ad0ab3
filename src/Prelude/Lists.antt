-- ===== src/Prelude/Lists.antt =====
-- Tables as lists of rows: the queries that SQL statements make, and how a row update moves counts.
use Prim.Native.Nat.{ℕ, suc, ◌+◌, ◌≤◌}
use mathlib.Core.Path.{◌≡◌, refl, subst, ap, ◌∙◌}
use mathlib.Core.Logic.{inl, inr}
use mathlib.Core.Bool.{Bool, true, false}
use mathlib.Core.List.{List, [], ◌∷◌, ◌++◌}
use mathlib.Core.Option.{Option, none, some, some-injective}
use native.Mathlib.Omega.{arith}
use metrka_core.Prelude.Tests.{if◌then◌else◌, Bool-cases}

module _ {ℓ} {A : Type ℓ} where
  abbrev pub length : List A → ℕ
  length [] = 0
  length (x ∷ xs) = suc (length xs)

  -- The first row that passes the test.
  unfoldable pub find : (A → Bool) → List A → Option A
  find p [] = none
  find p (x ∷ xs) = if p x then some x else find p xs

  -- The rows that pass the test, in order.
  unfoldable pub select : (A → Bool) → List A → List A
  select p [] = []
  select p (x ∷ xs) = let rest = select p xs in if p x then x ∷ rest else rest

  unfoldable pub count : (A → Bool) → List A → ℕ
  count p [] = 0
  count p (x ∷ xs) = (if p x then 1 else 0) + count p xs

  unfoldable pub any : (A → Bool) → List A → Bool
  any p [] = false
  any p (x ∷ xs) = let rest = any p xs in if p x then true else rest

  -- `UPDATE … SET … WHERE …`
  unfoldable pub update : (A → Bool) → (A → A) → List A → List A
  update p f [] = []
  update p f (x ∷ xs) = (if p x then f x else x) ∷ update p f xs

  abbrev pub All {κ} : (A → Type κ) → List A → Type κ
  All P [] = Unit
  All P (x ∷ xs) = P x × All P xs

module _ {ℓ} {A : Type ℓ} where
  pub length-append : (xs ys : List A) → length (xs ++ ys) ≡ length xs + length ys
  length-append [] ys = omega arith
  length-append (x ∷ xs) ys = omega (arith, length-append xs ys)

  pub length-update : (p : A → Bool) (f : A → A) (xs : List A) → length (update p f xs) ≡ length xs
  unfolding update
  length-update p f [] = refl
  length-update p f (x ∷ xs) = omega (arith, length-update p f xs)

  pub count-append : (p : A → Bool) (xs ys : List A) → count p (xs ++ ys) ≡ count p xs + count p ys
  unfolding count
  count-append p [] ys = omega arith
  count-append p (x ∷ xs) ys = omega (arith, count-append p xs ys)

  pub any-false_of_count : (p : A → Bool) (xs : List A) → count p xs ≡ 0 → any p xs ≡ false
  unfolding count any
  any-false_of_count p [] h = refl
  any-false_of_count p (x ∷ xs) h = ground (arith, any-false_of_count p xs)

  pub count-zero_of_any : (p : A → Bool) (xs : List A) → any p xs ≡ false → count p xs ≡ 0
  unfolding count any
  count-zero_of_any p [] h = refl
  count-zero_of_any p (x ∷ xs) h = ground (arith, count-zero_of_any p xs)

  pub count-zero_of_find : (p : A → Bool) (xs : List A) → find p xs ≡ none → count p xs ≡ 0
  unfolding count find
  count-zero_of_find p [] h = refl
  count-zero_of_find p (x ∷ xs) h = ground (arith, count-zero_of_find p xs)

  pub find-none_of_count : (p : A → Bool) (xs : List A) → count p xs ≡ 0 → find p xs ≡ none
  unfolding count find
  find-none_of_count p [] h = refl
  find-none_of_count p (x ∷ xs) h = ground (arith, find-none_of_count p xs)

  pub find_holds : (p : A → Bool) (xs : List A) (y : A) → find p xs ≡ some y → p y ≡ true
  unfolding find
  find_holds p [] y h = ground arith
  find_holds p (x ∷ xs) y h = ground (arith, find_holds p xs y)

  pub find-append_none :
      (p : A → Bool) (xs ys : List A) → find p xs ≡ none → find p (xs ++ ys) ≡ find p ys
  unfolding find
  find-append_none p [] ys h = refl
  find-append_none p (x ∷ xs) ys h = ground (arith, find-append_none p xs ys)

  pub find-append_some :
      (p : A → Bool) (xs ys : List A) (y : A) → find p xs ≡ some y → find p (xs ++ ys) ≡ some y
  unfolding find
  find-append_some p [] ys y h = ground arith
  find-append_some p (x ∷ xs) ys y h = ground (arith, find-append_some p xs ys y)

  pub All-append {κ} : (P : A → Type κ) (xs ys : List A) → All P xs → All P ys → All P (xs ++ ys)
  All-append P [] ys hx hy = hy
  All-append P (x ∷ xs) ys hx hy = (hx.0, All-append P xs ys hx.1 hy)

  pub All-map_of {κ} :
      (P Q : A → Type κ) → ((a : A) → P a → Q a) → (xs : List A) → All P xs → All Q xs
  All-map_of P Q f [] h = tt
  All-map_of P Q f (x ∷ xs) h = (f x h.0, All-map_of P Q f xs h.1)

  pub All-find {κ} :
      (P : A → Type κ) (p : A → Bool) (xs : List A) (y : A) → All P xs → find p xs ≡ some y → P y
  unfolding find
  All-find P p [] y h e = ground arith
  All-find P p (x ∷ xs) y h e = elim (Bool-cases (p x)) [
    | inl t ↦ subst P (some-injective x y (rw t at e)) h.0
    | inr t ↦ All-find P p xs y h.1 (rw t at e)
  ]

  pub All-update {κ} :
      (P : A → Type κ) (p : A → Bool) (f : A → A)
      → ((a : A) → P a → p a ≡ true → P (f a))
      → (xs : List A) → All P xs
      → All P (update p f xs)
  unfolding update
  All-update P p f keep [] h = tt
  All-update P p f keep (x ∷ xs) h = elim (Bool-cases (p x)) [
    | inl t ↦ rw t (keep x h.0 t, All-update P p f keep xs h.1)
    | inr t ↦ rw t (h.0, All-update P p f keep xs h.1)
  ]

  -- An update that gives no row the property `q` does not raise the number of rows that have it.
  pub count-update-le :
      (q p : A → Bool) (f : A → A)
      → ((a : A) → q (f a) ≡ true → q a ≡ true)
      → (xs : List A) → count q (update p f xs) ≤ count q xs
  unfolding count update
  count-update-le q p f mono [] = omega arith
  count-update-le q p f mono (x ∷ xs) = ground (arith, mono x, count-update-le q p f mono xs)

  pub count-update-eq :
      (q p : A → Bool) (f : A → A)
      → ((a : A) → q (f a) ≡ q a)
      → (xs : List A) → count q (update p f xs) ≡ count q xs
  unfolding count update
  count-update-eq q p f same [] = refl
  count-update-eq q p f same (x ∷ xs) = ground (arith, same x, count-update-eq q p f same xs)

  -- The row found stays the first, if the update spares it and gives no row the property.
  pub find-update_kept :
      (q w : A → Bool) (f : A → A)
      → ((a : A) → q (f a) ≡ true → q a ≡ true)
      → (xs : List A) (y : A) → find q xs ≡ some y
      → w y ≡ false
      → find q (update w f xs) ≡ some y
  unfolding find update
  find-update_kept q w f mono [] y e h = e
  find-update_kept q w f mono (x ∷ xs) y e h = elim (Bool-cases (q x)) [
    | inl t ↦
        let here : x ≡ y = some-injective x y (rw t at e) in rw (ap w here ∙ h, t) (ap some here)
    | inr t ↦ ground (arith, mono x, find-update_kept q w f mono xs y)
  ]

  pub not_found : (p : A → Bool) (xs : List A) → count p xs ≡ 0 → All (λ x. p x ≡ false) xs
  unfolding count
  not_found p [] h = tt
  not_found p (x ∷ xs) h = (ground arith, not_found p xs (omega arith))

  pub count_of_find :
      (q p : A → Bool) (xs : List A) (a : A) → find p xs ≡ some a → q a ≡ true → 1 ≤ count q xs
  unfolding count find
  count_of_find q p [] a e h = ground arith
  count_of_find q p (x ∷ xs) a e h = elim (Bool-cases (p x)) [
    | inl t ↦ let here : x ≡ a = some-injective x a (rw t at e) in rw (ap q here ∙ h) (omega arith)
    | inr t ↦ omega (arith, count_of_find q p xs a (rw t at e) h)
  ]

  -- Two found rows with a property that at most one row has are the same row.
  pub found_unique :
      (q p r : A → Bool) (xs : List A) (a b : A)
      → count q xs ≤ 1
      → find p xs ≡ some a
      → find r xs ≡ some b
      → q a ≡ true
      → q b ≡ true
      → a ≡ b
  unfolding count find
  found_unique q p r [] a b h ea eb qa qb = ground arith
  found_unique q p r (x ∷ xs) a b h ea eb qa qb =
      ground (arith, found_unique q p r xs a b, count_of_find q p xs a, count_of_find q r xs b)

  -- An update that keeps the property in the rows that it writes keeps the count.
  pub count-update-same :
      (q w : A → Bool) (f : A → A)
      → ((a : A) → w a ≡ true → q (f a) ≡ q a)
      → (xs : List A) → count q (update w f xs) ≡ count q xs
  unfolding count update
  count-update-same q w f same [] = refl
  count-update-same q w f same (x ∷ xs) = ground (arith, same x, count-update-same q w f same xs)

  count-update-none :
      (q w k : A → Bool) (f : A → A)
      → ((a : A) → w a ≡ true → k a ≡ true)
      → (xs : List A) → count k xs ≡ 0
      → count q (update w f xs) ≡ count q xs
  unfolding count update
  count-update-none q w k f one [] h = refl
  count-update-none q w k f one (x ∷ xs) h = ground (arith, one x, count-update-none q w k f one xs)

  -- An update of one row at most, which gains the property.
  pub count-update-gain :
      (q w k : A → Bool) (f : A → A)
      → ((a : A) → w a ≡ true → k a ≡ true)
      → ((a : A) → w a ≡ true → (q (f a) ≡ true) × (q a ≡ false))
      → (xs : List A) (y : A) → count k xs ≤ 1
      → find w xs ≡ some y
      → count q (update w f xs) ≡ count q xs + 1
  unfolding count update find
  count-update-gain q w k f one gain [] y u e = ground arith
  count-update-gain q w k f one gain (x ∷ xs) y u e = ground (
    arith,
    one x,
    gain x,
    count-update-gain q w k f one gain xs y,
    count-update-none q w k f one xs,
  )
