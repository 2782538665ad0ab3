-- ===== src/Prelude/Rows.antt =====
-- What an update and an insertion do to the row that a query finds.
use metrka_core.Prelude.Tests.{if◌then◌else◌, Bool-cases}
use metrka_core.Prelude.Lists.{find, update, select, count, any, All, count_of_find}
use mathlib.Core.Path.{◌≡◌, refl, sym, ap, ◌∙◌}
use mathlib.Core.Logic.{inl, inr}
use Prim.Native.Nat.{ℕ, ◌+◌, ◌≤◌}
use mathlib.Core.Bool.{Bool, true, false, ◌&&◌, not}
use mathlib.Core.List.{List, [], ◌∷◌}
use mathlib.Core.Option.{some, some-injective}
use native.Mathlib.Omega.{arith}

module _ {ℓ} {A : Type ℓ} where
  -- The first row of the update, which still passes the test.
  pub find-update_own :
      (p : A → Bool) (f : A → A)
      → ((x : A) → p x ≡ true → p (f x) ≡ true)
      → (xs : List A) (a : A) → find p xs ≡ some a
      → find p (update p f xs) ≡ some (f a)
  unfolding find update
  find-update_own p f keep [] a e = ground (arith, e)
  find-update_own p f keep (x ∷ xs) a e = elim (Bool-cases (p x)) [
    | inl t ↦ rw (t, keep x t) (ap (λ y. some (f y)) (some-injective x a (rw t at e)))
    | inr t ↦ rw (t, t) (find-update_own p f keep xs a (rw t at e))
  ]

  -- An update of other rows, which stay other rows.
  pub find-update_other :
      (p w : A → Bool) (f : A → A)
      → ((x : A) → w x ≡ true → p x ≡ false)
      → ((x : A) → w x ≡ true → p (f x) ≡ false)
      → (xs : List A) → find p (update w f xs) ≡ find p xs
  unfolding find update
  find-update_other p w f before after [] = refl
  find-update_other p w f before after (x ∷ xs) =
      ground (arith, before x, after x, find-update_other p w f before after xs)

  -- The selected rows pass the test.
  pub All-select {κ} :
      (P : A → Type κ) (p : A → Bool) (xs : List A)
      → All P xs
      → All (λ x. (p x ≡ true) × P x) (select p xs)
  unfolding select
  All-select P p [] h = tt
  All-select P p (x ∷ xs) h = elim (Bool-cases (p x)) [
    | inl t ↦ rw t ((t, h.0), All-select P p xs h.1)
    | inr t ↦ rw t (All-select P p xs h.1)
  ]

-- How many rows a test that holds or fails of one row adds.
abbrev pub bit : Bool → ℕ
bit true = 1
bit false = 0

module _ {ℓ} {A : Type ℓ} where
  count_others-zero :
      (q w : A → Bool) (xs : List A)
      → count w xs ≡ 0
      → count q xs ≡ count (λ x. not (w x) && q x) xs
  unfolding count
  count_others-zero q w [] h = refl
  count_others-zero q w (x ∷ xs) h = ground (arith, count_others-zero q w xs)

  -- The rows with a property are the row of a key, if it has the property, and those of other keys.
  pub count_others :
      (q w : A → Bool) (xs : List A) (a : A)
      → count w xs ≤ 1
      → find w xs ≡ some a
      → count q xs ≡ count (λ x. not (w x) && q x) xs + bit (q a)
  unfolding count find
  count_others q w [] a u e = ground (arith, e)
  count_others q w (x ∷ xs) a u e = ground (arith, count_others q w xs a, count_others-zero q w xs)

  -- An update does not touch the rows of other keys.
  pub count_others-update :
      (q w : A → Bool) (f : A → A)
      → ((x : A) → w x ≡ true → w (f x) ≡ true)
      → (xs : List A)
      → count (λ x. not (w x) && q x) (update w f xs) ≡ count (λ x. not (w x) && q x) xs
  unfolding count update
  count_others-update q w f keep [] = refl
  count_others-update q w f keep (x ∷ xs) =
      ground (arith, keep x, count_others-update q w f keep xs)

  -- The key's row is found if some row has the key.
  pub any-true_of_find : (p : A → Bool) (xs : List A) (a : A) → find p xs ≡ some a → any p xs ≡ true
  unfolding any find
  any-true_of_find p [] a e = ground (arith, e)
  any-true_of_find p (x ∷ xs) a e = ground (arith, any-true_of_find p xs a)

  -- A row that one query finds is the row that its key finds.
  pub find_by_key :
      (p w : A → Bool) (xs : List A) (a : A)
      → count w xs ≤ 1
      → find p xs ≡ some a
      → w a ≡ true
      → find w xs ≡ some a
  unfolding find count
  find_by_key p w [] a u e h = e
  find_by_key p w (x ∷ xs) a u e h = elim (Bool-cases (p x)) [
    | inl t ↦ let here : x ≡ a = some-injective x a (rw t at e) in rw (ap w here ∙ h) (ap some here)
    | inr t ↦
        let later : find p xs ≡ some a = rw t at e in
        let one : 1 ≤ count w xs = count_of_find w p xs a later h in
        elim (Bool-cases (w x)) [
          | inl v ↦ absurd (ground (arith, u, one, v))
          | inr v ↦ rw v (find_by_key p w xs a (ground (arith, u, v)) later h)
        ]
  ]

  -- An update of a key's rows under a guard.
  pub find-update_guard :
      (p g : A → Bool) (f : A → A)
      → ((x : A) → p x ≡ true → p (f x) ≡ true)
      → (xs : List A) (a : A) → find p xs ≡ some a
      → find p (update (λ x. p x && g x) f xs) ≡ some (if g a then f a else a)
  unfolding find update
  find-update_guard p g f keep [] a e = ground (arith, e)
  find-update_guard p g f keep (x ∷ xs) a e = elim (Bool-cases (p x)) [
    | inl t ↦
        let here : x ≡ a = some-injective x a (rw t at e) in
        elim (Bool-cases (g x)) [
          | inl u ↦
              rw (t, u, keep x t)
                (ap (λ y. some (f y)) here ∙ sym (ap some (guarded a (ap g (sym here) ∙ u))))
          | inr u ↦ rw (t, u, t) (ap some here ∙ sym (ap some (unguarded a (ap g (sym here) ∙ u))))
        ]
    | inr t ↦ rw (t, t) (find-update_guard p g f keep xs a (rw t at e))
  ]
    where
      guarded : (a : A) → g a ≡ true → (if g a then f a else a) ≡ f a
      guarded a u = rw u refl

      unguarded : (a : A) → g a ≡ false → (if g a then f a else a) ≡ a
      unguarded a u = rw u refl
