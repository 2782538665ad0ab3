-- ===== src/Catalog/PublicationStore/Consistency.antt =====
-- What the table of publications keeps between transactions, and how the statements of `publish`
-- move its parts.
use metrka_core.Prelude.{
  ℕ, ◌≤◌, ◌<◌, String, ◌≡◌, refl, inl, inr, Bool, true, false, Option, none, some, [], ◌∷◌, eq_iff,
  arith,
}
use metrka_core.Prelude.Tests.{Bool-cases, Option-cases}
use metrka_core.Prelude.Lists.{
  find, count, update, All, All-update, count-update-le, count-update-eq, count-zero_of_find,
}
use metrka_core.Prelude.Result.{ok}
use metrka_core.Catalog.PublicationModels.{DatasetPublication, check_publication}
use metrka_core.Catalog.PublicationStore.{
  Publications, has_id, has_build, active_in, current_in, has_revision, row_to_publication,
  fetch_one, max_revision, retire, clear_current, retire_previous, make_room,
}

-- The row passes the constructor's checks.
abbrev pub IsLoadable : DatasetPublication → Type 0
IsLoadable p = check_publication p ≡ ok tt

-- Every row loads; identifiers, builds and revisions are unique; a version has at most one active
-- revision and a dataset at most one current publication.
pub record IsConsistent (rows : Publications) : Type 0 where
  pub loadable : All IsLoadable rows
  pub ids : (i : String) → count (has_id i) rows ≤ 1
  pub builds : (b : String) → count (has_build b) rows ≤ 1
  pub revisions : (d v : String) (n : ℕ) → count (has_revision d v n) rows ≤ 1
  pub active : (d v : String) → count (active_in d v) rows ≤ 1
  pub current : (d : String) → count (current_in d) rows ≤ 1

-- On loadable rows, `fetchone` is the first row that fits.
pub fetch_one-eq-find :
    (p : DatasetPublication → Bool) (rows : Publications)
    → All IsLoadable rows
    → fetch_one p rows ≡ ok (find p rows)
unfolding fetch_one row_to_publication find
fetch_one-eq-find p [] h = refl
fetch_one-eq-find p (x ∷ rows) h = ground (arith, h.0, fetch_one-eq-find p rows h.1)

-- No row of the version has a revision above the greatest.
pub revision_fresh :
    (d v : String) (n : ℕ) (rows : Publications)
    → max_revision d v rows < n
    → count (has_revision d v n) rows ≡ 0
unfolding max_revision count
revision_fresh d v n [] h = refl
revision_fresh d v n (x ∷ rows) h = ground (arith, revision_fresh d v n rows)

retire-IsLoadable : (p : DatasetPublication) → IsLoadable p → IsLoadable (retire p)
unfolding check_publication
retire-IsLoadable p h = ground arith

clear_current-IsLoadable : (p : DatasetPublication) → IsLoadable p → IsLoadable (clear_current p)
unfolding check_publication
clear_current-IsLoadable p h = ground arith

pub IsLoadable-retire_previous :
    (previous : Option DatasetPublication) (rows : Publications)
    → All IsLoadable rows
    → All IsLoadable (retire_previous previous rows)
unfolding retire_previous
IsLoadable-retire_previous none rows h = h
IsLoadable-retire_previous (some p) rows h =
    All-update IsLoadable (has_id p.publication_id) retire (λ a ha _. retire-IsLoadable a ha) rows h

pub IsLoadable-make_room :
    (b : Bool) (d : String) (rows : Publications)
    → All IsLoadable rows
    → All IsLoadable (make_room b d rows)
unfolding make_room
IsLoadable-make_room false d rows h = h
IsLoadable-make_room true d rows h =
    All-update IsLoadable (current_in d) clear_current (λ a ha _. clear_current-IsLoadable a ha)
      rows h

-- The two updates touch the flags alone: a property of the other columns keeps its count.
module _ (q : DatasetPublication → Bool) (retired : (p : DatasetPublication) → q (retire p) ≡ q p)
    (cleared : (p : DatasetPublication) → q (clear_current p) ≡ q p) where
  pub count-updates-eq :
      (previous : Option DatasetPublication) (b : Bool) (d : String) (rows : Publications)
      → count q (make_room b d (retire_previous previous rows)) ≡ count q rows
  unfolding retire_previous make_room
  count-updates-eq none false d rows = refl
  count-updates-eq none true d rows = count-update-eq q (current_in d) clear_current cleared rows
  count-updates-eq (some p) false d rows =
      count-update-eq q (has_id p.publication_id) retire retired rows
  count-updates-eq (some p) true d rows = omega (
    arith,
    count-update-eq q (current_in d) clear_current cleared
        (update (has_id p.publication_id) retire rows),
    count-update-eq q (has_id p.publication_id) retire retired rows,
  )

-- They only take flags away, so no flag's count grows.
module _ (q : DatasetPublication → Bool)
    (retired : (p : DatasetPublication) → q (retire p) ≡ true → q p ≡ true)
    (cleared : (p : DatasetPublication) → q (clear_current p) ≡ true → q p ≡ true) where
  pub count-updates-le :
      (previous : Option DatasetPublication) (b : Bool) (d : String) (rows : Publications)
      → count q (make_room b d (retire_previous previous rows)) ≤ count q rows
  unfolding retire_previous make_room
  count-updates-le none false d rows = omega arith
  count-updates-le none true d rows = count-update-le q (current_in d) clear_current cleared rows
  count-updates-le (some p) false d rows =
      count-update-le q (has_id p.publication_id) retire retired rows
  count-updates-le (some p) true d rows = omega (
    arith,
    count-update-le q (current_in d) clear_current cleared
        (update (has_id p.publication_id) retire rows),
    count-update-le q (has_id p.publication_id) retire retired rows,
  )

none_left :
    (d v i : String) (rows : Publications)
    → count (active_in d v) rows ≡ 0
    → count (active_in d v) (update (has_id i) retire rows) ≡ 0
none_left d v i rows h =
    omega (arith, count-update-le (active_in d v) (has_id i) retire (λ a e. ground arith) rows)

-- When the one active revision of a version is retired, none is left.
retired_leaves_none :
    (d v : String) (p : DatasetPublication) (rows : Publications)
    → find (active_in d v) rows ≡ some p
    → count (active_in d v) rows ≤ 1
    → count (active_in d v) (update (has_id p.publication_id) retire rows) ≡ 0
unfolding find count update
retired_leaves_none d v p [] e h = refl
retired_leaves_none d v p (x ∷ rows) e h = elim (Bool-cases (active_in d v x)) [
  | inl t ↦
      ground (arith, eq_iff x.publication_id p.publication_id, none_left d v p.publication_id rows)
  | inr t ↦ ground (arith, retired_leaves_none d v p rows)
]

count-make_room-le :
    (d v : String) (b : Bool) (rows : Publications)
    → count (active_in d v) (make_room b d rows) ≤ count (active_in d v) rows
unfolding make_room
count-make_room-le d v false rows = omega arith
count-make_room-le d v true rows =
    count-update-le (active_in d v) (current_in d) clear_current (λ a e. ground arith) rows

pub active_cleared :
    (d v : String) (b : Bool) (rows : Publications)
    → count (active_in d v) rows ≤ 1
    → count (active_in d v) (make_room b d (retire_previous (find (active_in d v) rows) rows)) ≡ 0
unfolding retire_previous
active_cleared d v b rows h = elim (Option-cases (find (active_in d v) rows)) [
  | inl e ↦ rw e (omega (arith, room none, count-zero_of_find (active_in d v) rows e))
  | inr (p, e) ↦ rw e (omega (arith, room (some p), retired_leaves_none d v p rows e h))
]
  where
    room :
        (previous : Option DatasetPublication)
        → count (active_in d v) (make_room b d (retire_previous previous rows))
          ≤ count (active_in d v) (retire_previous previous rows)
    room previous = count-make_room-le d v b (retire_previous previous rows)

-- After the second update the dataset has no current publication.
current_cleared_all :
    (d : String) (rows : Publications)
    → count (current_in d) (update (current_in d) clear_current rows) ≡ 0
unfolding count update
current_cleared_all d [] = refl
current_cleared_all d (x ∷ rows) = ground (arith, current_cleared_all d rows)

pub current_cleared :
    (d : String) (rows : Publications) → count (current_in d) (make_room true d rows) ≡ 0
unfolding make_room
current_cleared d rows = current_cleared_all d rows
