-- ===== src/Catalog/PublicationStore/Latest.antt =====
-- The current publication is the latest: which publication `find_current` returns after `publish`.
use metrka_core.Prelude.{
  ◌+◌, String, ◌≡◌, refl, ap, ◌∙◌, inl, inr, Bool, true, false, Option, none, some, [], ◌∷◌, ◌++◌,
  str_eq, eq_iff, arith,
}
use metrka_core.Prelude.Tests.{Bool-cases, Option-cases}
use metrka_core.Prelude.Lists.{
  find, count, All, All-append, All-map_of, All-find, All-update, find-none_of_count,
  find-append_none, find-append_some, find-update_kept, found_unique, find_holds,
}
use metrka_core.Prelude.Time.{Date, date_leb, date_leb_refl, date_leb_trans, date_leb_total}
use metrka_core.Prelude.Result.{ok}
use metrka_core.Catalog.PublicationModels.{DatasetPublicationRequest, DatasetPublication}
use metrka_core.Catalog.PublicationStore.{
  Publications, has_id, has_build, in_version, active_in, current_in, max_revision, id_of, retire,
  clear_current, retire_previous, make_room, new_row, publish,
}
use metrka_core.Catalog.PublicationStore.Consistency.{IsConsistent, current_cleared}
use metrka_core.Catalog.PublicationStore.Publishing.{
  IsValidRequest, published_row, cleared_rows, current_of, previous_of,
}
use metrka_core.Catalog.PublicationStore.Commit.{rows_after, publish_commits}

-- `p` is not an active publication of the dataset with a version period after `period`.
abbrev pub IsNotAfter : String → Date → DatasetPublication → Type 0
IsNotAfter d period p =
    p.dataset_id ≡ d → p.is_active_revision ≡ true → date_leb p.version_period period ≡ true

-- The dataset's current publication, if it has publications, exists and no active publication has
-- a later version period.
abbrev pub Ranks : String → Publications → Option DatasetPublication → Type 0
Ranks d rows none = All (λ p. str_eq p.dataset_id d ≡ false) rows
Ranks d rows (some c) = All (IsNotAfter d c.version_period) rows

abbrev pub CurrentIsLatest : String → Publications → Type 0
CurrentIsLatest d rows = Ranks d rows (find (current_in d) rows)

-- Publications of the request's version have the request's version period: a partition value is
-- written from the version period (`_format_partition_value`).
abbrev pub HasPeriod : DatasetPublicationRequest → DatasetPublication → Type 0
HasPeriod r p =
    in_version r.dataset_id r.partition_value p ≡ true → p.version_period ≡ r.version_period

-- The updates neither move a period nor make a row active.
ranked_after_updates :
    (d : String) (period : Date) (previous : Option DatasetPublication) (b : Bool) (e : String)
    (rows : Publications)
    → All (IsNotAfter d period) rows
    → All (IsNotAfter d period) (make_room b e (retire_previous previous rows))
unfolding make_room retire_previous
ranked_after_updates d period none false e rows h = h
ranked_after_updates d period none true e rows h =
    All-update _ (current_in e) clear_current (λ p hp _. hp) rows h
ranked_after_updates d period (some q) false e rows h =
    All-update _ (has_id q.publication_id) retire (λ p hp _. λ x y. cc) rows h
ranked_after_updates d period (some q) true e rows h =
    All-update _ (current_in e) clear_current (λ p hp _. hp) _
      (All-update _ (has_id q.publication_id) retire (λ p hp _. λ x y. cc) rows h)

module _ (r : DatasetPublicationRequest) (rows : Publications) (c : IsConsistent rows)
    (periods : All (HasPeriod r) rows) (latest : CurrentIsLatest r.dataset_id rows) where
  abbrev row_with : Bool → DatasetPublication
  row_with b =
      new_row r (max_revision r.dataset_id r.partition_value rows + 1) b
        (id_of (previous_of r rows))

  abbrev rows_with : Bool → Publications
  rows_with b =
      make_room b r.dataset_id (retire_previous (previous_of r rows) rows) ++ row_with b ∷ []

  other_id :
      (k p : DatasetPublication)
      → find (current_in r.dataset_id) rows ≡ some k
      → date_leb k.version_period r.version_period ≡ false
      → find (active_in r.dataset_id r.partition_value) rows ≡ some p
      → str_eq k.publication_id p.publication_id ≡ false
  other_id k p e later before = elim (Bool-cases (str_eq k.publication_id p.publication_id)) [
    | inr different ↦ different
    | inl same ↦
        let one : k ≡ p =
          found_unique (has_id p.publication_id) (current_in r.dataset_id)
            (active_in r.dataset_id r.partition_value) rows k p (c.ids p.publication_id) e before
            same ((eq_iff p.publication_id p.publication_id).1 refl) in
        let period : p.version_period ≡ r.version_period =
          All-find (HasPeriod r) (active_in r.dataset_id r.partition_value) rows p periods before
            (ground (arith, find_holds (active_in r.dataset_id r.partition_value) rows p before)) in
        let now : date_leb k.version_period r.version_period ≡ true =
          rw (ap (λ (x : DatasetPublication). x.version_period) one ∙ period)
            (date_leb_refl r.version_period) in
        cc
  ]

  -- A current publication with a later period is not the one that the version's update retires.
  later_current_kept :
      (k : DatasetPublication)
      → find (current_in r.dataset_id) rows ≡ some k
      → date_leb k.version_period r.version_period ≡ false
      → find (current_in r.dataset_id) (retire_previous (previous_of r rows) rows) ≡ some k
  unfolding retire_previous
  later_current_kept k e later = elim (Option-cases (previous_of r rows)) [
    | inl none_before ↦ rw none_before e
    | inr (p, before) ↦ rw before (
        find-update_kept (current_in r.dataset_id) (has_id p.publication_id) retire
          (λ a h. ground arith) rows k e (other_id k p e later before))
  ]

  new_row_found : find (current_in r.dataset_id) (row_with true ∷ []) ≡ some (row_with true)
  unfolding find new_row
  new_row_found = ground (arith, eq_iff r.dataset_id r.dataset_id)

  becomes_latest :
      All (IsNotAfter r.dataset_id r.version_period) rows
      → CurrentIsLatest r.dataset_id (rows_with true)
  unfolding new_row
  becomes_latest h = rw (found ∙ new_row_found) (
      All-append (IsNotAfter r.dataset_id r.version_period)
        (make_room true r.dataset_id (retire_previous (previous_of r rows) rows))
        (row_with true ∷ [])
        (ranked_after_updates r.dataset_id r.version_period (previous_of r rows) true r.dataset_id
          rows h)
        ((λ x y. date_leb_refl r.version_period), tt))
    where
      found :
          find (current_in r.dataset_id) (rows_with true)
          ≡ find (current_in r.dataset_id) (row_with true ∷ [])
      found =
          find-append_none (current_in r.dataset_id)
            (make_room true r.dataset_id (retire_previous (previous_of r rows) rows))
            (row_with true ∷ [])
            (find-none_of_count (current_in r.dataset_id) _
              (current_cleared r.dataset_id (retire_previous (previous_of r rows) rows)))

  stays_latest :
      (k : DatasetPublication)
      → find (current_in r.dataset_id) rows ≡ some k
      → date_leb k.version_period r.version_period ≡ false
      → All (IsNotAfter r.dataset_id k.version_period) rows
      → CurrentIsLatest r.dataset_id (rows_with false)
  unfolding new_row make_room
  stays_latest k e later h =
      rw
        (find-append_some (current_in r.dataset_id) (retire_previous (previous_of r rows) rows)
          (row_with false ∷ []) k (later_current_kept k e later))
        (All-append (IsNotAfter r.dataset_id k.version_period)
          (retire_previous (previous_of r rows) rows) (row_with false ∷ [])
          (ranked_after_updates r.dataset_id k.version_period (previous_of r rows) false
            r.dataset_id rows h)
          ((λ x y. date_leb_total k.version_period r.version_period later), tt))

  pub publish_keeps_latest :
      CurrentIsLatest r.dataset_id (cleared_rows r rows ++ published_row r rows ∷ [])
  publish_keeps_latest = elim (Option-cases (current_of r rows)) [
    | inl nothing ↦ rw nothing (
        becomes_latest (
          All-map_of _ (IsNotAfter r.dataset_id r.version_period)
            (λ p hp. λ x y. ground (arith, eq_iff p.dataset_id r.dataset_id)) rows
            (rw nothing at latest)))
    | inr (k, e) ↦ rw e (elim (Bool-cases (date_leb k.version_period r.version_period)) [
      | inl newer ↦ rw newer (
          becomes_latest (
            All-map_of (IsNotAfter r.dataset_id k.version_period)
              (IsNotAfter r.dataset_id r.version_period)
              (λ p hp. λ x y.
                date_leb_trans p.version_period k.version_period r.version_period (hp x y) newer)
              rows (rw e at latest)))
      | inr older ↦ rw older (stays_latest k e older (rw e at latest))
    ])
  ]

-- If the rows are consistent, the current publication is the latest and the rows of the request's
-- version have the request's period, then publishing a valid request with a fresh identifier, for a
-- build that has no publication, succeeds, and in the resulting table the current publication of the
-- dataset exists and no active publication of the dataset has a later version period.
pub publish-CurrentIsLatest :
    (r : DatasetPublicationRequest) (rows : Publications)
    → IsValidRequest r
    → count (has_id r.publication_id) rows ≡ 0
    → count (has_build r.silver_build_id) rows ≡ 0
    → IsConsistent rows
    → All (HasPeriod r) rows
    → CurrentIsLatest r.dataset_id rows
    → (out : DatasetPublication × Publications) × (publish r rows ≡ ok out)
      × CurrentIsLatest r.dataset_id out.1
      × (str_eq out.0.publication_id r.publication_id ≡ true)
publish-CurrentIsLatest r rows valid fresh unpublished c periods latest = (
  (published_row r rows, rows_after r rows),
  (publish_commits r rows valid fresh unpublished c).0,
  publish_keeps_latest r rows c periods latest,
  unfold new_row in (eq_iff r.publication_id r.publication_id).1 refl,
)
