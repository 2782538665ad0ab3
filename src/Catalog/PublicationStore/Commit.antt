-- ===== src/Catalog/PublicationStore/Commit.antt =====
-- `publish` as a client sees it.
use metrka_core.Prelude.{
  ℕ, ◌+◌, ◌≤◌, String, ◌≡◌, refl, ◌∙◌, Bool, true, false, [], ◌∷◌, ◌++◌, eq_iff, arith,
}
use metrka_core.Prelude.Tests.{if◌then◌else◌}
use metrka_core.Prelude.Lists.{count, All-append, count-append, find-none_of_count}
use metrka_core.Prelude.Result.{ok}
use metrka_core.Catalog.PublicationModels.{DatasetPublicationRequest, DatasetPublication}
use metrka_core.Catalog.PublicationStore.{
  Publications, has_id, has_build, active_in, current_in, has_revision, max_revision,
  becomes_current, id_of, retire, clear_current, retire_previous, make_room, new_row, publish_new,
  publish,
}
use metrka_core.Catalog.PublicationStore.Consistency.{
  IsLoadable, IsConsistent, fetch_one-eq-find, revision_fresh, IsLoadable-retire_previous,
  IsLoadable-make_room, count-updates-eq, count-updates-le, active_cleared, current_cleared,
}
use metrka_core.Catalog.PublicationStore.Publishing.{
  IsValidRequest, published_row, cleared_rows, current_of, previous_of, publish_new_lem,
  new_row-IsLoadable,
}

publish-eq-publish_new :
    (r : DatasetPublicationRequest) (rows : Publications)
    → IsConsistent rows
    → count (has_build r.silver_build_id) rows ≡ 0
    → publish r rows ≡ publish_new r rows
unfolding publish
publish-eq-publish_new r rows c h = rw (
  fetch_one-eq-find (has_build r.silver_build_id) rows c.loadable,
  find-none_of_count (has_build r.silver_build_id) rows h,
)

-- The table that the transaction leaves.
abbrev pub rows_after : DatasetPublicationRequest → Publications → Publications
rows_after r rows = cleared_rows r rows ++ published_row r rows ∷ []

module _ (r : DatasetPublicationRequest) (rows : Publications) (valid : IsValidRequest r)
    (fresh : count (has_id r.publication_id) rows ≡ 0)
    (unpublished : count (has_build r.silver_build_id) rows ≡ 0) (c : IsConsistent rows) where
  -- A test of columns that the updates leave alone.
  same_count :
      (q : DatasetPublication → Bool)
      → ((p : DatasetPublication) → q (retire p) ≡ q p)
      → ((p : DatasetPublication) → q (clear_current p) ≡ q p)
      → count q (rows_after r rows) ≡ count q rows + (if q (published_row r rows) then 1 else 0)
  unfolding count
  same_count q hr hc = omega (
    arith,
    count-append q (cleared_rows r rows) (published_row r rows ∷ []),
    count-updates-eq q hr hc (previous_of r rows)
        (becomes_current (current_of r rows) r.version_period) r.dataset_id rows,
  )

  after-ids : (i : String) → count (has_id i) (rows_after r rows) ≤ 1
  unfolding new_row
  after-ids i = ground (
    arith,
    same_count (has_id i) (λ p. refl) (λ p. refl),
    c.ids i,
    fresh,
    eq_iff r.publication_id i,
  )

  after-builds : (b : String) → count (has_build b) (rows_after r rows) ≤ 1
  unfolding new_row
  after-builds b = ground (
    arith,
    same_count (has_build b) (λ p. refl) (λ p. refl),
    c.builds b,
    unpublished,
    eq_iff r.silver_build_id b,
  )

  after-revisions : (d v : String) (n : ℕ) → count (has_revision d v n) (rows_after r rows) ≤ 1
  unfolding new_row
  after-revisions d v n = ground (
    arith,
    same_count (has_revision d v n) (λ p. refl) (λ p. refl),
    c.revisions d v n,
    revision_fresh r.dataset_id r.partition_value n rows,
    eq_iff r.dataset_id d,
    eq_iff r.partition_value v,
  )

  after-active : (d v : String) → count (active_in d v) (rows_after r rows) ≤ 1
  unfolding new_row count
  after-active d v = ground (
    arith,
    count-append (active_in d v) (cleared_rows r rows) (published_row r rows ∷ []),
    count-updates-le (active_in d v) (λ p e. ground arith) (λ p e. ground arith)
        (previous_of r rows) (becomes_current (current_of r rows) r.version_period) r.dataset_id
        rows,
    c.active d v,
    active_cleared r.dataset_id r.partition_value
        (becomes_current (current_of r rows) r.version_period) rows
        (c.active r.dataset_id r.partition_value),
    eq_iff r.dataset_id d,
    eq_iff r.partition_value v,
  )

  after-current : (d : String) → count (current_in d) (rows_after r rows) ≤ 1
  unfolding new_row count
  after-current d = flag (becomes_current (current_of r rows) r.version_period)
    where
      flag :
          (b : Bool)
          → count (current_in d) (
              make_room b r.dataset_id (retire_previous (previous_of r rows) rows)
              ++ new_row r
                  (max_revision r.dataset_id r.partition_value rows + 1)
                  b
                  (id_of (previous_of r rows))
                ∷ [])
            ≤ 1
      flag false = ground (
        arith,
        count-append (current_in d)
            (make_room false r.dataset_id (retire_previous (previous_of r rows) rows))
            (new_row r (max_revision r.dataset_id r.partition_value rows + 1) false
                (id_of (previous_of r rows))
              ∷ []),
        count-updates-le (current_in d) (λ p e. ground arith) (λ p e. ground arith)
            (previous_of r rows) false r.dataset_id rows,
        c.current d,
      )
      flag true = ground (
        arith,
        count-append (current_in d)
            (make_room true r.dataset_id (retire_previous (previous_of r rows) rows))
            (new_row r (max_revision r.dataset_id r.partition_value rows + 1) true
                (id_of (previous_of r rows))
              ∷ []),
        count-updates-le (current_in d) (λ p e. ground arith) (λ p e. ground arith)
            (previous_of r rows) true r.dataset_id rows,
        c.current d,
        current_cleared r.dataset_id (retire_previous (previous_of r rows) rows),
        eq_iff r.dataset_id d,
      )

  -- The rows that the transaction leaves are consistent.
  pub after-IsConsistent : IsConsistent (rows_after r rows)
  after-IsConsistent = record {
    loadable =
        All-append IsLoadable (cleared_rows r rows) (published_row r rows ∷ [])
          (IsLoadable-make_room _ r.dataset_id _
            (IsLoadable-retire_previous (previous_of r rows) rows c.loadable))
          (
            new_row-IsLoadable r (max_revision r.dataset_id r.partition_value rows)
                (becomes_current (current_of r rows) r.version_period) (id_of (previous_of r rows))
                valid,
            tt,
          );
    ids = after-ids;
    builds = after-builds;
    revisions = after-revisions;
    active = after-active;
    current = after-current;
  }

  -- From a consistent table, a valid request with a fresh publication id, for a build that has no
  -- publication, returns the new row, whose revision is one above the greatest of its version, and
  -- leaves a consistent table. Of the table's constraints, the model has the primary key, the unique
  -- constraints and indexes and the CHECK constraints, and none of them refuses the row; the foreign
  -- keys to engine releases, materializations and publications are not part of it.
  pub publish_commits :
      (publish r rows ≡ ok (published_row r rows, (rows_after r rows)))
      × IsConsistent (rows_after r rows)
  publish_commits = (
    publish-eq-publish_new r rows c unpublished ∙ publish_new_lem r rows valid fresh unpublished c,
    after-IsConsistent,
  )
