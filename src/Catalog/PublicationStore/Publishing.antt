-- ===== src/Catalog/PublicationStore/Publishing.antt =====
-- The transaction `publish` of a build that has no publication.
use metrka_core.Prelude.{
  ℕ, ◌+◌, String, ◌≡◌, refl, ◌∙◌, Bool, true, false, ◌&&◌, Option, [], ◌∷◌, ◌++◌, arith,
}
use metrka_core.Prelude.Lists.{find, count, any, any-false_of_count}
use metrka_core.Prelude.Text.{is_btrim_blank-is_blank}
use metrka_core.Prelude.Result.{ok, require_non_blank}
use metrka_core.Catalog.PublicationModels.{
  DatasetPublicationRequest, DatasetPublication, check_publication, check_publication_request,
}
use metrka_core.Catalog.PublicationStore.{
  Publications, has_id, has_build, active_in, current_in, has_revision, row_to_publication,
  max_revision, satisfies_checks, insert_row, becomes_current, id_of, retire_previous, make_room,
  new_row, publish_revision, publish_new,
}
use metrka_core.Catalog.PublicationStore.Consistency.{
  IsLoadable, IsConsistent, fetch_one-eq-find, revision_fresh, count-updates-eq, active_cleared,
  current_cleared,
}

-- The request passes the constructor's checks.
abbrev pub IsValidRequest : DatasetPublicationRequest → Type 0
IsValidRequest r = check_publication_request r ≡ ok tt

module _ (r : DatasetPublicationRequest) (rows : Publications) where
  abbrev pub current_of : Option DatasetPublication
  current_of = find (current_in r.dataset_id) rows

  abbrev pub previous_of : Option DatasetPublication
  previous_of = find (active_in r.dataset_id r.partition_value) rows

  -- The row that the transaction writes.
  abbrev pub published_row : DatasetPublication
  published_row =
      new_row r (max_revision r.dataset_id r.partition_value rows + 1)
        (becomes_current current_of r.version_period) (id_of previous_of)

  -- The other rows, after the two updates.
  abbrev pub cleared_rows : Publications
  cleared_rows =
      make_room (becomes_current current_of r.version_period) r.dataset_id
        (retire_previous previous_of rows)

checks_of_request :
    (r : DatasetPublicationRequest) (n : ℕ) (b : Bool) (o : Option String)
    → IsValidRequest r
    → satisfies_checks (new_row r (n + 1) b o) ≡ true
unfolding satisfies_checks new_row check_publication_request require_non_blank
checks_of_request r n b o h = ground (
  arith,
  is_btrim_blank-is_blank r.logical_hash_algorithm,
  is_btrim_blank-is_blank r.schema_hash_algorithm,
)

pub new_row-IsLoadable :
    (r : DatasetPublicationRequest) (n : ℕ) (b : Bool) (o : Option String)
    → IsValidRequest r
    → IsLoadable (new_row r (n + 1) b o)
unfolding check_publication new_row check_publication_request require_non_blank
new_row-IsLoadable r n b o h = ground arith

-- An INSERT that no constraint refuses.
pub insert_row-accepted :
    (p : DatasetPublication) (rows : Publications)
    → satisfies_checks p ≡ true
    → any (has_id p.publication_id) rows ≡ false
    → any (has_build p.silver_build_id) rows ≡ false
    → any (has_revision p.dataset_id p.partition_value p.revision) rows ≡ false
    → (p.is_active_revision && any (active_in p.dataset_id p.partition_value) rows) ≡ false
    → (p.is_current && any (current_in p.dataset_id) rows) ≡ false
    → insert_row p rows ≡ ok (rows ++ p ∷ [])
unfolding insert_row
insert_row-accepted p rows checks id build revision active current =
    simp (checks, id, build, revision, active, current)

module _ (r : DatasetPublicationRequest) (rows : Publications) (valid : IsValidRequest r)
    (fresh : count (has_id r.publication_id) rows ≡ 0)
    (unpublished : count (has_build r.silver_build_id) rows ≡ 0) (c : IsConsistent rows) where
  id_free : any (has_id r.publication_id) (cleared_rows r rows) ≡ false
  id_free = any-false_of_count _ _ (
      count-updates-eq (has_id r.publication_id) (λ p. refl) (λ p. refl) (previous_of r rows)
        (becomes_current (current_of r rows) r.version_period) r.dataset_id rows
      ∙ fresh)

  build_free : any (has_build r.silver_build_id) (cleared_rows r rows) ≡ false
  build_free = any-false_of_count _ _ (
      count-updates-eq (has_build r.silver_build_id) (λ p. refl) (λ p. refl) (previous_of r rows)
        (becomes_current (current_of r rows) r.version_period) r.dataset_id rows
      ∙ unpublished)

  revision_free :
      any
        (has_revision r.dataset_id r.partition_value
          (max_revision r.dataset_id r.partition_value rows + 1))
        (cleared_rows r rows)
      ≡ false
  revision_free = any-false_of_count _ _ (
      count-updates-eq _ (λ p. refl) (λ p. refl) (previous_of r rows)
        (becomes_current (current_of r rows) r.version_period) r.dataset_id rows
      ∙ revision_fresh r.dataset_id r.partition_value _ rows (omega arith))

  active_free : any (active_in r.dataset_id r.partition_value) (cleared_rows r rows) ≡ false
  active_free = any-false_of_count _ _ (
      active_cleared r.dataset_id r.partition_value
        (becomes_current (current_of r rows) r.version_period) rows
        (c.active r.dataset_id r.partition_value))

  current_free :
      (b : Bool)
      → (b
          && any
              (current_in r.dataset_id)
              (make_room b r.dataset_id (retire_previous (previous_of r rows) rows)))
        ≡ false
  current_free false = refl
  current_free true = any-false_of_count _ _ (current_cleared r.dataset_id _)

  insert_succeeds :
      insert_row (published_row r rows) (cleared_rows r rows)
      ≡ ok (cleared_rows r rows ++ published_row r rows ∷ [])
  unfolding new_row
  insert_succeeds =
      insert_row-accepted (published_row r rows) (cleared_rows r rows)
        (checks_of_request r _ (becomes_current (current_of r rows) r.version_period)
          (id_of (previous_of r rows)) valid)
        id_free build_free revision_free active_free
        (current_free (becomes_current (current_of r rows) r.version_period))

  pub publish_new_lem :
      publish_new r rows
      ≡ ok (published_row r rows, cleared_rows r rows ++ published_row r rows ∷ [])
  unfolding publish_new publish_revision row_to_publication
  publish_new_lem = rw (
    fetch_one-eq-find (current_in r.dataset_id) rows c.loadable,
    fetch_one-eq-find (active_in r.dataset_id r.partition_value) rows c.loadable,
    insert_succeeds,
    new_row-IsLoadable r (max_revision r.dataset_id r.partition_value rows)
        (becomes_current (current_of r rows) r.version_period) (id_of (previous_of r rows)) valid,
  )
