-- ===== src/Catalog/PublicationStore/History.antt =====
-- What a publication never changes: the rows that are there, and the result of a repeated call.
use metrka_core.Prelude.{
  ℕ, String, ◌≡◌, refl, ap, ◌∙◌, Bool, true, false, ◌&&◌, not, Option, none, some, List, [], ◌∷◌,
  ◌++◌, map, str_eq, eq_iff, arith,
}
use mathlib.Core.List.{map-append, append-nil}
use metrka_core.Prelude.Lists.{
  find, select, count, update, find-none_of_count, find-append_none, find_holds, count_of_find,
}
use metrka_core.Prelude.Selections.{select-append, select-update, count-none, count-split}
use metrka_core.Prelude.Time.{Date, DateTime}
use metrka_core.Prelude.Result.{ok}
use metrka_core.Catalog.PublicationModels.{DatasetPublicationRequest, DatasetPublication}
use metrka_core.Catalog.PublicationStore.{
  Publications, has_id, has_build, active_in, current_in, becomes_current, id_of, retire,
  clear_current, retire_previous, make_room, new_row, publish,
}
use metrka_core.Catalog.PublicationStore.Consistency.{
  IsConsistent, fetch_one-eq-find, count-updates-eq,
}
use metrka_core.Catalog.PublicationStore.Publishing.{
  IsValidRequest, published_row, cleared_rows, current_of, previous_of,
}
use metrka_core.Catalog.PublicationStore.Commit.{rows_after, after-IsConsistent, publish_commits}

-- The columns of a row other than its two flags.
pub record Columns : Type 0 where
  pub publication_id : String
  pub pipeline_run_id : String
  pub dataset_id : String
  pub version_period : Date
  pub partition_key : String
  pub partition_value : String
  pub revision : ℕ
  pub silver_build_id : String
  pub engine_release_id : String
  pub processing_config_hash : String
  pub quality_config_hash : String
  pub fingerprint_version : ℕ
  pub logical_hash_algorithm : String
  pub schema_hash_algorithm : String
  pub logical_data_hash : String
  pub schema_hash : String
  pub manifest_path : String
  pub published_at : DateTime
  pub supersedes_publication_id : Option String

abbrev pub columns_of : DatasetPublication → Columns
columns_of p = record {
  publication_id = p.publication_id;
  pipeline_run_id = p.pipeline_run_id;
  dataset_id = p.dataset_id;
  version_period = p.version_period;
  partition_key = p.partition_key;
  partition_value = p.partition_value;
  revision = p.revision;
  silver_build_id = p.silver_build_id;
  engine_release_id = p.engine_release_id;
  processing_config_hash = p.processing_config_hash;
  quality_config_hash = p.quality_config_hash;
  fingerprint_version = p.fingerprint_version;
  logical_hash_algorithm = p.logical_hash_algorithm;
  schema_hash_algorithm = p.schema_hash_algorithm;
  logical_data_hash = p.logical_data_hash;
  schema_hash = p.schema_hash;
  manifest_path = p.manifest_path;
  published_at = p.published_at;
  supersedes_publication_id = p.supersedes_publication_id;
}

-- A row of another dataset.
abbrev pub is_elsewhere : String → DatasetPublication → Bool
is_elsewhere d p = not (str_eq p.dataset_id d)

map-update :
    (w : DatasetPublication → Bool) (f : DatasetPublication → DatasetPublication)
    → ((p : DatasetPublication) → columns_of (f p) ≡ columns_of p)
    → (rows : Publications) → map columns_of (update w f rows) ≡ map columns_of rows
unfolding update
map-update w f same [] = refl
map-update w f same (x ∷ rows) = ground (arith, same x, map-update w f same rows)

map-updates :
    (previous : Option DatasetPublication) (b : Bool) (d : String) (rows : Publications)
    → map columns_of (make_room b d (retire_previous previous rows)) ≡ map columns_of rows
unfolding make_room retire_previous
map-updates none false d rows = refl
map-updates none true d rows = map-update (current_in d) clear_current (λ p. refl) rows
map-updates (some q) false d rows = map-update (has_id q.publication_id) retire (λ p. refl) rows
map-updates (some q) true d rows =
    map-update (current_in d) clear_current (λ p. refl) _
    ∙ map-update (has_id q.publication_id) retire (λ p. refl) rows

module _ (r : DatasetPublicationRequest) (rows : Publications) (valid : IsValidRequest r)
    (fresh : count (has_id r.publication_id) rows ≡ 0)
    (unpublished : count (has_build r.silver_build_id) rows ≡ 0) (c : IsConsistent rows) where
  previous_elsewhere :
      (o : Option DatasetPublication)
      → previous_of r rows ≡ o
      → select (is_elsewhere r.dataset_id) (retire_previous o rows)
        ≡ select (is_elsewhere r.dataset_id) rows
  unfolding retire_previous
  previous_elsewhere none e = refl
  previous_elsewhere (some q) e =
      select-update (is_elsewhere r.dataset_id) (has_id q.publication_id) retire (λ p. refl) rows
        (omega (
          arith,
          count-split (has_id q.publication_id) (λ p. str_eq p.dataset_id r.dataset_id) rows,
          c.ids q.publication_id,
          count_of_find (λ p. has_id q.publication_id p && str_eq p.dataset_id r.dataset_id)
              (active_in r.dataset_id r.partition_value) rows q e
              (ground (
                arith,
                find_holds (active_in r.dataset_id r.partition_value) rows q e,
                eq_iff q.publication_id q.publication_id,
              )),
        ))

  current_elsewhere :
      (b : Bool) (l : Publications)
      → select (is_elsewhere r.dataset_id) (make_room b r.dataset_id l)
        ≡ select (is_elsewhere r.dataset_id) l
  unfolding make_room
  current_elsewhere false l = refl
  current_elsewhere true l =
      select-update (is_elsewhere r.dataset_id) (current_in r.dataset_id) clear_current (λ p. refl)
        l (count-none _ (λ p. ground arith) l)

  own_row : is_elsewhere r.dataset_id (published_row r rows) ≡ false
  unfolding new_row
  own_row = ground (arith, eq_iff r.dataset_id r.dataset_id)

  nothing_added :
      select (is_elsewhere r.dataset_id) (cleared_rows r rows)
        ++ select (is_elsewhere r.dataset_id) (published_row r rows ∷ [])
      ≡ select (is_elsewhere r.dataset_id) (cleared_rows r rows)
  unfolding select
  nothing_added = rw own_row (append-nil _)

  after_elsewhere :
      select (is_elsewhere r.dataset_id) (rows_after r rows)
      ≡ select (is_elsewhere r.dataset_id) rows
  after_elsewhere =
      select-append (is_elsewhere r.dataset_id) (cleared_rows r rows) (published_row r rows ∷ [])
      ∙ nothing_added
      ∙ current_elsewhere (becomes_current (current_of r rows) r.version_period) _
      ∙ previous_elsewhere (previous_of r rows) refl

  -- Publishing a valid request with a fresh identifier, for a build without publication, in a
  -- consistent table, succeeds; it deletes and reorders no row and changes no column of an existing
  -- row other than its two flags, and adds the returned publication at the end; that publication is
  -- the active revision and supersedes the one that was active for its version, if there was one; and
  -- the rows of other datasets keep their flags as well.
  pub publish_appends :
      (out : DatasetPublication × Publications) × (publish r rows ≡ ok out)
      × (map columns_of out.1 ≡ map columns_of rows ++ columns_of out.0 ∷ [])
      × (out.0.is_active_revision ≡ true)
      × (out.0.supersedes_publication_id
          ≡ id_of (find (active_in r.dataset_id r.partition_value) rows))
      × (select (is_elsewhere r.dataset_id) out.1 ≡ select (is_elsewhere r.dataset_id) rows)
  unfolding new_row
  publish_appends = (
    (published_row r rows, rows_after r rows),
    (publish_commits r rows valid fresh unpublished c).0,
    map-append columns_of (cleared_rows r rows) (published_row r rows ∷ [])
        ∙ ap (λ (l : List Columns). l ++ columns_of (published_row r rows) ∷ [])
            (map-updates (previous_of r rows) (becomes_current (current_of r rows) r.version_period)
              r.dataset_id rows),
    refl,
    refl,
    after_elsewhere,
  )

  found_again : find (has_build r.silver_build_id) (rows_after r rows) ≡ some (published_row r rows)
  unfolding new_row
  found_again =
      find-append_none (has_build r.silver_build_id) (cleared_rows r rows)
        (published_row r rows ∷ [])
        (find-none_of_count (has_build r.silver_build_id) (cleared_rows r rows) (
          count-updates-eq (has_build r.silver_build_id) (λ p. refl) (λ p. refl)
            (previous_of r rows) (becomes_current (current_of r rows) r.version_period) r.dataset_id
            rows
          ∙ unpublished))
      ∙ unfold find in ground (arith, eq_iff r.silver_build_id r.silver_build_id)

  -- After such a publication, any request for the same build, dataset and version returns the same
  -- publication and leaves the table as it is.
  pub publish_again :
      (r' : DatasetPublicationRequest)
      → r'.silver_build_id ≡ r.silver_build_id
      → r'.dataset_id ≡ r.dataset_id
      → r'.partition_value ≡ r.partition_value
      → publish r' (rows_after r rows) ≡ publish r rows
  unfolding publish new_row
  publish_again r' build dataset version =
      rw
        (
          (publish_commits r rows valid fresh unpublished c).0,
          build,
          fetch_one-eq-find (has_build r.silver_build_id) (rows_after r rows)
              (after-IsConsistent r rows valid fresh unpublished c).loadable,
          found_again,
        )
        (ground
          (arith, eq_iff r.dataset_id r'.dataset_id, eq_iff r.partition_value r'.partition_value))
