-- ===== src/Examples/Publications.antt =====
-- Two publications of one dataset, one after the other.
use metrka_core.Prelude.{String, ◌≡◌, refl, true, [], ◌∷◌, arith}
use metrka_core.Prelude.{map, ◌++◌, str_eq}
use metrka_core.Prelude.Lists.{count, find, select, update, All}
use metrka_core.Prelude.Text.{is_blank, str_len}
use metrka_core.Prelude.Result.{ok, require_non_blank}
use metrka_core.Prelude.Time.{Date, date_leb}
use metrka_core.Catalog.PublicationModels.{
  DatasetPublicationRequest, DatasetPublication, check_publication_request,
}
use metrka_core.Catalog.PublicationStore.{
  Publications, has_id, has_build, active_in, id_of, publish, new_row, make_room, retire_previous,
}
use metrka_core.Catalog.PublicationStore.Consistency.{IsConsistent}
use metrka_core.Catalog.PublicationStore.Publishing.{IsValidRequest, published_row}
use metrka_core.Catalog.PublicationStore.Commit.{rows_after, publish_commits}
use metrka_core.Catalog.PublicationStore.Latest.{
  HasPeriod, CurrentIsLatest, publish-CurrentIsLatest,
}
use metrka_core.Catalog.PublicationStore.History.{
  columns_of, is_elsewhere, publish_appends, publish_again,
}
use metrka_core.Examples.{hash_a, hash_b, june, july, noon}

abbrev request : String → String → Date → String → DatasetPublicationRequest
request id build period version = record {
  publication_id = id;
  pipeline_run_id = "run";
  dataset_id = "postcodes";
  version_period = period;
  partition_key = "month";
  partition_value = version;
  silver_build_id = build;
  engine_release_id = "engine-1";
  processing_config_hash = hash_a;
  quality_config_hash = hash_b;
  fingerprint_version = 1;
  logical_hash_algorithm = "sha256";
  schema_hash_algorithm = "sha256";
  logical_data_hash = hash_a;
  schema_hash = hash_b;
  manifest_path = "silver/postcodes/manifest.json";
  published_at = noon 5;
}

abbrev first : DatasetPublicationRequest
first = request "publication-1" "build-1" june "2024-06"

abbrev second : DatasetPublicationRequest
second = request "publication-2" "build-2" july "2024-07"

nothing-IsConsistent : IsConsistent []
unfolding count
nothing-IsConsistent = record {
  loadable = tt;
  ids = λ i. ground arith;
  builds = λ b. ground arith;
  revisions = λ d v n. ground arith;
  active = λ d v. ground arith;
  current = λ d. ground arith;
}

first_valid : IsValidRequest first
unfolding check_publication_request require_non_blank is_blank str_len
first_valid = refl

second_valid : IsValidRequest second
unfolding check_publication_request require_non_blank is_blank str_len
second_valid = refl

-- The table that holds the first publication.
abbrev one_row : Publications
one_row = rows_after first []

one_row-IsConsistent : IsConsistent one_row
unfolding count
one_row-IsConsistent = (publish_commits first [] first_valid refl refl nothing-IsConsistent).1

second_fresh : count (has_id second.publication_id) one_row ≡ 0
unfolding count new_row find make_room retire_previous update
second_fresh = refl

second_unpublished : count (has_build second.silver_build_id) one_row ≡ 0
unfolding count new_row find make_room retire_previous update
second_unpublished = refl

publish_commits_example :
    (publish second one_row ≡ ok (published_row second one_row, rows_after second one_row))
    × IsConsistent (rows_after second one_row)
publish_commits_example =
    publish_commits second one_row second_valid second_fresh second_unpublished one_row-IsConsistent

one_row_periods : All (HasPeriod second) one_row
unfolding new_row find make_room retire_previous update
one_row_periods = (λ h. ground arith, tt)

one_row-CurrentIsLatest : CurrentIsLatest second.dataset_id one_row
unfolding new_row find make_room retire_previous update date_leb
one_row-CurrentIsLatest = (λ d a. ground arith, tt)

publish-CurrentIsLatest_example :
    (out : DatasetPublication × Publications) × (publish second one_row ≡ ok out)
    × CurrentIsLatest second.dataset_id out.1
    × (str_eq out.0.publication_id second.publication_id ≡ true)
publish-CurrentIsLatest_example =
    publish-CurrentIsLatest second one_row second_valid second_fresh second_unpublished
      one_row-IsConsistent one_row_periods one_row-CurrentIsLatest

publish_appends_example :
    (out : DatasetPublication × Publications) × (publish second one_row ≡ ok out)
    × (map columns_of out.1 ≡ map columns_of one_row ++ columns_of out.0 ∷ [])
    × (out.0.is_active_revision ≡ true)
    × (out.0.supersedes_publication_id
        ≡ id_of (find (active_in second.dataset_id second.partition_value) one_row))
    × (select (is_elsewhere second.dataset_id) out.1
        ≡ select (is_elsewhere second.dataset_id) one_row)
publish_appends_example =
    publish_appends second one_row second_valid second_fresh second_unpublished one_row-IsConsistent

publish_again_example : publish second (rows_after second one_row) ≡ publish second one_row
publish_again_example =
    publish_again second one_row second_valid second_fresh second_unpublished one_row-IsConsistent
      second refl refl refl
