-- ===== src/Catalog/CandidateStore/Registering.antt =====
-- The registration of a request whose build and identifier are new.
use metrka_core.Prelude.{
  ℕ, String, ◌≡◌, refl, ◌∙◌, true, false, Option, none, some, [], ◌∷◌, ◌++◌, arith,
}
use metrka_core.Prelude.Tests.{◌==◌}
use mathlib.Core.Bool.{decide}
use metrka_core.Prelude.Lists.{find, any, find-append_none, find-none_of_count, count-zero_of_any}
use metrka_core.Prelude.Text.{opt_eq, ≡→str_eq, is_btrim_blank-is_blank}
use metrka_core.Prelude.Time.{date_eq_refl}
use metrka_core.Prelude.Result.{ok, bind_to, require_non_blank}
use metrka_core.Catalog.CandidateModels.{
  SilverPublicationChangeKind, SilverPublicationChangeKind-discrete, none_changed,
  initial_publication, fingerprint_version_changed, fingerprint_algorithm_changed,
  logical_data_changed, schema_changed, logical_data_and_schema_changed,
  DatasetPublicationCandidateRequest, check_change, check_candidate_request,
}
use metrka_core.Catalog.CandidateStore.{
  Candidates, has_candidate_id, has_candidate_build, new_candidate, candidate_checks,
  lifecycle_check, baseline_check, matches_request, insert_candidate, add_unless, register,
}

kind_decided :
    (k : SilverPublicationChangeKind) → decide (SilverPublicationChangeKind-discrete k k) ≡ true
unfolding SilverPublicationChangeKind-discrete decide
kind_decided none_changed = refl
kind_decided initial_publication = refl
kind_decided fingerprint_version_changed = refl
kind_decided fingerprint_algorithm_changed = refl
kind_decided logical_data_changed = refl
kind_decided schema_changed = refl
kind_decided logical_data_and_schema_changed = refl

same_option : (o : Option String) → opt_eq o o ≡ true
same_option none = refl
same_option (some a) = ≡→str_eq a a refl

same_number : (n : ℕ) → (n == n) ≡ true
same_number n = ground arith

matches_own : (r : DatasetPublicationCandidateRequest) → matches_request (new_candidate r) r ≡ true
unfolding matches_request new_candidate
matches_own r =
    rw
      (
        ≡→str_eq r.dataset_id r.dataset_id refl,
        date_eq_refl r.version_period,
        ≡→str_eq r.partition_key r.partition_key refl,
        ≡→str_eq r.partition_value r.partition_value refl,
        ≡→str_eq r.silver_build_id r.silver_build_id refl,
        same_option r.baseline_publication_id,
        kind_decided r.change_kind,
        same_number r.fingerprint_version,
        ≡→str_eq r.logical_hash_algorithm r.logical_hash_algorithm refl,
        ≡→str_eq r.schema_hash_algorithm r.schema_hash_algorithm refl,
        ≡→str_eq r.logical_data_hash r.logical_data_hash refl,
        ≡→str_eq r.schema_hash r.schema_hash refl,
      )
      refl

kind_accepted :
    (k : SilverPublicationChangeKind) (baseline : Option String)
    → check_change k baseline ≡ ok tt
    → baseline_check k baseline ≡ true
unfolding check_change
kind_accepted none_changed baseline h = absurd (ground (arith, h))
kind_accepted initial_publication baseline h = ground (arith, h)
kind_accepted fingerprint_version_changed baseline h = ground (arith, h)
kind_accepted fingerprint_algorithm_changed baseline h = ground (arith, h)
kind_accepted logical_data_changed baseline h = ground (arith, h)
kind_accepted schema_changed baseline h = ground (arith, h)
kind_accepted logical_data_and_schema_changed baseline h = ground (arith, h)

-- A valid request satisfies the constraints of the table.
pub request_accepted :
    (r : DatasetPublicationCandidateRequest)
    → check_candidate_request r ≡ ok tt
    → candidate_checks (new_candidate r) ≡ true
unfolding candidate_checks new_candidate lifecycle_check check_candidate_request require_non_blank
request_accepted r h = ground (
  arith,
  h,
  kind_accepted r.change_kind r.baseline_publication_id,
  is_btrim_blank-is_blank r.logical_hash_algorithm,
  is_btrim_blank-is_blank r.schema_hash_algorithm,
)

inserted_lem :
    (r : DatasetPublicationCandidateRequest) (rows : Candidates)
    → check_candidate_request r ≡ ok tt
    → any (has_candidate_build r.silver_build_id) rows ≡ false
    → any (has_candidate_id r.candidate_id) rows ≡ false
    → insert_candidate (new_candidate r) rows ≡ ok (rows ++ new_candidate r ∷ [])
unfolding insert_candidate add_unless new_candidate
inserted_lem r rows v build id = rw (request_accepted r v, build, id) refl

own_found :
    (r : DatasetPublicationCandidateRequest)
    → find (has_candidate_build r.silver_build_id) (new_candidate r ∷ []) ≡ some (new_candidate r)
unfolding find new_candidate
own_found r = rw (≡→str_eq r.silver_build_id r.silver_build_id refl) refl

pub register_to :
    (r : DatasetPublicationCandidateRequest) (rows : Candidates)
    → check_candidate_request r ≡ ok tt
    → any (has_candidate_build r.silver_build_id) rows ≡ false
    → any (has_candidate_id r.candidate_id) rows ≡ false
    → register r rows ≡ ok (new_candidate r, rows ++ new_candidate r ∷ [])
unfolding register
register_to r rows v build id =
    bind_to (insert_candidate (new_candidate r) rows) _ (rows ++ new_candidate r ∷ []) _ inserted
      (rw (found, matches_own r) refl)
  where
    inserted : insert_candidate (new_candidate r) rows ≡ ok (rows ++ new_candidate r ∷ [])
    inserted = inserted_lem r rows v build id

    found :
        find (has_candidate_build r.silver_build_id) (rows ++ new_candidate r ∷ [])
        ≡ some (new_candidate r)
    found =
        find-append_none (has_candidate_build r.silver_build_id) rows (new_candidate r ∷ []) (
          find-none_of_count (has_candidate_build r.silver_build_id) rows
            (count-zero_of_any (has_candidate_build r.silver_build_id) rows build))
        ∙ own_found r
