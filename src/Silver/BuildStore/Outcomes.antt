-- ===== src/Silver/BuildStore/Outcomes.antt =====
-- `mark_failed` and `mark_succeeded` of a running attempt return: nothing after their write raises.
use metrka_core.Prelude.{
  ◌+◌, ◌≤◌, String, ◌≡◌, refl, ap, ◌∙◌, true, false, none, some, List, [], ◌∷◌, ◌++◌, eq_iff, arith,
}
use metrka_core.Prelude.Tests.{leb}
use metrka_core.Prelude.Lists.{
  find, select, count, any, update, find-none_of_count, any-false_of_count, count_of_find,
  find_holds,
}
use metrka_core.Prelude.Selections.{select-update, count-none}
use metrka_core.Prelude.Text.{is_blank, is_btrim_blank-is_blank}
use metrka_core.Prelude.Time.{DateTime, is_aware}
use metrka_core.Prelude.Result.{Result, ok, require_non_blank}
use metrka_core.Silver.BuildModels.{SilverBuild, is_sha256_hex, check_build}
use metrka_core.Silver.BuildStore.{
  Attempt, BuildTables, has_attempt_id, materializes, running_attempt, joined, row_to_silver_build,
  load, attempt_checks, materialization_checks, Success, validate_success, complete,
  materialization_of, complete_attempt, mark_succeeded, fail_with, fail_attempt, mark_failed,
  get_by_id,
}
use metrka_core.Silver.BuildStore.Failures.{
  IsFailure, is_other, failed-IsFailure, none_running, failed_readable, failed_accepted,
}
use metrka_core.Silver.BuildStore.Soundness.{
  IsSound, succeeded_attempt, failed_tables, failed-IsSound, succeeded_tables, succeeded-IsSound,
}

-- The row of a running attempt, which the store could read and the schema accepts.
pub record IsRunningRow (i : String) (t : BuildTables) (a : Attempt) : Type 0 where
  pub found : find (running_attempt i) t.attempts ≡ some a
  pub readable : check_build (joined a none) ≡ ok tt
  pub accepted : attempt_checks a ≡ true

one_status :
    (i : String) (rows : List Attempt)
    → count (running_attempt i) rows + count (succeeded_attempt i) rows
      ≤ count (has_attempt_id i) rows
unfolding count
one_status i [] = omega arith
one_status i (x ∷ rows) = ground (arith, one_status i rows)

no_materialization :
    (i : String) (t : BuildTables) (a : Attempt)
    → IsSound t
    → find (running_attempt i) t.attempts ≡ some a
    → count (materializes i) t.materializations ≡ 0
no_materialization i t a s e = omega (
  arith,
  s.materialized i,
  s.ids i,
  one_status i t.attempts,
  count_of_find (running_attempt i) (running_attempt i) t.attempts a e
      (find_holds (running_attempt i) t.attempts a e),
)

-- The row with the identifier, after the UPDATE of the running attempt.
found_updated :
    (f : Attempt → Attempt) (i : String) (rows : List Attempt) (a : Attempt)
    → ((x : Attempt) → (f x).silver_build_id ≡ x.silver_build_id)
    → count (has_attempt_id i) rows ≤ 1
    → find (running_attempt i) rows ≡ some a
    → find (has_attempt_id i) (update (running_attempt i) f rows) ≡ some (f a)
unfolding find update count
found_updated f i [] a same u e = ground arith
found_updated f i (x ∷ rows) a same u e = ground (
  arith,
  same x,
  found_updated f i rows a same,
  count_of_find (has_attempt_id i) (running_attempt i) rows a,
  find_holds (running_attempt i) rows a,
)

module _ (i code message : String) (at : DateTime) (t : BuildTables) (a : Attempt) (s : IsSound t)
    (row : IsRunningRow i t a) (aware : is_aware at ≡ true) (has_code : is_blank code ≡ false)
    (has_message : is_blank message ≡ false)
    (later : leb a.started_at.instant at.instant ≡ true) where
  own_id : a.silver_build_id ≡ i
  own_id =
      ground
        (arith, find_holds (running_attempt i) t.attempts a row.found, eq_iff a.silver_build_id i)

  not_materialized : find (materializes a.silver_build_id) t.materializations ≡ none
  not_materialized = rw own_id (
      find-none_of_count (materializes i) t.materializations (no_materialization i t a s row.found))

  failed_load :
      load (failed_tables i at code message t) (fail_with at code message a)
      ≡ ok (joined (fail_with at code message a) none)
  unfolding load row_to_silver_build
  failed_load = rw (
    not_materialized,
    failed_readable a at code message aware
        (ground (arith, find_holds (running_attempt i) t.attempts a row.found)) row.readable,
  )

  failed_read :
      get_by_id i (failed_tables i at code message t)
      ≡ ok (some (joined (fail_with at code message a) none))
  unfolding get_by_id
  failed_read = rw (
    found_updated (fail_with at code message) i t.attempts a (λ x. refl) (s.ids i) row.found,
    get_by_id,
    failed_load,
  )

  failed_returned :
      mark_failed i at code message t
      ≡ ok (joined (fail_with at code message a) none, failed_tables i at code message t)
  unfolding mark_failed fail_attempt
  failed_returned = rw (
    aware,
    has_code,
    has_message,
    row.found,
    failed_accepted a at code message later row.accepted,
    failed_read,
  )

  -- On sound tables, `mark_failed` of a running attempt whose row is readable, with an aware time that
  -- is not before the start and a code and a message that are not blank, returns a build with the
  -- status failed, that time, code and message, no output, and the attempt's other columns; reading
  -- the build again gives the same; no attempt with its identifier is running any more; the rows of
  -- other attempts and all materializations are as before; and the tables are sound again.
  pub mark_failed_lem :
      (b : SilverBuild) × (t' : BuildTables) × (mark_failed i at code message t ≡ ok (b, t'))
      × IsFailure at code message a b
      × (get_by_id i t' ≡ ok (some b))
      × (find (running_attempt i) t'.attempts ≡ none)
      × (select (is_other i) t'.attempts ≡ select (is_other i) t.attempts)
      × (t'.materializations ≡ t.materializations)
      × IsSound t'
  mark_failed_lem = (
    _,
    _,
    failed_returned,
    failed-IsFailure a at code message,
    failed_read,
    none_running at code message i t.attempts,
    select-update (is_other i) (running_attempt i) (fail_with at code message) (λ x. refl)
        t.attempts (count-none _ (λ x. ground arith) t.attempts),
    refl,
    failed-IsSound i code message at t s,
  )

completed_readable :
    (i : String) (u : Success) (a : Attempt)
    → validate_success u ≡ ok tt
    → is_sha256_hex u.logical_data_hash ≡ true
    → is_sha256_hex u.schema_hash ≡ true
    → check_build (joined a none) ≡ ok tt
    → check_build (joined (complete u a) (some (materialization_of i u))) ≡ ok tt
unfolding check_build joined require_non_blank validate_success
completed_readable i u a v lh sh h = ground arith

completed_accepted :
    (u : Success) (a : Attempt)
    → validate_success u ≡ ok tt
    → leb a.started_at.instant u.completed_at.instant ≡ true
    → attempt_checks a ≡ true
    → attempt_checks (complete u a) ≡ true
unfolding attempt_checks validate_success
completed_accepted u a v later h = ground (
  arith,
  is_btrim_blank-is_blank u.logical_hash_algorithm,
  is_btrim_blank-is_blank u.schema_hash_algorithm,
)

materialization_accepted :
    (i : String) (u : Success)
    → validate_success u ≡ ok tt
    → materialization_checks (materialization_of i u) ≡ true
unfolding materialization_checks validate_success is_sha256_hex
materialization_accepted i u v = ground arith

module _ (i : String) (u : Success) (t : BuildTables) (a : Attempt) (s : IsSound t)
    (row : IsRunningRow i t a) (valid : validate_success u ≡ ok tt)
    (logical : is_sha256_hex u.logical_data_hash ≡ true)
    (schema : is_sha256_hex u.schema_hash ≡ true)
    (later : leb a.started_at.instant u.completed_at.instant ≡ true) where
  succeeded_id : a.silver_build_id ≡ i
  succeeded_id =
      ground
        (arith, find_holds (running_attempt i) t.attempts a row.found, eq_iff a.silver_build_id i)

  completed :
      complete_attempt i u a t
      ≡ ok (
        joined (complete u a) (some (materialization_of a.silver_build_id u)),
        record t {
          attempts = update (running_attempt i) (complete u) t.attempts;
          materializations = t.materializations ++ materialization_of a.silver_build_id u ∷ [];
        },
      )
  unfolding complete_attempt row_to_silver_build
  completed = rw (
    completed_accepted u a valid later row.accepted,
    materialization_accepted a.silver_build_id u valid,
    free,
    completed_readable a.silver_build_id u a valid logical schema row.readable,
  )
    where
      free : any (materializes a.silver_build_id) t.materializations ≡ false
      free = rw succeeded_id (
          any-false_of_count (materializes i) t.materializations
            (no_materialization i t a s row.found))

  pub mark_succeeded_lem :
      (mark_succeeded i u t
        ≡ ok (joined (complete u a) (some (materialization_of i u)), succeeded_tables i u t))
      × IsSound (succeeded_tables i u t)
  unfolding mark_succeeded
  mark_succeeded_lem = (
    rw (valid, row.found)
        (completed
          ∙ ap {B = Result (SilverBuild × BuildTables)}
              (λ (k : String). ok (
                joined (complete u a) (some (materialization_of k u)),
                record t {
                  attempts = update (running_attempt i) (complete u) t.attempts;
                  materializations = t.materializations ++ materialization_of k u ∷ [];
                },
              ))
              succeeded_id),
    succeeded-IsSound i u t a row.found s,
  )
