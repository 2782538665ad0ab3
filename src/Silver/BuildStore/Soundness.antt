-- ===== src/Silver/BuildStore/Soundness.antt =====
-- How the two tables of builds belong together.
use metrka_core.Prelude.{
  ◌≤◌, String, ◌≡◌, refl, ◌∙◌, sym, subst, inl, inr, Bool, true, false, ◌&&◌, some, [], ◌∷◌, ◌++◌,
  str_eq, eq_iff, arith,
}
use metrka_core.Prelude.Tests.{Bool-cases, Option-cases}
use metrka_core.Prelude.Lists.{
  find, count, any, update, count-append, count-zero_of_any, count-update-eq, count-update-same,
  count-update-gain, find_holds,
}
use metrka_core.Prelude.Time.{DateTime}
use metrka_core.Prelude.Result.{ok}
use metrka_core.Silver.BuildModels.{SilverBuild, is_running, is_succeeded}
use metrka_core.Silver.BuildStore.{
  Attempt, BuildTables, has_attempt_id, materializes, running_attempt, attempt_of, insert_started,
  Success, complete, materialization_of, complete_attempt, mark_succeeded, fail_with, fail_attempt,
  mark_failed,
}

abbrev pub succeeded_attempt : String → Attempt → Bool
succeeded_attempt i a = has_attempt_id i a && is_succeeded a.status

pub record IsSound (t : BuildTables) : Type 0 where
  pub ids : (i : String) → count (has_attempt_id i) t.attempts ≤ 1
  pub materialized :
      (i : String)
      → count (materializes i) t.materializations ≡ count (succeeded_attempt i) t.attempts

-- What a call that returns has done to the tables.
abbrev pub started_tables : SilverBuild → BuildTables → BuildTables
started_tables b t = record t { attempts = t.attempts ++ attempt_of b ∷ [] }

abbrev pub succeeded_tables : String → Success → BuildTables → BuildTables
succeeded_tables i s t = record t {
  attempts = update (running_attempt i) (complete s) t.attempts;
  materializations = t.materializations ++ materialization_of i s ∷ [];
}

abbrev pub failed_tables : String → DateTime → String → String → BuildTables → BuildTables
failed_tables i at code message t = record t {
  attempts = update (running_attempt i) (fail_with at code message) t.attempts;
}

pub insert_started_inv :
    (b : SilverBuild) (t t' : BuildTables) (i : String)
    → insert_started b t ≡ ok (i, t')
    → (t' ≡ started_tables b t)
      × (any (has_attempt_id b.silver_build_id) t.attempts ≡ false)
      × (is_running b.status ≡ true)
unfolding insert_started
insert_started_inv b t t' i h = ground arith

pub mark_succeeded_inv :
    (i : String) (s : Success) (t t' : BuildTables) (b : SilverBuild)
    → mark_succeeded i s t ≡ ok (b, t')
    → (a : Attempt) × (find (running_attempt i) t.attempts ≡ some a) × (t' ≡ succeeded_tables i s t)
unfolding mark_succeeded complete_attempt
mark_succeeded_inv i s t t' b h = elim (Option-cases (find (running_attempt i) t.attempts)) [
  | inl gone ↦ ground arith
  | inr (a, e) ↦ (
    a,
    e,
    ground (arith, find_holds (running_attempt i) t.attempts a e, eq_iff a.silver_build_id i),
  )
]

pub mark_failed_inv :
    (i code message : String) (at : DateTime) (t t' : BuildTables) (b : SilverBuild)
    → mark_failed i at code message t ≡ ok (b, t')
    → t' ≡ failed_tables i at code message t
unfolding mark_failed fail_attempt
mark_failed_inv i code message at t t' b h = ground arith

-- A build that starts, succeeds or fails leaves sound tables, from sound tables.
pub started-IsSound :
    (b : SilverBuild) (t : BuildTables)
    → any (has_attempt_id b.silver_build_id) t.attempts ≡ false
    → is_running b.status ≡ true
    → IsSound t
    → IsSound (started_tables b t)
unfolding count
started-IsSound b t fresh new s = record {
  ids = λ i. ground (
    arith,
    count-append (has_attempt_id i) t.attempts (attempt_of b ∷ []),
    s.ids i,
    eq_iff b.silver_build_id i,
    count-zero_of_any (has_attempt_id b.silver_build_id) t.attempts fresh,
  );
  materialized = λ i.
      ground (
        arith,
        count-append (succeeded_attempt i) t.attempts (attempt_of b ∷ []),
        s.materialized i,
      );
}

pub failed-IsSound :
    (i code message : String) (at : DateTime) (t : BuildTables)
    → IsSound t
    → IsSound (failed_tables i at code message t)
failed-IsSound i code message at t s = record {
  ids = λ j.
      rw
        (count-update-eq (has_attempt_id j) (running_attempt i) (fail_with at code message)
          (λ a. refl) t.attempts)
        (s.ids j);
  materialized = λ j.
      s.materialized j
      ∙ sym (
          count-update-same (succeeded_attempt j) (running_attempt i) (fail_with at code message)
            (λ a h. ground arith) t.attempts);
}

own_count :
    (i : String) (u : Success) (t : BuildTables) (a : Attempt)
    → find (running_attempt i) t.attempts ≡ some a
    → IsSound t
    → count (materializes i) (t.materializations ++ materialization_of i u ∷ [])
      ≡ count (succeeded_attempt i) (update (running_attempt i) (complete u) t.attempts)
unfolding count
own_count i u t a e s = ground (
  arith,
  count-append (materializes i) t.materializations (materialization_of i u ∷ []),
  eq_iff i i,
  s.materialized i,
  count-update-gain (succeeded_attempt i) (running_attempt i) (has_attempt_id i) (complete u)
      (λ x h. ground arith) (λ x h. ground arith) t.attempts a (s.ids i) e,
)

other_attempt :
    (i j : String) (u : Success) (x : Attempt)
    → running_attempt i x ≡ true
    → str_eq i j ≡ false
    → succeeded_attempt j (complete u x) ≡ succeeded_attempt j x
other_attempt i j u x h other =
    ground (arith, eq_iff x.silver_build_id i, eq_iff x.silver_build_id j, eq_iff i j)

pub succeeded-IsSound :
    (i : String) (u : Success) (t : BuildTables) (a : Attempt)
    → find (running_attempt i) t.attempts ≡ some a
    → IsSound t
    → IsSound (succeeded_tables i u t)
unfolding count
succeeded-IsSound i u t a e s = record {
  ids = λ j.
      rw
        (count-update-eq (has_attempt_id j) (running_attempt i) (complete u) (λ x. refl) t.attempts)
        (s.ids j);
  materialized = λ j. elim (Bool-cases (str_eq i j)) [
    | inl same ↦
        subst
          (λ k.
            count (materializes k) (t.materializations ++ materialization_of i u ∷ [])
            ≡ count (succeeded_attempt k) (update (running_attempt i) (complete u) t.attempts))
          ((eq_iff i j).0 same) (own_count i u t a e s)
    | inr other ↦ ground (
      arith,
      count-append (materializes j) t.materializations (materialization_of i u ∷ []),
      s.materialized j,
      count-update-same (succeeded_attempt j) (running_attempt i) (complete u)
          (λ x h. other_attempt i j u x h other) t.attempts,
    )
  ];
}
