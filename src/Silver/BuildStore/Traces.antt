-- ===== src/Silver/BuildStore/Traces.antt =====
-- Sequences of calls of the build store.
use metrka_core.Prelude.{String, ◌≡◌, refl, Bool, false, some, List, [], ◌∷◌, arith}
use metrka_core.Prelude.Lists.{find, update, find-append_some}
use metrka_core.Prelude.Time.{DateTime}
use metrka_core.Prelude.Result.{ok}
use metrka_core.Silver.BuildModels.{SilverBuild, is_running}
use metrka_core.Silver.BuildStore.{
  Attempt, BuildTables, has_attempt_id, running_attempt, attempt_of, insert_started, Success,
  complete, mark_succeeded, fail_with, mark_failed,
}
use metrka_core.Silver.BuildStore.Soundness.{
  IsSound, insert_started_inv, mark_succeeded_inv, mark_failed_inv, started-IsSound,
  succeeded-IsSound, failed-IsSound,
}

-- One call of the store that returned.
pub data Step (t : BuildTables) : BuildTables → Type 0 where
  start :
      {t' : BuildTables} (b : SilverBuild) (i : String)
      → insert_started b t ≡ ok (i, t')
      → Step t t'
  succeed :
      {t' : BuildTables} (i : String) (s : Success) (b : SilverBuild)
      → mark_succeeded i s t ≡ ok (b, t')
      → Step t t'
  fail :
      {t' : BuildTables} (i code message : String) (at : DateTime) (b : SilverBuild)
      → mark_failed i at code message t ≡ ok (b, t')
      → Step t t'

-- Any number of calls, one after the other.
pub data Reach (t : BuildTables) : BuildTables → Type 0 where
  here : Reach t t
  next : {u v : BuildTables} → Reach t u → Step u v → Reach t v

Step-IsSound : {t u : BuildTables} → Step t u → IsSound t → IsSound u
Step-IsSound {t} {u} (start b i h) s =
    let (same, fresh, new) = insert_started_inv b t u i h in
    rw same (started-IsSound b t fresh new s)
Step-IsSound {t} {u} (succeed i x b h) s =
    let (a, e, same) = mark_succeeded_inv i x t u b h in rw same (succeeded-IsSound i x t a e s)
Step-IsSound {t} {u} (fail i code message at b h) s =
    rw (mark_failed_inv i code message at t u b h) (failed-IsSound i code message at t s)

-- Whatever calls return from sound tables on, the tables stay sound: an identifier has one attempt,
-- and an attempt has one materialization if it succeeded and none if it runs or failed.
pub Reach-IsSound : {t u : BuildTables} → Reach t u → IsSound t → IsSound u
Reach-IsSound here s = s
Reach-IsSound (next r st) s = Step-IsSound st (Reach-IsSound r s)

finished_spared :
    (w : Attempt → Bool) (f : Attempt → Attempt) (j : String) (rows : List Attempt) (a : Attempt)
    → ((x : Attempt) → (f x).silver_build_id ≡ x.silver_build_id)
    → find (has_attempt_id j) rows ≡ some a
    → w a ≡ false
    → find (has_attempt_id j) (update w f rows) ≡ some a
unfolding find update
finished_spared w f j [] a same e h = e
finished_spared w f j (x ∷ rows) a same e h =
    ground (arith, same x, finished_spared w f j rows a same)

Step-finished :
    {t u : BuildTables} (j : String) (a : Attempt)
    → Step t u
    → find (has_attempt_id j) t.attempts ≡ some a
    → is_running a.status ≡ false
    → find (has_attempt_id j) u.attempts ≡ some a
Step-finished {t} {u} j a (start b i h) e f =
    let (same, _, _) = insert_started_inv b t u i h in
    rw same (find-append_some (has_attempt_id j) t.attempts (attempt_of b ∷ []) a e)
Step-finished {t} {u} j a (succeed i x b h) e f =
    let (_, _, same) = mark_succeeded_inv i x t u b h in
    rw same
      (finished_spared (running_attempt i) (complete x) j t.attempts a (λ y. refl) e (ground arith))
Step-finished {t} {u} j a (fail i code message at b h) e f =
    rw (mark_failed_inv i code message at t u b h) (
      finished_spared (running_attempt i) (fail_with at code message) j t.attempts a (λ y. refl) e
        (ground arith))

-- An attempt that has succeeded or failed keeps its whole row, whatever calls return after that.
pub finished_is_final :
    {t u : BuildTables} (j : String) (a : Attempt)
    → Reach t u
    → find (has_attempt_id j) t.attempts ≡ some a
    → is_running a.status ≡ false
    → find (has_attempt_id j) u.attempts ≡ some a
finished_is_final j a here e f = e
finished_is_final j a (next r st) e f = Step-finished j a st (finished_is_final j a r e f) f
