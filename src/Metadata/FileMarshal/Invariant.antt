-- ===== src/Metadata/FileMarshal/Invariant.antt =====
-- Every call keeps the rules of the tables, and what is recorded of a file.
use metrka_core.Prelude.{String, ◌≡◌, some}
use metrka_core.Prelude.Lists.{find}
use metrka_core.Metadata.MarshalModels.{MarshalEntry}
use metrka_core.Metadata.MarshalStore.{has_file_id}
use metrka_core.Metadata.FileMarshal.{Marshal}
use metrka_core.Metadata.FileMarshal.Traces.{
  Step, registered, recorded, promoted, superseded, Steps, here, next, IsGoverned, IsKept, Kept,
  Kept-refl, Kept-trans,
}
use metrka_core.Metadata.FileMarshal.Calls.{
  Keeps, registered-Keeps, recorded-Keeps, superseded-Keeps,
}
use metrka_core.Metadata.FileMarshal.Promotions.{promoted-Keeps}

step-Keeps : (s s' : Marshal) → IsGoverned s → Step s s' → Keeps s s'
step-Keeps s s' g (registered now_utc file meta _ _ h) = registered-Keeps now_utc file meta s s' g h
step-Keeps s s' g (recorded now_utc i artifacts meta _ _ h) =
    recorded-Keeps now_utc i artifacts meta s s' g h
step-Keeps s s' g (promoted now_utc i period meta _ _ h) =
    promoted-Keeps now_utc i period meta s s' g h
step-Keeps s s' g (superseded now_utc old_id new_id _ _ h) =
    superseded-Keeps now_utc old_id new_id s s' g h

-- From a governed state, every sequence of calls ends in a governed state: identifiers are unique, and
-- so are source hashes within a dataset; each period of a dataset has at most one promoted file; a
-- promoted file has its time and its period and is not superseded, and no other file has a promotion
-- time; and a replay of the audit log gives the table of files.
pub Steps-IsGoverned : (s s' : Marshal) → IsGoverned s → Steps s s' → IsGoverned s'
Steps-IsGoverned s s' g (here _) = g
Steps-IsGoverned s s'' g (next _ s' _ step rest) =
    Steps-IsGoverned s' s'' (step-Keeps s s' g step).0 rest

Steps-Kept : (s s' : Marshal) → IsGoverned s → Steps s s' → Kept s s'
Steps-Kept s s' g (here _) = Kept-refl s
Steps-Kept s s'' g (next _ s' _ step rest) =
    let (governed, keep) = step-Keeps s s' g step in
    Kept-trans s s' s'' keep (Steps-Kept s' s'' governed rest)

-- From a governed state, whatever the calls that follow, a file that is registered stays registered,
-- with the same source metadata; its artifacts stay as they are once they are recorded; and if it is
-- superseded, it stays superseded by the same file.
pub Steps-IsKept :
    (s s' : Marshal) (i : String) (x : MarshalEntry)
    → IsGoverned s
    → Steps s s'
    → find (has_file_id i) s.files ≡ some x
    → (y : MarshalEntry) × (find (has_file_id i) s'.files ≡ some y) × IsKept x y
Steps-IsKept s s' i x g steps f = Steps-Kept s s' g steps i x f
