-- ===== src/Metadata/FileMarshal/Promoting.antt =====
-- A promotion of a file that can be promoted succeeds, and the file takes the period's place.
use Prim.Native.Nat.{suc}
use mathlib.Core.Option.{some-injective}
use metrka_core.Prelude.{
  ℕ, String, ◌≡◌, refl, ap, ◌∙◌, sym, subst, Bool, true, false, ◌&&◌, not, Option, none, some, [],
  ◌∷◌, str_eq, arith, inl, inr, ◌⊎◌,
}
use metrka_core.Prelude.Tests.{Bool-cases}
use metrka_core.Prelude.Lists.{find, any, count, update, find_holds, count-zero_of_find}
use metrka_core.Prelude.Rows.{bit, count_others, count_others-update, find_by_key, any-true_of_find}
use metrka_core.Prelude.Text.{str_eq→≡, ≡→str_eq}
use metrka_core.Prelude.Time.{Date, DateTime, is_aware, is_utc, date_eq_refl}
use metrka_core.Prelude.Dates.{isoformat}
use metrka_core.Prelude.Result.{ok, bind_ok, bind_to, ok-injective, require_non_blank}
use metrka_core.Metadata.MarshalModels.{
  MarshaledFile, MarshalEntry, Meta, text, demote, as_promoted, promoted_entry, check_file,
}
use metrka_core.Metadata.MarshalStore.{
  Files, has_file_id, promoted_in, in_place_of, put_row, stored, get_marshaled_file,
  get_promoted_for_version_period, read_record, entry_from_record, bronze_artifacts_of,
  required_texts, upsert_marshaled_file, nonempty,
}
use metrka_core.Metadata.FileMarshal.{
  Marshal, put, promote, promoted_meta, demote_existing, require_entry, merge,
}
use metrka_core.Metadata.FileMarshal.Writes.{put-IsPut, entry_inv}
use metrka_core.Metadata.FileMarshal.Governance.{IsOrderly}
use metrka_core.Metadata.FileMarshal.Traces.{IsGoverned, entry_row, record_row, unread_row, own_row}
use metrka_core.Metadata.FileMarshal.Promotions.{promoted-Keeps, demoted-Keeps}

-- A row with the file and the artifacts of a row that can be read can be read.
read_same :
    (t x : MarshalEntry)
    → entry_from_record t ≡ ok t
    → t.file ≡ x.file
    → t.bronze_artifacts ≡ x.bronze_artifacts
    → entry_from_record x ≡ ok x
unfolding entry_from_record
read_same t x h f a = bind_ok (require_non_blank (required_texts t)) _ _ h (λ u e0 h0.
    bind_ok (check_file t.file) _ _ h0 (λ v e1 h1.
      bind_ok (bronze_artifacts_of t.bronze_artifacts) _ _ h1 (λ ordered e2 h2.
        let same : ordered ≡ t.bronze_artifacts =
          ap (λ (e : MarshalEntry). e.bronze_artifacts) (ok-injective _ _ h2) in
        bind_to (require_non_blank (required_texts x)) _ tt _
          (ap (λ (y : MarshaledFile). require_non_blank (required_texts (record x { file = y })))
              (sym f)
            ∙ e0)
          (bind_to (check_file x.file) _ tt _ (ap check_file (sym f) ∙ e1) (
            bind_to (bronze_artifacts_of x.bronze_artifacts) _ ordered _
              (ap bronze_artifacts_of (sym a) ∙ e2)
              (ap (λ y. ok (record x { bronze_artifacts = y })) (same ∙ a)))))))

-- The place of a promotion is free if no other file is promoted for its period.
module _ (e : MarshalEntry) (dataset : String) (period : Date)
    (in_dataset : e.file.dataset_id ≡ dataset) where
  free_place :
      (rows : Files)
      → count (λ x. not (has_file_id e.file.dataset_file_id x) && promoted_in dataset period x) rows
        ≡ 0
      → any (in_place_of (some period) e) rows ≡ false
  unfolding any count
  free_place [] h = refl
  free_place (x ∷ rows) h = ground (arith, free_place rows, in_dataset)

unpromoted_place :
    (v : Option Date) (e : MarshalEntry) (rows : Files)
    → e.is_promoted ≡ false
    → any (in_place_of v e) rows ≡ false
unfolding any
unpromoted_place v e [] h = refl
unpromoted_place none e (x ∷ rows) h = unpromoted_place none e rows h
unpromoted_place (some p) e (x ∷ rows) h = ground (arith, h, unpromoted_place (some p) e rows)

count_fewer :
    (q w : MarshalEntry → Bool) (rows : Files)
    → count q rows ≡ 0
    → count (λ x. not (w x) && q x) rows ≡ 0
unfolding count
count_fewer q w [] h = refl
count_fewer q w (x ∷ rows) h = ground (arith, count_fewer q w rows)

written_lem :
    (e : MarshalEntry) (rows : Files)
    → any (in_place_of e.version_period e) rows ≡ false
    → upsert_marshaled_file e rows
      ≡ ok (put_row (any (has_file_id e.file.dataset_file_id) rows) (stored e) rows)
unfolding upsert_marshaled_file
written_lem e rows f = rw f refl

-- A write whose place is free returns.
module _ (now_utc : ℕ → DateTime) where
  put_to :
      (i : String) (new : MarshalEntry) (reason : String) (meta : Meta) (s : Marshal)
      (old : Option MarshalEntry)
      → get_marshaled_file i s.files ≡ ok old
      → any (in_place_of new.version_period new) s.files ≡ false
      → (s' : Marshal) × (put now_utc i new reason meta s ≡ ok s')
  unfolding put
  put_to i new reason meta s old h free = (
    _,
    bind_to (get_marshaled_file i s.files) _ old _ h
        (bind_to (upsert_marshaled_file new s.files) _ _ _ (written_lem new s.files free) refl),
  )

-- The file to promote, and the file that is promoted for its period, can both be read.
pub record IsPromotable (now_utc : ℕ → DateTime) (i : String) (period : Date) (s : Marshal)
    (target : MarshalEntry) (existing : Option MarshalEntry) : Type 0 where
  pub utc : (n : ℕ) → (is_aware (now_utc n) ≡ true) × (is_utc (now_utc n) ≡ true)
  pub readable : require_entry i s.files ≡ ok target
  pub active : target.superseded_by_file_id ≡ none
  pub current : get_promoted_for_version_period target.file.dataset_id period s.files ≡ ok existing

-- Among the files that are promoted for the period, only the existing one's key counts.
none_else :
    (dataset : String) (period : Date) (rows : Files) (existing : Option MarshalEntry)
    → IsOrderly rows
    → find (promoted_in dataset period) rows ≡ existing
    → (i : String)
    → (existing ≡ none) ⊎ ((x : MarshalEntry) × (existing ≡ some x) × (x.file.dataset_file_id ≡ i))
    → count (λ x. not (has_file_id i x) && promoted_in dataset period x) rows ≡ 0
none_else dataset period rows existing o f i (inl e) =
    count_fewer (promoted_in dataset period) (has_file_id i) rows
      (count-zero_of_find (promoted_in dataset period) rows (f ∙ e))
none_else dataset period rows existing o f i (inr (x, e, own)) = omega (
  arith,
  count_others (promoted_in dataset period) (has_file_id i) rows x (o.ids i) (
      find_by_key (promoted_in dataset period) (has_file_id i) rows x (o.ids i) (f ∙ e)
        (≡→str_eq _ _ own)),
  ap bit (find_holds (promoted_in dataset period) rows x (f ∙ e)),
  o.promoted dataset period,
)

read_found :
    (rows : Files) (p : MarshalEntry → Bool) (x : MarshalEntry)
    → find p rows ≡ some x
    → read_record (find p rows) ≡ ok (some x)
    → entry_from_record x ≡ ok x
unfolding read_record
read_found rows p x f h =
    bind_ok (entry_from_record x) _ _ (sym (ap read_record f) ∙ h)
      (λ t e1 h1. e1 ∙ ap ok (some-injective t x (ok-injective (some t) (some x) h1)))

read_back :
    (i : String) (rows : Files) (x : MarshalEntry)
    → find (has_file_id i) rows ≡ some x
    → entry_from_record x ≡ ok x
    → get_marshaled_file i rows ≡ ok (some x)
unfolding get_marshaled_file read_record
read_back i rows x f e = rw (f, e) refl

module _ (now_utc : ℕ → DateTime) (i : String) (dataset : String) (period : Date) (meta : Meta)
    (s : Marshal) (g : IsGoverned s) where
  -- The demotion returns, and then no other file is promoted for the period.
  demoted_to :
      (existing : Option MarshalEntry)
      → get_promoted_for_version_period dataset period s.files ≡ ok existing
      → (d : Marshal) × (demote_existing now_utc existing i dataset period meta s ≡ ok d)
        × (count (λ x. not (has_file_id i x) && promoted_in dataset period x) d.files ≡ 0)
  unfolding get_promoted_for_version_period
  demoted_to none e = (
    s,
    refl,
    none_else dataset period s.files none g.orderly
        (unread_row (promoted_in dataset period) s.files e) i (inl refl),
  )
  demoted_to (some x) e =
      let q : MarshalEntry → Bool = promoted_in dataset period in
      let w : MarshalEntry → Bool = has_file_id x.file.dataset_file_id in
      let found : find q s.files ≡ some x = record_row q s.files x g.orderly e in
      elim (Bool-cases (str_eq x.file.dataset_file_id i)) [
        | inl t ↦ (
          s,
          rw t refl,
          none_else dataset period s.files (some x) g.orderly found i
              (inr (x, refl, str_eq→≡ x.file.dataset_file_id i t)),
        )
        | inr n ↦
            let own : find w s.files ≡ some x =
              find_by_key q w s.files x (g.orderly.ids x.file.dataset_file_id) found
                (≡→str_eq _ _ refl) in
            let (d, put_d) =
              put_to now_utc x.file.dataset_file_id (demote x) "promote_demote_previous"
                (merge meta (
                  ("dataset_id", text dataset)
                  ∷ ("version_period", text (isoformat period))
                  ∷ ("new_promoted", text i)
                  ∷ []))
                s (some x)
                (read_back x.file.dataset_file_id s.files x own (read_found s.files q x found e))
                (unpromoted_place x.version_period (demote x) s.files refl) in
            let p =
              put-IsPut now_utc x.file.dataset_file_id (demote x) "promote_demote_previous" _ s d
                put_d in
            let rows : d.files ≡ update w (λ y. stored (demote x)) s.files =
              p.row_put ∙ rw (any-true_of_find w s.files x own) refl in
            let returned : demote_existing now_utc (some x) i dataset period meta s ≡ ok d =
              rw n put_d in
            let governed =
              (demoted-Keeps now_utc (some x) i dataset period meta s d g e returned).0.0 in
            (
              d,
              returned,
              count_fewer q (has_file_id i) d.files (
                  omega (
                    arith,
                    count_others q w d.files (stored (demote x))
                        (governed.orderly.ids x.file.dataset_file_id)
                        (own_row x.file.dataset_file_id (demote x) x s d g p own refl),
                    ap (count (λ y. not (w y) && q y)) rows,
                    count_others-update q w (λ y. stored (demote x)) (λ y h. ≡→str_eq _ _ refl)
                        s.files,
                    none_else dataset period s.files (some x) g.orderly found x.file.dataset_file_id
                        (inr (x, refl, refl)),
                    ap bit (not_promoted x),
                  )),
            )
      ]
    where
      not_promoted : (x : MarshalEntry) → promoted_in dataset period (stored (demote x)) ≡ false
      not_promoted x = ground arith

as_promoted_to :
    (at : DateTime) (period : Date) (meta : Meta) (e : MarshalEntry)
    → is_aware at ≡ true
    → is_utc at ≡ true
    → e.superseded_by_file_id ≡ none
    → as_promoted at period (promoted_meta meta) e
      ≡ ok (promoted_entry at period (promoted_meta meta) e)
unfolding as_promoted
as_promoted_to at period meta e a u n = rw (n, a, u) refl

stored_active : (e : MarshalEntry) → e.superseded_by_file_id ≡ none → stored e ≡ e
stored_active e n =
    ap (λ o. record e { superseded_by_file_id = nonempty o }) n
    ∙ ap (λ o. record e { superseded_by_file_id = o }) (sym n)

-- In a governed state, the promotion of a file that can be read and is not superseded succeeds if the
-- clock gives times in UTC and the file promoted for the period, if there is one, can be read. The
-- file's entry, with that period, a reading of the clock and the given metadata, is then the promoted
-- one of its dataset and period, and the new state is governed.
pub promote_lem :
    (now_utc : ℕ → DateTime) (i : String) (period : Date) (meta : Meta) (s : Marshal)
    (target : MarshalEntry) (existing : Option MarshalEntry)
    → IsGoverned s
    → IsPromotable now_utc i period s target existing
    → (s' : Marshal) × (promote now_utc i period meta s ≡ ok s')
      × IsGoverned s'
      × (n : ℕ) × (get_promoted_for_version_period target.file.dataset_id period s'.files
          ≡ ok (some (promoted_entry (now_utc n) period (promoted_meta meta) target)))
unfolding promote get_promoted_for_version_period read_record require_entry
promote_lem now_utc i period meta s target existing g q =
    let dataset : String = target.file.dataset_id in
    let (d, demoted, alone) = demoted_to now_utc i dataset period meta s g existing q.current in
    let ((governed, keep), same) =
      demoted-Keeps now_utc existing i dataset period meta s d g q.current demoted in
    let f : find (has_file_id i) s.files ≡ some target =
      entry_row i s.files target g.orderly q.readable in
    let read : entry_from_record target ≡ ok target =
      let (row, f', e) = entry_inv i s.files target q.readable in
      subst (λ x. entry_from_record x ≡ ok target) (some-injective row target (sym f' ∙ f)) e in
    let own : target.file.dataset_file_id ≡ i =
      str_eq→≡ target.file.dataset_file_id i (find_holds (has_file_id i) s.files target f) in
    let at : DateTime = now_utc d.ticks in
    let new : MarshalEntry = promoted_entry at period (promoted_meta meta) target in
    let s1 : Marshal = record d { ticks = suc d.ticks } in
    let (s', written) =
      put_to now_utc i new "promote"
        (merge meta
          (("dataset_id", text dataset) ∷ ("version_period", text (isoformat period)) ∷ []))
        s1 (some target) (read_back i d.files target (same ∙ f) read)
        (free_place new dataset period refl d.files (
          subst
            (λ k. count (λ x. not (has_file_id k x) && promoted_in dataset period x) d.files ≡ 0)
            (sym own) alone)) in
    let returned : promote now_utc i period meta s ≡ ok s' =
      bind_to (require_entry i s.files) _ target _ q.readable (
        bind_to (get_promoted_for_version_period dataset period s.files) _ existing _ q.current (
          bind_to (demote_existing now_utc existing i dataset period meta s) _ d _ demoted (
            bind_to (as_promoted at period (promoted_meta meta) target) _ new _
              (as_promoted_to at period meta target (q.utc d.ticks).0 (q.utc d.ticks).1 q.active)
              written))) in
    let p = put-IsPut now_utc i new "promote" _ s1 s' written in
    let governed' : IsGoverned s' = (promoted-Keeps now_utc i period meta s s' g returned).0 in
    let f1 : find (has_file_id target.file.dataset_file_id) d.files ≡ some target =
      subst (λ k. find (has_file_id k) d.files ≡ some target) (sym own) (same ∙ f) in
    let now : find (promoted_in dataset period) s'.files ≡ some new =
      find_by_key (has_file_id target.file.dataset_file_id) (promoted_in dataset period) s'.files
        new (governed'.orderly.promoted dataset period)
        (own_row i new target s1 s' (record { orderly = governed.orderly; log = governed.log }) p f1
            refl
          ∙ ap some (stored_active new q.active))
        (is_promoted_in dataset period at meta target refl) in
    (s', returned, governed', d.ticks, rw (now, read_same target new read refl refl) refl)
  where
    is_promoted_in :
        (dataset : String) (period : Date) (at : DateTime) (meta : Meta) (e : MarshalEntry)
        → e.file.dataset_id ≡ dataset
        → promoted_in dataset period (promoted_entry at period (promoted_meta meta) e) ≡ true
    is_promoted_in dataset period at meta e h =
        ground (arith, ≡→str_eq e.file.dataset_id dataset h, date_eq_refl period)
