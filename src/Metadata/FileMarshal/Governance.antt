-- ===== src/Metadata/FileMarshal/Governance.antt =====
-- The rules that every row and every pair of rows keep.
use metrka_core.Prelude.{
  ◌≤◌, ◌+◌, String, ◌≡◌, refl, ap, ◌∙◌, sym, Bool, true, false, ◌&&◌, not, Option, none, some, [],
  ◌∷◌, str_eq, eq_iff, arith, inl, inr,
}
use metrka_core.Prelude.Tests.{Bool-cases, if◌then◌else◌}
use metrka_core.Prelude.Lists.{
  find, any, update, count, All, All-append, All-update, count-append, count-zero_of_any,
  count-update-same,
}
use metrka_core.Prelude.Rows.{
  bit, count_others, count_others-update, any-true_of_find, find-update_own,
}
use metrka_core.Prelude.Text.{is_some}
use metrka_core.Prelude.Time.{Date, date_eq→≡}
use metrka_core.Metadata.MarshalModels.{MarshaledFile, MarshalEntry, sort_artifacts}
use metrka_core.Metadata.MarshalStore.{
  Files, has_file_id, has_hash, promoted_in, in_place_of, put_row, stored, nonempty, period_is,
}

-- A promoted entry has its time and its period and is not superseded; another has no time.
unfoldable pub is_consistent : MarshalEntry → Bool
is_consistent e =
    if e.is_promoted
    then not (is_some e.superseded_by_file_id)
      && (is_some e.promoted_at && is_some e.version_period)
    else not (is_some e.promoted_at)

-- The row's artifacts are in order, and it is superseded by a file that has a name.
pub record IsSettled (e : MarshalEntry) : Type 0 where
  pub named : nonempty e.superseded_by_file_id ≡ e.superseded_by_file_id
  pub ordered : sort_artifacts e.bronze_artifacts ≡ e.bronze_artifacts

nonempty_again : (a : Option String) → nonempty (nonempty a) ≡ nonempty a
nonempty_again none = refl
nonempty_again (some a) = elim (Bool-cases (str_eq a "")) [
  | inl t ↦ rw t refl
  | inr t ↦ rw (t, t) refl
]

stored-IsSettled :
    (e : MarshalEntry)
    → sort_artifacts e.bronze_artifacts ≡ e.bronze_artifacts
    → IsSettled (stored e)
stored-IsSettled e o = record { named = nonempty_again e.superseded_by_file_id; ordered = o }

pub record IsOrderly (rows : Files) : Type 0 where
  pub ids : (i : String) → count (has_file_id i) rows ≤ 1
  pub hashes : (dataset hash : String) → count (has_hash dataset hash) rows ≤ 1
  pub promoted : (dataset : String) (period : Date) → count (promoted_in dataset period) rows ≤ 1
  pub consistent : All (λ e. is_consistent e ≡ true) rows
  pub settled : All IsSettled rows

stored_consistent : (e : MarshalEntry) → is_consistent e ≡ true → is_consistent (stored e) ≡ true
unfolding is_consistent
stored_consistent e h = ground (arith, h)

-- No row but the entry's own is promoted where the entry is.
abbrev other_promoted : MarshalEntry → String → Date → MarshalEntry → Bool
other_promoted e dataset period x =
    not (has_file_id e.file.dataset_file_id x) && promoted_in dataset period x

others_none :
    (e : MarshalEntry) (rows : Files) (dataset : String) (period : Date)
    → any (in_place_of e.version_period e) rows ≡ false
    → promoted_in dataset period e ≡ true
    → count (other_promoted e dataset period) rows ≡ 0
unfolding any count
others_none e [] dataset period free p = refl
others_none e (x ∷ rows) dataset period free p =
    ground (arith, others_none e rows dataset period, own x)
  where
    own :
        (x : MarshalEntry)
        → in_place_of e.version_period e x ≡ false
        → other_promoted e dataset period x ≡ false
    own x f = placed e.version_period f p
      where
        placed :
            (v : Option Date)
            → in_place_of v e x ≡ false
            → (str_eq e.file.dataset_id dataset && (period_is v period && e.is_promoted)) ≡ true
            → other_promoted e dataset period x ≡ false
        placed none f p = absurd (ground (arith, p))
        placed (some v) f p =
            ground (arith, f, p, eq_iff e.file.dataset_id dataset, date_eq→≡ v period)

own_id : (e : MarshalEntry) → str_eq e.file.dataset_file_id e.file.dataset_file_id ≡ true
own_id e = ground (arith, eq_iff e.file.dataset_file_id e.file.dataset_file_id)

-- A new row, with an identifier and a hash that no row has.
pub appended-IsOrderly :
    (e : MarshalEntry) (rows : Files)
    → IsOrderly rows
    → is_consistent e ≡ true
    → sort_artifacts e.bronze_artifacts ≡ e.bronze_artifacts
    → e.is_promoted ≡ false
    → any (has_file_id e.file.dataset_file_id) rows ≡ false
    → any (has_hash e.file.dataset_id e.file.source_hash) rows ≡ false
    → IsOrderly (put_row (any (has_file_id e.file.dataset_file_id) rows) (stored e) rows)
unfolding count
appended-IsOrderly e rows o c ord n fresh new_hash = rw fresh (record {
  ids = λ i. ground (
    arith,
    count-append (has_file_id i) rows (stored e ∷ []),
    o.ids i,
    eq_iff e.file.dataset_file_id i,
    count-zero_of_any (has_file_id e.file.dataset_file_id) rows fresh,
  );
  hashes = λ d h. ground (
    arith,
    count-append (has_hash d h) rows (stored e ∷ []),
    o.hashes d h,
    eq_iff e.file.dataset_id d,
    eq_iff e.file.source_hash h,
    count-zero_of_any (has_hash e.file.dataset_id e.file.source_hash) rows new_hash,
  );
  promoted =
      λ d p. ground (arith, count-append (promoted_in d p) rows (stored e ∷ []), o.promoted d p, n);
  consistent = All-append _ rows (stored e ∷ []) o.consistent (stored_consistent e c, tt);
  settled = All-append IsSettled rows (stored e ∷ []) o.settled (stored-IsSettled e ord, tt);
})

-- The rows with a property after the row of an entry was written.
count_written :
    (q : MarshalEntry → Bool) (e row : MarshalEntry) (rows : Files)
    → count (has_file_id e.file.dataset_file_id) rows ≤ 1
    → find (has_file_id e.file.dataset_file_id) rows ≡ some row
    → count q (update (has_file_id e.file.dataset_file_id) (λ x. stored e) rows)
      ≡ count (λ x. not (has_file_id e.file.dataset_file_id x) && q x) rows + bit (q (stored e))
count_written q e row rows u f =
    let w : MarshalEntry → Bool = has_file_id e.file.dataset_file_id in
    count_others q w (update w (λ x. stored e) rows) (stored e)
      (rw (count-update-same w w (λ x. stored e) (λ a h. own_id e ∙ sym h) rows) u)
      (find-update_own w (λ x. stored e) (λ x h. own_id e) rows row f)
    ∙ ap (λ n. n + bit (q (stored e)))
        (count_others-update q w (λ x. stored e) (λ x h. own_id e) rows)

-- The row of an entry whose file is the same, which takes no other row's place.
pub replaced-IsOrderly :
    (e row : MarshalEntry) (rows : Files)
    → IsOrderly rows
    → is_consistent e ≡ true
    → sort_artifacts e.bronze_artifacts ≡ e.bronze_artifacts
    → find (has_file_id e.file.dataset_file_id) rows ≡ some row
    → row.file ≡ e.file
    → any (in_place_of e.version_period e) rows ≡ false
    → IsOrderly (put_row (any (has_file_id e.file.dataset_file_id) rows) (stored e) rows)
replaced-IsOrderly e row rows o c ord f same free =
    let w : MarshalEntry → Bool = has_file_id e.file.dataset_file_id in
    rw (any-true_of_find w rows row f) (record {
      ids = λ i. omega (
        arith,
        count_written (has_file_id i) e row rows (o.ids e.file.dataset_file_id) f,
        count_others (has_file_id i) w rows row (o.ids e.file.dataset_file_id) f,
        o.ids i,
        ap (λ (x : MarshaledFile). bit (str_eq x.dataset_file_id i)) same,
      );
      hashes = λ d h. omega (
        arith,
        count_written (has_hash d h) e row rows (o.ids e.file.dataset_file_id) f,
        count_others (has_hash d h) w rows row (o.ids e.file.dataset_file_id) f,
        o.hashes d h,
        ap (λ (x : MarshaledFile). bit (str_eq x.dataset_id d && str_eq x.source_hash h)) same,
      );
      promoted = λ d p. elim (Bool-cases (promoted_in d p e)) [
        | inl t ↦ ground (
          arith,
          count_written (promoted_in d p) e row rows (o.ids e.file.dataset_file_id) f,
          others_none e rows d p free t,
        )
        | inr t ↦ ground (
          arith,
          count_written (promoted_in d p) e row rows (o.ids e.file.dataset_file_id) f,
          count_others (promoted_in d p) w rows row (o.ids e.file.dataset_file_id) f,
          o.promoted d p,
        )
      ];
      consistent =
          All-update _ w (λ x. stored e) (λ a h k. stored_consistent e c) rows o.consistent;
      settled =
          All-update IsSettled w (λ x. stored e) (λ a h k. stored-IsSettled e ord) rows o.settled;
    })
