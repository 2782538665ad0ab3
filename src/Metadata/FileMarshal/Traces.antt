-- ===== src/Metadata/FileMarshal/Traces.antt =====
-- Sequences of calls: a call that raises is rolled back, and each call has its own readings of the
-- clock.
use metrka_core.Prelude.{
  ℕ, String, ◌≡◌, refl, ap, ◌∙◌, sym, subst, Bool, true, false, none, some, List, [], str_eq, arith,
  inl, inr, ◌⊎◌,
}
use mathlib.Core.Option.{some-injective}
use metrka_core.Prelude.Tests.{Bool-cases, Option-cases}
use metrka_core.Prelude.Lists.{find, any, update, All-find, any-false_of_count, count-zero_of_find}
use metrka_core.Prelude.Rows.{find-update_other, find-update_own, any-true_of_find}
use metrka_core.Prelude.Text.{is_some, str_eq→≡, ≡→str_eq}
use metrka_core.Prelude.Time.{Date, DateTime}
use metrka_core.Prelude.Result.{ok, bind_ok, ok-injective, require_non_blank}
use metrka_core.Metadata.MarshalModels.{
  BronzeArtifactDigest, MarshaledFile, MarshalEntry, Meta, sort_artifacts, check_file,
}
use metrka_core.Metadata.MarshalStore.{
  Files, has_file_id, put_row, stored, read_record, entry_from_record, bronze_artifacts_of,
  check_digests, required_texts,
}
use metrka_core.Metadata.FileMarshal.{
  Marshal, register_file, record_bronze_artifacts, promote, supersede, require_entry,
}
use metrka_core.Metadata.FileMarshal.Writes.{replay_from, replay_from-append, IsPut, entry_inv}
use metrka_core.Metadata.FileMarshal.Governance.{
  is_consistent, IsOrderly, IsSettled, replaced-IsOrderly,
}

-- One call that returned.
pub data Step : Marshal → Marshal → Type 0 where
  registered :
      (now_utc : ℕ → DateTime) (file : MarshaledFile) (meta : Meta) (s s' : Marshal)
      → register_file now_utc file meta s ≡ ok s'
      → Step s s'
  recorded :
      (now_utc : ℕ → DateTime) (i : String) (artifacts : List BronzeArtifactDigest) (meta : Meta)
      (s s' : Marshal)
      → record_bronze_artifacts now_utc i artifacts meta s ≡ ok s'
      → Step s s'
  promoted :
      (now_utc : ℕ → DateTime) (i : String) (period : Date) (meta : Meta) (s s' : Marshal)
      → promote now_utc i period meta s ≡ ok s'
      → Step s s'
  superseded :
      (now_utc : ℕ → DateTime) (old_id new_id : String) (s s' : Marshal)
      → supersede now_utc old_id new_id s ≡ ok s'
      → Step s s'

pub data Steps : Marshal → Marshal → Type 0 where
  here : (s : Marshal) → Steps s s
  next : (s s' s'' : Marshal) → Step s s' → Steps s' s'' → Steps s s''

-- The rows are orderly, and the log says what they are.
pub record IsGoverned (s : Marshal) : Type 0 where
  pub orderly : IsOrderly s.files
  pub log : replay_from [] s.events ≡ s.files

-- What every later state keeps of a row: its file, its artifacts once they are recorded, and the file
-- that superseded it.
pub record IsKept (x y : MarshalEntry) : Type 0 where
  pub file : x.file ≡ y.file
  pub artifacts : (x.bronze_artifacts ≡ []) ⊎ (x.bronze_artifacts ≡ y.bronze_artifacts)
  pub successor :
      is_some x.superseded_by_file_id ≡ true → x.superseded_by_file_id ≡ y.superseded_by_file_id

abbrev pub Kept : Marshal → Marshal → Type 0
Kept s s' =
    (j : String) (x : MarshalEntry)
    → find (has_file_id j) s.files ≡ some x
    → (y : MarshalEntry) × (find (has_file_id j) s'.files ≡ some y) × IsKept x y

pub any-false_of_find :
    (p : MarshalEntry → Bool) (rows : Files) → find p rows ≡ none → any p rows ≡ false
any-false_of_find p rows e = any-false_of_count p rows (count-zero_of_find p rows e)

entry_kept :
    (row t : MarshalEntry)
    → entry_from_record row ≡ ok t
    → t ≡ record row { bronze_artifacts = sort_artifacts row.bronze_artifacts }
unfolding entry_from_record bronze_artifacts_of
entry_kept row t h = bind_ok (require_non_blank (required_texts row)) _ _ h (λ u e0 h0.
    bind_ok (check_file row.file) _ _ h0 (λ u e1 h1.
      bind_ok (bronze_artifacts_of row.bronze_artifacts) _ _ h1 (λ ordered e2 h2.
        sym (ok-injective _ _ h2)
        ∙ ap (λ a. record row { bronze_artifacts = a }) (ordered_is ordered e2))))
  where
    ordered_is :
        (ordered : List BronzeArtifactDigest)
        → bronze_artifacts_of row.bronze_artifacts ≡ ok ordered
        → ordered ≡ sort_artifacts row.bronze_artifacts
    ordered_is ordered e =
        bind_ok (check_digests row.bronze_artifacts) _ _ e (λ u e0 h0. ground (arith, h0))

-- In an orderly table, what is read is the row.
read_is_row : (row t : MarshalEntry) → IsSettled row → entry_from_record row ≡ ok t → row ≡ t
read_is_row row t s h =
    sym (entry_kept row t h ∙ ap (λ a. record row { bronze_artifacts = a }) s.ordered)

pub entry_row :
    (i : String) (rows : Files) (t : MarshalEntry)
    → IsOrderly rows
    → require_entry i rows ≡ ok t
    → find (has_file_id i) rows ≡ some t
entry_row i rows t o h =
    let (row, f, e) = entry_inv i rows t h in
    f ∙ ap some (read_is_row row t (All-find IsSettled (has_file_id i) rows row o.settled f) e)

pub record_row :
    (p : MarshalEntry → Bool) (rows : Files) (t : MarshalEntry)
    → IsOrderly rows
    → read_record (find p rows) ≡ ok (some t)
    → find p rows ≡ some t
unfolding read_record
record_row p rows t o h = elim (Option-cases (find p rows)) [
  | inl e ↦ absurd (ground (arith, e, h))
  | inr (row, e) ↦
      e
      ∙ ap some
          (read_is_row row t (All-find IsSettled p rows row o.settled e) (ground (arith, e, h)))
]

pub unread_row :
    (p : MarshalEntry → Bool) (rows : Files)
    → read_record (find p rows) ≡ ok none
    → find p rows ≡ none
unfolding read_record
unread_row p rows h = elim (Option-cases (find p rows)) [
  | inl e ↦ e
  | inr (row, e) ↦
      bind_ok (entry_from_record row) _ _ (sym (ap read_record e) ∙ h)
        (λ t e1 h1. absurd (ground (arith, h1)))
]

pub IsKept-refl : (x : MarshalEntry) → IsKept x x
IsKept-refl x = record { file = refl; artifacts = inr refl; successor = λ h. refl }

IsKept-trans : (x y z : MarshalEntry) → IsKept x y → IsKept y z → IsKept x z
IsKept-trans x y z a b = record {
  file = a.file ∙ b.file;
  artifacts = elim a.artifacts [
    | inl e ↦ inl e
    | inr e ↦ elim b.artifacts [ inl e' ↦ inl (e ∙ e') | inr e' ↦ inr (e ∙ e') ]
  ];
  successor = λ h. a.successor h ∙ b.successor (ap (λ o. is_some o) (sym (a.successor h)) ∙ h);
}

pub Kept-refl : (s : Marshal) → Kept s s
Kept-refl s j x f = (x, f, IsKept-refl x)

pub Kept-trans : (s s' s'' : Marshal) → Kept s s' → Kept s' s'' → Kept s s''
Kept-trans s s' s'' a b j x f =
    let (y, g, k) = a j x f in let (z, h, l) = b j y g in (z, h, IsKept-trans x y z k l)

-- The log after a write.
pub log_put :
    (i : String) (e : MarshalEntry) (s s' : Marshal)
    → IsGoverned s
    → IsPut i e s s'
    → replay_from [] s'.events ≡ s'.files
log_put i e s s' g p =
    ap (replay_from []) p.logged
    ∙ replay_from-append s.events [] p.event
    ∙ ap
        (λ x.
          put_row (any (has_file_id x.file.dataset_file_id) (replay_from [] s.events)) (stored x)
            (replay_from [] s.events))
        p.news
    ∙ ap (λ r. put_row (any (has_file_id e.file.dataset_file_id) r) (stored e) r) g.log
    ∙ sym p.row_put

-- The write of an entry that has a row.
module _ (i : String) (e row : MarshalEntry) (s s' : Marshal) (g : IsGoverned s)
    (p : IsPut i e s s') (f : find (has_file_id e.file.dataset_file_id) s.files ≡ some row)
    (same : row.file ≡ e.file) where
  pub replaced-IsGoverned :
      is_consistent e ≡ true
      → sort_artifacts e.bronze_artifacts ≡ e.bronze_artifacts
      → IsGoverned s'
  replaced-IsGoverned c ord = record {
    orderly =
        subst IsOrderly (sym p.row_put)
          (replaced-IsOrderly e row s.files g.orderly c ord f same p.free);
    log = log_put i e s s' g p;
  }

  rows_after : s'.files ≡ update (has_file_id e.file.dataset_file_id) (λ x. stored e) s.files
  rows_after =
      p.row_put ∙ rw (any-true_of_find (has_file_id e.file.dataset_file_id) s.files row f) refl

  pub own_row : find (has_file_id e.file.dataset_file_id) s'.files ≡ some (stored e)
  own_row = rw rows_after (
      find-update_own (has_file_id e.file.dataset_file_id) (λ x. stored e)
        (λ x h. ≡→str_eq _ _ refl) s.files row f)

  pub other_row :
      (q : MarshalEntry → Bool)
      → ((x : MarshalEntry) → has_file_id e.file.dataset_file_id x ≡ true → q x ≡ false)
      → q (stored e) ≡ false
      → find q s'.files ≡ find q s.files
  other_row q n m = rw rows_after (
      find-update_other q (has_file_id e.file.dataset_file_id) (λ x. stored e) n (λ x h. m) s.files)

  other_id :
      (j : String)
      → str_eq e.file.dataset_file_id j ≡ false
      → find (has_file_id j) s'.files ≡ find (has_file_id j) s.files
  other_id j n =
      other_row (has_file_id j)
        (λ x h. ap (λ k. str_eq k j) (str_eq→≡ x.file.dataset_file_id e.file.dataset_file_id h) ∙ n)
        n

  pub replaced-Kept : IsKept row (stored e) → Kept s s'
  replaced-Kept k j x h = elim (Bool-cases (str_eq e.file.dataset_file_id j)) [
    | inl t ↦
        let same_id : e.file.dataset_file_id ≡ j = str_eq→≡ e.file.dataset_file_id j t in
        (
          stored e,
          subst (λ k. find (has_file_id k) s'.files ≡ some (stored e)) same_id own_row,
          subst (λ y. IsKept y (stored e))
              (some-injective row x
                (sym f ∙ subst (λ k. find (has_file_id k) s.files ≡ some x) (sym same_id) h))
              k,
        )
    | inr n ↦ (x, other_id j n ∙ h, IsKept-refl x)
  ]
