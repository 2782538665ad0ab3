-- ===== src/Metadata/FileMarshal/Calls.antt =====
-- Registration, the recording of artifacts and supersession as writes.
use metrka_core.Prelude.{
  ℕ, String, ◌≡◌, refl, ap, ◌∙◌, sym, subst, true, false, ◌&&◌, not, Option, none, some, List, [],
  ◌∷◌, ◌++◌, str_eq, arith, inl, inr, ◌⊎◌,
}
use metrka_core.Prelude.Lists.{find, any, All-find, find_holds}
use metrka_core.Prelude.Text.{is_some, str_eq→≡}
use metrka_core.Prelude.Time.{DateTime}
use metrka_core.Prelude.Result.{Error, ok, bind_ok, ok-injective}
use metrka_core.Metadata.MarshalModels.{
  BronzeArtifactDigest, MarshaledFile, MarshalEntry, Meta, with_bronze_artifacts, sort_artifacts,
  superseded_entry, superseded_by,
}
use metrka_core.Metadata.MarshalStore.{
  has_file_id, put_row, stored, get_marshaled_file, check_hash_exists, nonempty,
}
use metrka_core.Metadata.FileMarshal.{
  Marshal, register_file, registered_entry, record_bronze_artifacts, supersede, require_entry,
}
use metrka_core.Metadata.FileMarshal.Writes.{IsPut, put-IsPut}
use metrka_core.Metadata.FileMarshal.Sorting.{sort_again}
use metrka_core.Metadata.FileMarshal.Governance.{
  is_consistent, IsOrderly, IsSettled, appended-IsOrderly,
}
use metrka_core.Metadata.FileMarshal.Sorting.{digests_eq→≡}
use metrka_core.Metadata.FileMarshal.Traces.{
  IsGoverned, Kept, any-false_of_find, entry_row, unread_row, IsKept-refl, log_put,
  replaced-IsGoverned, replaced-Kept,
}
use metrka_core.Prelude.Result.{raise_if, value_error}
use metrka_core.Prelude.Lists.{find-append_some}
use metrka_core.Metadata.FileMarshal.{periods_differ}
use metrka_core.Metadata.MarshalModels.{no_artifacts, digests_eq, has_duplicate_paths}

-- What a step keeps.
abbrev pub Keeps : Marshal → Marshal → Type 0
Keeps s s' = IsGoverned s' × Kept s s'

-- The write of an entry whose file is its row's.
pub replaced-Keeps :
    (i k : String) (e row : MarshalEntry) (s s' : Marshal)
    → IsGoverned s
    → find (has_file_id k) s.files ≡ some row
    → row.file ≡ e.file
    → is_consistent e ≡ true
    → sort_artifacts e.bronze_artifacts ≡ e.bronze_artifacts
    → (row.bronze_artifacts ≡ []) ⊎ (row.bronze_artifacts ≡ e.bronze_artifacts)
    → (is_some row.superseded_by_file_id ≡ true
        → row.superseded_by_file_id ≡ e.superseded_by_file_id)
    → IsPut i e s s'
    → Keeps s s'
replaced-Keeps i k e row s s' g f same c ord before after p =
    let own : k ≡ e.file.dataset_file_id =
      sym (str_eq→≡ row.file.dataset_file_id k (find_holds (has_file_id k) s.files row f))
      ∙ ap (λ (x : MarshaledFile). x.dataset_file_id) same in
    let f' : find (has_file_id e.file.dataset_file_id) s.files ≡ some row =
      subst (λ j. find (has_file_id j) s.files ≡ some row) own f in
    let settled : IsSettled row =
      All-find IsSettled (has_file_id k) s.files row g.orderly.settled f in
    (
      replaced-IsGoverned i e row s s' g p f' same c ord,
      replaced-Kept i e row s s' g p f' same (record {
        file = same;
        artifacts = before;
        successor = λ h. sym settled.named ∙ ap nonempty (after h);
      }),
    )

none_of :
    (found : Option MarshalEntry) (e : Error) → raise_if (is_some found) e ≡ ok tt → found ≡ none
none_of none e h = refl
none_of (some a) e h = absurd (ground (arith, h))

registered_consistent :
    (file : MarshaledFile) (meta : Meta) → is_consistent (registered_entry file meta) ≡ true
unfolding is_consistent
registered_consistent file meta = refl

pub registered-Keeps :
    (now_utc : ℕ → DateTime) (file : MarshaledFile) (meta : Meta) (s s' : Marshal)
    → IsGoverned s
    → register_file now_utc file meta s ≡ ok s'
    → Keeps s s'
unfolding register_file get_marshaled_file check_hash_exists
registered-Keeps now_utc file meta s s' g h =
    bind_ok (get_marshaled_file file.dataset_file_id s.files) _ _ h (λ found e0 h0.
      bind_ok (raise_if (is_some found) _) _ _ h0 (λ u e1 h1.
        bind_ok (raise_if (check_hash_exists file.dataset_id file.source_hash s.files) _) _ _ h1
          (λ u e2 h2.
            let p =
              put-IsPut now_utc file.dataset_file_id (registered_entry file meta) "register" _ s s'
                h2 in
            let none_found : find (has_file_id file.dataset_file_id) s.files ≡ none =
              unread_row (has_file_id file.dataset_file_id) s.files
                (e0 ∙ ap ok (none_of found _ e1)) in
            let fresh : any (has_file_id file.dataset_file_id) s.files ≡ false =
              any-false_of_find (has_file_id file.dataset_file_id) s.files none_found in
            let added : s'.files ≡ s.files ++ stored (registered_entry file meta) ∷ [] =
              p.row_put ∙ ap (λ b. put_row b (stored (registered_entry file meta)) s.files) fresh in
            (
              record {
                orderly = subst IsOrderly (sym p.row_put) (
                    appended-IsOrderly (registered_entry file meta) s.files g.orderly
                      (registered_consistent file meta) refl refl fresh (ground (arith, e2)));
                log = log_put file.dataset_file_id (registered_entry file meta) s s' g p;
              },
              λ j x f. (
                x,
                ap (find (has_file_id j)) added
                    ∙ find-append_some (has_file_id j) s.files
                        (stored (registered_entry file meta) ∷ []) x f,
                IsKept-refl x,
              ),
            ))))

module _ (now_utc : ℕ → DateTime) where
  artifacts_inv :
      (artifacts : List BronzeArtifactDigest) (e e' : MarshalEntry)
      → with_bronze_artifacts artifacts e ≡ ok e'
      → (e' ≡ record e { bronze_artifacts = sort_artifacts artifacts })
        × ((e.bronze_artifacts ≡ []) ⊎ (e.bronze_artifacts ≡ sort_artifacts artifacts))
  unfolding with_bronze_artifacts
  artifacts_inv artifacts e e' h =
      bind_ok (raise_if (not (is_some e.bronze_run_id)) _) _ _ h (λ u e0 h0.
        bind_ok (raise_if (no_artifacts artifacts) _) _ _ h0 (λ u e1 h1.
          bind_ok (raise_if (has_duplicate_paths (sort_artifacts artifacts)) _) _ _ h1 (λ u e2 h2.
            bind_ok
              (raise_if
                (not (no_artifacts e.bronze_artifacts)
                  && not (digests_eq e.bronze_artifacts (sort_artifacts artifacts)))
                _)
              _ _ h2 (λ u e3 h3. (sym (ok-injective _ _ h3), unchanged e.bronze_artifacts e3)))))
    where
      unchanged :
          (old : List BronzeArtifactDigest)
          → raise_if
              (not (no_artifacts old) && not (digests_eq old (sort_artifacts artifacts)))
              (value_error "Bronze artifact manifest is immutable once recorded")
            ≡ ok tt
          → (old ≡ []) ⊎ (old ≡ sort_artifacts artifacts)
      unchanged [] h = inl refl
      unchanged (a ∷ rest) h =
          inr (digests_eq→≡ (a ∷ rest) (sort_artifacts artifacts) (ground (arith, h)))

  recorded_consistent :
      (e : MarshalEntry) (artifacts : List BronzeArtifactDigest)
      → is_consistent e ≡ true
      → is_consistent (record e { bronze_artifacts = artifacts }) ≡ true
  unfolding is_consistent
  recorded_consistent e artifacts h = h

  pub recorded-Keeps :
      (i : String) (artifacts : List BronzeArtifactDigest) (meta : Meta) (s s' : Marshal)
      → IsGoverned s
      → record_bronze_artifacts now_utc i artifacts meta s ≡ ok s'
      → Keeps s s'
  unfolding record_bronze_artifacts
  recorded-Keeps i artifacts meta s s' g h =
      bind_ok (require_entry i s.files) _ _ h (λ target e0 h0.
        bind_ok (with_bronze_artifacts artifacts target) _ _ h0 (λ updated e1 h1.
          let f : find (has_file_id i) s.files ≡ some target =
            entry_row i s.files target g.orderly e0 in
          let (is_updated, before) = artifacts_inv artifacts target updated e1 in
          replaced-Keeps i i updated target s s' g f
            (ap (λ (x : MarshalEntry). x.file) (sym is_updated))
            (ap is_consistent is_updated
              ∙ recorded_consistent target (sort_artifacts artifacts)
                  (All-find _ (has_file_id i) s.files target g.orderly.consistent f))
            (rw is_updated (sort_again artifacts)) (rw is_updated before)
            (λ k. ap (λ (x : MarshalEntry). x.superseded_by_file_id) (sym is_updated))
            (put-IsPut now_utc i updated "record_bronze_artifacts" _ s s' h1)))

  supersede_inv :
      (new_id : String) (e e' : MarshalEntry)
      → superseded_by new_id e ≡ ok e'
      → e' ≡ superseded_entry new_id e
  unfolding superseded_by
  supersede_inv new_id e e' h = ground (arith, h)

  superseded_consistent :
      (new_id : String) (e : MarshalEntry) → is_consistent (superseded_entry new_id e) ≡ true
  unfolding is_consistent
  superseded_consistent new_id e = refl

  pub superseded-Keeps :
      (old_id new_id : String) (s s' : Marshal)
      → IsGoverned s
      → supersede now_utc old_id new_id s ≡ ok s'
      → Keeps s s'
  unfolding supersede
  superseded-Keeps old_id new_id s s' g h =
      bind_ok (raise_if (str_eq old_id new_id) _) _ _ h (λ u e0 h0.
        bind_ok (require_entry old_id s.files) _ _ h0 (λ old e1 h1.
          bind_ok (require_entry new_id s.files) _ _ h1 (λ new e2 h2.
            bind_ok (raise_if (is_some old.superseded_by_file_id) _) _ _ h2 (λ u e3 h3.
              bind_ok (raise_if (is_some new.superseded_by_file_id) _) _ _ h3 (λ u e4 h4.
                bind_ok (raise_if (not (str_eq old.file.dataset_id new.file.dataset_id)) _) _ _ h4
                  (λ u e5 h5.
                    bind_ok (raise_if (periods_differ old.version_period new.version_period) _) _ _
                      h5
                      (λ u e6 h6. bind_ok (superseded_by new_id old) _ _ h6 (λ superseded_old e7 h7.
                        let is : superseded_old ≡ superseded_entry new_id old =
                          supersede_inv new_id old superseded_old e7 in
                        let f : find (has_file_id old_id) s.files ≡ some old =
                          entry_row old_id s.files old g.orderly e1 in
                        replaced-Keeps old_id old_id superseded_old old s s' g f
                          (ap (λ (x : MarshalEntry). x.file) (sym is))
                          (ap is_consistent is ∙ superseded_consistent new_id old)
                          (rw is
                            (All-find IsSettled (has_file_id old_id) s.files old g.orderly.settled
                              f).ordered)
                          (inr (ap (λ (x : MarshalEntry). x.bronze_artifacts) (sym is)))
                          (λ k. absurd (ground (arith, e3, k)))
                          (put-IsPut now_utc old_id superseded_old "supersede" _ s s' h7)))))))))
