-- ===== src/Catalog/ProjectionStore/Health.antt =====
-- Upserts of projection states keep the table readable.
use metrka_core.Prelude.{
  ◌≤◌, String, ◌≡◌, refl, sym, ap, ◌∙◌, Bool, true, false, ◌&&◌, not, Option, none, some, [], ◌∷◌,
  eq_iff, arith, inl, inr,
}
use metrka_core.Prelude.Tests.{if◌then◌else◌, Bool-cases, Option-cases}
use metrka_core.Prelude.Lists.{
  find, any, count, All, All-append, All-update, All-find, count-append, count-zero_of_any,
  count-update-same, find-append_none, find-append_some, any-false_of_count, count-zero_of_find,
}
use metrka_core.Prelude.Rows.{find-update_guard, find-update_other, any-true_of_find}
use metrka_core.Prelude.Text.{≡→str_eq}
use metrka_core.Prelude.Result.{ok, ◌>>=◌, bind_to, require_non_blank}
use metrka_core.Catalog.ProjectionModels.{
  PublicationProjectionKind, current, history, DatasetPublicationProjectionState,
  check_projection_state,
}
use metrka_core.Catalog.ProjectionStore.{
  ProjectionStates, same_kind, is_state_of, projection_checks, upsert_row, upsert_state,
  require_row, row_to_projection_state, reread_state,
}

abbrev pub IsReadable : DatasetPublicationProjectionState → Type 0
IsReadable s = check_projection_state s ≡ ok tt

-- Each projection has one state at most, and every state can be read.
pub record IsHealthy (rows : ProjectionStates) : Type 0 where
  pub keys : (d : String) (k : PublicationProjectionKind) → count (is_state_of d k) rows ≤ 1
  pub readable : All IsReadable rows

readable_accepted :
    (s : DatasetPublicationProjectionState) → IsReadable s → projection_checks s ≡ true
unfolding check_projection_state projection_checks require_non_blank
readable_accepted s h = ground (arith, h)

pub kind_eq : (a b : PublicationProjectionKind) → same_kind a b ≡ true → a ≡ b
kind_eq current current h = refl
kind_eq current history h = absurd (ground (arith, h))
kind_eq history current h = absurd (ground (arith, h))
kind_eq history history h = refl

pub kind_refl : (a : PublicationProjectionKind) → same_kind a a ≡ true
kind_refl current = refl
kind_refl history = refl

-- An upsert whose rows can be read, and that writes the state of its own key.
pub record IsLawful (guard : DatasetPublicationProjectionState → Bool)
    (change : DatasetPublicationProjectionState → DatasetPublicationProjectionState)
    (new : DatasetPublicationProjectionState) : Type 0 where
  pub same_dataset : (s : DatasetPublicationProjectionState) → (change s).dataset_id ≡ s.dataset_id
  pub same_projection :
      (s : DatasetPublicationProjectionState) → (change s).projection_kind ≡ s.projection_kind
  pub new_readable : IsReadable new
  pub change_readable :
      (s : DatasetPublicationProjectionState)
      → IsReadable s
      → guard s ≡ true
      → IsReadable (change s)

pub require_found :
    (p : DatasetPublicationProjectionState → Bool) (rows : ProjectionStates)
    (s : DatasetPublicationProjectionState)
    → All IsReadable rows
    → find p rows ≡ some s
    → require_row (find p rows) ≡ ok s
unfolding row_to_projection_state
require_found p rows s h e = rw (e, All-find IsReadable p rows s h e) refl

reread_to :
    (d : String) (k : PublicationProjectionKind) (rows : ProjectionStates)
    (s : DatasetPublicationProjectionState)
    → All IsReadable rows
    → find (is_state_of d k) rows ≡ some s
    → reread_state d k rows ≡ ok (s, rows)
unfolding reread_state
reread_to d k rows s h e = rw (require_found (is_state_of d k) rows s h e) refl

module _ (guard : DatasetPublicationProjectionState → Bool)
    (change : DatasetPublicationProjectionState → DatasetPublicationProjectionState)
    (new : DatasetPublicationProjectionState) (u : IsLawful guard change new) where
  abbrev own : DatasetPublicationProjectionState → Bool
  own = is_state_of new.dataset_id new.projection_kind

  abbrev written : DatasetPublicationProjectionState → Bool
  written s = own s && guard s

  same_key :
      (d : String) (k : PublicationProjectionKind) (s : DatasetPublicationProjectionState)
      → is_state_of d k (change s) ≡ is_state_of d k s
  same_key d k s = rw (u.same_dataset s, u.same_projection s) refl

  nothing_refused :
      (rows : ProjectionStates)
      → All IsReadable rows
      → any (λ s. own s && (guard s && not (projection_checks (change s)))) rows ≡ false
  unfolding any
  nothing_refused [] h = refl
  nothing_refused (s ∷ rows) h = elim (Bool-cases (guard s)) [
    | inl t ↦ ground (
      arith,
      t,
      readable_accepted (change s) (u.change_readable s h.0 t),
      nothing_refused rows h.1,
    )
    | inr t ↦ ground (arith, t, nothing_refused rows h.1)
  ]

  abbrev pub upserted : ProjectionStates → ProjectionStates
  upserted rows = upsert_row (any own rows) written change new rows

  pub upsert_to :
      (rows : ProjectionStates)
      → IsHealthy rows
      → upsert_state guard change new rows ≡ ok (upserted rows)
  unfolding upsert_state
  upsert_to rows h = rw (readable_accepted new u.new_readable, nothing_refused rows h.readable) refl

  pub upsert-IsHealthy : (rows : ProjectionStates) → IsHealthy rows → IsHealthy (upserted rows)
  unfolding count
  upsert-IsHealthy rows h = elim (Bool-cases (any own rows)) [
    | inl t ↦ rw t (record {
      keys = λ d k.
          rw (count-update-same (is_state_of d k) written change (λ a w. same_key d k a) rows)
            (h.keys d k);
      readable =
          All-update IsReadable written change (λ s r w. u.change_readable s r (ground (arith, w)))
            rows h.readable;
    })
    | inr t ↦ rw t (record {
      keys = λ d k. ground (
        arith,
        count-append (is_state_of d k) rows (new ∷ []),
        h.keys d k,
        eq_iff new.dataset_id d,
        kind_eq new.projection_kind k,
        count-zero_of_any own rows t,
      );
      readable = All-append IsReadable rows (new ∷ []) h.readable (u.new_readable, tt);
    })
  ]

  -- The state of the key after the upsert.
  abbrev pub upsert_outcome :
      Option DatasetPublicationProjectionState → DatasetPublicationProjectionState
  upsert_outcome none = new
  upsert_outcome (some s) = if guard s then change s else s

  pub find-upsert :
      (rows : ProjectionStates) → find own (upserted rows) ≡ some (upsert_outcome (find own rows))
  unfolding find
  find-upsert rows = elim (Option-cases (find own rows)) [
    | inl e ↦ rw (any-false_of_count own rows (count-zero_of_find own rows e)) (
        find-append_none own rows (new ∷ []) e
        ∙ rw (≡→str_eq new.dataset_id new.dataset_id refl, kind_refl new.projection_kind, e) refl)
    | inr (s, e) ↦ rw (any-true_of_find own rows s e) (
        find-update_guard own guard change (λ x t. same_key _ _ x ∙ t) rows s e
        ∙ ap (λ o. some (upsert_outcome o)) (sym e))
  ]

  -- The upsert and the read that follows it.
  pub mark_to :
      (rows : ProjectionStates)
      → IsHealthy rows
      → (upsert_state guard change new rows >>= λ rows'.
          reread_state new.dataset_id new.projection_kind rows')
        ≡ ok (upsert_outcome (find own rows), upserted rows)
  mark_to rows h =
      bind_to (upsert_state guard change new rows)
        (λ rows'. reread_state new.dataset_id new.projection_kind rows') (upserted rows) _
        (upsert_to rows h)
        (reread_to new.dataset_id new.projection_kind (upserted rows) _
          (upsert-IsHealthy rows h).readable (find-upsert rows))

  other_key :
      (d : String) (k : PublicationProjectionKind) (x : DatasetPublicationProjectionState)
      → is_state_of d k new ≡ false
      → own x ≡ true
      → is_state_of d k x ≡ false
  other_key d k x n o = ground (
    arith,
    n,
    o,
    eq_iff x.dataset_id new.dataset_id,
    kind_eq x.projection_kind new.projection_kind,
  )

  -- Another key's state stays.
  pub find-upsert_other :
      (d : String) (k : PublicationProjectionKind) (rows : ProjectionStates)
      → is_state_of d k new ≡ false
      → find (is_state_of d k) (upserted rows) ≡ find (is_state_of d k) rows
  unfolding find
  find-upsert_other d k rows n = elim (Bool-cases (any own rows)) [
    | inl t ↦ rw t (
        find-update_other (is_state_of d k) written change
          (λ x w. other_key d k x n (ground (arith, w)))
          (λ x w. same_key d k x ∙ other_key d k x n (ground (arith, w))) rows)
    | inr t ↦ rw t (elim (Option-cases (find (is_state_of d k) rows)) [
      | inl e ↦ find-append_none (is_state_of d k) rows (new ∷ []) e ∙ rw (n, e) refl
      | inr (x, e) ↦ find-append_some (is_state_of d k) rows (new ∷ []) x e ∙ sym e
    ])
  ]
