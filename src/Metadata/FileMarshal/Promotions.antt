-- ===== src/Metadata/FileMarshal/Promotions.antt =====
-- Promotion as one or two writes.
use Prim.Native.Nat.{suc}
use metrka_core.Prelude.{
  ℕ, String, ◌≡◌, refl, ap, ◌∙◌, sym, subst, true, false, Option, none, some, str_eq, arith, inl,
  inr,
}
use metrka_core.Prelude.Tests.{Bool-cases}
use metrka_core.Prelude.Lists.{find, All-find}
use metrka_core.Prelude.Rows.{find_by_key}
use metrka_core.Prelude.Text.{is_some, str_eq→≡, ≡→str_eq}
use metrka_core.Prelude.Time.{Date, DateTime}
use metrka_core.Prelude.Result.{ok, bind_ok, ok-injective}
use metrka_core.Metadata.MarshalModels.{MarshalEntry, Meta, demote, as_promoted, promoted_entry}
use metrka_core.Metadata.MarshalStore.{has_file_id, get_promoted_for_version_period, promoted_in}
use metrka_core.Metadata.FileMarshal.{
  Marshal, demote_existing, promote, promoted_meta, require_entry,
}
use metrka_core.Metadata.FileMarshal.Writes.{put-IsPut}
use metrka_core.Metadata.FileMarshal.Governance.{is_consistent, IsSettled}
use metrka_core.Metadata.FileMarshal.Traces.{
  IsGoverned, entry_row, record_row, Kept-refl, Kept-trans, other_row,
}
use metrka_core.Metadata.FileMarshal.Calls.{Keeps, replaced-Keeps}

module _ (now_utc : ℕ → DateTime) where
  pub promoted_inv :
      (at : DateTime) (period : Date) (meta : Meta) (e e' : MarshalEntry)
      → as_promoted at period (promoted_meta meta) e ≡ ok e'
      → (e' ≡ promoted_entry at period (promoted_meta meta) e)
        × (is_some e.superseded_by_file_id ≡ false)
  unfolding as_promoted
  promoted_inv at period meta e e' h = ground (arith, h)

  pub promoted_consistent :
      (at : DateTime) (period : Date) (meta : Meta) (e : MarshalEntry)
      → is_some e.superseded_by_file_id ≡ false
      → is_consistent (promoted_entry at period (promoted_meta meta) e) ≡ true
  unfolding is_consistent
  promoted_consistent at period meta e h = ground (arith, h)

  pub demoted_consistent : (e : MarshalEntry) → is_consistent (demote e) ≡ true
  unfolding is_consistent
  demoted_consistent e = refl

  -- The demotion before a promotion, which leaves the row of the file to promote.
  pub demoted-Keeps :
      (existing : Option MarshalEntry) (i dataset : String) (period : Date) (meta : Meta)
      (s s' : Marshal)
      → IsGoverned s
      → get_promoted_for_version_period dataset period s.files ≡ ok existing
      → demote_existing now_utc existing i dataset period meta s ≡ ok s'
      → Keeps s s' × (find (has_file_id i) s'.files ≡ find (has_file_id i) s.files)
  unfolding get_promoted_for_version_period
  demoted-Keeps none i dataset period meta s s' g e h =
      subst (λ x. Keeps s x × (find (has_file_id i) x.files ≡ find (has_file_id i) s.files))
        (ok-injective s s' h) ((g, Kept-refl s), refl)
  demoted-Keeps (some existing) i dataset period meta s s' g e h =
      let found : find (promoted_in dataset period) s.files ≡ some existing =
        record_row (promoted_in dataset period) s.files existing g.orderly e in
      elim (Bool-cases (str_eq existing.file.dataset_file_id i)) [
        | inl t ↦
            subst (λ x. Keeps s x × (find (has_file_id i) x.files ≡ find (has_file_id i) s.files))
              (ok-injective s s' (rw t at h)) ((g, Kept-refl s), refl)
        | inr n ↦
            let own : find (has_file_id existing.file.dataset_file_id) s.files ≡ some existing =
              find_by_key (promoted_in dataset period) (has_file_id existing.file.dataset_file_id)
                s.files existing (g.orderly.ids existing.file.dataset_file_id) found
                (≡→str_eq _ _ refl) in
            let p =
              put-IsPut now_utc existing.file.dataset_file_id (demote existing)
                "promote_demote_previous" _ s s' (rw n at h) in
            (
              replaced-Keeps existing.file.dataset_file_id existing.file.dataset_file_id
                  (demote existing) existing s s' g own refl (demoted_consistent existing)
                  (All-find IsSettled (promoted_in dataset period) s.files existing
                    g.orderly.settled found).ordered
                  (inr refl) (λ k. refl) p,
              other_row existing.file.dataset_file_id (demote existing) existing s s' g p own refl
                  (has_file_id i)
                  (λ x k.
                    ap (λ j. str_eq j i)
                      (str_eq→≡ x.file.dataset_file_id existing.file.dataset_file_id k)
                    ∙ n)
                  n,
            )
      ]

  pub promoted-Keeps :
      (i : String) (period : Date) (meta : Meta) (s s' : Marshal)
      → IsGoverned s
      → promote now_utc i period meta s ≡ ok s'
      → Keeps s s'
  unfolding promote
  promoted-Keeps i period meta s s' g h = bind_ok (require_entry i s.files) _ _ h (λ target e0 h0.
      bind_ok (get_promoted_for_version_period target.file.dataset_id period s.files) _ _ h0
        (λ existing e1 h1.
          bind_ok (demote_existing now_utc existing i target.file.dataset_id period meta s) _ _ h1
            (λ d e2 h2.
              bind_ok (as_promoted (now_utc d.ticks) period (promoted_meta meta) target) _ _ h2
                (λ new e3 h3.
                  let (demoted, same) =
                    demoted-Keeps existing i target.file.dataset_id period meta s d g e1 e2 in
                  let (is, free) = promoted_inv (now_utc d.ticks) period meta target new e3 in
                  let f : find (has_file_id i) s.files ≡ some target =
                    entry_row i s.files target g.orderly e0 in
                  let s1 : Marshal = record d { ticks = suc d.ticks } in
                  let (governed, after) =
                    replaced-Keeps i i new target s1 s'
                      (record { orderly = demoted.0.orderly; log = demoted.0.log }) (same ∙ f)
                      (ap (λ (x : MarshalEntry). x.file) (sym is))
                      (ap is_consistent is
                        ∙ promoted_consistent (now_utc d.ticks) period meta target free)
                      (rw is
                        (All-find IsSettled (has_file_id i) s.files target g.orderly.settled
                          f).ordered)
                      (inr (ap (λ (x : MarshalEntry). x.bronze_artifacts) (sym is)))
                      (λ k. absurd (ground (arith, free, k)))
                      (put-IsPut now_utc i new "promote" _ s1 s' h3) in
                  (governed, Kept-trans s d s' demoted.1 after)))))
