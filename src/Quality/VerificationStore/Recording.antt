-- ===== src/Quality/VerificationStore/Recording.antt =====
-- Sequences of recordings.
use metrka_core.Prelude.{
  ◌≡◌, refl, sym, ap, ◌∙◌, true, false, none, some, subst, List, [], ◌∷◌, ◌++◌, inl, inr,
}
use metrka_core.Prelude.Tests.{Bool-cases, Option-cases, List-cases}
use metrka_core.Prelude.Lists.{find, select, update, All, find-append_none, find-append_some}
use metrka_core.Prelude.Rows.{find-update_own, find-update_other, All-select}
use metrka_core.Prelude.Result.{Result, ok, ◌>>=◌}
use metrka_core.Quality.VerificationModels.{
  SilverPublicationVerificationRequest, SilverPublicationVerification,
}
use metrka_core.Quality.VerificationStore.{
  Verifications, VerificationKey, request_key, row_key, key_eq, has_key, new_verification,
  reproduced, row_to_verification, record_verification,
}
use metrka_core.Quality.VerificationStore.Evidence.{
  build_runs, keep_first, evidence, summary, asks, evidence_of, IsValid, key_eq→≡, key_eq_refl,
  reproduced-evidence, IsRequest, build_runs-All, keep_first-All, IsLawful, evidence-IsLawful,
  summary-IsLawful,
}

-- The recordings of a history of requests, the newest first.
unfoldable pub record_all : List SilverPublicationVerificationRequest → Result Verifications
unfolding record_verification
record_all [] = ok []
record_all (r ∷ older) =
    record_all older >>= λ rows. record_verification r rows >>= λ done. ok done.1

-- A table whose rows are what the requests say.
abbrev pub IsEvidence : List SilverPublicationVerificationRequest → Verifications → Type 0
IsEvidence h rows = (k : VerificationKey) → find (has_key k) rows ≡ evidence_of k h

reproduced-key :
    (r : SilverPublicationVerificationRequest) (v : SilverPublicationVerification)
    → row_key (reproduced r v) ≡ row_key v
unfolding reproduced
reproduced-key r v = refl

other_key : (j k a : VerificationKey) → key_eq j k ≡ false → key_eq a j ≡ true → key_eq a k ≡ false
other_key j k a n h = ap (λ x. key_eq x k) (key_eq→≡ a j h) ∙ n

asked :
    (k : VerificationKey) (r : SilverPublicationVerificationRequest)
    (older : List SilverPublicationVerificationRequest)
    → key_eq (request_key r) k ≡ true
    → evidence_of k (r ∷ older) ≡ summary (keep_first r (build_runs (select (asks k) older)))
unfolding evidence_of select build_runs
asked k r older t = rw t refl

not_asked :
    (k : VerificationKey) (r : SilverPublicationVerificationRequest)
    (older : List SilverPublicationVerificationRequest)
    → key_eq (request_key r) k ≡ false
    → evidence_of k (r ∷ older) ≡ evidence_of k older
unfolding evidence_of select
not_asked k r older n = rw n refl

module _ (r : SilverPublicationVerificationRequest)
    (older : List SilverPublicationVerificationRequest) (rows : Verifications) where
  inserted-IsEvidence :
      IsEvidence older rows
      → build_runs (select (asks (request_key r)) older) ≡ []
      → IsEvidence (r ∷ older) (rows ++ new_verification r ∷ [])
  unfolding evidence_of summary find new_verification
  inserted-IsEvidence e none_yet k = elim (Bool-cases (key_eq (request_key r) k)) [
    | inl t ↦
        let same : request_key r ≡ k = key_eq→≡ (request_key r) k t in
        find-append_none (has_key k) rows _ (
          e k
          ∙ ap (λ x. summary (build_runs (select (asks x) older))) (sym same)
          ∙ ap summary none_yet)
        ∙ rw t refl
        ∙ sym (
            asked k r older t
            ∙ ap (λ x. summary (keep_first r (build_runs (select (asks x) older)))) (sym same)
            ∙ ap (λ x. summary (keep_first r x)) none_yet)
    | inr n ↦ elim (Option-cases (find (has_key k) rows)) [
      | inl f ↦
          find-append_none (has_key k) rows _ f
          ∙ rw n refl
          ∙ sym (not_asked k r older n ∙ sym (e k) ∙ f)
      | inr (v, f) ↦
          find-append_some (has_key k) rows _ v f ∙ sym (not_asked k r older n ∙ sym (e k) ∙ f)
    ]
  ]

  updated-IsEvidence :
      (q : SilverPublicationVerificationRequest) (runs : List SilverPublicationVerificationRequest)
      → IsEvidence older rows
      → build_runs (select (asks (request_key r)) older) ≡ q ∷ runs
      → request_key r ≡ request_key q
      → find (has_key (request_key r)) rows ≡ some (evidence q runs)
      → IsEvidence (r ∷ older) (update (has_key (request_key r)) (reproduced r) rows)
  updated-IsEvidence q runs e built own f k = elim (Bool-cases (key_eq (request_key r) k)) [
    | inl t ↦
        let same : request_key r ≡ k = key_eq→≡ (request_key r) k t in
        ap (λ x. find (has_key x) (update (has_key (request_key r)) (reproduced r) rows)) (sym same)
        ∙ find-update_own (has_key (request_key r)) (reproduced r)
            (λ x h. ap (λ y. key_eq y (request_key r)) (reproduced-key r x) ∙ h) rows _ f
        ∙ reproduced-evidence r q runs own
        ∙ sym (
            asked k r older t
            ∙ ap (λ x. summary (keep_first r (build_runs (select (asks x) older)))) (sym same)
            ∙ ap (λ x. summary (keep_first r x)) built)
    | inr n ↦
        find-update_other (has_key k) (has_key (request_key r)) (reproduced r)
          (λ x h. other_key (request_key r) k (row_key x) n h)
          (λ x h.
            ap (λ y. key_eq y k) (reproduced-key r x) ∙ other_key (request_key r) k (row_key x) n h)
          rows
        ∙ e k
        ∙ sym (not_asked k r older n)
  ]

-- A recording returns if the proposed row and the resulting row are lawful.
record_new :
    (r : SilverPublicationVerificationRequest) (rows : Verifications)
    → find (has_key (request_key r)) rows ≡ none
    → IsLawful (new_verification r)
    → record_verification r rows ≡ ok (new_verification r, rows ++ new_verification r ∷ [])
unfolding record_verification row_to_verification
record_new r rows f v = rw (v.accepted, f, v.readable) refl

record_again :
    (r : SilverPublicationVerificationRequest) (rows : Verifications)
    (existing : SilverPublicationVerification)
    → find (has_key (request_key r)) rows ≡ some existing
    → IsLawful (new_verification r)
    → IsLawful (reproduced r existing)
    → record_verification r rows
      ≡ ok (reproduced r existing, update (has_key (request_key r)) (reproduced r) rows)
unfolding record_verification row_to_verification
record_again r rows existing f u v = rw (u.accepted, f, v.accepted, v.readable) refl

new-IsLawful :
    (r : SilverPublicationVerificationRequest) → IsValid r → IsLawful (new_verification r)
unfolding new_verification
new-IsLawful r v = evidence-IsLawful (request_key r) r [] ((key_eq_refl (request_key r), v), tt)

-- The recording of a valid request on a table that has the evidence of the older ones.
pub record-IsEvidence :
    (r : SilverPublicationVerificationRequest) (older : List SilverPublicationVerificationRequest)
    (rows : Verifications)
    → IsValid r
    → All IsValid older
    → IsEvidence older rows
    → (done : SilverPublicationVerification × Verifications) × (record_verification r rows
        ≡ ok done)
      × IsEvidence (r ∷ older) done.1
unfolding evidence_of summary
record-IsEvidence r older rows v vs e =
    let k : VerificationKey = request_key r in
    let asked_runs : All (IsRequest k) (build_runs (select (asks k) older)) =
      build_runs-All k (select (asks k) older) (All-select IsValid (asks k) older vs) in
    elim (List-cases (build_runs (select (asks k) older))) [
      | inl b ↦ (
        (new_verification r, rows ++ new_verification r ∷ []),
        record_new r rows (e k ∙ ap summary b) (new-IsLawful r v),
        inserted-IsEvidence r older rows e b,
      )
      | inr (q, runs, b) ↦
          let own : request_key r ≡ request_key q =
            sym (key_eq→≡ (request_key q) k (subst (All (IsRequest k)) b asked_runs).0.0) in
          let f : find (has_key k) rows ≡ some (evidence q runs) = e k ∙ ap summary b in
          (
            (reproduced r (evidence q runs), update (has_key k) (reproduced r) rows),
            record_again r rows (evidence q runs) f (new-IsLawful r v) (
                summary-IsLawful k (keep_first r (q ∷ runs)) (reproduced r (evidence q runs))
                  (keep_first-All k r (q ∷ runs) (key_eq_refl k, v)
                    (subst (All (IsRequest k)) b asked_runs))
                  (reproduced-evidence r q runs own)),
            updated-IsEvidence r older rows q runs e b own f,
          )
    ]

-- From an empty table, every sequence of recordings of valid requests succeeds. Afterwards, for each
-- publication, engine and pair of algorithms, the table has no row if no request was for them, and
-- otherwise the row whose count is the number of unbroken runs of requests of one build, whose times
-- are the first and the latest among the first requests of these runs, and whose build and
-- configuration are those of the newest run's first request.
pub record_all-evidence :
    (history : List SilverPublicationVerificationRequest)
    → All IsValid history
    → (rows : Verifications) × (record_all history ≡ ok rows)
      × ((k : VerificationKey) → find (has_key k) rows ≡ evidence_of k history)
unfolding record_all evidence_of select build_runs summary find
record_all-evidence [] v = ([], refl, λ k. refl)
record_all-evidence (r ∷ older) v =
    let (rows, recorded, e) = record_all-evidence older v.1 in
    let (done, now, e') = record-IsEvidence r older rows v.0 v.1 e in
    (done.1, rw (recorded, now) refl, e')
