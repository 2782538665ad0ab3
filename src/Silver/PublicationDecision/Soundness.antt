-- ===== src/Silver/PublicationDecision/Soundness.antt =====
-- When a build counts as reproducing a publication.
use metrka_core.Prelude.{
  String, ◌≡◌, refl, ◌∙◌, sym, Bool, true, false, ◌&&◌, Option, none, some, str_eq, arith,
}
use metrka_core.Prelude.{inl, inr}
use metrka_core.Prelude.Tests.{Bool-cases, ◌==◌}
use metrka_core.Prelude.Result.{ok}
use metrka_core.Catalog.PublicationModels.{DatasetPublication}
use metrka_core.Catalog.PublicationStore.{id_of}
use metrka_core.Catalog.CandidateModels.{
  SilverPublicationChangeKind, none_changed, initial_publication, fingerprint_version_changed,
  fingerprint_algorithm_changed, logical_data_changed, schema_changed,
  logical_data_and_schema_changed, check_change,
}
use metrka_core.Silver.PublicationDecision.{
  SilverDatasetFingerprint, SilverPublicationDecision, SilverPublicationDecisionStatus,
  verified_equivalent, awaiting_approval, check_publication_decision, is_equivalent,
  is_none_changed, decision, compare_with, decide_silver_publication,
}

-- The publication has the fingerprint: the same version, algorithms and hashes.
abbrev pub reproduces : Option DatasetPublication → SilverDatasetFingerprint → Bool
reproduces none f = false
reproduces (some p) f =
    p.fingerprint_version == f.fingerprint_version
    && (str_eq p.logical_hash_algorithm f.logical_hash_algorithm
        && (str_eq p.schema_hash_algorithm f.schema_hash_algorithm
            && (str_eq p.logical_data_hash f.logical_data_hash
                && str_eq p.schema_hash f.schema_hash)))

-- What a decision promises for an active publication and a fingerprint.
pub record IsDecided (active : Option DatasetPublication) (f : SilverDatasetFingerprint)
    (d : SilverPublicationDecision) : Type 0 where
  pub equivalent : is_equivalent d.status ≡ reproduces active f
  pub unchanged : is_none_changed d.change_kind ≡ reproduces active f
  pub baseline : d.baseline_publication_id ≡ id_of active
  pub registrable :
      is_equivalent d.status ≡ false → check_change d.change_kind d.baseline_publication_id ≡ ok tt

decide_none :
    (f : SilverDatasetFingerprint)
    → (d : SilverPublicationDecision) × (decide_silver_publication none f ≡ ok d)
      × IsDecided none f d
unfolding decide_silver_publication decision check_publication_decision check_change
decide_none f = (_, refl, ground arith)

abbrev is_initial : SilverPublicationChangeKind → Bool
is_initial initial_publication = true
is_initial _ = false

abbrev status_of : Bool → SilverPublicationDecisionStatus
status_of true = verified_equivalent
status_of false = awaiting_approval

-- The decision that follows from a comparison.
abbrev decided : DatasetPublication → Bool → SilverPublicationChangeKind → SilverPublicationDecision
decided p e kind = record {
  status = status_of e;
  change_kind = kind;
  baseline_publication_id = some p.publication_id;
}

make_decided :
    (p : DatasetPublication) (e : Bool) (kind : SilverPublicationChangeKind)
    → is_none_changed kind ≡ e
    → decision (status_of e) kind (some p.publication_id) ≡ ok (decided p e kind)
unfolding decision check_publication_decision
make_decided p true kind u = ground (arith, u)
make_decided p false kind u = ground (arith, u)

registrable_of :
    (id : String) (kind : SilverPublicationChangeKind)
    → is_none_changed kind ≡ false
    → is_initial kind ≡ false
    → check_change kind (some id) ≡ ok tt
unfolding check_change
registrable_of id kind u v = ground (arith, u, v)

settle :
    (p : DatasetPublication) (f : SilverDatasetFingerprint) (e : Bool)
    (kind : SilverPublicationChangeKind)
    → compare_with p f ≡ decision (status_of e) kind (some p.publication_id)
    → is_none_changed kind ≡ e
    → is_initial kind ≡ false
    → reproduces (some p) f ≡ e
    → (d : SilverPublicationDecision) × (decide_silver_publication (some p) f ≡ ok d)
      × IsDecided (some p) f d
unfolding decide_silver_publication
settle p f e kind h u v m = (
  decided p e kind,
  h ∙ make_decided p e kind u,
  record {
    equivalent = ground (arith, m);
    unchanged = u ∙ sym m;
    baseline = refl;
    registrable = λ n. registrable_of p.publication_id kind (u ∙ ground (arith, n)) v;
  },
)

-- The comparison of the two hashes, once the version and the algorithms agree.
decide_hashes :
    (p : DatasetPublication) (f : SilverDatasetFingerprint)
    → (p.fingerprint_version == f.fingerprint_version) ≡ true
    → (str_eq p.logical_hash_algorithm f.logical_hash_algorithm
        && str_eq p.schema_hash_algorithm f.schema_hash_algorithm)
      ≡ true
    → (d : SilverPublicationDecision) × (decide_silver_publication (some p) f ≡ ok d)
      × IsDecided (some p) f d
unfolding compare_with
decide_hashes p f a b = elim (Bool-cases (str_eq p.logical_data_hash f.logical_data_hash)) [
  | inl c ↦ elim (Bool-cases (str_eq p.schema_hash f.schema_hash)) [
    | inl e ↦
        settle p f true none_changed (ground (arith, a, b, c, e)) refl refl
          (ground (arith, a, b, c, e))
    | inr e ↦
        settle p f false schema_changed (ground (arith, a, b, c, e)) refl refl
          (ground (arith, a, b, c, e))
  ]
  | inr c ↦ elim (Bool-cases (str_eq p.schema_hash f.schema_hash)) [
    | inl e ↦
        settle p f false logical_data_changed (ground (arith, a, b, c, e)) refl refl
          (ground (arith, a, b, c, e))
    | inr e ↦
        settle p f false logical_data_and_schema_changed (ground (arith, a, b, c, e)) refl refl
          (ground (arith, a, b, c, e))
  ]
]

decide_some :
    (p : DatasetPublication) (f : SilverDatasetFingerprint)
    → (d : SilverPublicationDecision) × (decide_silver_publication (some p) f ≡ ok d)
      × IsDecided (some p) f d
unfolding compare_with
decide_some p f = elim (Bool-cases (p.fingerprint_version == f.fingerprint_version)) [
  | inr a ↦
      settle p f false fingerprint_version_changed (ground (arith, a)) refl refl (ground (arith, a))
  | inl a ↦
      elim (Bool-cases (
        str_eq p.logical_hash_algorithm f.logical_hash_algorithm
        && str_eq p.schema_hash_algorithm f.schema_hash_algorithm)) [
          | inr b ↦
              settle p f false fingerprint_algorithm_changed (ground (arith, a, b)) refl refl
                (ground (arith, a, b))
          | inl b ↦ decide_hashes p f a b
        ]
]

-- The decision is always made. A build is equivalent, with no change to describe, exactly if there is
-- an active publication with the same fingerprint version, algorithms and hashes; the baseline is the
-- active publication; and a decision that awaits approval describes a change that a candidate request
-- accepts.
pub decide_silver_publication_lem :
    (active : Option DatasetPublication) (f : SilverDatasetFingerprint)
    → (d : SilverPublicationDecision) × (decide_silver_publication active f ≡ ok d)
      × IsDecided active f d
decide_silver_publication_lem none f = decide_none f
decide_silver_publication_lem (some p) f = decide_some p f
