-- ===== src/Silver/RebuildDecision/Outcome.antt =====
-- The decision that `decide_silver_rebuild` takes, and when it takes one.
use metrka_core.Prelude.{
  String, ◌≡◌, refl, ◌∙◌, ap, inl, inr, ◌⊎◌, Bool, true, false, ◌&&◌, ◌||◌, not, Option, none, some,
  List, [], ◌∷◌, str_eq, arith,
}
use metrka_core.Prelude.Tests.{if◌then◌else◌, Bool-cases}
use metrka_core.Prelude.Text.{is_some, is_blank, str_eq→≡}
use metrka_core.Prelude.Result.{ok}
use metrka_core.Silver.BuildModels.{
  automatic, manual, RebuildReason, initial_build, bronze_file_changed, contract_changed,
  silver_engine_changed, processing_config_changed, quality_config_changed, previous_build_failed,
  manual_force, RebuildDecision, SilverBuild, is_empty, check_decision,
}
use metrka_core.Silver.RebuildDecision.{
  BuildInputs, SignaturePayload, payload_of, mem_reason, rebuild_reasons,
  calculate_silver_build_signature, make_decision, require_rebuild, decide_silver_rebuild, build_id,
}
use metrka_core.Silver.RebuildDecision.Reasons.{applies, changes, mem-rebuild_reasons}

abbrev pub has_blank : BuildInputs → Bool
has_blank v =
    is_blank v.dataset_file_id
    || (is_blank v.contract_hash
        || (is_blank v.engine_release_id
            || (is_blank v.processing_config_hash || is_blank v.quality_config_hash)))

abbrev pub inputs_of : SilverBuild → BuildInputs
inputs_of b = record {
  dataset_file_id = b.dataset_file_id;
  contract_hash = b.contract_hash;
  engine_release_id = b.engine_release_id;
  processing_config_hash = b.processing_config_hash;
  quality_config_hash = b.quality_config_hash;
}

abbrev pub skips : Option SilverBuild → Bool → Bool
skips matching force = is_some matching && not force

nonempty_of_mem :
    (r : RebuildReason) (l : List RebuildReason) → mem_reason r l ≡ true → is_empty l ≡ false
nonempty_of_mem r [] h = ground arith
nonempty_of_mem r (x ∷ l) h = refl

inputs_ext :
    (v w : BuildInputs)
    → v.dataset_file_id ≡ w.dataset_file_id
    → v.contract_hash ≡ w.contract_hash
    → v.engine_release_id ≡ w.engine_release_id
    → v.processing_config_hash ≡ w.processing_config_hash
    → v.quality_config_hash ≡ w.quality_config_hash
    → v ≡ w
inputs_ext v w a b c d e = λ i. record {
  dataset_file_id = a i;
  contract_hash = b i;
  engine_release_id = c i;
  processing_config_hash = d i;
  quality_config_hash = e i;
}

-- Either a comparison gives a reason, or the latest build has these inputs.
change_or_same :
    (v : BuildInputs) (b : SilverBuild)
    → ((r : RebuildReason) × (changes r v (some b) ≡ true)) ⊎ (inputs_of b ≡ v)
change_or_same v b = elim (Bool-cases (str_eq b.dataset_file_id v.dataset_file_id)) [
  | inr h ↦ inl (bronze_file_changed, ground (arith, h))
  | inl f ↦ elim (Bool-cases (str_eq b.contract_hash v.contract_hash)) [
    | inr h ↦ inl (contract_changed, ground (arith, h))
    | inl c ↦ elim (Bool-cases (str_eq b.engine_release_id v.engine_release_id)) [
      | inr h ↦ inl (silver_engine_changed, ground (arith, h))
      | inl e ↦ elim (Bool-cases (str_eq b.processing_config_hash v.processing_config_hash)) [
        | inr h ↦ inl (processing_config_changed, ground (arith, h))
        | inl p ↦ elim (Bool-cases (str_eq b.quality_config_hash v.quality_config_hash)) [
          | inr h ↦ inl (quality_config_changed, ground (arith, h))
          | inl q ↦ inr (
              inputs_ext (inputs_of b) v (str_eq→≡ _ _ f) (str_eq→≡ _ _ c) (str_eq→≡ _ _ e)
                (str_eq→≡ _ _ p) (str_eq→≡ _ _ q))
        ]
      ]
    ]
  ]
]

applies_of_change :
    (r : RebuildReason) (v : BuildInputs) (signature : String)
    (matching latest attempt : Option SilverBuild) (force : Bool)
    → changes r v latest ≡ true
    → applies r v signature matching latest attempt force ≡ true
applies_of_change initial_build v signature matching latest attempt force h = h
applies_of_change bronze_file_changed v signature matching latest attempt force h = h
applies_of_change contract_changed v signature matching latest attempt force h = h
applies_of_change silver_engine_changed v signature matching latest attempt force h = h
applies_of_change processing_config_changed v signature matching latest attempt force h = h
applies_of_change quality_config_changed v signature matching latest attempt force h = h
applies_of_change previous_build_failed v signature matching latest attempt force h =
    absurd (ground (arith, h))
applies_of_change manual_force v signature matching latest attempt force h =
    absurd (ground (arith, h))

-- What a decision promises.
pub record IsRebuildDecision (v : BuildInputs) (signature : String)
    (matching latest attempt : Option SilverBuild) (force : Bool) (d : RebuildDecision)
    : Type 0 where
  pub required_iff : d.required ≡ not (skips matching force)
  pub signed : d.build_signature ≡ signature
  pub reasons_iff :
      (r : RebuildReason)
      → mem_reason r d.reasons ≡ (d.required && applies r v signature matching latest attempt force)
  pub reuses : d.matching_silver_build_id ≡ (if d.required then none else build_id matching)

module _ (digest : SignaturePayload → String)
    (digest_nonblank : (p : SignaturePayload) → is_blank (digest p) ≡ false) where
  -- The latest build, where no build matches, was signed with its own inputs and differs in its
  -- signature.
  abbrev pub IsOther : BuildInputs → Option SilverBuild → Option SilverBuild → Type 0
  IsOther v (some m) latest = Unit
  IsOther v none none = Unit
  IsOther v none (some b) =
      (b.build_signature ≡ digest (payload_of (inputs_of b)))
      × (¬ (b.build_signature ≡ digest (payload_of v)))

  calculate_lem :
      (v : BuildInputs)
      → has_blank v ≡ false
      → calculate_silver_build_signature digest v ≡ ok (digest (payload_of v))
  unfolding calculate_silver_build_signature
  calculate_lem v h = ground (arith, h)

  reason_exists :
      (v : BuildInputs) (matching latest attempt : Option SilverBuild) (force : Bool)
      → skips matching force ≡ false
      → IsOther v matching latest
      → (r : RebuildReason) × (applies r v (digest (payload_of v)) matching latest attempt force
          ≡ true)
  reason_exists v matching latest attempt true s o = (manual_force, refl)
  reason_exists v (some m) latest attempt false s o = absurd (ground (arith, s))
  reason_exists v none none attempt false s o = (initial_build, refl)
  reason_exists v none (some b) attempt false s o = elim (change_or_same v b) [
    | inl (r, h) ↦ (r, applies_of_change r v _ none (some b) attempt false h)
    | inr same ↦ absurd (o.1 (o.0 ∙ ap (λ w. digest (payload_of w)) same))
  ]

  skip_lem :
      (v : BuildInputs) (m : SilverBuild) (latest attempt : Option SilverBuild)
      → has_blank v ≡ false
      → (d : RebuildDecision) × (decide_silver_rebuild digest v (some m) latest attempt false
          ≡ ok d)
        × IsRebuildDecision v (digest (payload_of v)) (some m) latest attempt false d
  unfolding decide_silver_rebuild make_decision check_decision
  skip_lem v m latest attempt h = (
    record {
      required = false;
      mode = automatic;
      build_signature = digest (payload_of v);
      reasons = [];
      matching_silver_build_id = some m.silver_build_id;
    },
    ground (arith, calculate_lem v h, digest_nonblank (payload_of v)),
    record { required_iff = refl; signed = refl; reasons_iff = λ r. refl; reuses = refl },
  )

  rebuild_lem :
      (v : BuildInputs) (matching latest attempt : Option SilverBuild) (force : Bool)
      → has_blank v ≡ false
      → skips matching force ≡ false
      → IsOther v matching latest
      → (d : RebuildDecision) × (decide_silver_rebuild digest v matching latest attempt force
          ≡ ok d)
        × IsRebuildDecision v (digest (payload_of v)) matching latest attempt force d
  unfolding decide_silver_rebuild require_rebuild make_decision check_decision
  rebuild_lem v matching latest attempt force h s o =
      let signature : String = digest (payload_of v) in
      let found = reason_exists v matching latest attempt force s o in
      let some_reason : is_empty (rebuild_reasons v signature matching latest attempt force)
          ≡ false =
        nonempty_of_mem found.0 _
          (mem-rebuild_reasons found.0 v signature matching latest attempt force ∙ found.1) in
      (
        record {
          required = true;
          mode = if force then manual else automatic;
          build_signature = signature;
          reasons = rebuild_reasons v signature matching latest attempt force;
          matching_silver_build_id = none;
        },
        ground (arith, calculate_lem v h, s, some_reason, digest_nonblank (payload_of v)),
        record {
          required_iff = ground (arith, s);
          signed = refl;
          reasons_iff = λ r. mem-rebuild_reasons r v signature matching latest attempt force;
          reuses = refl;
        },
      )

  -- With no blank input, a decision is always made if a matching build exists or the latest successful
  -- build carries the signature of its own inputs, which is not the requested one. A rebuild is required
  -- exactly if there is no matching build or it is forced; a reason is given exactly if a rebuild is
  -- required and the reason applies; and a decision that requires none reuses the matching build.
  pub decide_silver_rebuild_lem :
      (v : BuildInputs) (matching latest attempt : Option SilverBuild) (force : Bool)
      → has_blank v ≡ false
      → IsOther v matching latest
      → (d : RebuildDecision) × (decide_silver_rebuild digest v matching latest attempt force
          ≡ ok d)
        × IsRebuildDecision v (digest (payload_of v)) matching latest attempt force d
  decide_silver_rebuild_lem v (some m) latest attempt false h o = skip_lem v m latest attempt h
  decide_silver_rebuild_lem v (some m) latest attempt true h o =
      rebuild_lem v (some m) latest attempt true h refl o
  decide_silver_rebuild_lem v none latest attempt force h o =
      rebuild_lem v none latest attempt force h refl o
