-- ===== src/Silver/RebuildDecision/Reasons.antt =====
-- Which reasons a rebuild has, and when a decision is made.
use metrka_core.Prelude.{
  String, ◌≡◌, refl, Bool, true, false, ◌&&◌, ◌||◌, not, Option, none, some, List, [], ◌∷◌, ◌++◌,
  str_eq, arith,
}
use metrka_core.Prelude.Text.{is_some}
use metrka_core.Silver.BuildModels.{
  RebuildReason, initial_build, previous_build_failed, bronze_file_changed, contract_changed,
  silver_engine_changed, processing_config_changed, quality_config_changed, manual_force,
  SilverBuild,
}
use metrka_core.Silver.RebuildDecision.{
  BuildInputs, mem_reason, add_reason, changed_reasons, failed_before, rebuild_reasons,
}

abbrev differs : (SilverBuild → String) → String → Option SilverBuild → Bool
differs field value none = false
differs field value (some latest) = not (str_eq (field latest) value)

-- Which comparison with the latest successful build gives a reason.
abbrev pub changes : RebuildReason → BuildInputs → Option SilverBuild → Bool
changes initial_build v latest = not (is_some latest)
changes bronze_file_changed v latest = differs (λ b. b.dataset_file_id) v.dataset_file_id latest
changes contract_changed v latest = differs (λ b. b.contract_hash) v.contract_hash latest
changes silver_engine_changed v latest =
    differs (λ b. b.engine_release_id) v.engine_release_id latest
changes processing_config_changed v latest =
    differs (λ b. b.processing_config_hash) v.processing_config_hash latest
changes quality_config_changed v latest =
    differs (λ b. b.quality_config_hash) v.quality_config_hash latest
changes previous_build_failed v latest = false
changes manual_force v latest = false

-- When a reason applies, one reason at a time.
abbrev pub applies :
    RebuildReason
    → BuildInputs
    → String
    → Option SilverBuild
    → Option SilverBuild
    → Option SilverBuild
    → Bool
    → Bool
applies previous_build_failed v signature matching latest attempt force =
    failed_before attempt signature matching
applies manual_force v signature matching latest attempt force = force
applies r v signature matching latest attempt force = changes r v latest

mem-append :
    (r x : RebuildReason) (l : List RebuildReason)
    → mem_reason r (l ++ x ∷ []) ≡ (mem_reason r l || mem_reason r (x ∷ []))
mem-append r x [] = refl
mem-append r x (y ∷ l) = ground (arith, mem-append r x l)

mem-add :
    (b : Bool) (r x : RebuildReason) (l : List RebuildReason)
    → mem_reason r (add_reason b x l) ≡ (mem_reason r l || (b && mem_reason r (x ∷ [])))
unfolding add_reason
mem-add false r x l = ground arith
mem-add true r x l = ground (arith, mem-append r x l)

and_false : (b : Bool) → (b && false) ≡ false
and_false b = ground arith

and_true : (b : Bool) → (b && true) ≡ b
and_true b = ground arith

or_false : (b : Bool) → (b || false) ≡ b
or_false b = ground arith

ruleset reason_laws = (mem-add, and_false, and_true, or_false)

mem-changed_reasons :
    (r : RebuildReason) (v : BuildInputs) (latest : Option SilverBuild)
    → mem_reason r (changed_reasons v latest) ≡ changes r v latest
unfolding changed_reasons
mem-changed_reasons initial_build v none = simp reason_laws
mem-changed_reasons initial_build v (some b) = simp reason_laws
mem-changed_reasons bronze_file_changed v none = simp reason_laws
mem-changed_reasons bronze_file_changed v (some b) = simp reason_laws
mem-changed_reasons contract_changed v none = simp reason_laws
mem-changed_reasons contract_changed v (some b) = simp reason_laws
mem-changed_reasons silver_engine_changed v none = simp reason_laws
mem-changed_reasons silver_engine_changed v (some b) = simp reason_laws
mem-changed_reasons processing_config_changed v none = simp reason_laws
mem-changed_reasons processing_config_changed v (some b) = simp reason_laws
mem-changed_reasons quality_config_changed v none = simp reason_laws
mem-changed_reasons quality_config_changed v (some b) = simp reason_laws
mem-changed_reasons previous_build_failed v none = simp reason_laws
mem-changed_reasons previous_build_failed v (some b) = simp reason_laws
mem-changed_reasons manual_force v none = simp reason_laws
mem-changed_reasons manual_force v (some b) = simp reason_laws

-- A reason is among the reasons of a rebuild exactly if it applies.
pub mem-rebuild_reasons :
    (r : RebuildReason) (v : BuildInputs) (signature : String)
    (matching latest attempt : Option SilverBuild) (force : Bool)
    → mem_reason r (rebuild_reasons v signature matching latest attempt force)
      ≡ applies r v signature matching latest attempt force
unfolding rebuild_reasons
mem-rebuild_reasons initial_build v signature matching latest attempt force =
    simp (reason_laws, mem-changed_reasons)
mem-rebuild_reasons bronze_file_changed v signature matching latest attempt force =
    simp (reason_laws, mem-changed_reasons)
mem-rebuild_reasons contract_changed v signature matching latest attempt force =
    simp (reason_laws, mem-changed_reasons)
mem-rebuild_reasons silver_engine_changed v signature matching latest attempt force =
    simp (reason_laws, mem-changed_reasons)
mem-rebuild_reasons processing_config_changed v signature matching latest attempt force =
    simp (reason_laws, mem-changed_reasons)
mem-rebuild_reasons quality_config_changed v signature matching latest attempt force =
    simp (reason_laws, mem-changed_reasons)
mem-rebuild_reasons previous_build_failed v signature matching latest attempt force =
    simp (reason_laws, mem-changed_reasons)
mem-rebuild_reasons manual_force v signature matching latest attempt force =
    simp (reason_laws, mem-changed_reasons)
