-- ===== src/Silver/RebuildDecision.antt =====
-- pipeline/silver/rebuild_decision.py: the identity of a build and the reasons to build again.
-- `json.dumps` with sorted keys and `hashlib.sha256` are one parameter, a function of the payload.
pub mod Reasons
pub mod Outcome
use mathlib.Core.Bool.{decide}
use metrka_core.Prelude.{
  ℕ, String, Bool, true, false, ◌&&◌, not, Option, none, some, List, [], ◌∷◌, ◌++◌, str_eq,
}
use metrka_core.Prelude.Tests.{if◌then◌else◌}
use metrka_core.Prelude.Text.{is_some, strip}
use metrka_core.Prelude.Result.{
  Result, ok, raise, runtime_error, ◌>>=◌, ◌>>◌, raise_if, require_non_blank,
}
use metrka_core.Silver.BuildModels.{
  RebuildMode, automatic, manual, RebuildReason, initial_build, previous_build_failed,
  bronze_file_changed, contract_changed, silver_engine_changed, processing_config_changed,
  quality_config_changed, manual_force, RebuildDecision, SilverBuild, is_failed, is_empty,
  check_decision,
}

abbrev pub silver_build_signature_version : ℕ
silver_build_signature_version = 1

-- The five arguments that identify a requested build.
pub record BuildInputs : Type 0 where
  pub dataset_file_id : String
  pub contract_hash : String
  pub engine_release_id : String
  pub processing_config_hash : String
  pub quality_config_hash : String

pub record SignaturePayload : Type 0 where
  pub signature_version : ℕ
  pub dataset_file_id : String
  pub contract_hash : String
  pub engine_release_id : String
  pub processing_config_hash : String
  pub quality_config_hash : String

-- The payload that is digested: every value stripped.
abbrev pub payload_of : BuildInputs → SignaturePayload
payload_of v = record {
  signature_version = silver_build_signature_version;
  dataset_file_id = strip v.dataset_file_id;
  contract_hash = strip v.contract_hash;
  engine_release_id = strip v.engine_release_id;
  processing_config_hash = strip v.processing_config_hash;
  quality_config_hash = strip v.quality_config_hash;
}

pub RebuildReason-discrete : Discrete RebuildReason
RebuildReason-discrete = hlevel

abbrev pub mem_reason : RebuildReason → List RebuildReason → Bool
mem_reason r [] = false
mem_reason r (x ∷ xs) =
    let rest = mem_reason r xs in if decide (RebuildReason-discrete x r) then true else rest

-- `if test: add_reason(reason)`
unfoldable pub add_reason : Bool → RebuildReason → List RebuildReason → List RebuildReason
unfolding decide RebuildReason-discrete
add_reason false r reasons = reasons
add_reason true r reasons = if mem_reason r reasons then reasons else reasons ++ r ∷ []

-- The comparisons with the latest successful build.
unfoldable pub changed_reasons : BuildInputs → Option SilverBuild → List RebuildReason
unfolding add_reason
changed_reasons v none = add_reason true initial_build []
changed_reasons v (some latest) =
    add_reason (not (str_eq latest.quality_config_hash v.quality_config_hash))
      quality_config_changed
      (add_reason (not (str_eq latest.processing_config_hash v.processing_config_hash))
        processing_config_changed
        (add_reason (not (str_eq latest.engine_release_id v.engine_release_id))
          silver_engine_changed
          (add_reason (not (str_eq latest.contract_hash v.contract_hash)) contract_changed (
            add_reason (not (str_eq latest.dataset_file_id v.dataset_file_id)) bronze_file_changed
              []))))

-- The latest attempt failed with this signature, and no matching build succeeded.
abbrev pub failed_before : Option SilverBuild → String → Option SilverBuild → Bool
failed_before none signature matching = false
failed_before (some attempt) signature matching =
    is_failed attempt.status && (str_eq attempt.build_signature signature && not (is_some matching))

abbrev pub build_id : Option SilverBuild → Option String
build_id none = none
build_id (some build) = some build.silver_build_id

-- All reasons, in the order in which they are added.
unfoldable pub rebuild_reasons :
    BuildInputs
    → String
    → Option SilverBuild
    → Option SilverBuild
    → Option SilverBuild
    → Bool
    → List RebuildReason
unfolding add_reason changed_reasons
rebuild_reasons v signature matching latest attempt force = add_reason force manual_force (
    add_reason (failed_before attempt signature matching) previous_build_failed
      (changed_reasons v latest))

-- `RebuildDecision(…)`, whose constructor checks it.
unfoldable pub make_decision : RebuildDecision → Result RebuildDecision
unfolding check_decision
make_decision d = do check_decision d; ok d

-- The part of `decide_silver_rebuild` below the early return.
unfoldable pub require_rebuild : String → Bool → List RebuildReason → Result RebuildDecision
unfolding make_decision
require_rebuild signature force reasons = do
  raise_if (is_empty reasons)
      (runtime_error "Silver rebuild is required, but no rebuild reason could be determined")
  make_decision (record {
    required = true;
    mode = if force then manual else automatic;
    build_signature = signature;
    reasons = reasons;
    matching_silver_build_id = none;
  })

module _ (digest : SignaturePayload → String) where
  unfoldable pub calculate_silver_build_signature : BuildInputs → Result String
  unfolding require_non_blank strip
  calculate_silver_build_signature v = do
    require_non_blank (
        ("dataset_file_id", v.dataset_file_id)
        ∷ ("contract_hash", v.contract_hash)
        ∷ ("engine_release_id", v.engine_release_id)
        ∷ ("processing_config_hash", v.processing_config_hash)
        ∷ ("quality_config_hash", v.quality_config_hash)
        ∷ [])
    ok (digest (payload_of v))

  unfoldable pub decide_silver_rebuild :
      BuildInputs
      → Option SilverBuild
      → Option SilverBuild
      → Option SilverBuild
      → Bool
      → Result RebuildDecision
  unfolding calculate_silver_build_signature rebuild_reasons make_decision require_rebuild
  decide_silver_rebuild v matching latest attempt force =
      calculate_silver_build_signature v >>= λ signature.
      if is_some matching && not force
      then make_decision (record {
        required = false;
        mode = automatic;
        build_signature = signature;
        reasons = [];
        matching_silver_build_id = build_id matching;
      })
      else require_rebuild signature force
          (rebuild_reasons v signature matching latest attempt force)
