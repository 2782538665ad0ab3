-- ===== src/Silver/EnginePolicy.antt =====
-- pipeline/silver/engine_policy.py: which policy a run has, and whether the installed engine may run.
pub mod Gate
use Prim.Native.Char.{code}
use Prim.Native.String.{[], ◌∷◌}
use metrka_core.Prelude.{ℕ, ◌+◌, String, Bool, true, false, ◌&&◌, not, Option, none, some, str_eq}
use metrka_core.Prelude.Tests.{leb, ◌==◌, if◌then◌else◌}
use metrka_core.Prelude.Text.{strip}
use metrka_core.Prelude.Result.{Result, ok, raise, value_error, ◌>>=◌, ◌>>◌, raise_if}
use metrka_core.Silver.EngineModels.{
  SilverEnginePolicy, allow_candidate, require_approved, SilverEngineRelease, SilverEngineRuntime,
}
use metrka_core.Silver.EngineStore.{Releases, find_approved}

-- `RuntimeEnvironment`: pipeline/config.py.
pub data RuntimeEnvironment : Type 0 where
  development production : RuntimeEnvironment

-- `SilverEnginePolicy | str | None`
pub data ConfiguredPolicy : Type 0 where
  not_configured : ConfiguredPolicy
  as_policy : SilverEnginePolicy → ConfiguredPolicy
  as_text : String → ConfiguredPolicy

pub data SilverEngineGateStatus : Type 0 where
  allowed approval_required : SilverEngineGateStatus

pub record SilverEngineGateDecision : Type 0 where
  pub status : SilverEngineGateStatus
  pub candidate_engine_release_id : String
  pub approved_engine_release_id : Option String
  pub message : String

-- `str.lower` of one code point. No other code point lowers to the letters of a policy's name.
abbrev pub lower_code : ℕ → ℕ
lower_code c = if leb b'A' c && leb c b'Z' then c + 32 else c

-- `value.lower() == name`
unfoldable pub lower_eq : String → String → Bool
lower_eq [] [] = true
lower_eq [] (d ∷ t) = false
lower_eq (c ∷ s) [] = false
lower_eq (c ∷ s) (d ∷ t) = lower_code (code c) == code d && lower_eq s t

-- `SilverEnginePolicy(value.strip().lower())`
unfoldable pub parse_policy : String → Result SilverEnginePolicy
unfolding lower_eq strip
parse_policy value =
    if lower_eq (strip value) "allow_candidate"
    then ok allow_candidate
    else if lower_eq (strip value) "require_approved"
    then ok require_approved
    else raise
        (value_error "METRKA_SILVER_ENGINE_POLICY must be 'allow_candidate' or 'require_approved'")

-- The test at the end of the resolution.
abbrev pub permit_policy : RuntimeEnvironment → SilverEnginePolicy → Result SilverEnginePolicy
permit_policy production allow_candidate =
    raise (value_error "Production cannot disable Silver engine approval")
permit_policy production require_approved = ok require_approved
permit_policy development policy = ok policy

unfoldable pub resolve_silver_engine_policy :
    RuntimeEnvironment → ConfiguredPolicy → Result SilverEnginePolicy
unfolding parse_policy
resolve_silver_engine_policy production not_configured = ok require_approved
resolve_silver_engine_policy development not_configured = ok allow_candidate
resolve_silver_engine_policy env (as_policy policy) = permit_policy env policy
resolve_silver_engine_policy env (as_text value) =
    parse_policy value >>= λ policy. permit_policy env policy

abbrev pub release_id : Option SilverEngineRelease → Option String
release_id none = none
release_id (some r) = some r.engine_release_id

abbrev pub gate_decision :
    SilverEngineGateStatus → SilverEngineRuntime → Option String → String → SilverEngineGateDecision
gate_decision status runtime approved_id message = record {
  status = status;
  candidate_engine_release_id = runtime.release.engine_release_id;
  approved_engine_release_id = approved_id;
  message = message;
}

-- The part of the gate that runs under the policy `require_approved`.
unfoldable pub gate_approved :
    SilverEngineRuntime → Option SilverEngineRelease → SilverEngineGateDecision
gate_approved runtime none =
    gate_decision approval_required runtime none
      "Silver processing was deferred because no Silver engine is approved."
gate_approved runtime (some r) =
    if not (str_eq r.identity.release_hash runtime.identity.release_hash)
    then gate_decision approval_required runtime (some r.engine_release_id)
        "Silver processing was deferred because the installed engine differs from the approved engine."
    else gate_decision allowed runtime (some r.engine_release_id)
        "The installed Silver engine is approved."

abbrev pub gate_under :
    SilverEnginePolicy → SilverEngineRuntime → Option SilverEngineRelease → SilverEngineGateDecision
gate_under allow_candidate runtime approved_release =
    gate_decision allowed runtime (release_id approved_release)
      "Candidate Silver engine is allowed by the development policy."
gate_under require_approved runtime approved_release = gate_approved runtime approved_release

unfoldable pub evaluate_silver_engine_gate :
    SilverEngineRuntime → Releases → Result SilverEngineGateDecision
unfolding gate_approved
evaluate_silver_engine_gate runtime rows = find_approved rows >>= λ approved_release.
    ok (gate_under runtime.policy runtime approved_release)
