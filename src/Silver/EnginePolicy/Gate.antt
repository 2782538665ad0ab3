-- ===== src/Silver/EnginePolicy/Gate.antt =====
-- What the gate lets run.
use metrka_core.Prelude.{
  String, ◌≡◌, refl, ◌∙◌, ap, sym, inl, inr, Bool, true, false, Option, none, some, str_eq, arith,
}
use metrka_core.Prelude.Lists.{find}
use metrka_core.Prelude.Text.{is_blank, strip, str_eq→≡}
use metrka_core.Prelude.Time.{DateTime, is_aware}
use metrka_core.Prelude.Result.{Result-cases, ok}
use metrka_core.Silver.EngineModels.{
  SilverEnginePolicy, require_approved, SilverEngineRelease, SilverEngineRuntime,
}
use metrka_core.Silver.EngineStore.{
  Releases, has_release_id, find_approved, approve_engine, approve_release,
}
use metrka_core.Silver.EngineStore.Governance.{IsGoverned, IsReadable, approve_engine_lem}
use metrka_core.Silver.EnginePolicy.{
  production, ConfiguredPolicy, not_configured, as_policy, as_text, SilverEngineGateStatus, allowed,
  approval_required, SilverEngineGateDecision, parse_policy, resolve_silver_engine_policy,
  permit_policy, gate_approved, evaluate_silver_engine_gate,
}

abbrev pub is_allowed : SilverEngineGateStatus → Bool
is_allowed allowed = true
is_allowed approval_required = false

permit_production :
    (q p : SilverEnginePolicy) → permit_policy production q ≡ ok p → p ≡ require_approved
permit_production q p h = ground (arith, h)

resolve_production :
    (c : ConfiguredPolicy) (p : SilverEnginePolicy)
    → resolve_silver_engine_policy production c ≡ ok p
    → p ≡ require_approved
unfolding resolve_silver_engine_policy
resolve_production not_configured p h = ground (arith, h)
resolve_production (as_policy q) p h = permit_production q p h
resolve_production (as_text value) p h = elim (Result-cases (parse_policy value)) [
  | inl (q, e) ↦ permit_production q p (ground (arith, e, h))
  | inr (x, e) ↦ ground (arith, e, h)
]

gate_needs_match :
    (runtime : SilverEngineRuntime) (o : Option SilverEngineRelease)
    → is_allowed (gate_approved runtime o).status ≡ true
    → (r : SilverEngineRelease) × (o ≡ some r)
      × (r.identity.release_hash ≡ runtime.identity.release_hash)
unfolding gate_approved
gate_needs_match runtime none h = ground (arith, h)
gate_needs_match runtime (some r) h =
    (r, refl, str_eq→≡ r.identity.release_hash runtime.identity.release_hash (ground (arith, h)))

gate_is :
    (runtime : SilverEngineRuntime) (rows : Releases) (d : SilverEngineGateDecision)
    → runtime.policy ≡ require_approved
    → evaluate_silver_engine_gate runtime rows ≡ ok d
    → (o : Option SilverEngineRelease) × (find_approved rows ≡ ok o) × (d ≡ gate_approved runtime o)
unfolding evaluate_silver_engine_gate
gate_is runtime rows d p h = elim (Result-cases (find_approved rows)) [
  | inl (o, e) ↦ (o, e, ground (arith, e, h, p))
  | inr (x, e) ↦ ground (arith, e, h)
]

-- In production, whatever policy is configured, if it resolves to the runtime's policy and the gate
-- allows the runtime, then a release is approved and its release hash is the runtime's.
pub production_gate :
    (c : ConfiguredPolicy) (runtime : SilverEngineRuntime) (rows : Releases)
    (d : SilverEngineGateDecision)
    → resolve_silver_engine_policy production c ≡ ok runtime.policy
    → evaluate_silver_engine_gate runtime rows ≡ ok d
    → is_allowed d.status ≡ true
    → (r : SilverEngineRelease) × (find_approved rows ≡ ok (some r))
      × (r.identity.release_hash ≡ runtime.identity.release_hash)
production_gate c runtime rows d policy h allow =
    let (o, e, same) = gate_is runtime rows d (resolve_production c runtime.policy policy) h in
    let (r, is, hash) =
      gate_needs_match runtime o
        (ap (λ (x : SilverEngineGateDecision). is_allowed x.status) (sym same) ∙ allow) in
    (r, e ∙ ap ok is, hash)

-- On a governed table, after the approval of a known release that can be read, the gate decides
-- for every runtime that requires approval, and allows it exactly if its release hash is that of the
-- release.
pub approval_opens_gate :
    (i by : String) (at : DateTime) (rows : Releases) (r : SilverEngineRelease)
    (runtime : SilverEngineRuntime)
    → IsGoverned rows
    → find (has_release_id i) rows ≡ some r
    → IsReadable r
    → is_blank by ≡ false
    → is_aware at ≡ true
    → runtime.policy ≡ require_approved
    → (rows' : Releases) × (d : SilverEngineGateDecision) × (approve_engine i by at rows
        ≡ ok (ok (approve_release at (strip by) r), rows'))
      × (evaluate_silver_engine_gate runtime rows' ≡ ok d)
      × (is_allowed d.status ≡ str_eq r.identity.release_hash runtime.identity.release_hash)
unfolding evaluate_silver_engine_gate gate_approved
approval_opens_gate i by at rows r runtime g e readable actor aware policy =
    let (rows', done, found, _) = approve_engine_lem i by at rows r g e readable actor aware in
    (
      rows',
      gate_approved runtime (some (approve_release at (strip by) r)),
      done,
      ground (arith, found, policy),
      ground arith,
    )
