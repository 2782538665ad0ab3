-- ===== src/Examples/Engines.antt =====
-- An engine that is registered, approved and let through the gate.
use metrka_core.Prelude.{String, ◌≡◌, refl, some, List, [], ◌∷◌, str_eq, arith}
use metrka_core.Prelude.Lists.{find, count, any}
use metrka_core.Prelude.Text.{is_blank, strip, str_len}
use metrka_core.Prelude.Result.{ok}
use metrka_core.Silver.EngineModels.{
  SilverEngineIdentity, SilverEngineRelease, SilverEngineRuntime, require_approved, check_identity,
  check_release, release_id_of, str_take,
}
use metrka_core.Silver.EngineStore.{
  Releases, has_release_id, new_release, add_release, register_candidate, release_checks,
  row_to_release, approve_engine, approve_release, find_approved, opt_release,
}
use metrka_core.Silver.EngineStore.Governance.{
  IsGoverned, IsReadable, EngineCommand, register_engine, approve_engine_by, reject_engine_by,
  govern, govern_all, approve_engine_lem, govern_all-IsGoverned,
}
use metrka_core.Silver.EnginePolicy.{
  production, as_text, SilverEngineGateDecision, allowed, evaluate_silver_engine_gate,
  gate_approved, resolve_silver_engine_policy, parse_policy, lower_eq, gate_decision,
}
use metrka_core.Silver.EnginePolicy.Gate.{is_allowed, production_gate, approval_opens_gate}
use metrka_core.Examples.{hash_a, hash_b, noon}

abbrev engine : String → SilverEngineIdentity
engine hash = record {
  release_hash = hash;
  engine_hash = hash_a;
  engine_fingerprint_version = 1;
  runtime_hash = hash_b;
  runtime_fingerprint_version = 1;
  component_hashes = ("builder", hash_a) ∷ [];
  runtime_versions = ("python", "3.13") ∷ [];
}

abbrev release : SilverEngineRelease
release = new_release (engine hash_a) "abc123" (noon 1)

abbrev other_release : SilverEngineRelease
other_release = approve_release (noon 2) "alice" (new_release (engine hash_b) "abc122" (noon 0))

abbrev releases : Releases
releases = release ∷ other_release ∷ []

no_release-IsGoverned : IsGoverned []
unfolding count
no_release-IsGoverned = record {
  single = ground arith;
  ids = λ i. ground arith;
  hashes = λ h. ground arith;
}

abbrev calls : List EngineCommand
calls =
    register_engine (engine hash_b) "abc122" (noon 0)
    ∷ approve_engine_by "silver_engine_bbbbbbbbbbbbbbbbbbbbbbbb" "alice" (noon 2)
    ∷ register_engine (engine hash_a) "abc123" (noon 1)
    ∷ reject_engine_by "silver_engine_bbbbbbbbbbbbbbbbbbbbbbbb" "bob" "old" (noon 3)
    ∷ []

govern_all-IsGoverned_example : IsGoverned (govern_all calls [])
govern_all-IsGoverned_example = govern_all-IsGoverned calls [] no_release-IsGoverned

abbrev first_calls : List EngineCommand
first_calls = register_engine (engine hash_a) "abc123" (noon 1) ∷ []

abbrev one_release : Releases
one_release = govern_all first_calls []

one_release-IsGoverned : IsGoverned one_release
one_release-IsGoverned = govern_all-IsGoverned first_calls [] no_release-IsGoverned

release_found :
    find (has_release_id "silver_engine_aaaaaaaaaaaaaaaaaaaaaaaa") one_release ≡ some release
unfolding govern_all govern register_candidate release_checks add_release release_id_of str_take
    find any str_len
release_found = refl

release-IsReadable : IsReadable release
unfolding row_to_release check_identity check_release release_id_of str_take str_len is_blank
release-IsReadable = refl

approve_engine_lem_example :
    (rows' : Releases) × (approve_engine "silver_engine_aaaaaaaaaaaaaaaaaaaaaaaa" " alice"
        (noon 4)
        one_release
      ≡ ok (ok (approve_release (noon 4) (strip " alice") release), rows'))
    × (find_approved rows' ≡ ok (some (approve_release (noon 4) (strip " alice") release)))
    × IsGoverned rows'
unfolding is_blank
approve_engine_lem_example =
    approve_engine_lem "silver_engine_aaaaaaaaaaaaaaaaaaaaaaaa" " alice" (noon 4) one_release
      release one_release-IsGoverned release_found release-IsReadable refl refl

abbrev runtime : SilverEngineRuntime
runtime = record { identity = engine hash_b; release = other_release; policy = require_approved }

approval_opens_gate_example :
    (rows' : Releases) × (d : SilverEngineGateDecision) × (approve_engine
        "silver_engine_aaaaaaaaaaaaaaaaaaaaaaaa" "alice"
        (noon 4)
        one_release
      ≡ ok (ok (approve_release (noon 4) (strip "alice") release), rows'))
    × (evaluate_silver_engine_gate runtime rows' ≡ ok d)
    × (is_allowed d.status ≡ str_eq release.identity.release_hash runtime.identity.release_hash)
unfolding is_blank
approval_opens_gate_example =
    approval_opens_gate "silver_engine_aaaaaaaaaaaaaaaaaaaaaaaa" "alice" (noon 4) one_release
      release runtime one_release-IsGoverned release_found release-IsReadable refl refl refl

policy_resolves :
    resolve_silver_engine_policy production (as_text " Require_Approved ") ≡ ok require_approved
unfolding resolve_silver_engine_policy parse_policy lower_eq strip
policy_resolves = refl

abbrev open_gate : SilverEngineGateDecision
open_gate =
    gate_decision allowed runtime (some other_release.engine_release_id)
      "The installed Silver engine is approved."

gate_opens : evaluate_silver_engine_gate runtime releases ≡ ok open_gate
unfolding evaluate_silver_engine_gate gate_approved find_approved opt_release row_to_release
    check_identity check_release release_id_of str_take str_len is_blank find
gate_opens = refl

production_gate_example :
    (r : SilverEngineRelease) × (find_approved releases ≡ ok (some r))
    × (r.identity.release_hash ≡ runtime.identity.release_hash)
production_gate_example =
    production_gate (as_text " Require_Approved ") runtime releases open_gate policy_resolves
      gate_opens refl
