-- ===== src/Silver/EngineModels.antt =====
-- pipeline/silver/engine_models.py: the identity of the code that builds Silver, and a release of it.
use Prim.Native.String.{[], ◌∷◌, ◌++◌ as text_append}
use metrka_core.Prelude.{ℕ, zero, suc, String, not, Option, List}
use metrka_core.Prelude.Tests.{ltb}
use metrka_core.Prelude.Text.{is_blank}
use metrka_core.Prelude.Time.{DateTime, is_aware}
use metrka_core.Prelude.Result.{Result, value_error, ◌>>◌, raise_if}
use metrka_core.Silver.BuildModels.{is_empty, opt_aware}
use metrka_core.Catalog.PublicationModels.{require_sha256}

pub data SilverEngineReleaseStatus : Type 0 where
  candidate approved rejected retired : SilverEngineReleaseStatus

pub data SilverEnginePolicy : Type 0 where
  allow_candidate require_approved : SilverEnginePolicy

-- A mapping is the list of its items in the order of the keys, which the constructor sorts.
pub record SilverEngineIdentity : Type 0 where
  pub release_hash : String
  pub engine_hash : String
  pub engine_fingerprint_version : ℕ
  pub runtime_hash : String
  pub runtime_fingerprint_version : ℕ
  pub component_hashes : List (String × String)
  pub runtime_versions : List (String × String)

-- `SilverEngineIdentity.__post_init__`
unfoldable pub check_identity : SilverEngineIdentity → Result (Unit {0})
check_identity i = do
  require_sha256 "release_hash" i.release_hash
  require_sha256 "engine_hash" i.engine_hash
  require_sha256 "runtime_hash" i.runtime_hash
  raise_if (ltb i.engine_fingerprint_version 1)
      (value_error "engine_fingerprint_version must be positive")
  raise_if (ltb i.runtime_fingerprint_version 1)
      (value_error "runtime_fingerprint_version must be positive")
  raise_if (is_empty i.component_hashes) (value_error "component_hashes must not be empty")
  raise_if (is_empty i.runtime_versions) (value_error "runtime_versions must not be empty")

-- `value[:n]`
unfoldable pub str_take : ℕ → String → String
str_take zero s = []
str_take (suc n) [] = []
str_take (suc n) (c ∷ s) = c ∷ str_take n s

-- `SilverEngineIdentity.engine_release_id`
unfoldable pub release_id_of : SilverEngineIdentity → String
unfolding str_take
release_id_of i = text_append "silver_engine_" (str_take 24 i.release_hash)

pub record SilverEngineRelease : Type 0 where
  pub engine_release_id : String
  pub identity : SilverEngineIdentity
  pub core_commit_sha : String
  pub status : SilverEngineReleaseStatus
  pub detected_at : DateTime
  pub approved_at : Option DateTime
  pub approved_by : Option String
  pub rejected_at : Option DateTime
  pub rejected_by : Option String
  pub rejection_reason : Option String

-- `SilverEngineRelease.__post_init__`
unfoldable pub check_release : SilverEngineRelease → Result (Unit {0})
check_release r = do
  raise_if (is_blank r.engine_release_id) (value_error "engine_release_id must not be empty")
  raise_if (is_blank r.core_commit_sha) (value_error "core_commit_sha must not be empty")
  raise_if (not (is_aware r.detected_at)) (value_error "detected_at must be timezone-aware")
  raise_if (not (opt_aware r.approved_at)) (value_error "approved_at must be timezone-aware")
  raise_if (not (opt_aware r.rejected_at)) (value_error "rejected_at must be timezone-aware")

pub record SilverEngineRuntime : Type 0 where
  pub identity : SilverEngineIdentity
  pub release : SilverEngineRelease
  pub policy : SilverEnginePolicy
