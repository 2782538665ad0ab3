-- ===== src/Quality/VerificationModels.antt =====
-- quality/publication_verification_models.py: the record that a build reproduced a publication, and
-- the aggregated evidence.
use metrka_core.Prelude.{ℕ, String, not, [], ◌∷◌}
use metrka_core.Prelude.Tests.{ltb}
use metrka_core.Prelude.Time.{DateTime, is_aware}
use metrka_core.Prelude.Result.{Result, value_error, ◌>>◌, raise_if, require_non_blank}
use metrka_core.Catalog.PublicationModels.{require_sha256}

pub record SilverPublicationVerificationRequest : Type 0 where
  pub publication_id : String
  pub engine_hash : String
  pub logical_hash_algorithm : String
  pub schema_hash_algorithm : String
  pub silver_build_id : String
  pub quality_config_hash : String
  pub verified_at : DateTime

pub record SilverPublicationVerification : Type 0 where
  pub publication_id : String
  pub engine_hash : String
  pub logical_hash_algorithm : String
  pub schema_hash_algorithm : String
  pub latest_silver_build_id : String
  pub quality_config_hash : String
  pub verification_count : ℕ
  pub first_verified_at : DateTime
  pub last_verified_at : DateTime

-- `SilverPublicationVerificationRequest.__post_init__`
unfoldable pub check_verification_request : SilverPublicationVerificationRequest → Result (Unit {0})
unfolding require_non_blank
check_verification_request r = do
  require_non_blank (
      ("publication_id", r.publication_id)
      ∷ ("logical_hash_algorithm", r.logical_hash_algorithm)
      ∷ ("schema_hash_algorithm", r.schema_hash_algorithm)
      ∷ ("silver_build_id", r.silver_build_id)
      ∷ [])
  require_sha256 "engine_hash" r.engine_hash
  require_sha256 "quality_config_hash" r.quality_config_hash
  raise_if (not (is_aware r.verified_at)) (value_error "verified_at must be timezone-aware")

-- `SilverPublicationVerification.__post_init__`
unfoldable pub check_verification : SilverPublicationVerification → Result (Unit {0})
check_verification v = do
  raise_if (ltb v.verification_count 1) (value_error "verification_count must be positive")
  raise_if (not (is_aware v.first_verified_at))
      (value_error "first_verified_at must be timezone-aware")
  raise_if (not (is_aware v.last_verified_at))
      (value_error "last_verified_at must be timezone-aware")
  raise_if (ltb v.last_verified_at.instant v.first_verified_at.instant)
      (value_error "last_verified_at cannot precede first_verified_at")
