-- ===== src/Quality/VerificationStore.antt =====
-- quality/postgres_publication_verification_store.py over the rows of
-- `quality.silver_publication_verifications`.
pub mod Evidence
pub mod Recording
use metrka_core.Prelude.{
  ℕ, ◌+◌, String, Bool, true, false, ◌&&◌, not, Option, none, some, List, [], ◌∷◌, ◌++◌, str_eq,
}
use metrka_core.Prelude.Tests.{ltb, leb, ◌==◌, if◌then◌else◌}
use metrka_core.Prelude.Lists.{find, update}
use metrka_core.Prelude.Text.{str_len, is_btrim_blank}
use metrka_core.Prelude.Time.{DateTime}
use metrka_core.Prelude.Result.{Result, ok, integrity_error, ◌>>=◌, ◌>>◌, raise_if}
use metrka_core.Quality.VerificationModels.{
  SilverPublicationVerificationRequest, SilverPublicationVerification, check_verification,
}

abbrev pub Verifications : Type 0
Verifications = List SilverPublicationVerification

-- The columns of the primary key.
pub record VerificationKey : Type 0 where
  pub publication_id : String
  pub engine_hash : String
  pub logical_hash_algorithm : String
  pub schema_hash_algorithm : String

abbrev pub request_key : SilverPublicationVerificationRequest → VerificationKey
request_key r = record {
  publication_id = r.publication_id;
  engine_hash = r.engine_hash;
  logical_hash_algorithm = r.logical_hash_algorithm;
  schema_hash_algorithm = r.schema_hash_algorithm;
}

abbrev pub row_key : SilverPublicationVerification → VerificationKey
row_key v = record {
  publication_id = v.publication_id;
  engine_hash = v.engine_hash;
  logical_hash_algorithm = v.logical_hash_algorithm;
  schema_hash_algorithm = v.schema_hash_algorithm;
}

unfoldable pub key_eq : VerificationKey → VerificationKey → Bool
key_eq a b =
    str_eq a.publication_id b.publication_id
    && (str_eq a.engine_hash b.engine_hash
        && (str_eq a.logical_hash_algorithm b.logical_hash_algorithm
            && str_eq a.schema_hash_algorithm b.schema_hash_algorithm))

abbrev pub has_key : VerificationKey → SilverPublicationVerification → Bool
has_key k v = key_eq (row_key v) k

-- The CHECK constraints of the table.
unfoldable pub verification_checks : SilverPublicationVerification → Bool
verification_checks v =
    not (is_btrim_blank v.schema_hash_algorithm)
    && (not (is_btrim_blank v.logical_hash_algorithm)
        && (ltb 0 v.verification_count
            && (str_len v.engine_hash == 64
                && (str_len v.quality_config_hash == 64
                    && leb v.first_verified_at.instant v.last_verified_at.instant))))

-- The values of the INSERT.
unfoldable pub new_verification :
    SilverPublicationVerificationRequest → SilverPublicationVerification
new_verification r = record {
  publication_id = r.publication_id;
  engine_hash = r.engine_hash;
  logical_hash_algorithm = r.logical_hash_algorithm;
  schema_hash_algorithm = r.schema_hash_algorithm;
  latest_silver_build_id = r.silver_build_id;
  quality_config_hash = r.quality_config_hash;
  verification_count = 1;
  first_verified_at = r.verified_at;
  last_verified_at = r.verified_at;
}

-- `GREATEST(a, b)`
abbrev pub greatest : DateTime → DateTime → DateTime
greatest a b = if ltb a.instant b.instant then b else a

-- The SET list of the upsert: the build that is the latest already changes nothing else.
unfoldable pub reproduced :
    SilverPublicationVerificationRequest
    → SilverPublicationVerification
    → SilverPublicationVerification
reproduced r existing =
    let same_build = str_eq existing.latest_silver_build_id r.silver_build_id in
    record existing {
      latest_silver_build_id = r.silver_build_id;
      quality_config_hash =
          if same_build then existing.quality_config_hash else r.quality_config_hash;
      verification_count =
          if same_build then existing.verification_count else existing.verification_count + 1;
      last_verified_at =
          if same_build
          then existing.last_verified_at
          else greatest existing.last_verified_at r.verified_at;
    }

-- `_row_to_verification`: the constructor checks the row that was returned.
unfoldable pub row_to_verification :
    SilverPublicationVerification → Result SilverPublicationVerification
row_to_verification row = do check_verification row; ok row

-- `record`: `INSERT … ON CONFLICT (…) DO UPDATE SET … RETURNING …`. The constraints hold of the
-- proposed row and of the updated one.
unfoldable pub record_verification :
    SilverPublicationVerificationRequest
    → Verifications
    → Result (SilverPublicationVerification × Verifications)
unfolding new_verification reproduced row_to_verification verification_checks find update key_eq
record_verification r rows = do
  raise_if (not (verification_checks (new_verification r)))
      (integrity_error "silver_verifications_check")
  elim (find (has_key (request_key r)) rows) [
    | none ↦ do
      verification ← row_to_verification (new_verification r)
      ok (verification, rows ++ new_verification r ∷ [])
    | some existing ↦ do
      raise_if (not (verification_checks (reproduced r existing)))
          (integrity_error "silver_verifications_check")
      verification ← row_to_verification (reproduced r existing)
      ok (verification, update (has_key (request_key r)) (reproduced r) rows)
  ]
