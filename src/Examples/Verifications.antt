-- ===== src/Examples/Verifications.antt =====
-- Recordings of verifications.
use metrka_core.Prelude.{◌≡◌, refl, String, ℕ, [], ◌∷◌, List}
use metrka_core.Prelude.Lists.{find}
use metrka_core.Prelude.Text.{is_blank, str_len}
use metrka_core.Prelude.Result.{ok, require_non_blank}
use metrka_core.Quality.VerificationModels.{
  SilverPublicationVerificationRequest, check_verification_request,
}
use metrka_core.Quality.VerificationStore.{Verifications, has_key}
use metrka_core.Quality.VerificationStore.Evidence.{evidence_of}
use metrka_core.Quality.VerificationStore.Recording.{record_all, record_all-evidence}
use metrka_core.Examples.{hash_a, hash_b, noon}

abbrev pub verification_of : String → ℕ → SilverPublicationVerificationRequest
verification_of build n = record {
  publication_id = "publication-1";
  engine_hash = hash_a;
  logical_hash_algorithm = "sha256";
  schema_hash_algorithm = "sha256";
  silver_build_id = build;
  quality_config_hash = hash_b;
  verified_at = noon n;
}

-- The newest first: a second recording of one build counts once.
abbrev history : List SilverPublicationVerificationRequest
history =
    verification_of "build-3" 9 ∷ verification_of "build-2" 8 ∷ verification_of "build-2" 7 ∷ []

record_all-evidence_example :
    (rows : Verifications) × (record_all history ≡ ok rows)
    × ((k : _) → find (has_key k) rows ≡ evidence_of k history)
unfolding check_verification_request require_non_blank is_blank str_len
record_all-evidence_example = record_all-evidence history (refl, (refl, (refl, tt)))
