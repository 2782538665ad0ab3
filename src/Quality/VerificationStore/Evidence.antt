-- ===== src/Quality/VerificationStore/Evidence.antt =====
-- What the table says of a publication, as a function of the requests recorded.
use metrka_core.Prelude.{
  ◌≡◌, sym, Bool, true, Option, none, some, subst, List, [], ◌∷◌, str_eq, eq_iff, arith, inl, inr,
}
use mathlib.Core.Option.{some-injective}
use metrka_core.Prelude.Tests.{leb, if◌then◌else◌, Bool-cases}
use metrka_core.Prelude.Lists.{length, select, All}
use metrka_core.Prelude.Text.{is_btrim_blank-is_blank}
use metrka_core.Prelude.Time.{DateTime, is_aware}
use metrka_core.Prelude.Result.{ok, require_non_blank}
use metrka_core.Quality.VerificationModels.{
  SilverPublicationVerificationRequest, SilverPublicationVerification, check_verification,
  check_verification_request,
}
use metrka_core.Quality.VerificationStore.{
  VerificationKey, request_key, key_eq, verification_checks, greatest, reproduced,
}

-- The first request of every unbroken run of requests of one build, the newest first.
abbrev pub keep_first :
    SilverPublicationVerificationRequest
    → List SilverPublicationVerificationRequest
    → List SilverPublicationVerificationRequest
keep_first r [] = r ∷ []
keep_first r (q ∷ runs) =
    if str_eq q.silver_build_id r.silver_build_id then q ∷ runs else r ∷ q ∷ runs

unfoldable pub build_runs :
    List SilverPublicationVerificationRequest → List SilverPublicationVerificationRequest
build_runs [] = []
build_runs (r ∷ older) = keep_first r (build_runs older)

abbrev pub first_time :
    SilverPublicationVerificationRequest → List SilverPublicationVerificationRequest → DateTime
first_time r [] = r.verified_at
first_time r (q ∷ runs) = first_time q runs

abbrev pub last_time :
    SilverPublicationVerificationRequest → List SilverPublicationVerificationRequest → DateTime
last_time r [] = r.verified_at
last_time r (q ∷ runs) = greatest (last_time q runs) r.verified_at

-- The evidence that runs of builds give: their number, the first and the latest of their times, and
-- the build and the configuration of the newest.
abbrev pub evidence :
    SilverPublicationVerificationRequest
    → List SilverPublicationVerificationRequest
    → SilverPublicationVerification
evidence r runs = record {
  publication_id = r.publication_id;
  engine_hash = r.engine_hash;
  logical_hash_algorithm = r.logical_hash_algorithm;
  schema_hash_algorithm = r.schema_hash_algorithm;
  latest_silver_build_id = r.silver_build_id;
  quality_config_hash = r.quality_config_hash;
  verification_count = length (r ∷ runs);
  first_verified_at = first_time r runs;
  last_verified_at = last_time r runs;
}

unfoldable pub summary :
    List SilverPublicationVerificationRequest → Option SilverPublicationVerification
summary [] = none
summary (r ∷ runs) = some (evidence r runs)

abbrev pub asks : VerificationKey → SilverPublicationVerificationRequest → Bool
asks k r = key_eq (request_key r) k

-- The row of the key, as the history of requests gives it.
unfoldable pub evidence_of :
    VerificationKey
    → List SilverPublicationVerificationRequest
    → Option SilverPublicationVerification
unfolding summary build_runs key_eq select
evidence_of k history = summary (build_runs (select (asks k) history))

abbrev pub IsValid : SilverPublicationVerificationRequest → Type 0
IsValid r = check_verification_request r ≡ ok tt

pub key_eq→≡ : (a b : VerificationKey) → key_eq a b ≡ true → a ≡ b
unfolding key_eq
key_eq→≡ a b h = ground (
  arith,
  eq_iff a.publication_id b.publication_id,
  eq_iff a.engine_hash b.engine_hash,
  eq_iff a.logical_hash_algorithm b.logical_hash_algorithm,
  eq_iff a.schema_hash_algorithm b.schema_hash_algorithm,
)

pub key_eq_refl : (a : VerificationKey) → key_eq a a ≡ true
unfolding key_eq
key_eq_refl a = ground (
  arith,
  eq_iff a.publication_id a.publication_id,
  eq_iff a.engine_hash a.engine_hash,
  eq_iff a.logical_hash_algorithm a.logical_hash_algorithm,
  eq_iff a.schema_hash_algorithm a.schema_hash_algorithm,
)

-- A build that is the newest already leaves the evidence; another one adds to it.
pub reproduced-evidence :
    (r q : SilverPublicationVerificationRequest) (runs : List SilverPublicationVerificationRequest)
    → request_key r ≡ request_key q
    → some (reproduced r (evidence q runs)) ≡ summary (keep_first r (q ∷ runs))
unfolding reproduced summary
reproduced-evidence r q runs e = elim (Bool-cases (str_eq q.silver_build_id r.silver_build_id)) [
  | inl t ↦ rw t (ground (arith, eq_iff q.silver_build_id r.silver_build_id, t))
  | inr t ↦ rw t (ground (arith, e))
]

-- A request of the key that its constructor accepted.
abbrev pub IsRequest : VerificationKey → SilverPublicationVerificationRequest → Type 0
IsRequest k r = (asks k r ≡ true) × IsValid r

pub keep_first-All :
    (k : VerificationKey) (r : SilverPublicationVerificationRequest)
    (runs : List SilverPublicationVerificationRequest)
    → IsRequest k r
    → All (IsRequest k) runs
    → All (IsRequest k) (keep_first r runs)
keep_first-All k r [] v h = (v, tt)
keep_first-All k r (q ∷ runs) v h = elim (Bool-cases (str_eq q.silver_build_id r.silver_build_id)) [
  | inl t ↦ rw t h
  | inr t ↦ rw t (v, h)
]

pub build_runs-All :
    (k : VerificationKey) (h : List SilverPublicationVerificationRequest)
    → All (IsRequest k) h
    → All (IsRequest k) (build_runs h)
unfolding build_runs
build_runs-All k [] v = tt
build_runs-All k (r ∷ older) v = keep_first-All k r _ v.0 (build_runs-All k older v.1)

first_time_le :
    (r : SilverPublicationVerificationRequest) (runs : List SilverPublicationVerificationRequest)
    → leb (first_time r runs).instant (last_time r runs).instant ≡ true
first_time_le r [] = ground arith
first_time_le r (q ∷ runs) = ground (arith, first_time_le q runs)

times_aware :
    (k : VerificationKey) (r : SilverPublicationVerificationRequest)
    (runs : List SilverPublicationVerificationRequest)
    → All (IsRequest k) (r ∷ runs)
    → (is_aware (first_time r runs) ≡ true) × (is_aware (last_time r runs) ≡ true)
unfolding check_verification_request require_non_blank
times_aware k r [] v = ground (arith, v.0.1)
times_aware k r (q ∷ runs) v = ground (arith, v.0.1, times_aware k q runs v.1)

-- The row is accepted by the schema and can be read.
pub record IsLawful (v : SilverPublicationVerification) : Type 0 where
  pub accepted : verification_checks v ≡ true
  pub readable : check_verification v ≡ ok tt

pub evidence-IsLawful :
    (k : VerificationKey) (r : SilverPublicationVerificationRequest)
    (runs : List SilverPublicationVerificationRequest)
    → All (IsRequest k) (r ∷ runs)
    → IsLawful (evidence r runs)
unfolding check_verification_request require_non_blank verification_checks check_verification
evidence-IsLawful k r runs v = record {
  accepted = ground (
    arith,
    v.0.1,
    first_time_le r runs,
    is_btrim_blank-is_blank r.logical_hash_algorithm,
    is_btrim_blank-is_blank r.schema_hash_algorithm,
  );
  readable = ground (arith, first_time_le r runs, times_aware k r runs v);
}

pub summary-IsLawful :
    (k : VerificationKey) (runs : List SilverPublicationVerificationRequest)
    (v : SilverPublicationVerification)
    → All (IsRequest k) runs
    → some v ≡ summary runs
    → IsLawful v
unfolding summary
summary-IsLawful k [] v h e = absurd (ground (arith, e))
summary-IsLawful k (r ∷ runs) v h e =
    subst IsLawful (sym (some-injective v (evidence r runs) e)) (evidence-IsLawful k r runs h)
