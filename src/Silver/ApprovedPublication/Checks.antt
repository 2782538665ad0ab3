-- ===== src/Silver/ApprovedPublication/Checks.antt =====
-- What the tests of a candidate, its build and its baseline let through.
use metrka_core.Prelude.{String, ◌≡◌, ap, subst, true, false, not, Option, none, some, arith}
use metrka_core.Prelude.Text.{is_blank, opt_eq}
use metrka_core.Prelude.Result.{ok, raise_if, bind_ok}
use metrka_core.Catalog.PublicationModels.{DatasetPublication}
use metrka_core.Catalog.PublicationStore.{Publications, find_active, id_of}
use metrka_core.Catalog.CandidateModels.{DatasetPublicationCandidate}
use metrka_core.Silver.BuildModels.{SilverBuild, is_succeeded}
use metrka_core.Silver.ApprovedPublication.{
  require_build, matches_build, require_path, validate_candidate_build, validate_baseline,
}

pub build_exact : (o : Option SilverBuild) (b : SilverBuild) → require_build o ≡ ok b → o ≡ some b
build_exact none b h = ground (arith, h)
build_exact (some x) b h = ground (arith, h)

path_exact :
    (o : Option String) (path : String)
    → require_path o ≡ ok path
    → (o ≡ some path) × (is_blank path ≡ false)
path_exact none path h = ground (arith, h)
path_exact (some x) path h =
    let open_path : is_blank x ≡ false = ground (arith, h) in
    let same : x ≡ path = ground (arith, h, open_path) in
    (ap some same, subst (λ k. is_blank k ≡ false) same open_path)

pub validate_exact :
    (c : DatasetPublicationCandidate) (b : SilverBuild) (path : String)
    → validate_candidate_build c b ≡ ok path
    → (is_succeeded b.status ≡ true)
      × (matches_build c b ≡ true)
      × (b.manifest_path ≡ some path)
      × (is_blank path ≡ false)
unfolding validate_candidate_build
validate_exact c b path h =
    bind_ok (raise_if (not (is_succeeded b.status)) _) _ _ h (λ u succeeded h1.
      bind_ok (raise_if (not (matches_build c b)) _) _ _ h1 (λ v matching h2.
        let (at, open_path) = path_exact b.manifest_path path h2 in
        (ground (arith, succeeded), ground (arith, matching), at, open_path)))

pub validated :
    (c : DatasetPublicationCandidate) (b : SilverBuild) (path : String)
    → is_succeeded b.status ≡ true
    → matches_build c b ≡ true
    → b.manifest_path ≡ some path
    → is_blank path ≡ false
    → validate_candidate_build c b ≡ ok path
unfolding validate_candidate_build
validated c b path succeeded matching at not_blank = ground arith

pub baseline_exact :
    (c : DatasetPublicationCandidate) (rows : Publications)
    → validate_baseline c rows ≡ ok tt
    → (active : Option DatasetPublication) × (find_active c.dataset_id c.partition_value rows
        ≡ ok active)
      × (opt_eq (id_of active) c.baseline_publication_id ≡ true)
unfolding validate_baseline
baseline_exact c rows h =
    bind_ok (find_active c.dataset_id c.partition_value rows) _ _ h
      (λ active e h0. (active, e, ground (arith, h0)))
