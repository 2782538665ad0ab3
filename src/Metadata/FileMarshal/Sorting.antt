-- ===== src/Metadata/FileMarshal/Sorting.antt =====
-- The order of the artifacts, which a second sort leaves.
use metrka_core.Prelude.{
  String, ◌≡◌, refl, ap, ◌∙◌, true, false, List, [], ◌∷◌, eq_iff, arith, inl, inr,
}
use metrka_core.Prelude.Tests.{Bool-cases}
use metrka_core.Metadata.ArtifactPaths.{str_leb}
use metrka_core.Metadata.MarshalModels.{
  BronzeArtifactDigest, insert_artifact, sort_artifacts, digest_eq, digests_eq,
}

str_leb_total : (a b : String) → str_leb a b ≡ false → str_leb b a ≡ true
unfolding str_leb
str_leb_total String.[] b h = absurd (ground (arith, h))
str_leb_total (String.◌∷◌ x a) String.[] h = refl
str_leb_total (String.◌∷◌ x a) (String.◌∷◌ y b) h = ground (arith, str_leb_total a b, h)

-- Each artifact stands before the next one.
abbrev Before : BronzeArtifactDigest → List BronzeArtifactDigest → Type 0
Before a [] = Unit
Before a (b ∷ rest) = str_leb a.relative_path b.relative_path ≡ true

abbrev pub IsSorted : List BronzeArtifactDigest → Type 0
IsSorted [] = Unit
IsSorted (a ∷ rest) = Before a rest × IsSorted rest

insert-IsSorted :
    (a : BronzeArtifactDigest) (xs : List BronzeArtifactDigest)
    → IsSorted xs
    → IsSorted (insert_artifact a xs)
      × ((b : BronzeArtifactDigest)
          → str_leb b.relative_path a.relative_path ≡ true
          → Before b xs
          → Before b (insert_artifact a xs))
unfolding insert_artifact
insert-IsSorted a [] h = ((tt, tt), λ b l k. l)
insert-IsSorted a (x ∷ xs) h = elim (Bool-cases (str_leb a.relative_path x.relative_path)) [
  | inl t ↦ rw t ((t, h), λ b l k. l)
  | inr t ↦
      let (sorted, keep) = insert-IsSorted a xs h.1 in
      rw t ((keep x (str_leb_total a.relative_path x.relative_path t) h.0, sorted), λ b l k. k)
]

sort-IsSorted : (xs : List BronzeArtifactDigest) → IsSorted (sort_artifacts xs)
unfolding sort_artifacts
sort-IsSorted [] = tt
sort-IsSorted (a ∷ xs) = (insert-IsSorted a (sort_artifacts xs) (sort-IsSorted xs)).0

sort_sorted : (xs : List BronzeArtifactDigest) → IsSorted xs → sort_artifacts xs ≡ xs
unfolding sort_artifacts insert_artifact
sort_sorted [] h = refl
sort_sorted (a ∷ []) h = refl
sort_sorted (a ∷ b ∷ xs) h = ap (insert_artifact a) (sort_sorted (b ∷ xs) h.1) ∙ rw h.0 refl

pub sort_again :
    (xs : List BronzeArtifactDigest) → sort_artifacts (sort_artifacts xs) ≡ sort_artifacts xs
sort_again xs = sort_sorted (sort_artifacts xs) (sort-IsSorted xs)

pub digests_eq→≡ : (a b : List BronzeArtifactDigest) → digests_eq a b ≡ true → a ≡ b
unfolding digests_eq digest_eq
digests_eq→≡ [] [] h = refl
digests_eq→≡ [] (b ∷ bs) h = absurd (ground (arith, h))
digests_eq→≡ (a ∷ xs) [] h = absurd (ground (arith, h))
digests_eq→≡ (a ∷ xs) (b ∷ bs) h =
    ground (
      arith,
      digests_eq→≡ xs bs,
      eq_iff a.relative_path b.relative_path,
      eq_iff a.sha256 b.sha256,
      h,
    )
