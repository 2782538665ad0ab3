-- ===== src/Silver/EngineStore.antt =====
-- pipeline/silver/postgres_engine_store.py over the rows of `meta.silver_engine_releases`.
pub mod Governance
use metrka_core.Prelude.{
  String, Bool, true, false, ◌&&◌, not, Option, none, some, List, [], ◌∷◌, ◌++◌, str_eq,
}
use metrka_core.Prelude.Tests.{ltb, ◌==◌, if◌then◌else◌}
use metrka_core.Prelude.Lists.{find, any, update}
use metrka_core.Prelude.Text.{str_len, is_blank, strip}
use metrka_core.Prelude.Time.{DateTime, is_aware}
use metrka_core.Prelude.Result.{
  Result, ok, raise, value_error, runtime_error, integrity_error, ◌>>=◌, ◌>>◌, raise_if,
}
use metrka_core.Silver.EngineModels.{
  SilverEngineReleaseStatus, candidate, approved, rejected, retired, SilverEngineIdentity,
  check_identity, release_id_of, SilverEngineRelease, check_release,
}

abbrev pub Releases : Type 0
Releases = List SilverEngineRelease

abbrev pub is_approved_release : SilverEngineRelease → Bool
is_approved_release r = elim r.status [ approved ↦ true | _ ↦ false ]

abbrev pub has_release_id : String → SilverEngineRelease → Bool
has_release_id i r = str_eq r.engine_release_id i

abbrev pub has_release_hash : String → SilverEngineRelease → Bool
has_release_hash h r = str_eq r.identity.release_hash h

-- `_row_to_release`
unfoldable pub row_to_release : SilverEngineRelease → Result SilverEngineRelease
row_to_release r = do check_identity r.identity; check_release r; ok r

-- The outer result is the transaction's, the inner one what is read after it was committed.
abbrev pub Reply : Type 0
Reply = Result (Result SilverEngineRelease × Releases)

-- The CHECK constraints of the table.
unfoldable pub release_checks : SilverEngineRelease → Bool
release_checks r =
    str_len r.identity.engine_hash == 64
    && (ltb 0 r.identity.engine_fingerprint_version
        && (str_len r.identity.release_hash == 64
            && (str_len r.identity.runtime_hash == 64
                && ltb 0 r.identity.runtime_fingerprint_version)))

-- The values of the INSERT.
abbrev pub new_release : SilverEngineIdentity → String → DateTime → SilverEngineRelease
new_release identity core_commit_sha detected_at = record {
  engine_release_id = release_id_of identity;
  identity = identity;
  core_commit_sha = core_commit_sha;
  status = candidate;
  detected_at = detected_at;
  approved_at = none;
  approved_by = none;
  rejected_at = none;
  rejected_by = none;
  rejection_reason = none;
}

-- `ON CONFLICT (release_hash) DO NOTHING`
unfoldable pub add_release : Bool → SilverEngineRelease → Releases → Result Releases
add_release true r rows = ok rows
add_release false r rows = do
  raise_if (any (has_release_id r.engine_release_id) rows)
      (integrity_error "silver_engine_releases_pkey")
  ok (rows ++ r ∷ [])

-- What a SELECT after the write reads.
unfoldable pub reply_with :
    (SilverEngineRelease → Bool) → String → Releases → Result SilverEngineRelease
reply_with p message rows = elim (find p rows) [
  | none ↦ raise (runtime_error message)
  | some r ↦ row_to_release r
]

unfoldable pub register_candidate : SilverEngineIdentity → String → DateTime → Releases → Reply
register_candidate identity core_commit_sha detected_at rows = do
  raise_if (not (is_aware detected_at)) (value_error "detected_at must be timezone-aware")
  raise_if (not (release_checks (new_release identity core_commit_sha detected_at)))
      (integrity_error "silver_engine_releases_check")
  rows' ←
      add_release (any (has_release_hash identity.release_hash) rows)
        (new_release identity core_commit_sha detected_at) rows
  ok (
    reply_with (has_release_hash identity.release_hash) "Silver engine release was not registered"
        rows',
    rows',
  )

-- `_row_to_release(row) if row is not None else None`
unfoldable pub opt_release : Option SilverEngineRelease → Result (Option SilverEngineRelease)
opt_release none = ok none
opt_release (some r) = row_to_release r >>= λ release. ok (some release)

unfoldable pub get_release : String → Releases → Result (Option SilverEngineRelease)
get_release i rows = opt_release (find (has_release_id i) rows)

unfoldable pub find_approved : Releases → Result (Option SilverEngineRelease)
find_approved rows = opt_release (find is_approved_release rows)

-- `WHERE status = 'approved' AND engine_release_id <> %s`
abbrev pub other_approved : String → SilverEngineRelease → Bool
other_approved i r = is_approved_release r && not (has_release_id i r)

abbrev pub retire_release : SilverEngineRelease → SilverEngineRelease
retire_release r = record r { status = retired }

abbrev pub approve_release : DateTime → String → SilverEngineRelease → SilverEngineRelease
approve_release at by r = record r {
  status = approved;
  approved_at = some at;
  approved_by = some by;
  rejected_at = none;
  rejected_by = none;
  rejection_reason = none;
}

-- The two UPDATEs, the second refused by `uq_silver_engine_single_approved` if another release is
-- approved.
unfoldable pub install : String → String → DateTime → Releases → Result Releases
install i by at rows =
    let others_retired = update (other_approved i) retire_release rows in
    do
      raise_if (any (other_approved i) others_retired)
          (integrity_error "uq_silver_engine_single_approved")
      ok (update (has_release_id i) (approve_release at by) others_retired)

unfoldable pub approve_engine : String → String → DateTime → Releases → Reply
approve_engine i by at rows = do
  raise_if (is_blank by) (value_error "approved_by must not be empty")
  raise_if (not (is_aware at)) (value_error "approved_at must be timezone-aware")
  raise_if (not (any (has_release_id i) rows))
      (runtime_error "Silver engine release does not exist")
  rows' ← install i (strip by) at rows
  ok (reply_with (has_release_id i) "Silver engine release was not approved" rows', rows')

abbrev pub reject_release : DateTime → String → String → SilverEngineRelease → SilverEngineRelease
reject_release at by reason r = record r {
  status = rejected;
  rejected_at = some at;
  rejected_by = some by;
  rejection_reason = some reason;
}

-- `WHERE engine_release_id = %s AND status <> 'approved'`
abbrev pub rejectable : String → SilverEngineRelease → Bool
rejectable i r = has_release_id i r && not (is_approved_release r)

-- The UPDATE and its RETURNING row; no row is an error after the commit of nothing.
unfoldable pub reject_engine : String → String → String → DateTime → Releases → Reply
reject_engine i by reason at rows = do
  raise_if (is_blank by) (value_error "rejected_by must not be empty")
  raise_if (is_blank reason) (value_error "rejection_reason must not be empty")
  raise_if (not (is_aware at)) (value_error "rejected_at must be timezone-aware")
  elim (find (rejectable i) rows) [
    | none ↦ raise (runtime_error "Release does not exist or is currently approved")
    | some r ↦ ok (
      row_to_release (reject_release at (strip by) (strip reason) r),
      update (rejectable i) (reject_release at (strip by) (strip reason)) rows,
    )
  ]
