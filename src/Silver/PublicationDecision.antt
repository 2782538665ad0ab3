-- ===== src/Silver/PublicationDecision.antt =====
-- pipeline/silver/publication_decision.py: whether a successful build reproduces the active
-- publication or needs an approval.
pub mod Soundness
use metrka_core.Prelude.{ℕ, String, Bool, true, false, ◌&&◌, ◌||◌, not, Option, none, some, str_eq}
use metrka_core.Prelude.Tests.{◌==◌, if◌then◌else◌}
use metrka_core.Prelude.Text.{is_some}
use metrka_core.Prelude.Result.{Result, ok, raise, value_error, ◌>>=◌, ◌>>◌, raise_if}
use metrka_core.Catalog.PublicationModels.{DatasetPublication}
use metrka_core.Catalog.CandidateModels.{
  SilverPublicationChangeKind, none_changed, initial_publication, fingerprint_version_changed,
  fingerprint_algorithm_changed, logical_data_changed, schema_changed,
  logical_data_and_schema_changed,
}

pub data SilverPublicationDecisionStatus : Type 0 where
  verified_equivalent awaiting_approval : SilverPublicationDecisionStatus

-- The hashes of pipeline/silver/fingerprints.py that the decision reads.
pub record SilverDatasetFingerprint : Type 0 where
  pub fingerprint_version : ℕ
  pub logical_hash_algorithm : String
  pub schema_hash_algorithm : String
  pub logical_data_hash : String
  pub schema_hash : String

pub record SilverPublicationDecision : Type 0 where
  pub status : SilverPublicationDecisionStatus
  pub change_kind : SilverPublicationChangeKind
  pub baseline_publication_id : Option String

abbrev pub is_equivalent : SilverPublicationDecisionStatus → Bool
is_equivalent verified_equivalent = true
is_equivalent awaiting_approval = false

abbrev pub is_none_changed : SilverPublicationChangeKind → Bool
is_none_changed none_changed = true
is_none_changed _ = false

-- `SilverPublicationDecision.__post_init__`
unfoldable pub check_publication_decision : SilverPublicationDecision → Result (Unit {0})
check_publication_decision d = do
  raise_if (is_equivalent d.status && not (is_none_changed d.change_kind))
      (value_error "An equivalent build cannot contain a publication change")
  raise_if (is_equivalent d.status && not (is_some d.baseline_publication_id))
      (value_error "An equivalent build must reference the matched publication")
  raise_if (not (is_equivalent d.status) && is_none_changed d.change_kind)
      (value_error "A build awaiting publication approval must describe what changed")

-- The constructor call.
unfoldable pub decision :
    SilverPublicationDecisionStatus
    → SilverPublicationChangeKind
    → Option String
    → Result SilverPublicationDecision
unfolding check_publication_decision
decision status change_kind baseline =
    let d : SilverPublicationDecision = record {
      status = status;
      change_kind = change_kind;
      baseline_publication_id = baseline;
    } in
    do check_publication_decision d; ok d

-- The comparisons with an active publication, in the order of the source.
unfoldable pub compare_with :
    DatasetPublication → SilverDatasetFingerprint → Result SilverPublicationDecision
unfolding decision
compare_with p f =
    let baseline = some p.publication_id in
    let data_changed = not (str_eq p.logical_data_hash f.logical_data_hash) in
    let schema_differs = not (str_eq p.schema_hash f.schema_hash) in
    if not (p.fingerprint_version == f.fingerprint_version)
    then decision awaiting_approval fingerprint_version_changed baseline
    else if not (str_eq p.logical_hash_algorithm f.logical_hash_algorithm)
        || not (str_eq p.schema_hash_algorithm f.schema_hash_algorithm)
    then decision awaiting_approval fingerprint_algorithm_changed baseline
    else if not data_changed && not schema_differs
    then decision verified_equivalent none_changed baseline
    else if data_changed && schema_differs
    then decision awaiting_approval logical_data_and_schema_changed baseline
    else if data_changed
    then decision awaiting_approval logical_data_changed baseline
    else decision awaiting_approval schema_changed baseline

unfoldable pub decide_silver_publication :
    Option DatasetPublication → SilverDatasetFingerprint → Result SilverPublicationDecision
unfolding decision compare_with
decide_silver_publication none f = decision awaiting_approval initial_publication none
decide_silver_publication (some p) f = compare_with p f
