-- ===== src/Migration.antt =====
-- migration.py: the documents of a migration. The records have the fields that the schema requires;
-- a field that the code never looks at stands, with the others of its kind, in a field of canonical
-- JSON text, and an optional value that is missing is `none`, or its default. A path stands as its code points.
pub mod Checks
pub mod Paths
pub mod Naming
pub mod Links
pub mod Targets
pub mod Spelling
pub mod Plans
pub mod Depth
pub mod Walk
pub mod Receipts
pub mod Validation
pub mod Holds
pub mod Valid
pub mod Transition
pub mod Changes
pub mod Histories
pub mod Authority
mod Examples
mod PlanExamples
use trace_gate_framework.Prelude.{
  ℕ, ℕ_discrete, String, string_discrete, ◌≡◌, Bool, Option, List, Eq, discrete_Eq, Result,
  value_error, guard,
}

abbrev pub Text : Type 0
Text = List ℕ

-- The members of `PHASES`.
pub data Stage : Type 0 where
  planned migrating_frozen packaged delivered relocated received_complete cutover_pending
        completed :
      Stage

pub data Phase : Type 0 where
  stage : Stage → Phase
  blocked failed partial_commit aborted : Phase

pub record Side : Type 0 where
  pub partition_id : String
  pub host_id : String
  pub root : Text
  pub details : String

pub record PlannedArtifact : Type 0 where
  pub artifact_id : String
  pub revision_id : String
  pub path : Text
  pub canonical_owner : String
  pub parent_ids : List String
  pub details : String

pub record ScopedExport : Type 0 where
  pub source_artifact_id : String
  pub parent_ids : List String
  pub original_chain_preserved : Bool
  pub details : String

pub record ReferenceBinding : Type 0 where
  pub reference_id : String
  pub payload_artifact_id : String
  pub canonical_owner : String
  pub version : String
  pub sha256 : String
  pub retained_location : String
  pub details : String

-- `plan["plan"]`; a shared record is its artifact, and `migration_mode` the value with its default.
pub record Plan : Type 0 where
  pub transaction_id : String
  pub idempotency_key : String
  pub source : Side
  pub destination : Side
  pub scope_paths : List Text
  pub scope_sha256 : String
  pub artifacts : List PlannedArtifact
  pub external_parent_ids : List String
  pub shared_records : List String
  pub scoped_exports : List ScopedExport
  pub overlap_check_required : Bool
  pub stale_and_offline_check_required : Bool
  pub transfer_mode : String
  pub retain_original : Bool
  pub migration_mode : String
  pub reference_manifest_sha256 : Option String
  pub reference_bindings : List ReferenceBinding
  pub details : String

pub record MigrationPlan : Type 0 where
  pub plan : Plan
  pub plan_sha256 : String
  pub details : String

pub record EvidenceReceipt : Type 0 where
  pub evidence_id : String
  pub kind : String
  pub transaction_id : String
  pub plan_sha256 : String
  pub scope_sha256 : String
  pub subject_sha256 : String
  pub result : String
  pub supersedes_evidence_ids : List String
  pub details : String

pub record Owner : Type 0 where
  pub artifact_id : String
  pub partition_id : String

pub record CutoverReceipt : Type 0 where
  pub transaction_id : String
  pub plan_sha256 : String
  pub scope_sha256 : String
  pub archive_sha256 : Option String
  pub source_partition : String
  pub destination_partition : String
  pub expected_epoch : ℕ
  pub new_epoch : ℕ
  pub source_preservation_frozen : Bool
  pub destination_accepted : Bool
  pub bilateral_verified : Bool
  pub owners : List Owner
  pub evidence_ids : List String
  pub evidence_sha256 : List (String × String)
  pub receipt_sha256 : String
  pub package_format : String
  pub package_set_sha256 : Option String
  pub reference_manifest_sha256 : Option String
  pub details : String

pub record Fencing : Type 0 where
  pub mechanism : String
  pub verified : Bool
  pub all_writers_quiescent : Bool
  pub overlap_checked : Bool
  pub stale_writer_checked : Bool
  pub offline_writer_checked : Bool
  pub scope_only : Bool
  pub details : String

pub record Transaction : Type 0 where
  pub transaction_id : String
  pub idempotency_key : String
  pub migration_plan : MigrationPlan
  pub phase : Phase
  pub last_verified_phase : Stage
  pub source_write_state : String
  pub destination_business_writes : Bool
  pub canonical_owner : Option String
  pub authority_epoch : ℕ
  pub fencing : Fencing
  pub archive_sha256 : Option String
  pub evidence : List EvidenceReceipt
  pub blockers : List String
  pub business_resume_approval_ref : Option String
  pub cutover_receipt : Option CutoverReceipt
  pub abort_approval_ref : Option String
  pub abort_hold_evidence_sha256 : Option String
  pub package_format : String
  pub package_set_sha256 : Option String
  pub reference_manifest_sha256 : Option String
  pub details : String

pub Stage-discrete : Discrete Stage
Stage-discrete = hlevel

pub Phase-discrete : Discrete Phase
Phase-discrete = hlevel

instance abbrev pub phase_Eq : Eq Phase
phase_Eq = discrete_Eq Phase-discrete

pub EvidenceReceipt-discrete : Discrete EvidenceReceipt
EvidenceReceipt-discrete = hlevel (string_discrete, ℕ_discrete)

instance abbrev pub evidence_Eq : Eq EvidenceReceipt
evidence_Eq = discrete_Eq EvidenceReceipt-discrete

pub MigrationPlan-discrete : Discrete MigrationPlan
MigrationPlan-discrete = hlevel (string_discrete, ℕ_discrete)

instance abbrev pub plan_Eq : Eq MigrationPlan
plan_Eq = discrete_Eq MigrationPlan-discrete

pub Owner-discrete : Discrete Owner
Owner-discrete = hlevel string_discrete

pub CutoverReceipt-discrete : Discrete CutoverReceipt
CutoverReceipt-discrete = hlevel (string_discrete, ℕ_discrete, Owner-discrete)

pub Fencing-discrete : Discrete Fencing
Fencing-discrete = hlevel string_discrete

pub Transaction-discrete : Discrete Transaction
Transaction-discrete = hlevel (
  string_discrete, ℕ_discrete, EvidenceReceipt-discrete, Phase-discrete, Stage-discrete,
  MigrationPlan-discrete, CutoverReceipt-discrete, Fencing-discrete,
)

instance abbrev pub transaction_Eq : Eq Transaction
transaction_Eq = discrete_Eq Transaction-discrete

-- `require`
abbrev pub require : Bool → String → Result (Unit {0})
require test reason = guard test (value_error reason)

-- `PHASES.index`
abbrev pub rank : Stage → ℕ
rank planned = 0
rank migrating_frozen = 1
rank packaged = 2
rank delivered = 3
rank relocated = 4
rank received_complete = 5
rank cutover_pending = 6
rank completed = 7
