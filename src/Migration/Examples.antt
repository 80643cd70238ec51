-- ===== src/Migration/Examples.antt =====
-- migration.py at concrete inputs: a migration of one document that waits for its cutover, and what
-- comes after. Every text is its own normal form here, and digests are short names.
use trace_gate_framework.Prelude.{
  suc, ◌≤◌, ◌<◌, String, string_Eq, nat_Eq, option_Eq, list_Eq, ◌≡◌, ◌≢◌, refl, true, false, none,
  some, List, [], ◌∷◌, ◌++◌, map, if◌then◌else◌, ◌==◌, eq_refl, arith, contains, subset, is_unique,
  any, all, ok,
}
use trace_gate_framework.Prelude.Dict.{lookup, insert}
use trace_gate_framework.Documents.{raise_messages}
use trace_gate_framework.Migration.{
  cutover_pending, completed, Phase, stage, aborted, phase_Eq, PlannedArtifact, Plan, MigrationPlan,
  Phase-discrete, plan_Eq, EvidenceReceipt, evidence_Eq, CutoverReceipt, Transaction,
  transaction_Eq,
}
use trace_gate_framework.Migration.Paths.{
  Unicode, split, relative_path, keep_named, is_front, related_paths, fronts, alias_of, add_aliases,
  check_paths, unique_paths,
}
use trace_gate_framework.Migration.Plans.{
  overlapping, has_revision, one_revision_each, check_artifact, each, parent_graph, visit_each,
  visit, check_parents, check_references, plan_errors,
}
use trace_gate_framework.Migration.Receipts.{check_format, cutover_errors}
use trace_gate_framework.Migration.Validation.{
  Digests, check_phase, check_superseded, superseded_by, effective, passed_kinds, needed,
  check_receipts, check_package,
}
use trace_gate_framework.Migration.Holds.{
  check_freeze, check_before_cutover, check_bindings, check_receipt, check_completed, check_stopped,
  transaction_errors, validate_transaction,
}
use trace_gate_framework.Migration.Transition.{
  check_halt, check_epoch, frozen_part, activate, check_stage, index_from, by_id, holds_all,
  advance, change, transition,
}
use trace_gate_framework.Migration.Histories.{
  History, start, next, evidence_append_only, epoch_until_cutover, cutover_raises_epoch,
  completed_is_frozen, aborted_is_terminal,
}
use trace_gate_framework.Migration.Authority.{IsOwned, transition-IsOwned, no_stage_skipped}

abbrev plain : Unicode
plain = record { normalize = λ t. t; casefold = λ t. t; upper = λ t. t }

abbrev digests : Digests
digests = record {
  plans = record { of_plan = λ p. "plan"; of_references = λ refs. "refs"; recursion_limit = 1000 };
  of_cutover = λ c. "cut";
  of_evidence = λ r. r.evidence_id;
  sort_texts = λ ids. ids;
}

abbrev schema : Transaction → List String
schema t = []

abbrev phase_text : Phase → String
phase_text (stage completed) = "completed"
phase_text aborted = "aborted"
phase_text _ = "other"

abbrev digest : Transaction → String
digest t = if t.destination_business_writes then "active" else phase_text t.phase

abbrev document : PlannedArtifact
document = record {
  artifact_id = "doc";
  revision_id = "r1";
  path = 97 ∷ 47 ∷ 98 ∷ [];
  canonical_owner = "src";
  parent_ids = [];
  details = "{}";
}

abbrev plan : Plan
plan = record {
  transaction_id = "tx1";
  idempotency_key = "key";
  source = record { partition_id = "src"; host_id = "h1"; root = 115 ∷ []; details = "{}" };
  destination = record { partition_id = "dst"; host_id = "h2"; root = 100 ∷ []; details = "{}" };
  scope_paths = (97 ∷ []) ∷ [];
  scope_sha256 = "scope";
  artifacts = document ∷ [];
  external_parent_ids = [];
  shared_records = [];
  scoped_exports = [];
  overlap_check_required = true;
  stale_and_offline_check_required = true;
  transfer_mode = "copy";
  retain_original = true;
  migration_mode = "physical_relocation";
  reference_manifest_sha256 = none;
  reference_bindings = [];
  details = "{}";
}

abbrev approved : MigrationPlan
approved = record { plan = plan; plan_sha256 = "plan"; details = "{}" }

abbrev receipt : String → EvidenceReceipt
receipt kind = record {
  evidence_id = kind;
  kind = kind;
  transaction_id = "tx1";
  plan_sha256 = "plan";
  scope_sha256 = "scope";
  subject_sha256 = "zip";
  result = "pass";
  supersedes_evidence_ids = [];
  details = "{}";
}

abbrev pending_evidence : List EvidenceReceipt
pending_evidence = map receipt (
    "scope_verified" ∷ "dependency_verified" ∷ "writer_quiescence_verified" ∷ "scope_freeze"
    ∷ "backup" ∷ "restore_rehearsal" ∷ "package_retained" ∷ "delivery_verified" ∷ "safe_extraction"
    ∷ "relocation_verified" ∷ "destination_acceptance" ∷ "source_transfer" ∷ "destination_prepared"
    ∷ [])

abbrev pending : Transaction
pending = record {
  transaction_id = "tx1";
  idempotency_key = "key";
  migration_plan = approved;
  phase = stage cutover_pending;
  last_verified_phase = cutover_pending;
  source_write_state = "preservation_frozen";
  destination_business_writes = false;
  canonical_owner = some "src";
  authority_epoch = 3;
  fencing = record {
    mechanism = "durable_cas";
    verified = true;
    all_writers_quiescent = true;
    overlap_checked = true;
    stale_writer_checked = true;
    offline_writer_checked = true;
    scope_only = true;
    details = "{}";
  };
  archive_sha256 = some "zip";
  evidence = pending_evidence;
  blockers = [];
  business_resume_approval_ref = none;
  cutover_receipt = none;
  abort_approval_ref = none;
  abort_hold_evidence_sha256 = none;
  package_format = "single_archive";
  package_set_sha256 = none;
  reference_manifest_sha256 = none;
  details = "{}";
}

abbrev stopped : Transaction
stopped = record pending {
  phase = aborted;
  abort_approval_ref = some "yes";
  abort_hold_evidence_sha256 = some "held";
}

pending_valid : validate_transaction plain digests schema pending ≡ ok tt
unfolding validate_transaction transaction_errors plan_errors related_paths keep_named split
    is_front relative_path any all contains unique_paths check_paths fronts add_aliases alias_of
    overlapping one_revision_each has_revision each check_artifact subset parent_graph check_parents
    visit_each visit lookup insert check_references check_phase check_receipts is_unique
    superseded_by check_superseded effective passed_kinds needed check_package check_freeze
    check_before_cutover check_completed check_stopped raise_messages Phase-discrete
pending_valid = refl

abbrev done_evidence : List EvidenceReceipt
done_evidence =
    pending_evidence
    ++ map receipt ("pointers_verified" ∷ "single_owner_verified" ∷ "cutover_verified" ∷ [])

abbrev cutover : CutoverReceipt
cutover = record {
  transaction_id = "tx1";
  plan_sha256 = "plan";
  scope_sha256 = "scope";
  archive_sha256 = some "zip";
  source_partition = "src";
  destination_partition = "dst";
  expected_epoch = 3;
  new_epoch = 4;
  source_preservation_frozen = true;
  destination_accepted = true;
  bilateral_verified = true;
  owners = record { artifact_id = "doc"; partition_id = "dst" } ∷ [];
  evidence_ids = map (λ (r : EvidenceReceipt). r.evidence_id) done_evidence;
  evidence_sha256 = map (λ (r : EvidenceReceipt). (r.evidence_id, r.evidence_id)) done_evidence;
  receipt_sha256 = "cut";
  package_format = "single_archive";
  package_set_sha256 = none;
  reference_manifest_sha256 = none;
  details = "{}";
}

abbrev done : Transaction
done = record pending {
  phase = stage completed;
  last_verified_phase = completed;
  canonical_owner = some "dst";
  authority_epoch = 4;
  evidence = done_evidence;
  cutover_receipt = some cutover;
}

abbrev active : Transaction
active = record done {
  destination_business_writes = true;
  business_resume_approval_ref = some "yes";
}

done_valid : validate_transaction plain digests schema done ≡ ok tt
unfolding validate_transaction transaction_errors plan_errors related_paths keep_named split
    is_front relative_path any all contains unique_paths check_paths fronts add_aliases alias_of
    overlapping one_revision_each has_revision each check_artifact subset parent_graph check_parents
    visit_each visit lookup insert check_references check_phase check_receipts is_unique
    superseded_by check_superseded effective passed_kinds needed check_package check_freeze
    check_before_cutover check_completed check_stopped raise_messages Phase-discrete check_receipt
    cutover_errors check_format check_bindings
done_valid = refl

active_valid : validate_transaction plain digests schema active ≡ ok tt
unfolding validate_transaction transaction_errors plan_errors related_paths keep_named split
    is_front relative_path any all contains unique_paths check_paths fronts add_aliases alias_of
    overlapping one_revision_each has_revision each check_artifact subset parent_graph check_parents
    visit_each visit lookup insert check_references check_phase check_receipts is_unique
    superseded_by check_superseded effective passed_kinds needed check_package check_freeze
    check_before_cutover check_completed check_stopped raise_messages Phase-discrete check_receipt
    cutover_errors check_format check_bindings
active_valid = refl

stopped_valid : validate_transaction plain digests schema stopped ≡ ok tt
unfolding validate_transaction transaction_errors plan_errors related_paths keep_named split
    is_front relative_path any all contains unique_paths check_paths fronts add_aliases alias_of
    overlapping one_revision_each has_revision each check_artifact subset parent_graph check_parents
    visit_each visit lookup insert check_references check_phase check_receipts is_unique
    superseded_by check_superseded effective passed_kinds needed check_package check_freeze
    check_before_cutover check_completed check_stopped raise_messages Phase-discrete
stopped_valid = refl

same_receipt : (kind : String) → (receipt kind == receipt kind) ≡ true
same_receipt kind = eq_refl (receipt kind)

cut_over : transition plain digests schema digest pending done ≡ ok done
unfolding transition change check_halt check_epoch advance check_stage holds_all by_id index_from
    insert lookup all contains Phase-discrete
cut_over = rw (pending_valid, done_valid, eq_refl approved) (simp same_receipt)

activated : transition plain digests schema digest done active ≡ ok active
unfolding transition change check_halt check_epoch activate all contains Phase-discrete
activated = rw (done_valid, active_valid, eq_refl approved, eq_refl (frozen_part done)) refl

to_done : History plain digests schema digest pending done
to_done = next {d = pending} done start cut_over

to_active : History plain digests schema digest done active
to_active = next {d = done} active start activated

pending_open : pending.phase ≢ stage completed
pending_open = ground arith

first_found : lookup "backup" (by_id pending.evidence) ≡ some (receipt "backup")
unfolding by_id index_from insert lookup
first_found = refl

evidence_append_only_example :
    (pending.transaction_id ≡ done.transaction_id)
    × (pending.migration_plan ≡ done.migration_plan)
    × (lookup "backup" (by_id done.evidence) ≡ some (receipt "backup"))
evidence_append_only_example =
    evidence_append_only plain digests schema digest pending done "backup" (receipt "backup")
      to_done first_found

cutover_raises_epoch_example : 3 < 4
cutover_raises_epoch_example =
    cutover_raises_epoch plain digests schema digest pending done to_done pending_open refl

completed_is_frozen_example :
    (active.phase ≡ stage completed) × (frozen_part done ≡ frozen_part active)
completed_is_frozen_example =
    completed_is_frozen plain digests schema digest done active to_active refl

transition-IsOwned_example : IsOwned done
transition-IsOwned_example =
    transition-IsOwned plain digests schema digest pending done done cut_over

no_stage_skipped_example : 7 ≤ suc 6
no_stage_skipped_example = no_stage_skipped plain digests schema digest pending done done cut_over

-- The same migration, aborted instead.
stop_again : transition plain digests schema digest stopped stopped ≡ ok stopped
unfolding transition
stop_again = rw (stopped_valid, eq_refl approved) refl

abort : transition plain digests schema digest pending stopped ≡ ok stopped
unfolding transition change check_halt check_epoch advance check_stage holds_all by_id index_from
    insert lookup all contains Phase-discrete
abort = rw (pending_valid, stopped_valid, eq_refl approved) (simp same_receipt)

stopped_open : stopped.phase ≢ stage completed
stopped_open = ground arith

epoch_until_cutover_example : (stopped.authority_epoch ≡ 3) × (pending.phase ≢ stage completed)
epoch_until_cutover_example =
    epoch_until_cutover plain digests schema digest pending stopped
      (next {d = pending} stopped start abort) stopped_open

aborted_is_terminal_example : stopped ≡ stopped
aborted_is_terminal_example =
    aborted_is_terminal plain digests schema digest stopped stopped
      (next {d = stopped} stopped start stop_again) refl
