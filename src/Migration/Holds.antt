-- ===== src/Migration/Holds.antt =====
-- migration.py: the second half of `transaction_errors`, on who may write, and the whole of it; and
-- `validate_value` of validation.py for a transaction document. The messages of the JSON Schema
-- validator are an argument.
use trace_gate_framework.Prelude.{
  String, string_Eq, option_Eq, nat_Eq, list_Eq, bool_Eq, Bool, true, false, not, ◌&&◌, ◌||◌, ◌==◌,
  Option, none, some, List, [], ◌∷◌, if◌then◌else◌, all, contains, is_empty, ltb, Result, ok, err,
  value_error, ◌>>=◌, ◌>>◌,
}
use trace_gate_framework.Prelude.Dict.{Dict, lookup}
use trace_gate_framework.Documents.{raise_messages}
use trace_gate_framework.Migration.{
  completed, Phase, stage, blocked, failed, partial_commit, aborted, phase_Eq, EvidenceReceipt,
  CutoverReceipt, Fencing, Transaction, require, rank,
}
use trace_gate_framework.Migration.Paths.{Unicode}
use trace_gate_framework.Migration.Plans.{plan_errors, same_members, planned_ids}
use trace_gate_framework.Migration.Receipts.{cutover_errors, owner_ids}
use trace_gate_framework.Migration.Validation.{
  Digests, reached, check_phase, receipt_ids, check_receipts, check_package,
}

-- `phase in {"blocked", "failed", "partial_commit"}`
abbrev pub is_failure : Phase → Bool
is_failure blocked = true
is_failure failed = true
is_failure partial_commit = true
is_failure _ = false

abbrev is_filled : Option String → Bool
is_filled none = false
is_filled (some text) = not (text == "")

abbrev is_frozen : Transaction → Bool
is_frozen t = contains t.source_write_state ("frozen" ∷ "preservation_frozen" ∷ [])

abbrev is_fenced : Fencing → Bool
is_fenced f =
    f.verified && f.all_writers_quiescent && f.overlap_checked && f.stale_writer_checked
    && f.offline_writer_checked && f.scope_only

unfoldable pub check_freeze : Transaction → Result (Unit {0})
check_freeze t =
    if ltb 0 (rank (reached t)) || (t.phase == aborted)
    then (do
      require (is_frozen t) "source scope must remain frozen"
      require (contains t.fencing.mechanism ("durable_cas" ∷ "coordinator_barrier" ∷ []))
          "memory lock/sync is not distributed fencing"
      require (is_fenced t.fencing) "writer fencing unverified")
    else ok tt

unfoldable pub check_before_cutover : Transaction → Result (Unit {0})
check_before_cutover t = if t.phase == stage completed then ok tt else (do
  require (not t.destination_business_writes) "destination activation before completed cutover"
  require
      (is_failure t.phase || (t.canonical_owner == some t.migration_plan.plan.source.partition_id))
      "pre-cutover canonical owner drift")

-- Two dictionaries of texts are equal.
abbrev within : Dict String → Dict String → Bool
within a b = all (λ (entry : String × String). lookup entry.0 b == some entry.1) a

abbrev same_entries : Dict String → Dict String → Bool
same_entries a b = within a b && within b a

module _ (digests : Digests) where
  abbrev digest_entries : List EvidenceReceipt → Dict String
  digest_entries [] = []
  digest_entries (r ∷ receipts) = (r.evidence_id, digests.of_evidence r) ∷ digest_entries receipts

  unfoldable pub check_bindings : Transaction → CutoverReceipt → Result (Unit {0})
  check_bindings t c = do
    let p = t.migration_plan.plan
    require
        ((c.transaction_id == t.transaction_id)
          && (c.plan_sha256 == t.migration_plan.plan_sha256)
          && (c.scope_sha256 == p.scope_sha256))
        "cutover binding mismatch"
    require
        ((c.source_partition == p.source.partition_id)
          && (c.destination_partition == p.destination.partition_id))
        "cutover partition mismatch"
    require (c.archive_sha256 == t.archive_sha256) "cutover archive mismatch"
    require
        ((c.package_format == t.package_format) && (c.package_set_sha256 == t.package_set_sha256))
        "cutover package-set mismatch"
    require (c.reference_manifest_sha256 == t.reference_manifest_sha256)
        "cutover reference manifest mismatch"
    require (c.evidence_ids == digests.sort_texts (receipt_ids t.evidence))
        "cutover evidence closure mismatch"
    require (same_entries c.evidence_sha256 (digest_entries t.evidence))
        "cutover evidence content mismatch"
    require (same_members (owner_ids c.owners) (planned_ids p.artifacts))
        "final owner scope incomplete"

  unfoldable pub check_receipt : Transaction → CutoverReceipt → Result (Unit {0})
  unfolding check_bindings
  check_receipt t c = do
    cutover_errors digests.of_cutover c
    check_bindings t c
    require
        ((t.canonical_owner == some t.migration_plan.plan.destination.partition_id)
          && (t.authority_epoch == c.new_epoch))
        "owner/cutover epoch mismatch"
    require (not t.destination_business_writes || is_filled t.business_resume_approval_ref)
        "completion is not business restart approval"

  abbrev pub check_given : Transaction → Option CutoverReceipt → Result (Unit {0})
  check_given t none = err (value_error "single cutover receipt missing")
  check_given t (some c) = check_receipt t c

  unfoldable pub check_completed : Transaction → List EvidenceReceipt → Result (Unit {0})
  unfolding check_receipt
  check_completed t current =
      if t.phase == stage completed
      then (do
        require (is_empty t.blockers && all (λ (r : EvidenceReceipt). r.result == "pass") current)
            "failure cannot be completed"
        require (t.source_write_state == "preservation_frozen")
            "completed source must retain scoped freeze"
        check_given t t.cutover_receipt)
      else ok tt

abbrev check_if : Bool → Bool → String → Result (Unit {0})
check_if true test reason = require test reason
check_if false test reason = ok tt

unfoldable pub check_stopped : Transaction → Result (Unit {0})
check_stopped t = do
  check_if (is_failure t.phase) (not (is_empty t.blockers) && not t.destination_business_writes)
      "failure must hold writes and explain blocker"
  check_if (t.phase == partial_commit) (is_frozen t) "partial cutover cannot thaw source"
  check_if (t.phase == aborted)
      (is_filled t.abort_approval_ref && is_filled t.abort_hold_evidence_sha256)
      "abort needs explicit approval and writer-hold proof"
  check_if (t.phase == aborted) (is_frozen t && not t.destination_business_writes)
      "abort must keep both scopes held"

-- `semantic_errors`: the message of a check that failed.
abbrev pub messages_of : Result (Unit {0}) → Result (List String)
messages_of (ok done) = ok []
messages_of (err (value_error text)) = ok (text ∷ [])
messages_of (err e) = err e

module _ (unicode : Unicode) (digests : Digests) where
  unfoldable pub transaction_errors : Transaction → Result (Unit {0})
  unfolding check_phase check_receipts check_package check_freeze check_before_cutover
      check_completed check_stopped
  transaction_errors t = do
    plan_errors digests.plans unicode t.migration_plan
    check_phase t
    current ← check_receipts t
    check_package t current
    check_freeze t
    check_before_cutover t
    check_completed digests t current
    check_stopped t

  unfoldable pub validate_transaction :
      (Transaction → List String) → Transaction → Result (Unit {0})
  unfolding transaction_errors
  validate_transaction schema t =
      if is_empty (schema t)
      then (do
        messages ← messages_of (transaction_errors t)
        raise_messages "document-migration-transaction.yaml" messages)
      else raise_messages "document-migration-transaction.yaml" (schema t)
