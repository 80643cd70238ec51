-- ===== src/Migration/Transition.antt =====
-- migration.py: `transition`. The digest of a document is an argument.
use trace_gate_framework.Prelude.{
  ℕ, suc, String, string_Eq, nat_Eq, option_Eq, Bool, false, not, ◌&&◌, ◌||◌, ◌==◌, Option, none,
  some, List, [], ◌∷◌, map, if◌then◌else◌, all, contains, Result, ok, err, type_error, ◌>>◌,
}
use trace_gate_framework.Prelude.Dict.{Dict, lookup, insert}
use trace_gate_framework.Migration.{
  Stage, completed, Phase, stage, aborted, phase_Eq, EvidenceReceipt, evidence_Eq, plan_Eq,
  CutoverReceipt, Transaction, transaction_Eq, require, rank,
}
use trace_gate_framework.Migration.Paths.{Unicode}
use trace_gate_framework.Migration.Validation.{Digests, reached}
use trace_gate_framework.Migration.Holds.{is_failure, validate_transaction}

-- `after in failures | {"aborted"}`
abbrev pub is_halted : Phase → Bool
is_halted phase = is_failure phase || (phase == aborted)

abbrev known_receipts : List EvidenceReceipt → List String
known_receipts receipts = map (λ (r : EvidenceReceipt). r.evidence_id) receipts

-- A failure or an abort keeps the verified stage and adds no passed evidence.
unfoldable pub check_halt : Transaction → Transaction → Result (Unit {0})
check_halt current candidate =
    if is_halted candidate.phase
    then (do
      require (rank candidate.last_verified_phase == rank current.last_verified_phase)
          "failure/abort cannot advance verified checkpoint"
      require
          (all
            (λ (r : EvidenceReceipt).
              contains r.evidence_id (known_receipts current.evidence) || not (r.result == "pass"))
            candidate.evidence)
          "failure cannot inject passed-stage evidence")
    else ok tt

abbrev expected_epoch_is : ℕ → Option CutoverReceipt → Result (Unit {0})
expected_epoch_is epoch none = err type_error
expected_epoch_is epoch (some receipt) =
    require (receipt.expected_epoch == epoch) "cutover expected epoch stale"

unfoldable pub check_epoch : Transaction → Transaction → Result (Unit {0})
check_epoch current candidate =
    if current.phase == stage completed
    then ok tt
    else if candidate.phase == stage completed
    then expected_epoch_is current.authority_epoch candidate.cutover_receipt
    else require (candidate.authority_epoch == current.authority_epoch)
        "authority epoch changed before cutover"

-- The document without the two values that an activation may change.
abbrev pub frozen_part : Transaction → Transaction
frozen_part t = record t {
  destination_business_writes = false;
  business_resume_approval_ref = none;
}

-- A completed transaction.
unfoldable pub activate : Transaction → Transaction → Result Transaction
activate current candidate = do
  require
      ((candidate.phase == stage completed)
        && not current.destination_business_writes
        && candidate.destination_business_writes)
      "rollback needs separate compensation transaction and new-data backup"
  require (frozen_part current == frozen_part candidate)
      "activation cannot rewrite completed cutover"
  ok candidate

abbrev pub is_next : Bool → Stage → Phase → Bool
is_next was_failure start (stage s) =
    (rank s == suc (rank start)) || (not was_failure && (rank s == rank start))
is_next was_failure start _ = false

unfoldable pub check_stage : Transaction → Transaction → Result (Unit {0})
check_stage current candidate =
    if is_halted candidate.phase
    then ok tt
    else require (is_next (is_failure current.phase) (reached current) candidate.phase)
        "migration stage skipped"

-- `{r["evidence_id"]: r for r in receipts}`
unfoldable pub index_from : List EvidenceReceipt → Dict EvidenceReceipt → Dict EvidenceReceipt
index_from [] d = d
index_from (r ∷ receipts) d = index_from receipts (insert r.evidence_id r d)

unfoldable pub by_id : List EvidenceReceipt → Dict EvidenceReceipt
unfolding index_from
by_id receipts = index_from receipts []

-- `all(new.get(k) == r for k, r in old.items())`
unfoldable pub holds_all : Dict EvidenceReceipt → Dict EvidenceReceipt → Bool
holds_all old new =
    all (λ (entry : String × EvidenceReceipt). lookup entry.0 new == some entry.1) old

unfoldable pub advance : Transaction → Transaction → Result Transaction
unfolding check_stage holds_all by_id
advance current candidate = do
  check_stage current candidate
  require (holds_all (by_id current.evidence) (by_id candidate.evidence))
      "historical evidence rewritten or deleted"
  ok candidate

unfoldable pub change : Transaction → Transaction → Result Transaction
unfolding check_halt check_epoch activate advance
change current candidate = do
  require (not (current.phase == aborted))
      "aborted transaction is terminal; use an authorized compensation/new transaction"
  check_halt current candidate
  check_epoch current candidate
  if current.phase == stage completed then activate current candidate else advance current candidate

module _ (unicode : Unicode) (digests : Digests) (schema : Transaction → List String)
    (digest : Transaction → String) where
  unfoldable pub transition : Transaction → Transaction → Result Transaction
  unfolding change
  transition current candidate = do
    validate_transaction unicode digests schema current
    validate_transaction unicode digests schema candidate
    require
        ((current.transaction_id == candidate.transaction_id)
          && (current.idempotency_key == candidate.idempotency_key))
        "resume identity mismatch"
    require (current.migration_plan == candidate.migration_plan) "resume approved plan drift"
    if digest current == digest candidate then ok current else change current candidate
