-- ===== src/Migration/Valid.antt =====
-- migration.py: what an accepted transaction document says of its phase, its owner and its epoch.
use trace_gate_framework.Prelude.{
  ◌<◌, String, string_Eq, option_Eq, nat_Eq, ◌≡◌, refl, Bool, true, false, not, ◌&&◌, ◌||◌, ◌==◌,
  eq→path, Option, none, some, List, [], ◌∷◌, if◌then◌else◌, is_empty, all, ltb, leb, arith, Result,
  ok, err, ◌>>=◌, ◌>>◌,
}
use trace_gate_framework.Documents.{raise_messages}
use trace_gate_framework.Migration.{
  completed, stage, phase_Eq, EvidenceReceipt, CutoverReceipt, Transaction, require, rank,
}
use trace_gate_framework.Migration.Checks.{bind_parts, check_parts, require_lem, and_parts, negated}
use trace_gate_framework.Migration.Paths.{Unicode}
use trace_gate_framework.Migration.Plans.{plan_errors}
use trace_gate_framework.Migration.Receipts.{cutover_errors}
use trace_gate_framework.Migration.Validation.{
  Digests, reached, phase_verified, check_phase, check_receipts, check_package,
}
use trace_gate_framework.Migration.Holds.{
  is_failure, check_freeze, check_before_cutover, check_bindings, check_receipt, check_given,
  check_completed, check_stopped, transaction_errors, messages_of, validate_transaction,
}

-- The receipt of a completed transaction moved the owner and raised the epoch.
pub record IsMoved (t : Transaction) (c : CutoverReceipt) : Type 0 where
  pub given : t.cutover_receipt ≡ some c
  pub owner : t.canonical_owner ≡ some t.migration_plan.plan.destination.partition_id
  pub epoch : t.authority_epoch ≡ c.new_epoch
  pub raised : c.expected_epoch < c.new_epoch

pub record IsValid (t : Transaction) : Type 0 where
  pub verified : phase_verified t.phase t.last_verified_phase ≡ true
  pub quiet : (t.phase == stage completed) ≡ false → t.destination_business_writes ≡ false
  pub owned :
      (t.phase == stage completed) ≡ false
      → is_failure t.phase ≡ false
      → t.canonical_owner ≡ some t.migration_plan.plan.source.partition_id
  pub moved : (t.phase == stage completed) ≡ true → (c : CutoverReceipt) × IsMoved t c

cutover_lem :
    (body_digest : CutoverReceipt → String) (c : CutoverReceipt)
    → cutover_errors body_digest c ≡ ok tt
    → c.expected_epoch < c.new_epoch
unfolding cutover_errors
cutover_lem body_digest c h =
    let (_, h1) =
      check_parts (require (c.receipt_sha256 == body_digest c) "cutover receipt digest mismatch") _
        tt h in
    let (_, h2) =
      check_parts
        (require (not (c.source_partition == c.destination_partition)) "same cutover partition") _
        tt h1 in
    let (raised, _) =
      check_parts (require (ltb c.expected_epoch c.new_epoch) "owner epoch must increase") _ tt
        h2 in
    let test = require_lem (ltb c.expected_epoch c.new_epoch) _ raised in ground arith

module _ (digests : Digests) where
  receipt_lem :
      (t : Transaction) (c : CutoverReceipt)
      → check_receipt digests t c ≡ ok tt
      → (t.canonical_owner ≡ some t.migration_plan.plan.destination.partition_id)
        × (t.authority_epoch ≡ c.new_epoch)
        × (c.expected_epoch < c.new_epoch)
  unfolding check_receipt
  receipt_lem t c h =
      let (cut, h1) = check_parts (cutover_errors digests.of_cutover c) _ tt h in
      let (_, h2) = check_parts (check_bindings digests t c) _ tt h1 in
      let (last, _) = check_parts _ _ tt h2 in
      let (owner, epoch) =
        and_parts (t.canonical_owner == some t.migration_plan.plan.destination.partition_id)
          (t.authority_epoch == c.new_epoch) (require_lem _ _ last) in
      (
        eq→path t.canonical_owner (some t.migration_plan.plan.destination.partition_id) owner,
        eq→path t.authority_epoch c.new_epoch epoch,
        cutover_lem digests.of_cutover c cut,
      )

  given_lem :
      (t : Transaction) (found : Option CutoverReceipt)
      → t.cutover_receipt ≡ found
      → check_given digests t found ≡ ok tt
      → (c : CutoverReceipt) × IsMoved t c
  given_lem t none same h = absurd (ground arith)
  given_lem t (some c) same h =
      let (owner, epoch, raised) = receipt_lem t c h in
      (c, record { given = same; owner = owner; epoch = epoch; raised = raised })

  moved_lem :
      (t : Transaction) (current : List EvidenceReceipt)
      → check_completed digests t current ≡ ok tt
      → (t.phase == stage completed) ≡ true
      → (c : CutoverReceipt) × IsMoved t c
  unfolding check_completed
  moved_lem t current h y =
      let (_, h1) =
        check_parts
          (require
            (is_empty t.blockers && all (λ (r : EvidenceReceipt). r.result == "pass") current)
            "failure cannot be completed")
          _ tt (rw y at h) in
      let (_, h2) =
        check_parts
          (require (t.source_write_state == "preservation_frozen")
            "completed source must retain scoped freeze")
          _ tt h1 in
      given_lem t t.cutover_receipt refl h2

or_right : (a b : Bool) → (a || b) ≡ true → a ≡ false → b ≡ true
or_right true b h m = absurd (ground arith)
or_right false b h m = h

before_cutover_lem :
    (t : Transaction)
    → check_before_cutover t ≡ ok tt
    → (t.phase == stage completed) ≡ false
    → (t.destination_business_writes ≡ false)
      × (is_failure t.phase ≡ false
          → t.canonical_owner ≡ some t.migration_plan.plan.source.partition_id)
unfolding check_before_cutover
before_cutover_lem t h n =
    let (quiet, h1) =
      check_parts
        (require (not t.destination_business_writes)
          "destination activation before completed cutover")
        _ tt (rw n at h) in
    (
      negated t.destination_business_writes (require_lem _ _ quiet),
      λ m. eq→path t.canonical_owner (some t.migration_plan.plan.source.partition_id) (
          or_right (is_failure t.phase)
            (t.canonical_owner == some t.migration_plan.plan.source.partition_id)
            (require_lem _ _ h1) m),
    )

phase_lem :
    (t : Transaction) → check_phase t ≡ ok tt → phase_verified t.phase t.last_verified_phase ≡ true
unfolding check_phase
phase_lem t h =
    let p = t.migration_plan.plan in
    let (_, h1) =
      check_parts (require (t.transaction_id == p.transaction_id) "transaction identity mismatch") _
        tt h in
    let (_, h2) =
      check_parts (require (t.idempotency_key == p.idempotency_key) "idempotency mismatch") _ tt
        h1 in
    let (_, h3) =
      check_parts
        (require (leb (rank t.last_verified_phase) (rank (reached t)))
          "last verified phase ahead of state")
        _ tt h2 in
    require_lem (phase_verified t.phase t.last_verified_phase) _ h3

accepted_lem :
    (name : String) (found : List String) (r : Result (Unit {0}))
    → (if is_empty found then messages_of r >>= raise_messages name else raise_messages name found)
      ≡ ok tt
    → r ≡ ok tt
unfolding raise_messages
accepted_lem name [] (ok done) h = refl
accepted_lem name [] (err e) h = ground arith
accepted_lem name (m ∷ found) r h = absurd (ground arith)

module _ (unicode : Unicode) (digests : Digests) where
  transaction_errors-IsValid :
      (t : Transaction) → transaction_errors unicode digests t ≡ ok tt → IsValid t
  unfolding transaction_errors
  transaction_errors-IsValid t h =
      let (_, h1) = check_parts (plan_errors digests.plans unicode t.migration_plan) _ tt h in
      let (phase, h2) = check_parts (check_phase t) _ tt h1 in
      let (current, _, h3) =
        bind_parts (check_receipts t)
          (λ current.
            check_package t current
            >> (check_freeze t
                >> (check_before_cutover t
                    >> (check_completed digests t current >> check_stopped t))))
          tt h2 in
      let (_, h4) = check_parts (check_package t current) _ tt h3 in
      let (_, h5) = check_parts (check_freeze t) _ tt h4 in
      let (before, h6) = check_parts (check_before_cutover t) _ tt h5 in
      let (done, _) = check_parts (check_completed digests t current) _ tt h6 in
      record {
        verified = phase_lem t phase;
        quiet = λ n. (before_cutover_lem t before n).0;
        owned = λ n m. (before_cutover_lem t before n).1 m;
        moved = λ y. moved_lem digests t current done y;
      }

  pub validate-IsValid :
      (schema : Transaction → List String) (t : Transaction)
      → validate_transaction unicode digests schema t ≡ ok tt
      → IsValid t
  unfolding validate_transaction
  validate-IsValid schema t h = transaction_errors-IsValid t (
      accepted_lem "document-migration-transaction.yaml" (schema t)
        (transaction_errors unicode digests t) h)
