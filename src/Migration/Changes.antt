-- ===== src/Migration/Changes.antt =====
-- migration.py: what a call of `transition` keeps.
use trace_gate_framework.Prelude.{
  suc, ◌≤◌, String, string_Eq, string_eq_iff, nat_Eq, option_Eq, ◌≡◌, ◌⊎◌, inl, inr, refl, sym, ap,
  ◌∙◌, subst, Bool, true, false, ◌==◌, eq→path, some, List, [], ◌∷◌, if◌then◌else◌, all, arith, ok,
  Bool-cases,
}
use trace_gate_framework.Prelude.Dict.{Dict, lookup}
use trace_gate_framework.Migration.{
  Stage, completed, Phase, stage, blocked, failed, partial_commit, aborted, phase_Eq,
  EvidenceReceipt, evidence_Eq, plan_Eq, CutoverReceipt, Transaction, transaction_Eq, rank,
}
use trace_gate_framework.Migration.Paths.{Unicode}
use trace_gate_framework.Migration.Validation.{Digests, reached_by, reached, phase_verified}
use trace_gate_framework.Migration.Holds.{is_failure, validate_transaction}
use trace_gate_framework.Migration.Valid.{IsValid, validate-IsValid}
use trace_gate_framework.Migration.Transition.{
  is_next, is_halted, check_halt, check_epoch, frozen_part, activate, check_stage, by_id, holds_all,
  advance, change, transition,
}
use trace_gate_framework.Migration.Checks.{check_parts, require_lem, and_parts, negated, ok_inj}

-- Every receipt of the one is in the other, unchanged.
abbrev pub IsKept : Transaction → Transaction → Type 0
IsKept c d =
    (id : String) (r : EvidenceReceipt)
    → lookup id (by_id c.evidence) ≡ some r
    → lookup id (by_id d.evidence) ≡ some r

-- What a change of a transaction keeps.
pub record Changes (c d : Transaction) : Type 0 where
  pub same_transaction : c.transaction_id ≡ d.transaction_id
  pub same_plan : c.migration_plan ≡ d.migration_plan
  pub alive : (c.phase == aborted) ≡ false
  pub same_epoch : (d.phase == stage completed) ≡ false → d.authority_epoch ≡ c.authority_epoch
  pub final :
      c.phase ≡ stage completed → (d.phase ≡ stage completed) × (frozen_part c ≡ frozen_part d)
  pub kept : IsKept c d
  pub valid : IsValid d
  pub entered :
      (r : CutoverReceipt)
      → (c.phase == stage completed) ≡ false
      → (d.phase == stage completed) ≡ true
      → d.cutover_receipt ≡ some r
      → r.expected_epoch ≡ c.authority_epoch
  pub in_order : rank d.last_verified_phase ≤ suc (rank c.last_verified_phase)

holds_all_lem :
    (old new : Dict EvidenceReceipt) (id : String) (r : EvidenceReceipt)
    → holds_all old new ≡ true
    → lookup id old ≡ some r
    → lookup id new ≡ some r
unfolding holds_all all lookup
holds_all_lem [] new id r h found = absurd (ground arith)
holds_all_lem ((j, v) ∷ old) new id r h found =
    let (first, later) = and_parts (lookup j new == some v) (holds_all old new) h in
    elim (Bool-cases (j == id)) [
      | inl y ↦
          let same : some v ≡ some r = rw y at found in
          subst (λ k. lookup k new ≡ some r) ((string_eq_iff j id).0 y)
            (eq→path (lookup j new) (some v) first ∙ same)
      | inr n ↦ holds_all_lem old new id r later (rw n at found)
    ]

advance_lem :
    (c d e : Transaction) → advance c d ≡ ok e → (e ≡ d) × (check_stage c d ≡ ok tt) × IsKept c d
unfolding advance
advance_lem c d e h =
    let (staged, rest) = check_parts (check_stage c d) _ e h in
    let (kept, same) = check_parts _ (ok d) e rest in
    (
      sym (ok_inj d e same),
      staged,
      λ id r. holds_all_lem (by_id c.evidence) (by_id d.evidence) id r (require_lem _ _ kept),
    )

activate_lem :
    (c d e : Transaction)
    → activate c d ≡ ok e
    → (e ≡ d) × (d.phase ≡ stage completed) × (frozen_part c ≡ frozen_part d)
unfolding activate
activate_lem c d e h =
    let (opened, rest) = check_parts _ _ e h in
    let (frozen, same) = check_parts _ (ok d) e rest in
    let (front, _) = and_parts _ _ (require_lem _ _ opened) in
    let (done, _) = and_parts (d.phase == stage completed) _ front in
    (
      sym (ok_inj d e same),
      eq→path d.phase (stage completed) done,
      eq→path (frozen_part c) (frozen_part d) (require_lem _ _ frozen),
    )

epoch_lem :
    (c d : Transaction)
    → (c.phase == stage completed) ≡ false
    → check_epoch c d ≡ ok tt
    → (d.phase == stage completed) ≡ false
    → d.authority_epoch ≡ c.authority_epoch
unfolding check_epoch
epoch_lem c d n h m = eq→path d.authority_epoch c.authority_epoch (require_lem _ _ (rw (n, m) at h))

entered_lem :
    (c d : Transaction) (r : CutoverReceipt)
    → check_epoch c d ≡ ok tt
    → (c.phase == stage completed) ≡ false
    → (d.phase == stage completed) ≡ true
    → d.cutover_receipt ≡ some r
    → r.expected_epoch ≡ c.authority_epoch
unfolding check_epoch
entered_lem c d r h n y given =
    eq→path r.expected_epoch c.authority_epoch (require_lem _ _ (rw (n, y, given) at h))

reached_lem :
    (p : Phase) (verified : Stage)
    → phase_verified p verified ≡ true
    → rank (reached_by p verified) ≡ rank verified
reached_lem (stage s) verified h = sym (eq→path (rank verified) (rank s) h)
reached_lem blocked verified h = refl
reached_lem failed verified h = refl
reached_lem partial_commit verified h = refl
reached_lem aborted verified h = refl

next_lem :
    (was_failure : Bool) (start : Stage) (p : Phase) (verified : Stage)
    → is_next was_failure start p ≡ true
    → phase_verified p verified ≡ true
    → rank verified ≤ suc (rank start)
next_lem was_failure start (stage s) verified h v =
    ground (arith, eq→path (rank verified) (rank s) v)
next_lem was_failure start blocked verified h v = absurd (ground arith)
next_lem was_failure start failed verified h v = absurd (ground arith)
next_lem was_failure start partial_commit verified h v = absurd (ground arith)
next_lem was_failure start aborted verified h v = absurd (ground arith)

ordered_lem :
    (c d : Transaction)
    → IsValid c
    → IsValid d
    → check_halt c d ≡ ok tt
    → check_stage c d ≡ ok tt
    → rank d.last_verified_phase ≤ suc (rank c.last_verified_phase)
unfolding check_halt check_stage
ordered_lem c d v w halt staged = elim (Bool-cases (is_halted d.phase)) [
  | inl y ↦
      let (same, _) = check_parts _ _ tt (rw y at halt) in
      omega (
        arith,
        eq→path (rank d.last_verified_phase) (rank c.last_verified_phase) (require_lem _ _ same),
      )
  | inr n ↦ omega (
    arith,
    next_lem (is_failure c.phase) (reached c) d.phase d.last_verified_phase
        (require_lem _ _ (rw n at staged)) w.verified,
    reached_lem c.phase c.last_verified_phase v.verified,
  )
]

same_evidence : (c d : Transaction) → frozen_part c ≡ frozen_part d → IsKept c d
same_evidence c d same id r found =
    subst (λ (t : List EvidenceReceipt). lookup id (by_id t) ≡ some r)
      (ap (λ (t : Transaction). t.evidence) same) found

module _ (c d e : Transaction) (same_transaction : c.transaction_id ≡ d.transaction_id)
    (same_plan : c.migration_plan ≡ d.migration_plan) where
  change_lem : IsValid c → IsValid d → change c d ≡ ok e → (e ≡ d) × Changes c d
  unfolding change
  change_lem v w h =
      let (alive, rest) = check_parts _ _ e h in
      let (halted, later) = check_parts (check_halt c d) _ e rest in
      let (epoch, last) = check_parts (check_epoch c d) _ e later in
      let living = negated (c.phase == aborted) (require_lem _ _ alive) in
      elim (Bool-cases (c.phase == stage completed)) [
        | inl y ↦
            let (same, done, frozen) = activate_lem c d e (rw y at last) in
            (
              same,
              record {
                same_transaction = same_transaction;
                same_plan = same_plan;
                alive = living;
                same_epoch = λ n.
                    absurd (ground (arith, (phase_Eq.same_iff d.phase (stage completed)).1 done));
                final = λ _. (done, frozen);
                kept = same_evidence c d frozen;
                valid = w;
                entered = λ r n _ _. absurd (cc (n, y));
                in_order =
                    subst (λ (s : Stage). rank d.last_verified_phase ≤ suc (rank s))
                      (sym (ap (λ (t : Transaction). t.last_verified_phase) frozen)) (omega arith);
              },
            )
        | inr n ↦
            let (same, staged, kept) = advance_lem c d e (rw n at last) in
            (
              same,
              record {
                same_transaction = same_transaction;
                same_plan = same_plan;
                alive = living;
                same_epoch = epoch_lem c d n epoch;
                final =
                    λ y. absurd (ground (arith, (phase_Eq.same_iff c.phase (stage completed)).1 y));
                kept = kept;
                valid = w;
                entered = λ r. entered_lem c d r epoch;
                in_order = ordered_lem c d v w halted staged;
              },
            )
      ]

module _ (unicode : Unicode) (digests : Digests) (schema : Transaction → List String)
    (digest : Transaction → String) where
  -- A call that returns gives the transaction that is there already, or the changed one.
  pub transition_lem :
      (c d e : Transaction)
      → transition unicode digests schema digest c d ≡ ok e
      → IsValid c × ((e ≡ c) ⊎ ((e ≡ d) × Changes c d))
  unfolding transition
  transition_lem c d e h =
      let (valid, rest) = check_parts (validate_transaction unicode digests schema c) _ e h in
      let (valid1, rest1) = check_parts (validate_transaction unicode digests schema d) _ e rest in
      let (identity, rest2) = check_parts _ _ e rest1 in
      let (plan, last) =
        check_parts _ (if digest c == digest d then ok c else change c d) e rest2 in
      let (same_id, _) =
        and_parts (c.transaction_id == d.transaction_id) _ (require_lem _ _ identity) in
      (
        validate-IsValid unicode digests schema c valid,
        elim (Bool-cases (digest c == digest d)) [
          | inl y ↦ inl (sym (ok_inj c e (rw y at last)))
          | inr n ↦ inr (
              change_lem c d e ((string_eq_iff c.transaction_id d.transaction_id).0 same_id)
                (eq→path c.migration_plan d.migration_plan (require_lem _ _ plan))
                (validate-IsValid unicode digests schema c valid)
                (validate-IsValid unicode digests schema d valid1) (rw n at last))
        ],
      )
