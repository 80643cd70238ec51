-- ===== src/Migration/Authority.antt =====
-- migration.py: who owns the artifacts of a migration, and which stage comes after which.
use trace_gate_framework.Prelude.{
  suc, ◌≤◌, ◌≡◌, ◌≢◌, eq_ne, ◌⊎◌, inl, inr, sym, subst, true, false, some, List, String, ◌==◌,
  arith, Bool-cases, ok,
}
use trace_gate_framework.Migration.{completed, stage, phase_Eq, Transaction, rank}
use trace_gate_framework.Migration.Paths.{Unicode}
use trace_gate_framework.Migration.Validation.{Digests}
use trace_gate_framework.Migration.Holds.{is_failure}
use trace_gate_framework.Migration.Valid.{IsValid}
use trace_gate_framework.Migration.Transition.{transition}
use trace_gate_framework.Migration.Changes.{transition_lem}

-- The destination owns what has been cut over. Nobody writes at the destination before, and the
-- source is the owner then, but while a failure stands.
pub IsOwned : Transaction → Type 0
IsOwned t =
    ((t.phase ≡ stage completed)
      × (t.canonical_owner ≡ some t.migration_plan.plan.destination.partition_id))
    ⊎ ((is_failure t.phase ≡ true) × (t.destination_business_writes ≡ false))
    ⊎ ((t.phase ≢ stage completed)
        × (is_failure t.phase ≡ false)
        × (t.canonical_owner ≡ some t.migration_plan.plan.source.partition_id)
        × (t.destination_business_writes ≡ false))

IsValid-IsOwned : (t : Transaction) → IsValid t → IsOwned t
unfolding IsOwned
IsValid-IsOwned t v = elim (Bool-cases (t.phase == stage completed)) [
  | inl y ↦
      let (c, moved) = v.moved y in
      inl ((phase_Eq.same_iff t.phase (stage completed)).0 y, moved.owner)
  | inr n ↦ elim (Bool-cases (is_failure t.phase)) [
    | inl failing ↦ inr (inl (failing, v.quiet n))
    | inr m ↦ inr (inr (eq_ne t.phase (stage completed) n, m, v.owned n m, v.quiet n))
  ]
]

module _ (unicode : Unicode) (digests : Digests) (schema : Transaction → List String)
    (digest : Transaction → String) where
  -- Of the transaction that a call of `transition` returns, the destination is the owner when it is
  -- completed; when it is not completed nobody writes at the destination, and the source is the owner
  -- unless a failure stands.
  pub transition-IsOwned :
      (c d e : Transaction) → transition unicode digests schema digest c d ≡ ok e → IsOwned e
  transition-IsOwned c d e h =
      let (valid, went) = transition_lem unicode digests schema digest c d e h in
      elim went [
        | inl same ↦ subst IsOwned (sym same) (IsValid-IsOwned c valid)
        | inr (same, changes) ↦ subst IsOwned (sym same) (IsValid-IsOwned d changes.valid)
      ]

  -- A call of `transition` moves the last verified stage on by one stage at most.
  pub no_stage_skipped :
      (c d e : Transaction)
      → transition unicode digests schema digest c d ≡ ok e
      → rank e.last_verified_phase ≤ suc (rank c.last_verified_phase)
  no_stage_skipped c d e h =
      let (valid, went) = transition_lem unicode digests schema digest c d e h in
      elim went [
        | inl same ↦
            subst
              (λ (t : Transaction). rank t.last_verified_phase ≤ suc (rank c.last_verified_phase))
              (sym same) (omega arith)
        | inr (same, changes) ↦
            subst
              (λ (t : Transaction). rank t.last_verified_phase ≤ suc (rank c.last_verified_phase))
              (sym same) changes.in_order
      ]
