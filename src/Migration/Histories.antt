-- ===== src/Migration/Histories.antt =====
-- migration.py: what every history of calls of `transition` keeps.
use trace_gate_framework.Prelude.{
  ◌<◌, String, string_Eq, nat_Eq, option_Eq, ◌≡◌, ◌≢◌, inl, inr, refl, sym, ap, ◌∙◌, subst, true,
  false, ◌==◌, some, List, arith, ok, Bool-cases,
}
use trace_gate_framework.Prelude.Dict.{lookup}
use trace_gate_framework.Migration.{
  completed, stage, aborted, phase_Eq, EvidenceReceipt, evidence_Eq, plan_Eq, Transaction,
  transaction_Eq,
}
use trace_gate_framework.Migration.Paths.{Unicode}
use trace_gate_framework.Migration.Validation.{Digests}
use trace_gate_framework.Migration.Transition.{frozen_part, by_id, transition}
use trace_gate_framework.Migration.Changes.{IsKept, Changes, transition_lem}

module _ (unicode : Unicode) (digests : Digests) (schema : Transaction → List String)
    (digest : Transaction → String) where
  -- The transactions that calls of `transition` lead to from one transaction.
  pub data History (c : Transaction) : Transaction → Type 0 where
    start : History c c
    next :
        {d f : Transaction} (e : Transaction)
        → History c d
        → transition unicode digests schema digest d e ≡ ok f
        → History c f

  -- What every history of a transaction keeps.
  record Keeps (c d : Transaction) : Type 0 where
    same_transaction : c.transaction_id ≡ d.transaction_id
    same_plan : c.migration_plan ≡ d.migration_plan
    kept : IsKept c d
    same_epoch : (d.phase == stage completed) ≡ false → d.authority_epoch ≡ c.authority_epoch
    final :
        c.phase ≡ stage completed → (d.phase ≡ stage completed) × (frozen_part c ≡ frozen_part d)
    terminal : c.phase ≡ aborted → d ≡ c
    raised :
        (c.phase == stage completed) ≡ false
        → (d.phase == stage completed) ≡ true
        → c.authority_epoch < d.authority_epoch

  Keeps-Changes : (c d e : Transaction) → Keeps c d → Changes d e → Keeps c e
  Keeps-Changes c d e k w = record {
    same_transaction = k.same_transaction ∙ w.same_transaction;
    same_plan = k.same_plan ∙ w.same_plan;
    kept = λ id r found. w.kept id r (k.kept id r found);
    same_epoch = λ n. elim (Bool-cases (d.phase == stage completed)) [
      | inl y ↦ absurd (
          cc (
            n,
            (phase_Eq.same_iff e.phase (stage completed)).1
                (w.final ((phase_Eq.same_iff d.phase (stage completed)).0 y)).0,
          ))
      | inr m ↦ w.same_epoch n ∙ k.same_epoch m
    ];
    final = λ done.
        let (later, frozen) = k.final done in
        let (last, same) = w.final later in (last, frozen ∙ same);
    terminal = λ over.
        let there : d.phase ≡ aborted =
          ap (λ (t : Transaction). t.phase) (k.terminal over) ∙ over in
        absurd (cc (w.alive, (phase_Eq.same_iff d.phase aborted).1 there));
    raised = λ n y. elim (Bool-cases (d.phase == stage completed)) [
      | inl done ↦
          let (_, frozen) = w.final ((phase_Eq.same_iff d.phase (stage completed)).0 done) in
          omega (arith, k.raised n done, ap (λ (t : Transaction). t.authority_epoch) frozen)
      | inr m ↦
          let (r, moved) = w.valid.moved y in
          omega (arith, w.entered r m y moved.given, k.same_epoch m, moved.epoch, moved.raised)
    ];
  }

  History-Keeps : {c d : Transaction} → History c d → Keeps c d
  History-Keeps start = record {
    same_transaction = refl;
    same_plan = refl;
    kept = λ id r found. found;
    same_epoch = λ n. refl;
    final = λ done. (done, refl);
    terminal = λ over. refl;
    raised = λ n y. absurd (cc (n, y));
  }
  History-Keeps {c} (next {d} e before call) =
      elim (transition_lem unicode digests schema digest d e _ call).1 [
        | inl same ↦ subst (Keeps c) (sym same) (History-Keeps before)
        | inr (same, changes) ↦
            subst (Keeps c) (sym same) (Keeps-Changes c d e (History-Keeps before) changes)
      ]

  -- However often a migration is moved on, it stays the same transaction under the same approved
  -- plan, and a receipt of evidence that it has had is there unchanged.
  pub evidence_append_only :
      (c d : Transaction) (id : String) (r : EvidenceReceipt)
      → History c d
      → lookup id (by_id c.evidence) ≡ some r
      → (c.transaction_id ≡ d.transaction_id)
        × (c.migration_plan ≡ d.migration_plan)
        × (lookup id (by_id d.evidence) ≡ some r)
  evidence_append_only c d id r h found =
      let k = History-Keeps h in (k.same_transaction, k.same_plan, k.kept id r found)

  -- While a migration is not completed, its authority epoch is the one that it started with, and so
  -- its history has no completed transaction.
  pub epoch_until_cutover :
      (c d : Transaction)
      → History c d
      → d.phase ≢ stage completed
      → (d.authority_epoch ≡ c.authority_epoch) × (c.phase ≢ stage completed)
  epoch_until_cutover c d h n =
      let k = History-Keeps h in
      (
        k.same_epoch (elim (Bool-cases (d.phase == stage completed)) [
          | inl y ↦ absurd (n ((phase_Eq.same_iff d.phase (stage completed)).0 y))
          | inr m ↦ m
        ]),
        λ done. n (k.final done).0,
      )

  -- The cutover raises the authority epoch: it is higher in every completed transaction that the
  -- history of an uncompleted one leads to.
  pub cutover_raises_epoch :
      (c d : Transaction)
      → History c d
      → c.phase ≢ stage completed
      → d.phase ≡ stage completed
      → c.authority_epoch < d.authority_epoch
  cutover_raises_epoch c d h n y =
      (History-Keeps h).raised
        (elim (Bool-cases (c.phase == stage completed)) [
          | inl done ↦ absurd (n ((phase_Eq.same_iff c.phase (stage completed)).0 done))
          | inr m ↦ m
        ])
        ((phase_Eq.same_iff d.phase (stage completed)).1 y)

  -- A completed migration stays completed, and nothing of it changes later but the switch of the
  -- destination's writes and its approval.
  pub completed_is_frozen :
      (c d : Transaction)
      → History c d
      → c.phase ≡ stage completed
      → (d.phase ≡ stage completed) × (frozen_part c ≡ frozen_part d)
  completed_is_frozen c d h done = (History-Keeps h).final done

  -- An aborted migration is never changed again.
  pub aborted_is_terminal : (c d : Transaction) → History c d → c.phase ≡ aborted → d ≡ c
  aborted_is_terminal c d h over = (History-Keeps h).terminal over
