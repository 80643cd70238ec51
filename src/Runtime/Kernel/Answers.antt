-- ===== src/Runtime/Kernel/Answers.antt =====
-- runtime.py: a run that reports an answer has it verified in its ledger.
use trace_gate_framework.Prelude.{
  ℕ, zero, suc, String, string_Eq, string_eq_iff, ◌≡◌, ◌≢◌, refl, subst, Bool, true, false, inl,
  inr, Option, none, some, if◌then◌else◌, arith, Result, ok, err, Error, Result-cases, Bool-cases,
  last?,
}
use trace_gate_framework.Prelude.Exec.{Exec, pure, then_do, ◌>>=◌}
use trace_gate_framework.Runtime.Events.{Action, run_completed, run_blocked, run_failed, Event}
use trace_gate_framework.Runtime.Ledger.Scanning.{events_of, events_of-append, last?-snoc}
use trace_gate_framework.Runtime.Ledger.Appending.{append_lem}
use trace_gate_framework.Runtime.Ledger.Store.{EventStore, append}
use trace_gate_framework.Runtime.Kernel.{
  ParsedAction, call, batch, answered, reported, delegated, RunKernel, RunState, RunStatus,
  completed, blocked, failed, awaiting_delegation, RunResult,
}
use trace_gate_framework.Runtime.Kernel.Round.{
  Deadline, Outcome, again, finished, emit, tool_call_round, batch_round, complete_run,
  retry_answer, answer_round, delegate_round, perform, round, loop, next_round,
}
use trace_gate_framework.Runtime.Kernel.Entry.{conclude, after_error, is_permission}

-- What a call returns and leaves, where it does not raise.
abbrev Yields : {S A : Type 0} → (A → S → Type 0) → Exec S A → Type 0
Yields {S} {A} Q m = (s : S) (a : A) (s' : S) → m s ≡ (ok a, s') → Q a s'

then_do-Yields :
    {S A B : Type 0} (Q : B → S → Type 0) (r : Result A × S) (f : A → Exec S B)
    → ((a : A) → Yields Q (f a))
    → (b : B) (s' : S) → then_do r f ≡ (ok b, s')
    → Q b s'
then_do-Yields Q (ok a, s) f p b s' h = p a s b s' h
then_do-Yields Q (err e, s) f p b s' h = absurd (ground arith)

Yields-bind :
    {S A B : Type 0} (Q : B → S → Type 0) (m : Exec S A) (f : A → Exec S B)
    → ((a : A) → Yields Q (f a))
    → Yields Q (m >>= f)
unfolding ◌>>=◌
Yields-bind Q m f p s b s' h = then_do-Yields Q (m s) f p b s' h

then_do_parts :
    {S A B : Type 0} (r : Result A × S) (f : A → Exec S B) (b : B) (s' : S)
    → then_do r f ≡ (ok b, s')
    → (a : A) × (s : S) × (r ≡ (ok a, s)) × (f a s ≡ (ok b, s'))
then_do_parts (ok a, s) f b s' h = (a, s, refl, h)
then_do_parts (err e, s) f b s' h = absurd (ground arith)

then_pure :
    {S A : Type 0} (r : Result (Unit {0}) × S) (x : A) (a : A) (s' : S)
    → then_do r (λ _. pure x) ≡ (ok a, s')
    → (r ≡ (ok tt, s')) × (x ≡ a)
then_pure (ok tt, s) x a s' h = (ground arith, ground arith)
then_pure (err e, s) x a s' h = absurd (ground arith)

Yields-if :
    {S A : Type 0} (Q : A → S → Type 0) (b : Bool) (m n : Exec S A)
    → Yields Q m
    → Yields Q n
    → Yields Q (if b then m else n)
Yields-if Q true m n p q = p
Yields-if Q false m n p q = q

module _ {World : Type 0} (k : RunKernel World) where
  -- The run's last event is its completion with this answer.
  abbrev pub EndsWith : Option String → EventStore → Type 0
  EndsWith ans store =
      (e : Event) × (last? (events_of k.run_id store.events) ≡ some e)
      × (e.body ≡ run_completed ans)

  abbrev pub Ended : RunStatus → Option String → RunState World → Type 0
  Ended completed ans s = EndsWith ans s.store
  Ended _ ans s = Unit {0}

  abbrev EndedBy : Outcome → RunState World → Type 0
  EndedBy again s = Unit {0}
  EndedBy (finished status ans) s = Ended status ans s

  emitted :
      (ans : Option String) (s : RunState World) (u : Unit {0}) (s' : RunState World)
      → emit k (run_completed ans) s ≡ (ok u, s')
      → EndsWith ans s'.store
  unfolding emit events_of
  emitted ans s u s' h =
      elim (Result-cases
        (append k.environment.sha256 k.environment.dumps k.run_id (run_completed ans) s.store)) [
          | inl (e, y) ↦ absurd (ground arith)
          | inr ((digest, store), y) ↦
              let (e, written, own, content, _, _, _) =
                append_lem k.environment.sha256 k.environment.dumps k.run_id (run_completed ans)
                  s.store store digest y in
              let same : store ≡ s'.store = ground arith in
              (
                e,
                rw (← same, written, events_of-append, (string_eq_iff e.run_id k.run_id).1 own)
                    (last?-snoc (events_of k.run_id s.store.events) e),
                content,
              )
        ]

  complete_run-EndedBy : (content : String) → Yields EndedBy (complete_run k content)
  unfolding complete_run ◌>>=◌
  complete_run-EndedBy content s o s' h =
      let (done, same) =
        then_pure (emit k (run_completed (some content)) s) (finished completed (some content)) o s'
          h in
      subst (λ x. EndedBy x s') same (emitted (some content) s tt s' done)

  again-EndedBy : Yields EndedBy (pure again)
  again-EndedBy s o s' h = let same : again ≡ o = ground arith in subst (λ x. EndedBy x s') same tt

  waiting-EndedBy : Yields EndedBy (pure (finished awaiting_delegation none))
  waiting-EndedBy s o s' h =
      let same : finished awaiting_delegation none ≡ o = ground arith in
      subst (λ x. EndedBy x s') same tt

  then-EndedBy :
      {A : Type 0} (m : Exec (RunState World) A) (f : A → Exec (RunState World) Outcome)
      → ((a : A) → Yields EndedBy (f a))
      → Yields EndedBy (m >>= f)
  then-EndedBy m f p = Yields-bind EndedBy m f p

  perform-EndedBy :
      (deadline : Deadline) (action : Action) (parsed : ParsedAction)
      → Yields EndedBy (perform k deadline action parsed)
  unfolding perform tool_call_round batch_round answer_round delegate_round retry_answer
  perform-EndedBy deadline action (call tool_id arguments) = then-EndedBy _ _ (λ _.
      then-EndedBy _ _ (λ _. then-EndedBy _ _ (λ _. then-EndedBy _ _ (λ _. then-EndedBy _ _ (λ _.
        then-EndedBy _ _ (λ _. then-EndedBy _ _ (λ _. then-EndedBy _ _ (λ _. again-EndedBy))))))))
  perform-EndedBy deadline action (batch calls) = then-EndedBy _ _ (λ _. then-EndedBy _ _ (λ _.
      then-EndedBy _ _ (λ _. then-EndedBy _ _ (λ _. then-EndedBy _ _ (λ _.
        then-EndedBy _ _ (λ _. then-EndedBy _ _ (λ _. then-EndedBy _ _ (λ _. again-EndedBy))))))))
  perform-EndedBy deadline action (answered content) = then-EndedBy _ _ (λ _. then-EndedBy _ _ (λ _.
      then-EndedBy _ _ (λ verdict. then-EndedBy _ _ (λ _.
        Yields-if EndedBy verdict.passed (complete_run k content)
          (retry_answer k action verdict.result) (complete_run-EndedBy content)
          (then-EndedBy _ _ (λ _. then-EndedBy _ _ (λ _. again-EndedBy)))))))
  perform-EndedBy deadline action (reported message) = λ s o s' h. absurd (ground arith)
  perform-EndedBy deadline action (delegated task) = then-EndedBy _ _ (λ _. waiting-EndedBy)

  round-EndedBy : (deadline : Deadline) → Yields EndedBy (round k deadline)
  unfolding round
  round-EndedBy deadline = then-EndedBy _ _ (λ _. then-EndedBy _ _ (λ _. then-EndedBy _ _ (λ parsed.
      then-EndedBy _ _ (λ _.
        then-EndedBy _ _
          (λ action. then-EndedBy _ _ (λ _. perform-EndedBy deadline action parsed))))))

  abbrev pub LoopEnded : RunStatus × Option String → RunState World → Type 0
  LoopEnded (status, ans) s = Ended status ans s

  next_round-LoopEnded :
      (rest : Exec (RunState World) (RunStatus × Option String)) (o : Outcome) (s : RunState World)
      (r : RunStatus × Option String) (s' : RunState World)
      → Yields LoopEnded rest
      → EndedBy o s
      → next_round k rest o s ≡ (ok r, s')
      → LoopEnded r s'
  next_round-LoopEnded rest again s r s' p e h = p s r s' h
  next_round-LoopEnded rest (finished status ans) s r s' p e h =
      let same : (status, ans) ≡ r = ground arith in
      let here : s ≡ s' = ground arith in
      subst (λ x. LoopEnded x s') same (subst (λ x. LoopEnded (status, ans) x) here e)

  pub loop-LoopEnded : (deadline : Deadline) (left : ℕ) → Yields LoopEnded (loop k deadline left)
  unfolding loop ◌>>=◌
  loop-LoopEnded deadline zero = λ s r s' h. absurd (ground arith)
  loop-LoopEnded deadline (suc left) = λ s r s' h.
      let (o, t, ran, rest) =
        then_do_parts (round k deadline s) (next_round k (loop k deadline left)) r s' h in
      next_round-LoopEnded (loop k deadline left) o t r s' (loop-LoopEnded deadline left)
        (round-EndedBy deadline s o t ran) rest

  -- What the result of a call says of the ledger after it.
  abbrev pub Answered : RunResult → RunState World → Type 0
  Answered r s = Ended r.status r.answer s

  after_error-Answered :
      (status : RunStatus) (e : Error) (m : Result (Unit {0}) × RunState World) (r : RunResult)
      (s' : RunState World)
      → status ≢ completed
      → after_error k status e m ≡ (ok r, s')
      → Answered r s'
  after_error-Answered completed e m r s' n h = absurd (n refl)
  after_error-Answered blocked e (ok done, s) r s' n h =
      let same : blocked ≡ r.status = ground arith in subst (λ x. Ended x r.answer s') same tt
  after_error-Answered failed e (ok done, s) r s' n h =
      let same : failed ≡ r.status = ground arith in subst (λ x. Ended x r.answer s') same tt
  after_error-Answered awaiting_delegation e (ok done, s) r s' n h =
      let same : awaiting_delegation ≡ r.status = ground arith in
      subst (λ x. Ended x r.answer s') same tt
  after_error-Answered blocked e (err x, s) r s' n h = absurd (ground arith)
  after_error-Answered failed e (err x, s) r s' n h = absurd (ground arith)
  after_error-Answered awaiting_delegation e (err x, s) r s' n h = absurd (ground arith)

  pub conclude-Answered :
      (m : Result (RunStatus × Option String) × RunState World) (r : RunResult)
      (s' : RunState World)
      → ((o : RunStatus × Option String) → m.0 ≡ ok o → LoopEnded o m.1)
      → conclude k m ≡ (ok r, s')
      → Answered r s'
  unfolding conclude
  conclude-Answered (ok (status, ans), s) r s' p h =
      let same : status ≡ r.status = ground arith in
      let same_answer : ans ≡ r.answer = ground arith in
      let here : s ≡ s' = ground arith in
      subst (λ x. Ended x r.answer s') same
        (subst (λ x. Ended status x s') same_answer
          (subst (λ x. Ended status ans x) here (p (status, ans) refl)))
  conclude-Answered (err e, s) r s' p h = elim (Bool-cases (is_permission k e)) [
    | inl y ↦
        after_error-Answered blocked e (emit k (run_blocked (k.environment.message e)) s) r s'
          (ground arith) (rw y at h)
    | inr n ↦
        after_error-Answered failed e (emit k (run_failed (k.environment.message e)) s) r s'
          (ground arith) (rw n at h)
  ]
