-- ===== src/Runtime/Kernel/Completed.antt =====
-- runtime.py: a completed result of `RunKernel.run` reports a verified answer.
use trace_gate_framework.Prelude.{
  ℕ, ◌+◌, ◌-◌, String, string_Eq, string_eq_iff, ◌==◌, ◌≡◌, ◌⊎◌, refl, sym, ap, ◌∙◌, subst, Bool,
  true, inl, inr, Option, none, some, some-inj, List, [], ◌∷◌, ◌++◌, arith, Result, ok, err,
  Bool-cases, last?,
}
use trace_gate_framework.Runtime.Events.{
  answer, Verdict, run_resumed, run_completed, model_action, verification, Unsigned, Event,
}
use trace_gate_framework.Runtime.Ledger.{validate}
use trace_gate_framework.Runtime.Ledger.Scanning.{events_of, events_of-append}
use trace_gate_framework.Runtime.Ledger.Completion.{completion_verified}
use trace_gate_framework.Runtime.Ledger.Store.{EventStore, validate_on_disk}
use trace_gate_framework.Runtime.Kernel.{
  Turn, RunKernel, RunState, RunStatus, completed, blocked, RunResult,
}
use trace_gate_framework.Runtime.Kernel.Round.{Deadline, emit, loop}
use trace_gate_framework.Runtime.Kernel.Entry.{
  Entry, replayed, refused, resumed, fresh_start, entry_after, entry, begin, enter, initial, run,
  guarded, enter_by, deadline_from, started_body, completion_of,
}
use trace_gate_framework.Runtime.Kernel.Budgets.{run-Running}
use trace_gate_framework.Runtime.Kernel.Answers.{
  EndsWith, Ended, LoopEnded, Answered, loop-LoopEnded, conclude-Answered,
}

last_of_cons :
    (x e : Event) (l : List Event)
    → last? (x ∷ l) ≡ some e
    → ((l ≡ []) × (x ≡ e)) ⊎ (last? l ≡ some e)
last_of_cons x e [] h = inl (refl, some-inj h)
last_of_cons x e (y ∷ l) h = inr h

-- Where the last event of a run stands in the ledger.
last_of_run :
    (r : String) (es : List Event) (e : Event)
    → last? (events_of r es) ≡ some e
    → (xs ys : List Event) × (es ≡ xs ++ e ∷ ys) × (e.run_id ≡ r) × (events_of r ys ≡ [])
unfolding events_of
last_of_run r [] e h = absurd (ground arith)
last_of_run r (x ∷ es) e h =
    let rest : last? (events_of r es) ≡ some e
        → (xs ys : List Event) × (x ∷ es ≡ xs ++ e ∷ ys) × (e.run_id ≡ r) × (events_of r ys ≡ []) =
      λ l.
        let (xs, ys, cut, own, after) = last_of_run r es e l in
        (x ∷ xs, ys, ap (λ t. x ∷ t) cut, own, after) in
    elim (Bool-cases (x.run_id == r)) [
      | inl y ↦ elim (last_of_cons x e (events_of r es) (rw y at h)) [
        | inl (empty, same) ↦ (
          [],
          es,
          ap (λ t. t ∷ es) same,
          ap (λ t. t.run_id) (sym same) ∙ (string_eq_iff x.run_id r).0 y,
          empty,
        )
        | inr l ↦ rest l
      ]
      | inr n ↦ rest (rw n at h)
    ]

completion_of_lem :
    (found : Option Event) (ans : Option String)
    → completion_of found ≡ some ans
    → (e : Event) × (found ≡ some e) × (e.body ≡ run_completed ans)
completion_of_lem none ans h = absurd (ground arith)
completion_of_lem (some e) ans h = (e, refl, ground arith)

replayed_entry :
    (is_blank : String → Bool) (scope : String) (existing : List Event) (approval : Option String)
    (found : Option (Option String)) (ans : Option String)
    → entry_after is_blank scope existing approval found ≡ replayed ans
    → found ≡ some ans
replayed_entry is_blank scope existing approval (some a) ans h = ground arith
replayed_entry is_blank scope existing none none ans h = absurd (ground arith)
replayed_entry is_blank scope existing (some text) none ans h = absurd (ground arith)

-- How the events of a run end, in an accepted ledger, when the last of them is a completion.
ended_events :
    (sha256 : String → String) (dumps : Unsigned → String) (run_id : String) (ans : Option String)
    (es : List Event) (e : Event)
    → last? (events_of run_id es) ≡ some e
    → e.body ≡ run_completed ans
    → validate sha256 dumps es ≡ ok tt
    → (rs : List Event) × (a v e : Event) × (content : String) × (verdict : Verdict) × (events_of
          run_id es
        ≡ (rs ++ a ∷ v ∷ []) ++ e ∷ [])
      × (a.body ≡ model_action (answer content))
      × (v.body ≡ verification verdict)
      × (verdict.passed ≡ true)
      × (e.body ≡ run_completed (some content))
      × (ans ≡ some content)
unfolding events_of
ended_events sha256 dumps run_id ans es e last body accepted =
    let (xs, ys, cut, own, after) = last_of_run run_id es e last in
    let (rs, a, v, content, verdict, events, candidate, verified, passed, same) =
      completion_verified sha256 dumps xs ys e ans
        (subst (λ t. validate sha256 dumps t ≡ ok tt) cut accepted) body in
    let whole : events_of run_id (xs ++ e ∷ ys) ≡ (rs ++ a ∷ v ∷ []) ++ e ∷ [] =
      rw (events_of-append, (string_eq_iff e.run_id run_id).1 own, after)
        (ap (λ t. t ++ e ∷ []) (subst (λ i. events_of i xs ≡ rs ++ a ∷ v ∷ []) own events)) in
    (
      rs,
      a,
      v,
      e,
      content,
      verdict,
      ap (events_of run_id) cut ∙ whole,
      candidate,
      verified,
      passed,
      body ∙ ap run_completed same,
      same,
    )

module _ {World : Type 0} (k : RunKernel World) where
  enter_by-LoopEnded :
      (found : Option (String → World → Result (Option Verdict) × World)) (deadline : Deadline)
      (s : RunState World) (o : RunStatus × Option String)
      → (enter_by k found deadline s).0 ≡ ok o
      → LoopEnded k o (enter_by k found deadline s).1
  enter_by-LoopEnded none deadline s o h = absurd (ground arith)
  enter_by-LoopEnded (some verifier) deadline s o h =
      loop-LoopEnded k deadline (k.limits.max_steps - s.steps) s o
        (loop k deadline (k.limits.max_steps - s.steps) s).1
        (ap (λ x. (x, (loop k deadline (k.limits.max_steps - s.steps) s).1)) h)

  guarded-Answered :
      (deadline : ℕ) (m : Result (Unit {0}) × RunState World) (r : RunResult) (s' : RunState World)
      → guarded k deadline m ≡ (ok r, s')
      → Answered k r s'
  guarded-Answered deadline (err e, s) r s' h = absurd (ground arith)
  guarded-Answered deadline (ok done, s) r s' h =
      let (now, world) = k.environment.clock s.world in
      let here = record s { world = world } in
      conclude-Answered k (enter_by k k.environment.verifier (deadline_from k deadline now) here) r
        s' (enter_by-LoopEnded k.environment.verifier (deadline_from k deadline now) here) h

  idle-Answered :
      (status : RunStatus) (ans : Option String) (s : RunState World) (r : RunResult)
      (s' : RunState World)
      → Ended k status ans s
      → status ≡ r.status
      → ans ≡ r.answer
      → s ≡ s'
      → Answered k r s'
  idle-Answered status ans s r s' e same_status same_answer here =
      subst (λ x. Ended k x r.answer s') same_status
        (subst (λ x. Ended k status x s') same_answer (subst (λ x. Ended k status ans x) here e))

  enter-Answered :
      (messages : List Turn) (how : Entry) (s : RunState World) (r : RunResult)
      (s' : RunState World)
      → ((ans : Option String) → how ≡ replayed ans → EndsWith k ans s.store)
      → enter k messages how s ≡ (ok r, s')
      → Answered k r s'
  unfolding enter begin
  enter-Answered messages (replayed ans) s r s' p h =
      idle-Answered completed ans s r s' (p ans refl) (ground arith) (ground arith) (ground arith)
  enter-Answered messages (refused reason) s r s' p h =
      idle-Answered blocked none s r s' tt (ground arith) (ground arith) (ground arith)
  enter-Answered messages (resumed approval deadline) s r s' p h =
      guarded-Answered deadline (emit k (run_resumed approval) s) r s' h
  enter-Answered messages fresh_start s r s' p h =
      let (now, world) = k.environment.clock s.world in
      let deadline = now.time + k.limits.deadline_seconds in
      guarded-Answered deadline
        (emit k (started_body k messages deadline) (record s { world = world })) r s' h

  pub run-Answered :
      (messages : List Turn) (approval : Option String) (store : EventStore) (world : World)
      (r : RunResult) (s' : RunState World)
      → validate_on_disk k.environment.sha256 k.environment.dumps store ≡ ok tt
      → run k messages approval store world ≡ (ok r, s')
      → Answered k r s'
  unfolding run entry initial
  run-Answered messages approval store world r s' v h =
      let existing = events_of k.run_id store.events in
      enter-Answered messages
        (entry k.environment.is_blank (k.environment.scope messages) existing approval)
        (initial k messages store world) r s'
        (λ ans how. completion_of_lem (last? existing) ans (
          replayed_entry k.environment.is_blank (k.environment.scope messages) existing approval
            (completion_of (last? existing)) ans how))
        (rw v at h)

  -- When a run on an accepted ledger returns a completed result, the events of the run in the ledger
  -- that it leaves end in a candidate answer, a verification that passed and the completion of the
  -- run, and the answer of the result is the content of that very candidate.
  pub completed_answer_verified :
      (messages : List Turn) (approval : Option String) (store : EventStore) (world : World)
      (r : RunResult) (s' : RunState World)
      → validate_on_disk k.environment.sha256 k.environment.dumps store ≡ ok tt
      → run k messages approval store world ≡ (ok r, s')
      → r.status ≡ completed
      → (rs : List Event) × (a v e : Event) × (content : String) × (verdict : Verdict) × (events_of
            k.run_id s'.store.events
          ≡ (rs ++ a ∷ v ∷ []) ++ e ∷ [])
        × (a.body ≡ model_action (answer content))
        × (v.body ≡ verification verdict)
        × (verdict.passed ≡ true)
        × (e.body ≡ run_completed (some content))
        × (r.answer ≡ some content)
  completed_answer_verified messages approval store world r s' valid h done =
      let (e, last, body) =
        subst (λ x. Ended k x r.answer s') done
          (run-Answered messages approval store world r s' valid h) in
      ended_events k.environment.sha256 k.environment.dumps k.run_id r.answer s'.store.events e last
        body
        (subst
          (λ (t : Result RunResult × RunState World).
            validate k.environment.sha256 k.environment.dumps t.1.store.events ≡ ok tt)
          h (run-Running k messages approval store world valid).accepted)
