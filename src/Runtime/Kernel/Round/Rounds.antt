-- ===== src/Runtime/Kernel/Round/Rounds.antt =====
-- runtime.py: a round, and the loop, of `RunKernel.run` keep the invariant and the budgets.
use trace_gate_framework.Prelude.{
  ℕ, zero, suc, ◌+◌, ◌≤◌, String, ◌≡◌, refl, false, none, some, List, length, arith, traverse,
}
use trace_gate_framework.Prelude.Exec.{Exec, lift, ◌>>=◌, Leads, Leads-bind, Leads-if}
use trace_gate_framework.Runtime.Events.{
  Action, Body, model_started, model_action, verification, delegation_requested, run_completed,
  Event, effect_Eq,
}
use trace_gate_framework.Runtime.Registry.{BatchCall}
use trace_gate_framework.Runtime.Kernel.{
  assistant, feedback, ParsedAction, call, batch, answered, reported, delegated, ledger_action,
  RunKernel, RunState, completed, awaiting_delegation,
}
use trace_gate_framework.Runtime.Kernel.Round.{
  Deadline, Outcome, again, finished, emit, check_deadline, begin_step, begin_attempts, batch_round,
  complete_run, retry_answer, answer_round, delegate_round, perform, round, loop, next_round,
  boolean_verdict,
}
use trace_gate_framework.Runtime.Kernel.Round.Keeping.{is_step, is_attempt, Running, emit-Running}
use trace_gate_framework.Runtime.Kernel.Round.Bounds.{
  Room, Keeps, plain-Keeps, say-Keeps, check_deadline-Keeps, ask_model-Keeps, lift-Keeps,
  pure-Keeps, call_tools-Keeps, verify-Keeps, bind-Keeps, begin_attempts-Room, check_budget-Keeps,
  record_outputs-Keeps, tool_call_round-Keeps,
}

module _ {World : Type 0} (k : RunKernel World) (before : List Event) (b c : ℕ)
    (roomy : k.limits.max_tool_calls ≤ c) where
  then-Keeps :
      {A B : Type 0} (m : Exec (RunState World) A) (f : A → Exec (RunState World) B)
      → Keeps k before b c roomy m
      → ((a : A) → Keeps k before b c roomy (f a))
      → Keeps k before b c roomy (m >>= f)
  then-Keeps m f p q = bind-Keeps k before b c roomy m f p q

  emit-Keeps :
      (body : Body)
      → is_step body ≡ false
      → is_attempt body ≡ false
      → Keeps k before b c roomy (emit k body)
  emit-Keeps = plain-Keeps k before b c roomy

  batch_round-Keeps :
      (deadline : Deadline) (action : Action) (calls : List BatchCall)
      → Keeps k before b c roomy (batch_round k deadline action calls)
  unfolding batch_round
  batch_round-Keeps deadline action calls = check_budget-Keeps k before b c roomy (length calls) _ (
      Leads-bind (Room k before b c roomy (length calls)) (Room k before b c roomy (length calls))
        (Running k before b c) (lift (traverse _ calls)) _ (λ s v. v) (λ s v. v.0)
        (λ definitions.
          Leads-bind (Room k before b c roomy (length calls))
            (Room k before b c roomy (length calls)) (Running k before b c) (lift _) _ (λ s v. v)
            (λ s v. v.0)
            (λ _.
              Leads-bind (Room k before b c roomy (length calls)) (Running k before b c)
                (Running k before b c) (begin_attempts k calls definitions) _
                (begin_attempts-Room k before b c roomy calls definitions) (λ s v. v)
                (λ ids. then-Keeps _ _ (call_tools-Keeps k before b c roomy calls) (λ outputs.
                  then-Keeps _ _ (say-Keeps k before b c roomy (assistant action)) (λ _.
                    then-Keeps _ _ (record_outputs-Keeps k before b c roomy ids outputs) (λ _.
                      then-Keeps _ _ (check_deadline-Keeps k before b c roomy deadline)
                        (λ _. pure-Keeps k before b c roomy again))))))))

  complete_run-Keeps : (content : String) → Keeps k before b c roomy (complete_run k content)
  unfolding complete_run
  complete_run-Keeps content =
      then-Keeps _ _ (emit-Keeps (run_completed (some content)) refl refl)
        (λ _. pure-Keeps k before b c roomy (finished completed (some content)))

  retry_answer-Keeps :
      (action : Action) (result : String) → Keeps k before b c roomy (retry_answer k action result)
  unfolding retry_answer
  retry_answer-Keeps action result =
      then-Keeps _ _ (say-Keeps k before b c roomy (assistant action)) (λ _.
        then-Keeps _ _ (say-Keeps k before b c roomy (feedback result))
          (λ _. pure-Keeps k before b c roomy again))

  answer_round-Keeps :
      (deadline : Deadline) (action : Action) (content : String)
      → Keeps k before b c roomy (answer_round k deadline action content)
  unfolding answer_round
  answer_round-Keeps deadline action content =
      then-Keeps _ _ (verify-Keeps k before b c roomy content) (λ found.
        then-Keeps _ _ (check_deadline-Keeps k before b c roomy deadline) (λ _.
          then-Keeps _ _ (lift-Keeps k before b c roomy (boolean_verdict k found)) (λ verdict.
            then-Keeps _ _ (emit-Keeps (verification verdict) refl refl) (λ _.
              Leads-if (Running k before b c) (Running k before b c) verdict.passed
                (complete_run k content) (retry_answer k action verdict.result)
                (λ _. complete_run-Keeps content)
                (λ _. retry_answer-Keeps action verdict.result)))))

  perform-Keeps :
      (deadline : Deadline) (action : Action) (parsed : ParsedAction)
      → Keeps k before b c roomy (perform k deadline action parsed)
  unfolding perform delegate_round
  perform-Keeps deadline action (call tool_id arguments) =
      tool_call_round-Keeps k before b c roomy deadline action tool_id arguments
  perform-Keeps deadline action (batch calls) = batch_round-Keeps deadline action calls
  perform-Keeps deadline action (answered content) = answer_round-Keeps deadline action content
  perform-Keeps deadline action (reported message) = λ s v. v
  perform-Keeps deadline action (delegated task) =
      then-Keeps _ _ (emit-Keeps (delegation_requested task) refl refl)
        (λ _. pure-Keeps k before b c roomy (finished awaiting_delegation none))

module _ {World : Type 0} (k : RunKernel World) (before : List Event) (c : ℕ)
    (roomy : k.limits.max_tool_calls ≤ c) where
  -- A larger bound is kept too.
  pub weaken :
      (b d : ℕ) (s : RunState World) → b ≤ d → Running k before b c s → Running k before d c s
  weaken b d s le v = record {
    accepted = v.accepted;
    on_disk = v.on_disk;
    added = v.added;
    extends = v.extends;
    owned = v.owned;
    steps_counted = v.steps_counted;
    calls_counted = v.calls_counted;
    steps_bounded = omega (arith, v.steps_bounded, le);
    calls_bounded = v.calls_bounded;
  }

  begin_step-Running :
      (b : ℕ) → Leads (Running k before b c) (Running k before (b + 1) c) (begin_step k)
  unfolding begin_step
  begin_step-Running b s v =
      emit-Running k before (b + 1) c model_started (record s { steps = s.steps + 1 }) s.steps
        s.tool_calls (weaken b (b + 1) s (omega arith) v) (omega arith) (omega arith)
        (omega (arith, v.steps_bounded)) v.calls_bounded

  -- A round takes one step.
  round-Running :
      (b : ℕ) (deadline : Deadline)
      → Leads (Running k before b c) (Running k before (b + 1) c) (round k deadline)
  unfolding round
  round-Running b deadline =
      Leads-bind (Running k before b c) (Running k before b c) (Running k before (b + 1) c)
        (check_deadline k deadline) _ (check_deadline-Keeps k before b c roomy deadline)
        (λ s v. weaken b (b + 1) s (omega arith) v)
        (λ _.
          Leads-bind (Running k before b c) (Running k before (b + 1) c)
            (Running k before (b + 1) c) (begin_step k) _ (begin_step-Running b) (λ s v. v)
            (λ _.
              then-Keeps k before (b + 1) c roomy _ _ (ask_model-Keeps k before (b + 1) c roomy)
                (λ parsed.
                  then-Keeps k before (b + 1) c roomy _ _
                    (check_deadline-Keeps k before (b + 1) c roomy deadline)
                    (λ _.
                      then-Keeps k before (b + 1) c roomy _ _
                        (lift-Keeps k before (b + 1) c roomy (ledger_action parsed))
                        (λ action.
                          then-Keeps k before (b + 1) c roomy _ _
                            (emit-Keeps k before (b + 1) c roomy (model_action action) refl refl)
                            (λ _.
                              perform-Keeps k before (b + 1) c roomy deadline action parsed))))))

  -- The loop takes at most as many steps as there are rounds left.
  pub loop-Running :
      (b left : ℕ) (deadline : Deadline)
      → Leads (Running k before b c) (Running k before (b + left) c) (loop k deadline left)
  unfolding loop
  loop-Running b zero deadline = λ s v. weaken b (b + 0) s (omega arith) v
  loop-Running b (suc left) deadline =
      Leads-bind (Running k before b c) (Running k before (b + 1) c)
        (Running k before (b + suc left) c) (round k deadline) _ (round-Running b deadline)
        (λ s v. weaken (b + 1) (b + suc left) s (omega arith) v)
        (next_round-Running (loop-Running (b + 1) left deadline))
    where
      next_round-Running :
          Leads
            (Running k before (b + 1) c)
            (Running k before (b + 1 + left) c)
            (loop k deadline left)
          → (outcome : Outcome)
          → Leads
              (Running k before (b + 1) c)
              (Running k before (b + suc left) c)
              (next_round k (loop k deadline left) outcome)
      next_round-Running rest again = λ s v.
          weaken (b + 1 + left) (b + suc left) (loop k deadline left s).1 (omega arith) (rest s v)
      next_round-Running rest (finished status answer) =
          λ s v. weaken (b + 1) (b + suc left) s (omega arith) v
