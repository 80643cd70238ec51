-- ===== src/Runtime/Kernel/Round/Metering.antt =====
-- runtime.py: how often a round, and the loop, of `RunKernel.run` call the model and the tools.
use trace_gate_framework.Prelude.{
  if◌then◌else◌, ℕ, zero, suc, ◌+◌, String, ◌≡◌, Bool, true, false, inl, inr, Option, none, some,
  List, [], ◌∷◌, length, arith, traverse, Result, ok, Result-cases,
}
use trace_gate_framework.Prelude.Exec.{Exec, lift, Triple, Triple-bind}
use trace_gate_framework.Runtime.Events.{
  Action, effect_Eq, model_action, verification, delegation_requested,
}
use trace_gate_framework.Runtime.Registry.{ToolDefinition, Arguments, BatchCall, Output}
use trace_gate_framework.Runtime.Kernel.{
  assistant, ParsedAction, call, batch, answered, reported, delegated, ledger_action, RunKernel,
  RunState, RunStatus, completed, awaiting_delegation,
}
use trace_gate_framework.Runtime.Kernel.Round.{
  Deadline, Outcome, again, finished, check_deadline, say, call_tools, tool_call_round,
  begin_attempts, record_outputs, batch_round, boolean_verdict, complete_run, retry_answer,
  answer_round, delegate_round, perform, round, loop, next_round,
}
use trace_gate_framework.Runtime.Kernel.Round.Meters.{Meter}
use trace_gate_framework.Runtime.Kernel.Round.Calls.{
  Fits, Fit, Takes, ask_model-Takes, begin_attempt-Takes, begin_step-Takes, call_tool-Takes,
  call_tools-Takes, check_budget-Takes, check_deadline-Takes, emit-Takes, lift-Takes, pure-Takes,
  say-Takes, then-Takes, verify-Takes,
}

length-traverse :
    {A B : Type 0} (f : A → Result B) (xs : List A) (ys : List B)
    → traverse f xs ≡ ok ys
    → length ys ≡ length xs
unfolding traverse
length-traverse f [] ys h = ground arith
length-traverse f (x ∷ xs) ys h = elim (Result-cases (f x)) [
  | inl (e, failed) ↦ absurd (ground arith)
  | inr (y, first) ↦ elim (Result-cases (traverse f xs)) [
    | inl (e, failed) ↦ absurd (ground arith)
    | inr (rest, found) ↦ ground (arith, length-traverse f xs rest found)
  ]
]

module _ {World : Type 0} (k : RunKernel World) (q : Meter k) where
  begin_attempts-Takes :
      (y : ℕ) (batched : List BatchCall) (definitions : List ToolDefinition)
      → length definitions ≡ length batched
      → Takes k q 0 y 0 (y + length batched) (begin_attempts k batched definitions)
  unfolding begin_attempts
  begin_attempts-Takes y [] definitions same s v = record {
    steps_cover = v.steps_cover;
    calls_cover = omega (arith, v.calls_cover);
  }
  begin_attempts-Takes y (c ∷ batched) [] same s v = absurd (omega (arith, same))
  begin_attempts-Takes y (c ∷ batched) (definition ∷ definitions) same s v =
      then-Takes k q 0 y 0 (y + 1) 0 (y + suc (length batched)) _ _
        (begin_attempt-Takes k q 0 y definition c.arguments)
        (λ id.
          then-Takes k q 0 (y + 1) 0 (y + 1 + length batched) 0 (y + suc (length batched)) _ _
            (begin_attempts-Takes (y + 1) batched definitions (omega (arith, same)))
            (λ ids s v. record {
              steps_cover = v.steps_cover;
              calls_cover = omega (arith, v.calls_cover);
            }))
        s v

  record_outputs-Takes :
      (ids : List String) (outputs : List Output) → Takes k q 0 0 0 0 (record_outputs k ids outputs)
  unfolding record_outputs
  record_outputs-Takes [] outputs = pure-Takes k q 0 0 tt
  record_outputs-Takes (id ∷ ids) [] = pure-Takes k q 0 0 tt
  record_outputs-Takes (id ∷ ids) (output ∷ outputs) =
      then-Takes k q 0 0 0 0 0 0 _ _ (emit-Takes k q 0 0 _) (λ _.
        then-Takes k q 0 0 0 0 0 0 _ _ (say-Takes k q 0 0 _)
          (λ _. record_outputs-Takes ids outputs))

  tool_call_round-Takes :
      (deadline : Deadline) (action : Action) (tool_id : String) (arguments : Arguments)
      → Takes k q 0 0 0 0 (tool_call_round k deadline action tool_id arguments)
  unfolding tool_call_round
  tool_call_round-Takes deadline action tool_id arguments =
      then-Takes k q 0 0 0 0 0 0 _ _ (check_budget-Takes k q 0 0 1) (λ _.
        then-Takes k q 0 0 0 0 0 0 _ _ (lift-Takes k q 0 0 _) (λ definition.
          then-Takes k q 0 0 0 1 0 0 _ _ (begin_attempt-Takes k q 0 0 definition arguments) (λ id.
            then-Takes k q 0 1 0 0 0 0 _ _ (call_tool-Takes k q tool_id arguments) (λ output.
              then-Takes k q 0 0 0 0 0 0 _ _ (emit-Takes k q 0 0 _) (λ _.
                then-Takes k q 0 0 0 0 0 0 _ _ (check_deadline-Takes k q 0 0 deadline) (λ _.
                  then-Takes k q 0 0 0 0 0 0 _ _ (say-Takes k q 0 0 _) (λ _.
                    then-Takes k q 0 0 0 0 0 0 _ _ (say-Takes k q 0 0 _)
                      (λ _. pure-Takes k q 0 0 again))))))))

  abbrev Defined : List BatchCall → List ToolDefinition → RunState World → Type 0
  Defined batched definitions s = (length definitions ≡ length batched) × Fits k q 0 0 s

  lift-Defined :
      (f : BatchCall → Result ToolDefinition) (batched : List BatchCall)
      → Triple (Fits k q 0 0) (Defined batched) (Fit k q) (lift (traverse f batched))
  lift-Defined f batched s v = elim (Result-cases (traverse f batched)) [
    | inl (e, h) ↦ rw h v
    | inr (definitions, h) ↦ rw h (length-traverse f batched definitions h, v)
  ]

  batch_round-Takes :
      (deadline : Deadline) (action : Action) (batched : List BatchCall)
      → Takes k q 0 0 0 0 (batch_round k deadline action batched)
  unfolding batch_round
  batch_round-Takes deadline action batched =
      then-Takes k q 0 0 0 0 0 0 _ _ (check_budget-Takes k q 0 0 (length batched)) (λ _.
        Triple-bind (Fits k q 0 0) (Defined batched) (λ _ s. Fits k q 0 0 s) (Fit k q)
          (lift (traverse _ batched)) _ (lift-Defined _ batched)
          (λ definitions s (same, v).
            then-Takes k q 0 0 0 0 0 0 (lift _) _ (lift-Takes k q 0 0 _)
              (λ _.
                then-Takes k q 0 0 0 (0 + length batched) 0 0 (begin_attempts k batched definitions)
                  _ (λ s v. begin_attempts-Takes 0 batched definitions same s v)
                  (λ ids.
                    then-Takes k q 0 (0 + length batched) 0 0 0 0 (call_tools k batched) _
                      (call_tools-Takes k q batched)
                      (λ outputs.
                        then-Takes k q 0 0 0 0 0 0 (say k (assistant action)) _
                          (say-Takes k q 0 0 _)
                          (λ _.
                            then-Takes k q 0 0 0 0 0 0 (record_outputs k ids outputs) _
                              (record_outputs-Takes ids outputs)
                              (λ _.
                                then-Takes k q 0 0 0 0 0 0 (check_deadline k deadline) _
                                  (check_deadline-Takes k q 0 0 deadline)
                                  (λ _. pure-Takes k q 0 0 again))))))
              s v))

  complete_run-Takes : (content : String) → Takes k q 0 0 0 0 (complete_run k content)
  unfolding complete_run
  complete_run-Takes content =
      then-Takes k q 0 0 0 0 0 0 _ _ (emit-Takes k q 0 0 _)
        (λ _. pure-Takes k q 0 0 (finished completed (some content)))

  retry_answer-Takes :
      (action : Action) (result : String) → Takes k q 0 0 0 0 (retry_answer k action result)
  unfolding retry_answer
  retry_answer-Takes action result =
      then-Takes k q 0 0 0 0 0 0 _ _ (say-Takes k q 0 0 _)
        (λ _. then-Takes k q 0 0 0 0 0 0 _ _ (say-Takes k q 0 0 _) (λ _. pure-Takes k q 0 0 again))

  answered-Takes :
      (passed : Bool) (content : String) (action : Action) (result : String)
      → Takes k q 0 0 0 0 (if passed then complete_run k content else retry_answer k action result)
  answered-Takes true content action result = complete_run-Takes content
  answered-Takes false content action result = retry_answer-Takes action result

  answer_round-Takes :
      (deadline : Deadline) (action : Action) (content : String)
      → Takes k q 0 0 0 0 (answer_round k deadline action content)
  unfolding answer_round
  answer_round-Takes deadline action content =
      then-Takes k q 0 0 0 0 0 0 _ _ (verify-Takes k q content) (λ found.
        then-Takes k q 0 0 0 0 0 0 _ _ (check_deadline-Takes k q 0 0 deadline) (λ _.
          then-Takes k q 0 0 0 0 0 0 _ _ (lift-Takes k q 0 0 (boolean_verdict k found)) (λ verdict.
            then-Takes k q 0 0 0 0 0 0 _ _ (emit-Takes k q 0 0 (verification verdict))
              (λ _. answered-Takes verdict.passed content action verdict.result))))

  perform-Takes :
      (deadline : Deadline) (action : Action) (parsed : ParsedAction)
      → Takes k q 0 0 0 0 (perform k deadline action parsed)
  unfolding perform delegate_round
  perform-Takes deadline action (call tool_id arguments) =
      tool_call_round-Takes deadline action tool_id arguments
  perform-Takes deadline action (batch batched) = batch_round-Takes deadline action batched
  perform-Takes deadline action (answered content) = answer_round-Takes deadline action content
  perform-Takes deadline action (reported message) = λ s v. v
  perform-Takes deadline action (delegated task) =
      then-Takes k q 0 0 0 0 0 0 _ _ (emit-Takes k q 0 0 (delegation_requested task))
        (λ _. pure-Takes k q 0 0 (finished awaiting_delegation none))

  round-Takes : (deadline : Deadline) → Takes k q 0 0 0 0 (round k deadline)
  unfolding round
  round-Takes deadline =
      then-Takes k q 0 0 0 0 0 0 _ _ (check_deadline-Takes k q 0 0 deadline) (λ _.
        then-Takes k q 0 0 1 0 0 0 _ _ (begin_step-Takes k q) (λ _.
          then-Takes k q 1 0 0 0 0 0 _ _ (ask_model-Takes k q) (λ parsed.
            then-Takes k q 0 0 0 0 0 0 _ _ (check_deadline-Takes k q 0 0 deadline) (λ _.
              then-Takes k q 0 0 0 0 0 0 _ _ (lift-Takes k q 0 0 (ledger_action parsed)) (λ action.
                then-Takes k q 0 0 0 0 0 0 _ _ (emit-Takes k q 0 0 (model_action action))
                  (λ _. perform-Takes deadline action parsed))))))

  next_round-Takes :
      (rest : Exec (RunState World) (RunStatus × Option String)) (outcome : Outcome)
      → Takes k q 0 0 0 0 rest
      → Takes k q 0 0 0 0 (next_round k rest outcome)
  next_round-Takes rest again p = p
  next_round-Takes rest (finished status answer) p =
      pure-Takes k q {A = RunStatus × Option String} 0 0 (status, answer)

  pub loop-Takes : (deadline : Deadline) (left : ℕ) → Takes k q 0 0 0 0 (loop k deadline left)
  unfolding loop
  loop-Takes deadline zero = λ s v. v
  loop-Takes deadline (suc left) =
      then-Takes k q 0 0 0 0 0 0 _ _ (round-Takes deadline)
        (λ outcome. next_round-Takes (loop k deadline left) outcome (loop-Takes deadline left))
