-- ===== src/Runtime/Kernel/Round.antt =====
-- runtime.py: the loop of `RunKernel.run`.
pub mod Keeping
pub mod Bounds
pub mod Rounds
pub mod Meters
pub mod Calls
pub mod Metering
use trace_gate_framework.Prelude.{
  ℕ, zero, suc, ◌+◌, String, ◌≡◌, Bool, true, false, not, ◌&&◌, ◌||◌, Option, none, some, List, [],
  ◌∷◌, ◌++◌, map, Eq, ◌==◌, if◌then◌else◌, ltb, leb, any, length, concat, Result, ok, err, Error,
  value_error, runtime_error, permission_error, timeout_error, reject_if, traverse,
}
use trace_gate_framework.Prelude.Exec.{Exec, pure, raise, lift, ◌>>=◌, ◌>>◌}
use trace_gate_framework.Runtime.Events.{
  Effect, read, effect_Eq, Action, Verdict, Attempt, Observation, Body, model_started, model_action,
  attempt_started, tool_observation, verification, delegation_requested, run_completed,
}
use trace_gate_framework.Runtime.Registry.{
  ToolDefinition, Arguments, preflight, execute, BatchCall, execute_batch, Output,
}
use trace_gate_framework.Runtime.Ledger.Store.{EventStore, append}
use trace_gate_framework.Runtime.Kernel.{
  Turn, assistant, tool, feedback, RawAction, ParsedAction, call, batch, answered, reported,
  delegated, parse_action, argument_text, ledger_action, Clock, Environment, RunKernel, RunState,
  RunStatus, completed, awaiting_delegation,
}

-- The wall-clock and the monotonic end of a run.
pub record Deadline : Type 0 where
  pub time : ℕ
  pub monotonic : ℕ

-- How a round ends: with the next one, or with a status and an answer.
pub data Outcome : Type 0 where
  again : Outcome
  finished : RunStatus → Option String → Outcome

module _ {World : Type 0} (k : RunKernel World) where
  abbrev Run : Type 0 → Type 0
  Run A = Exec (RunState World) A

  abbrev appended :
      RunState World → Result (String × EventStore) → Result (Unit {0}) × RunState World
  appended s (err e) = (err e, s)
  appended s (ok (digest, store)) =
      (ok tt, record s { store = store; evidence = s.evidence ++ digest ∷ [] })

  -- `evidence.append(self.store.append(event))`
  unfoldable pub emit : Body → Run (Unit {0})
  emit body s = appended s (append k.environment.sha256 k.environment.dumps k.run_id body s.store)

  unfoldable pub check_deadline : Deadline → Run (Unit {0})
  check_deadline deadline s =
      let (now, world) = k.environment.clock s.world in
      (
        reject_if (leb deadline.time now.time || leb deadline.monotonic now.monotonic)
            (timeout_error "run deadline exceeded"),
        record s { world = world },
      )

  unfoldable pub say : Turn → Run (Unit {0})
  say turn s = (ok tt, record s { conversation = s.conversation ++ turn ∷ [] })

  unfoldable pub begin_step : Run (Unit {0})
  unfolding emit
  begin_step s = emit model_started (record s { steps = s.steps + 1 })

  abbrev pub parsed_output : Result RawAction → Result ParsedAction
  parsed_output (err e) = err e
  parsed_output (ok raw) = parse_action raw

  unfoldable pub ask_model : Run ParsedAction
  ask_model s =
      let (raw, world) = k.environment.model s.conversation s.world in
      (parsed_output raw, record s { world = world })

  unfoldable pub check_budget : ℕ → Run (Unit {0})
  check_budget wanted s = (
    reject_if (ltb k.limits.max_tool_calls (s.tool_calls + wanted))
        (runtime_error "tool-call budget exhausted"),
    s,
  )

  abbrev pub attempt_id_of : ℕ → String
  attempt_id_of n = concat k.run_id (concat ":" (k.environment.decimal n))

  abbrev digest_arguments : Result String → String
  digest_arguments (err e) = ""
  digest_arguments (ok t) = k.environment.digest t

  abbrev pub attempt_of : ToolDefinition → Arguments → ℕ → Attempt
  attempt_of definition arguments n = record {
    attempt_id = attempt_id_of n;
    tool_id = definition.tool_id;
    effect = definition.effect;
    arguments_digest = digest_arguments (argument_text arguments);
  }

  abbrev pub with_id : String → Result (Unit {0}) × RunState World → Result String × RunState World
  with_id id (err e, s) = (err e, s)
  with_id id (ok done, s) = (ok id, s)

  -- Counts the attempt, writes it to the ledger and returns its identity.
  unfoldable pub begin_attempt : ToolDefinition → Arguments → Run String
  unfolding emit
  begin_attempt definition arguments s = with_id (attempt_id_of (s.tool_calls + 1)) (
      emit (attempt_started (attempt_of definition arguments (s.tool_calls + 1)))
        (record s { tool_calls = s.tool_calls + 1 }))

  unfoldable pub observe : Option String → Output → Observation
  observe id output = record {
    attempt_id = id;
    tool_id = output.tool_id;
    effect = output.effect;
    risk = output.risk;
    elapsed_seconds = k.environment.seconds output.elapsed_seconds;
    output = output.output;
    output_digest = output.output_digest;
  }

  unfoldable pub call_tool : String → Arguments → Run Output
  call_tool tool_id arguments s =
      let (r, world) =
        execute k.environment.digest k.environment.invoke tool_id arguments k.grant k.registry
          s.world in
      (r, record s { world = world })

  unfoldable pub call_tools : List BatchCall → Run (List Output)
  call_tools calls s =
      let (r, world) =
        execute_batch k.environment.digest k.environment.invoke calls k.grant k.registry s.world in
      (r, record s { world = world })

  unfoldable pub tool_call_round : Deadline → Action → String → Arguments → Run Outcome
  unfolding observe
  tool_call_round deadline action tool_id arguments = do
    check_budget 1
    definition ← lift (preflight tool_id arguments k.grant k.registry)
    id ← begin_attempt definition arguments
    output ← call_tool tool_id arguments
    emit (tool_observation (observe (some id) output))
    check_deadline deadline
    say (assistant action)
    say (tool (observe none output))
    pure again

  -- `zip(calls, definitions)`
  unfoldable pub begin_attempts : List BatchCall → List ToolDefinition → Run (List String)
  begin_attempts (c ∷ calls) (definition ∷ definitions) = do
    id ← begin_attempt definition c.arguments
    ids ← begin_attempts calls definitions
    pure (id ∷ ids)
  begin_attempts _ _ = pure []

  -- `zip(attempt_ids, observations)`
  unfoldable pub record_outputs : List String → List Output → Run (Unit {0})
  unfolding observe
  record_outputs (id ∷ ids) (output ∷ outputs) = do
    emit (tool_observation (observe (some id) output))
    say (tool (observe none output))
    record_outputs ids outputs
  record_outputs _ _ = pure tt

  unfoldable pub batch_round : Deadline → Action → List BatchCall → Run Outcome
  batch_round deadline action calls = do
    check_budget (length calls)
    definitions ←
        lift
          (traverse (λ (c : BatchCall). preflight c.tool_id c.arguments k.grant k.registry) calls)
    lift (
        reject_if (any (λ (t : ToolDefinition). not (t.effect == read)) definitions)
          (permission_error "batched tool calls must all be read-only"))
    ids ← begin_attempts calls definitions
    outputs ← call_tools calls
    say (assistant action)
    record_outputs ids outputs
    check_deadline deadline
    pure again

  abbrev verify_by :
      Option (String → World → Result (Option Verdict) × World) → String → Run (Option Verdict)
  verify_by none content s = (err (permission_error "verifier is required"), s)
  verify_by (some verifier) content s =
      let (r, world) = verifier content s.world in (r, record s { world = world })

  unfoldable pub verify : String → Run (Option Verdict)
  verify content = verify_by k.environment.verifier content

  abbrev pub boolean_verdict : Option Verdict → Result Verdict
  boolean_verdict none = err (value_error "verifier must return a boolean passed field")
  boolean_verdict (some verdict) = ok verdict

  unfoldable pub complete_run : String → Run Outcome
  complete_run content = do
    emit (run_completed (some content))
    pure (finished completed (some content))

  unfoldable pub retry_answer : Action → String → Run Outcome
  retry_answer action result = do say (assistant action); say (feedback result); pure again

  unfoldable pub answer_round : Deadline → Action → String → Run Outcome
  unfolding verify complete_run retry_answer
  answer_round deadline action content = do
    found ← verify content
    check_deadline deadline
    verdict ← lift (boolean_verdict found)
    emit (verification verdict)
    if verdict.passed then complete_run content else retry_answer action verdict.result

  abbrev or_reported : Option String → String
  or_reported none = "model reported an error"
  or_reported (some message) = message

  unfoldable pub delegate_round : Option String → Run Outcome
  delegate_round task = do
    emit (delegation_requested task)
    pure (finished awaiting_delegation none)

  unfoldable pub perform : Deadline → Action → ParsedAction → Run Outcome
  unfolding tool_call_round batch_round answer_round delegate_round
  perform deadline action (call tool_id arguments) =
      tool_call_round deadline action tool_id arguments
  perform deadline action (batch calls) = batch_round deadline action calls
  perform deadline action (answered content) = answer_round deadline action content
  perform deadline action (reported message) = raise (runtime_error (or_reported message))
  perform deadline action (delegated task) = delegate_round task

  -- One round of the loop.
  unfoldable pub round : Deadline → Run Outcome
  unfolding perform
  round deadline = do
    check_deadline deadline
    begin_step
    parsed_action ← ask_model
    check_deadline deadline
    action ← lift (ledger_action parsed_action)
    emit (model_action action)
    perform deadline action parsed_action

  abbrev pub next_round :
      Run (RunStatus × Option String) → Outcome → Run (RunStatus × Option String)
  next_round rest again = rest
  next_round rest (finished status answer) = pure (status, answer)

  -- `while steps < max_steps`, with the number of rounds left.
  unfoldable pub loop : Deadline → ℕ → Run (RunStatus × Option String)
  loop deadline zero = raise (runtime_error "step budget exhausted")
  loop deadline (suc left) = do outcome ← round deadline; next_round (loop deadline left) outcome
