-- ===== src/Runtime/Kernel/Round/Bounds.antt =====
-- runtime.py: the loop of `RunKernel.run` stays within its budgets.
use trace_gate_framework.Prelude.{
  ℕ, suc, ◌+◌, ◌≤◌, String, ◌≡◌, refl, sym, subst, false, inl, inr, none, some, List, [], ◌∷◌, ltb,
  length, arith, Bool-cases, Result, ok, err, Result-cases,
}
use trace_gate_framework.Prelude.Exec.{Exec, pure, lift, ◌>>=◌, Leads, Leads-bind}
use trace_gate_framework.Runtime.Events.{
  Action, Body, attempt_started, tool_observation, Event, effect_Eq,
}
use trace_gate_framework.Runtime.Registry.{ToolDefinition, Arguments, preflight, BatchCall, Output}
use trace_gate_framework.Runtime.Ledger.Store.{append}
use trace_gate_framework.Runtime.Kernel.{Turn, assistant, tool, RunKernel, RunState}
use trace_gate_framework.Runtime.Kernel.Round.{
  Deadline, again, emit, check_deadline, say, ask_model, check_budget, begin_attempt, call_tool,
  call_tools, tool_call_round, begin_attempts, record_outputs, verify, observe, with_id, attempt_of,
  attempt_id_of, verify_by,
}
use trace_gate_framework.Runtime.Kernel.Round.Keeping.{is_step, is_attempt, Running, emit-Running}

module _ {World : Type 0} (k : RunKernel World) where
  emit-tool_calls : (body : Body) (s : RunState World) → (emit k body s).1.tool_calls ≡ s.tool_calls
  unfolding emit
  emit-tool_calls body s =
      elim (Result-cases (append k.environment.sha256 k.environment.dumps k.run_id body s.store)) [
        | inl (e, y) ↦ rw y refl
        | inr (d, y) ↦ rw y refl
      ]

module _ {World : Type 0} (k : RunKernel World) (before : List Event) (b c : ℕ)
    (roomy : k.limits.max_tool_calls ≤ c) where
  -- The invariant, and room for more attempts.
  abbrev pub Room : ℕ → RunState World → Type 0
  Room wanted s = Running k before b c s × (s.tool_calls + wanted ≤ k.limits.max_tool_calls)

  abbrev pub Keeps : {A : Type 0} → Exec (RunState World) A → Type 0
  Keeps m = Leads (Running k before b c) (Running k before b c) m

  pub plain-Keeps :
      (body : Body) → is_step body ≡ false → is_attempt body ≡ false → Keeps (emit k body)
  plain-Keeps body p q s v =
      emit-Running k before b c body s s.steps s.tool_calls v (rw p (omega arith))
        (rw q (omega arith)) v.steps_bounded v.calls_bounded

  pub say-Keeps : (turn : Turn) → Keeps (say k turn)
  unfolding say
  say-Keeps turn s v = v

  pub check_deadline-Keeps : (deadline : Deadline) → Keeps (check_deadline k deadline)
  unfolding check_deadline
  check_deadline-Keeps deadline s v = v

  pub ask_model-Keeps : Keeps (ask_model k)
  unfolding ask_model
  ask_model-Keeps s v = v

  pub lift-Keeps : {A : Type 0} (r : Result A) → Keeps (lift r)
  lift-Keeps r s v = v

  pub pure-Keeps : {A : Type 0} (a : A) → Keeps (pure a)
  pure-Keeps a s v = v

  call_tool-Keeps :
      (tool_id : String) (arguments : Arguments) → Keeps (call_tool k tool_id arguments)
  unfolding call_tool
  call_tool-Keeps tool_id arguments s v = v

  pub call_tools-Keeps : (calls : List BatchCall) → Keeps (call_tools k calls)
  unfolding call_tools
  call_tools-Keeps calls s v = v

  pub verify-Keeps : (content : String) → Keeps (verify k content)
  unfolding verify
  verify-Keeps content s v =
      elim k.environment.verifier as (λ o. Running k before b c (verify_by k o content s).1) [
        | none ↦ v
        | some f ↦ v
      ]

  pub bind-Keeps :
      {A B : Type 0} (m : Exec (RunState World) A) (f : A → Exec (RunState World) B)
      → Keeps m
      → ((a : A) → Keeps (f a))
      → Keeps (m >>= f)
  bind-Keeps m f p q =
      Leads-bind (Running k before b c) (Running k before b c) (Running k before b c) m f p
        (λ s v. v) q

  with_id_state : (id : String) (r : Result (Unit {0}) × RunState World) → (with_id k id r).1 ≡ r.1
  with_id_state id (err e, s) = refl
  with_id_state id (ok done, s) = refl

  -- An attempt takes one place of the room that there is.
  begin_attempt-Room :
      (w : ℕ) (definition : ToolDefinition) (arguments : Arguments)
      → Leads (Room (suc w)) (Room w) (begin_attempt k definition arguments)
  unfolding begin_attempt
  begin_attempt-Room w definition arguments s (v, room) =
      let body = attempt_started (attempt_of k definition arguments (s.tool_calls + 1)) in
      let counted : RunState World = record s { tool_calls = s.tool_calls + 1 } in
      let kept : Running k before b c (emit k body counted).1 =
        emit-Running k before b c body counted s.steps s.tool_calls v (omega arith) (omega arith)
          v.steps_bounded (omega (arith, room, roomy)) in
      subst (Room w)
        (sym (with_id_state (attempt_id_of k (s.tool_calls + 1)) (emit k body counted)))
        (kept, rw (emit-tool_calls k body counted) (omega (arith, room)))

  pub begin_attempts-Room :
      (calls : List BatchCall) (definitions : List ToolDefinition)
      → Leads (Room (length calls)) (Running k before b c) (begin_attempts k calls definitions)
  unfolding begin_attempts
  begin_attempts-Room [] definitions = λ s v. v.0
  begin_attempts-Room (x ∷ calls) [] = λ s v. v.0
  begin_attempts-Room (x ∷ calls) (d ∷ definitions) =
      Leads-bind (Room (suc (length calls))) (Room (length calls)) (Running k before b c)
        (begin_attempt k d x.arguments)
        (λ id. begin_attempts k calls definitions >>= λ ids. pure (id ∷ ids))
        (begin_attempt-Room (length calls) d x.arguments) (λ s v. v.0)
        (λ id.
          Leads-bind (Room (length calls)) (Running k before b c) (Running k before b c)
            (begin_attempts k calls definitions) (λ ids. pure (id ∷ ids))
            (begin_attempts-Room calls definitions) (λ s v. v) (λ ids. pure-Keeps (id ∷ ids)))

  pub check_budget-Keeps :
      {A : Type 0} (w : ℕ) (f : Unit {0} → Exec (RunState World) A)
      → Leads (Room w) (Running k before b c) (f tt)
      → Keeps (check_budget k w >>= f)
  unfolding check_budget ◌>>=◌
  check_budget-Keeps w f h s v =
      elim (Bool-cases (ltb k.limits.max_tool_calls (s.tool_calls + w))) [
        | inl y ↦ rw y v
        | inr n ↦ rw n (h s (v, ground (arith, n)))
      ]

  pub record_outputs-Keeps :
      (ids : List String) (outputs : List Output) → Keeps (record_outputs k ids outputs)
  unfolding record_outputs
  record_outputs-Keeps [] outputs = λ s v. v
  record_outputs-Keeps (id ∷ ids) [] = λ s v. v
  record_outputs-Keeps (id ∷ ids) (o ∷ outputs) =
      bind-Keeps (emit k (tool_observation (observe k (some id) o)))
        (λ _. say k (tool (observe k none o)) >>= λ _. record_outputs k ids outputs)
        (plain-Keeps (tool_observation (observe k (some id) o)) refl refl)
        (λ _.
          bind-Keeps (say k (tool (observe k none o))) (λ _. record_outputs k ids outputs)
            (say-Keeps (tool (observe k none o))) (λ _. record_outputs-Keeps ids outputs))

  pub tool_call_round-Keeps :
      (deadline : Deadline) (action : Action) (tool_id : String) (arguments : Arguments)
      → Keeps (tool_call_round k deadline action tool_id arguments)
  unfolding tool_call_round
  tool_call_round-Keeps deadline action tool_id arguments = check_budget-Keeps 1 _ (
      Leads-bind (Room 1) (Room 1) (Running k before b c)
        (lift (preflight tool_id arguments k.grant k.registry)) _ (λ s v. v) (λ s v. v.0)
        (λ definition.
          Leads-bind (Room 1) (Room 0) (Running k before b c) (begin_attempt k definition arguments)
            _ (begin_attempt-Room 0 definition arguments) (λ s v. v.0)
            (λ id.
              Leads-bind (Room 0) (Running k before b c) (Running k before b c)
                (call_tool k tool_id arguments) _ (λ s v. call_tool-Keeps tool_id arguments s v.0)
                (λ s v. v)
                (λ output.
                  bind-Keeps _ _
                    (plain-Keeps (tool_observation (observe k (some id) output)) refl refl)
                    (λ _. bind-Keeps _ _ (check_deadline-Keeps deadline) (λ _.
                      bind-Keeps _ _ (say-Keeps (assistant action)) (λ _.
                        bind-Keeps _ _ (say-Keeps (tool (observe k none output)))
                          (λ _. pure-Keeps again))))))))
