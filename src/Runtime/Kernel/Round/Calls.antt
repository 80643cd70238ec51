-- ===== src/Runtime/Kernel/Round/Calls.antt =====
-- runtime.py: how often the loop of `RunKernel.run` calls the model and the tools.
use trace_gate_framework.Prelude.{
  ℕ, ◌+◌, ◌≤◌, String, ◌≡◌, refl, ◌||◌, Option-cases, timeout_error, runtime_error, inl, inr, List,
  length, ltb, leb, arith, Result, ok, err, Result-cases, reject_if,
}
use trace_gate_framework.Prelude.Exec.{Exec, pure, lift, ◌>>=◌, Post, Triple, Triple-bind}
use trace_gate_framework.Runtime.Events.{Body, effect_Eq, attempt_started, model_started}
use trace_gate_framework.Runtime.Registry.{
  ToolDefinition, Arguments, execute, BatchCall, execute_batch,
}
use trace_gate_framework.Runtime.Ledger.Store.{append}
use trace_gate_framework.Runtime.Kernel.{Turn, RunKernel, RunState}
use trace_gate_framework.Runtime.Kernel.Round.{
  Deadline, emit, check_deadline, say, begin_step, ask_model, check_budget, attempt_of,
  attempt_id_of, with_id, begin_attempt, parsed_output, call_tool, call_tools, verify,
}
use trace_gate_framework.Runtime.Kernel.Round.Meters.{
  Meter, IsWithin, execute-IsWithin, execute_batch-IsWithin,
}

module _ {World : Type 0} (k : RunKernel World) (q : Meter k) where
  -- The calls since the start fit into what was counted, with so many of both left.
  pub record Fits (x y : ℕ) (s : RunState World) : Type 0 where
    pub steps_cover : q.asked s.world + q.steps + x ≤ s.steps + q.asked_before
    pub calls_cover : q.ran s.world + q.calls + y ≤ s.tool_calls + q.ran_before

  abbrev pub Fit : RunState World → Type 0
  Fit s = Fits 0 0 s

  Fits-Fit : (x y : ℕ) (s : RunState World) → Fits x y s → Fit s
  Fits-Fit x y s v = record {
    steps_cover = omega (arith, v.steps_cover);
    calls_cover = omega (arith, v.calls_cover);
  }

  -- After the call as before, with so many of both taken before and left after.
  abbrev pub Takes : {A : Type 0} → ℕ → ℕ → ℕ → ℕ → Exec (RunState World) A → Type 0
  Takes x y x' y' c = Triple (Fits x y) (λ _ s. Fits x' y' s) Fit c

  pub then-Takes :
      {A B : Type 0} (x y x1 y1 x2 y2 : ℕ) (c : Exec (RunState World) A)
      (f : A → Exec (RunState World) B)
      → Takes x y x1 y1 c
      → ((a : A) → Takes x1 y1 x2 y2 (f a))
      → Takes x y x2 y2 (c >>= f)
  then-Takes x y x1 y1 x2 y2 c f p q =
      Triple-bind (Fits x y) (λ _ s. Fits x1 y1 s) (λ _ s. Fits x2 y2 s) Fit c f p q

  -- A call that takes none of both.
  pub emit-Takes : (x y : ℕ) (body : Body) → Takes x y x y (emit k body)
  unfolding emit
  emit-Takes x y body s v =
      elim (Result-cases (append k.environment.sha256 k.environment.dumps k.run_id body s.store)) [
        | inl (e, h) ↦ rw h (Fits-Fit x y s v)
        | inr (d, h) ↦ rw h (record { steps_cover = v.steps_cover; calls_cover = v.calls_cover })
      ]

  pub say-Takes : (x y : ℕ) (turn : Turn) → Takes x y x y (say k turn)
  unfolding say
  say-Takes x y turn s v = record { steps_cover = v.steps_cover; calls_cover = v.calls_cover }

  pub clocked :
      (x y : ℕ) (s : RunState World)
      → Fits x y s
      → Fits x y (record s { world = (k.environment.clock s.world).1 })
  clocked x y s v = record {
    steps_cover = rw (q.metered.clock_asked s.world) v.steps_cover;
    calls_cover = rw (q.metered.clock_ran s.world) v.calls_cover;
  }

  pub lift-Takes : {A : Type 0} (x y : ℕ) (r : Result A) → Takes x y x y (lift r)
  lift-Takes x y (ok a) s v = v
  lift-Takes x y (err e) s v = Fits-Fit x y s v

  pub pure-Takes : {A : Type 0} (x y : ℕ) (a : A) → Takes x y x y (pure a)
  pure-Takes x y a s v = v

  pub check_deadline-Takes :
      (x y : ℕ) (deadline : Deadline) → Takes x y x y (check_deadline k deadline)
  unfolding check_deadline
  check_deadline-Takes x y deadline s v =
      let (now, world) = k.environment.clock s.world in
      lift-Takes x y
        (reject_if (leb deadline.time now.time || leb deadline.monotonic now.monotonic)
          (timeout_error "run deadline exceeded"))
        (record s { world = world }) (clocked x y s v)

  pub begin_step-Takes : Takes 0 0 1 0 (begin_step k)
  unfolding begin_step
  begin_step-Takes s v =
      emit-Takes 1 0 model_started (record s { steps = s.steps + 1 })
        (record { steps_cover = omega (arith, v.steps_cover); calls_cover = v.calls_cover })

  pub ask_model-Takes : Takes 1 0 0 0 (ask_model k)
  unfolding ask_model
  ask_model-Takes s v =
      lift-Takes 0 0 (parsed_output k (k.environment.model s.conversation s.world).0)
        (record s { world = (k.environment.model s.conversation s.world).1 })
        (record {
          steps_cover = omega (arith, v.steps_cover, q.metered.model_asked s.conversation s.world);
          calls_cover = omega (arith, v.calls_cover, q.metered.model_ran s.conversation s.world);
        })

  pub check_budget-Takes : (x y wanted : ℕ) → Takes x y x y (check_budget k wanted)
  unfolding check_budget
  check_budget-Takes x y wanted s v =
      lift-Takes x y
        (reject_if (ltb k.limits.max_tool_calls (s.tool_calls + wanted))
          (runtime_error "tool-call budget exhausted"))
        s v

  with_id-Fits :
      (x y : ℕ) (id : String) (r : Result (Unit {0}) × RunState World)
      → Post (λ _ s. Fits x y s) Fit r
      → Post (λ _ s. Fits x y s) Fit (with_id k id r)
  with_id-Fits x y id (ok done, s) v = v
  with_id-Fits x y id (err e, s) v = v

  pub begin_attempt-Takes :
      (x y : ℕ) (definition : ToolDefinition) (arguments : Arguments)
      → Takes x y x (y + 1) (begin_attempt k definition arguments)
  unfolding begin_attempt
  begin_attempt-Takes x y definition arguments s v =
      with_id-Fits x (y + 1) (attempt_id_of k (s.tool_calls + 1)) _ (
        emit-Takes x (y + 1)
          (attempt_started (attempt_of k definition arguments (s.tool_calls + 1)))
          (record s { tool_calls = s.tool_calls + 1 })
          (record { steps_cover = v.steps_cover; calls_cover = omega (arith, v.calls_cover) }))

  within-Fits :
      (x y n : ℕ) (s : RunState World) (w : World)
      → y ≡ 0
      → IsWithin k q n s.world w
      → Fits x n s
      → Fits x y (record s { world = w })
  within-Fits x y n s w none_left i v = record {
    steps_cover = omega (arith, v.steps_cover, i.same_asked);
    calls_cover = omega (arith, v.calls_cover, i.more_ran, none_left);
  }

  pub call_tool-Takes :
      (tool_id : String) (arguments : Arguments) → Takes 0 1 0 0 (call_tool k tool_id arguments)
  unfolding call_tool
  call_tool-Takes tool_id arguments s v =
      let (r, w) =
        execute k.environment.digest k.environment.invoke tool_id arguments k.grant k.registry
          s.world in
      lift-Takes 0 0 r (record s { world = w })
        (within-Fits 0 0 1 s w refl (execute-IsWithin k q tool_id arguments s.world) v)

  pub call_tools-Takes :
      (batched : List BatchCall) → Takes 0 (0 + length batched) 0 0 (call_tools k batched)
  unfolding call_tools
  call_tools-Takes batched s v =
      let (r, w) =
        execute_batch k.environment.digest k.environment.invoke batched k.grant k.registry
          s.world in
      lift-Takes 0 0 r (record s { world = w })
        (within-Fits 0 0 (length batched) s w refl (execute_batch-IsWithin k q batched s.world)
          (record { steps_cover = v.steps_cover; calls_cover = omega (arith, v.calls_cover) }))

  pub verify-Takes : (content : String) → Takes 0 0 0 0 (verify k content)
  unfolding verify
  verify-Takes content s v = elim (Option-cases k.environment.verifier) [
    | inl missing ↦ rw missing v
    | inr (verifier, found) ↦
        let (r, w) = verifier content s.world in
        rw found (
          lift-Takes 0 0 r (record s { world = w })
            (record {
              steps_cover =
                  omega
                    (arith, v.steps_cover, q.metered.verifier_asked verifier content s.world found);
              calls_cover =
                  omega
                    (arith, v.calls_cover, q.metered.verifier_ran verifier content s.world found);
            }))
  ]
