-- ===== src/Runtime/Kernel/Round/Meters.antt =====
-- runtime.py: counting the calls of the model and of the handlers of tools in the world.
use trace_gate_framework.Prelude.{
  ℕ, suc, ◌+◌, ◌≤◌, String, ◌≡◌, refl, inl, inr, Option, some, List, [], ◌∷◌, length, arith, Result,
  Result-cases,
}
use trace_gate_framework.Runtime.Events.{Verdict, effect_Eq}
use trace_gate_framework.Runtime.Registry.{
  ToolDefinition, Arguments, preflight, execute, BatchCall, check_batch, execute_all, execute_batch,
}
use trace_gate_framework.Runtime.Kernel.{Turn, RunKernel}

-- `asked` counts the calls of the model in the world, and `ran` those of the handlers of tools.
pub record IsMetered {World : Type 0} (k : RunKernel World) (asked ran : World → ℕ) : Type 0 where
  pub model_asked :
      (turns : List Turn) (w : World) → asked (k.environment.model turns w).1 ≡ suc (asked w)
  pub model_ran : (turns : List Turn) (w : World) → ran (k.environment.model turns w).1 ≡ ran w
  pub tool_asked :
      (t : ToolDefinition) (arguments : Arguments) (w : World)
      → asked (k.environment.invoke t arguments w).world ≡ asked w
  pub tool_ran :
      (t : ToolDefinition) (arguments : Arguments) (w : World)
      → ran (k.environment.invoke t arguments w).world ≡ suc (ran w)
  pub verifier_asked :
      (verifier : String → World → Result (Option Verdict) × World) (content : String) (w : World)
      → k.environment.verifier ≡ some verifier
      → asked (verifier content w).1 ≡ asked w
  pub verifier_ran :
      (verifier : String → World → Result (Option Verdict) × World) (content : String) (w : World)
      → k.environment.verifier ≡ some verifier
      → ran (verifier content w).1 ≡ ran w
  pub clock_asked : (w : World) → asked (k.environment.clock w).1 ≡ asked w
  pub clock_ran : (w : World) → ran (k.environment.clock w).1 ≡ ran w

-- The counts of a run: in the ledger and in the world before it began.
pub record Meter {World : Type 0} (k : RunKernel World) : Type 0 where
  pub asked : World → ℕ
  pub ran : World → ℕ
  pub metered : IsMetered k asked ran
  pub steps : ℕ
  pub calls : ℕ
  pub asked_before : ℕ
  pub ran_before : ℕ

module _ {World : Type 0} (k : RunKernel World) (q : Meter k) where
  -- What the tools leave of the world, with at most so many calls of handlers.
  pub record IsWithin (n : ℕ) (w after : World) : Type 0 where
    pub same_asked : q.asked after ≡ q.asked w
    pub more_ran : q.ran after ≤ q.ran w + n

  pub execute-IsWithin :
      (tool_id : String) (arguments : Arguments) (w : World)
      → IsWithin 1 w
          (execute k.environment.digest k.environment.invoke tool_id arguments k.grant k.registry
            w).1
  unfolding execute
  execute-IsWithin tool_id arguments w =
      elim (Result-cases (preflight tool_id arguments k.grant k.registry)) [
        | inl (e, h) ↦ rw h (record { same_asked = refl; more_ran = omega arith })
        | inr (t, h) ↦ rw h (record {
          same_asked = q.metered.tool_asked t arguments w;
          more_ran = omega (arith, q.metered.tool_ran t arguments w);
        })
      ]

  execute_all-IsWithin :
      (batched : List BatchCall) (w : World)
      → IsWithin
          (length batched)
          w
          (execute_all k.environment.digest k.environment.invoke batched k.grant k.registry w).1
  unfolding execute_all
  execute_all-IsWithin [] w = record { same_asked = refl; more_ran = omega arith }
  execute_all-IsWithin (c ∷ batched) w =
      let first = execute-IsWithin c.tool_id c.arguments w in
      let rest =
        execute_all-IsWithin batched
          (execute k.environment.digest k.environment.invoke c.tool_id c.arguments k.grant
            k.registry w).1 in
      record {
        same_asked = cc (first.same_asked, rest.same_asked);
        more_ran = omega (arith, first.more_ran, rest.more_ran);
      }

  pub execute_batch-IsWithin :
      (batched : List BatchCall) (w : World)
      → IsWithin
          (length batched)
          w
          (execute_batch k.environment.digest k.environment.invoke batched k.grant k.registry w).1
  unfolding execute_batch
  execute_batch-IsWithin batched w =
      elim (Result-cases
        (check_batch k.environment.digest k.environment.invoke batched k.grant k.registry)) [
          | inl (e, h) ↦ rw h (record { same_asked = refl; more_ran = omega arith })
          | inr (done, h) ↦ rw h (execute_all-IsWithin batched w)
        ]
