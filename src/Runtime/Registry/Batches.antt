-- ===== src/Runtime/Registry/Batches.antt =====
-- runtime.py: calls and batches that `ToolRegistry` refuses, and the batches that it runs.
use trace_gate_framework.Prelude.{
  String, ◌≡◌, refl, map, ◌++◌, true, is_empty, Result, List, [], ◌∷◌, ◌⊎◌, ok, err, Error, All,
}
use trace_gate_framework.Runtime.Events.{read, effect_Eq}
use trace_gate_framework.Runtime.Registry.{
  ToolDefinition, ToolRegistry, Arguments, Grant, preflight, Invocation, execute, BatchCall, Output,
  finish,
}

-- What a call must be for a batch to run.
pub IsReadCall : Grant → ToolRegistry → BatchCall → Type 0
IsReadCall grant tools call =
    (t : ToolDefinition) × (preflight call.tool_id call.arguments grant tools ≡ ok t)
    × (t.effect ≡ read)

module _ {World : Type 0} (digest : String → String)
    (invoke : ToolDefinition → Arguments → World → Invocation World) where
  -- A call whose preflight fails returns that error and leaves the world as it was.
  pub refused_call_is_inert :
      (k : String) (args : Arguments) (grant : Grant) (tools : ToolRegistry) (w : World) (e : Error)
      → preflight k args grant tools ≡ err e
      → execute digest invoke k args grant tools w ≡ (err e, w)
  unfolding execute
  refused_call_is_inert k args grant tools w e h = rw h refl

  -- A batch is refused when it is empty or has a call that may not be made.
  pub IsRefused : Grant → ToolRegistry → List BatchCall → Type 0
  IsRefused grant tools calls = (is_empty calls ≡ true) ⊎ ¬ All (IsReadCall grant tools) calls

  -- Every call in turn is a permitted call of a read-only tool, and its handler runs on the world
  -- that the one before left.
  pub data Runs (grant : Grant) (tools : ToolRegistry)
      : World → List BatchCall → List (Result Output) → World → Type 0 where
    stop : {w : World} → Runs grant tools w [] [] w
    run :
        {w w' : World} {rs : List (Result Output)} {calls : List BatchCall} (call : BatchCall)
        (t : ToolDefinition)
        → preflight call.tool_id call.arguments grant tools ≡ ok t
        → t.effect ≡ read
        → Runs grant tools (invoke t call.arguments w).world calls rs w'
        → Runs grant tools w
            (call ∷ calls)
            (finish digest invoke call.tool_id t (invoke t call.arguments w) ∷ rs)
            w'

  -- The outputs of all calls, or the error of the first call that failed.
  pub Collected : List (Result Output) → Result (List Output) → Type 0
  Collected rs r =
      ((outputs : List Output) × (rs ≡ map ok outputs) × (r ≡ ok outputs))
      ⊎ ((front : List Output) × (e : Error) × (back : List (Result Output)) × (rs
            ≡ map ok front ++ err e ∷ back)
          × (r ≡ err e))
