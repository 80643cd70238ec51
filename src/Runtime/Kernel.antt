-- ===== src/Runtime/Kernel.antt =====
-- runtime.py: `RunLimits`, `RunResult` and `RunKernel`. The model, the verifier, the tools and the
-- clock act on the world outside, and are the fields of `Environment`.
pub mod Round
pub mod Entry
pub mod Metered
pub mod Budgets
pub mod Answers
pub mod Completed
pub mod Resuming
mod Examples
use trace_gate_framework.Prelude.{
  ℕ, ◌+◌, String, ◌≡◌, Bool, true, false, not, ◌&&◌, ◌||◌, Option, none, some, List, [], ◌∷◌, ◌++◌,
  map, if◌then◌else◌, ltb, is_empty, Result, ok, err, Error, value_error, runtime_error,
  permission_error, timeout_error, guard, reject_if, traverse, ◌>>=◌, ◌>>◌,
}
use trace_gate_framework.Documents.{Count, count, not_count}
use trace_gate_framework.Runtime.Events.{
  Action, tool_call, tool_batch, answer, model_error, delegate, Call, Observation, Verdict,
  Unsigned, Body,
}
use trace_gate_framework.Runtime.Registry.{
  Duration, ticks, negative, infinite, not_numeric, ToolDefinition, ToolRegistry, Arguments, object,
  not_json, not_object, Grant, Invocation, BatchCall,
}
use trace_gate_framework.Runtime.Ledger.Store.{EventStore}

pub record RunLimits : Type 0 where
  pub max_steps : ℕ
  pub max_tool_calls : ℕ
  pub deadline_seconds : ℕ

abbrev not_positive : Error
not_positive = value_error "run limits must be positive"

abbrev positive_count : Count → Result ℕ
positive_count not_count = err not_positive
positive_count (count n) = do guard (ltb 0 n) not_positive; ok n

abbrev positive_duration : Duration → Result ℕ
positive_duration (ticks n) = do guard (ltb 0 n) not_positive; ok n
positive_duration _ = err not_positive

-- `__post_init__`
unfoldable pub define_limits : Count → Count → Duration → Result RunLimits
define_limits steps calls seconds = do
  max_steps ← positive_count steps
  max_tool_calls ← positive_count calls
  deadline_seconds ← positive_duration seconds
  ok (record {
    max_steps = max_steps;
    max_tool_calls = max_tool_calls;
    deadline_seconds = deadline_seconds;
  })

pub data RunStatus : Type 0 where
  completed blocked failed awaiting_delegation : RunStatus

pub record RunResult : Type 0 where
  pub run_id : String
  pub status : RunStatus
  pub answer : Option String
  pub steps : ℕ
  pub tool_calls : ℕ
  pub evidence_refs : List String
  pub last_error : Option String

-- A message of the conversation; `given` is one of the caller's.
pub data Turn : Type 0 where
  given : String → Turn
  assistant : Action → Turn
  tool : Observation → Turn
  feedback : String → Turn

-- A model output: `malformed` is no object, or one without a known type. The parts that are looked
-- for are optional; a call of a batch that is no object or lacks a key is `none`.
pub data RawAction : Type 0 where
  malformed : RawAction
  raw_call : Option String → Option Arguments → RawAction
  raw_batch : Option (List (Option BatchCall)) → RawAction
  raw_answer : Option String → RawAction
  raw_error : Option String → RawAction
  raw_delegate : Option String → RawAction

pub data ParsedAction : Type 0 where
  call : String → Arguments → ParsedAction
  batch : List BatchCall → ParsedAction
  answered : String → ParsedAction
  reported : Option String → ParsedAction
  delegated : Option String → ParsedAction

abbrev typed_call : Option BatchCall → Result BatchCall
typed_call none = err (value_error "every batched call requires tool_id and arguments")
typed_call (some c) = ok c

abbrev parse_call : Option String → Option Arguments → Result ParsedAction
parse_call (some tool_id) (some arguments) = ok (call tool_id arguments)
parse_call _ _ = err (value_error "tool_call requires tool_id and arguments")

abbrev parse_batch : Option (List (Option BatchCall)) → Result ParsedAction
parse_batch none = err (value_error "tool_batch requires a non-empty calls list")
parse_batch (some raw) = do
  reject_if (is_empty raw) (value_error "tool_batch requires a non-empty calls list")
  calls ← traverse typed_call raw
  ok (batch calls)

abbrev parse_answer : Option String → Result ParsedAction
parse_answer none = err (value_error "answer requires string content")
parse_answer (some content) = ok (answered content)

-- `_parse_action`
unfoldable pub parse_action : RawAction → Result ParsedAction
parse_action malformed = err (value_error "model output must be a typed TRACE-AH action")
parse_action (raw_call tool_id arguments) = parse_call tool_id arguments
parse_action (raw_batch calls) = parse_batch calls
parse_action (raw_answer content) = parse_answer content
parse_action (raw_error message) = ok (reported message)
parse_action (raw_delegate task) = ok (delegated task)

abbrev pub argument_text : Arguments → Result String
argument_text (object t) = ok t
argument_text (not_object t) = ok t
argument_text not_json = err (value_error "Out of range float values are not JSON compliant")

abbrev call_text : BatchCall → Result Call
call_text c = do t ← argument_text c.arguments; ok (record { tool_id = c.tool_id; arguments = t })

abbrev batch_action : Result (List Call) → Result Action
batch_action (err e) = err e
batch_action (ok calls) = ok (tool_batch calls)

-- The action as the ledger can hold it: `json.dumps` refuses one that is not JSON.
unfoldable pub ledger_action : ParsedAction → Result Action
ledger_action (call tool_id arguments) = do
  t ← argument_text arguments
  ok (tool_call (record { tool_id = tool_id; arguments = t }))
ledger_action (batch calls) = batch_action (traverse call_text calls)
ledger_action (answered content) = ok (answer content)
ledger_action (reported message) = ok (model_error message)
ledger_action (delegated task) = ok (delegate task)

-- `time.time()` and `time.monotonic()`
pub record Clock : Type 0 where
  pub time : ℕ
  pub monotonic : ℕ

pub record Environment (World : Type 0) : Type 0 where
  pub sha256 : String → String
  pub dumps : Unsigned → String
  -- `_digest` of a value with a JSON text.
  pub digest : String → String
  pub invoke : ToolDefinition → Arguments → World → Invocation World
  pub model : List Turn → World → Result RawAction × World
  -- A result of another shape than a dict with a Boolean `passed` is `none`.
  pub verifier : Option (String → World → Result (Option Verdict) × World)
  pub clock : World → Clock × World
  pub decimal : ℕ → String
  pub seconds : ℕ → String
  -- `str(error)`
  pub message : Error → String
  -- Whether `text.strip()` is empty.
  pub is_blank : String → Bool
  -- The digest of the messages and of the envelope of the run.
  pub scope : List Turn → String

pub record RunKernel (World : Type 0) : Type 0 where
  pub run_id : String
  pub environment : Environment World
  pub registry : ToolRegistry
  pub grant : Grant
  pub limits : RunLimits
  pub limits_text : String

-- What `run` changes: the store, the world, and its local variables.
pub record RunState (World : Type 0) : Type 0 where
  pub store : EventStore
  pub world : World
  pub conversation : List Turn
  pub steps : ℕ
  pub tool_calls : ℕ
  pub evidence : List String
