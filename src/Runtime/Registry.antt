-- ===== src/Runtime/Registry.antt =====
-- runtime.py: `ToolDefinition` and `ToolRegistry`. What a handler does to the world outside, and how
-- long it takes, is the argument `invoke`. The calls of a batch are run in the order of submission,
-- one of the orders that the thread pool may take; the lock has no counterpart then.
pub mod Authority
pub mod Batches
mod Examples
use trace_gate_framework.Prelude.{
  ℕ, String, ◌≡◌, Bool, true, false, not, ◌&&◌, ◌||◌, Option, none, some, List, [], ◌∷◌, Eq, ◌==◌,
  string_Eq, if◌then◌else◌, ltb, any, contains, is_empty, concat, Result, ok, err, value_error,
  permission_error, timeout_error, guard, reject_if, traverse, ◌>>=◌, ◌>>◌,
}
use trace_gate_framework.Prelude.Dict.{Dict, lookup, has_key, insert}
use trace_gate_framework.Runtime.Events.{
  Effect, read, write, destructive, effect_Eq, Risk, green, amber, red,
}

-- A duration as Python meets it: a finite number of clock ticks, or no positive finite number.
pub data Duration : Type 0 where
  ticks : ℕ → Duration
  negative infinite not_numeric : Duration

pub record ToolDefinition : Type 0 where
  pub tool_id : String
  pub description : String
  pub effect : Effect
  pub risk : Risk
  pub timeout_seconds : Duration
  pub idempotency_strategy : Option String

abbrev is_positive : Duration → Bool
is_positive (ticks n) = ltb 0 n
is_positive _ = false

abbrev pub is_green : Risk → Bool
is_green green = true
is_green _ = false

abbrev pub is_red : Risk → Bool
is_red red = true
is_red _ = false

abbrev is_amber : Risk → Bool
is_amber amber = true
is_amber _ = false

abbrev pub is_truthy : Option String → Bool
is_truthy none = false
is_truthy (some text) = not (text == "")

-- `__post_init__`; that effect and risk are among their three values is in their types.
unfoldable pub define_tool : ToolDefinition → Result ToolDefinition
define_tool tool = do
  guard (is_positive tool.timeout_seconds) (value_error "invalid tool timeout")
  reject_if ((tool.effect == destructive) && not (is_red tool.risk))
      (value_error "destructive tools must be red risk")
  reject_if ((tool.effect == write) && is_green tool.risk)
      (value_error "write tools cannot be green risk")
  reject_if (not (tool.effect == read) && not (is_truthy tool.idempotency_strategy))
      (value_error "mutating tools require an idempotency strategy")
  ok tool

abbrev pub ToolRegistry : Type 0
ToolRegistry = Dict ToolDefinition

unfoldable pub register : ToolDefinition → ToolRegistry → Result ToolRegistry
register definition tools = do
  reject_if (has_key definition.tool_id tools)
      (value_error (concat "duplicate tool: " definition.tool_id))
  ok (insert definition.tool_id definition tools)

abbrev registered : String → Option ToolDefinition → Result ToolDefinition
registered tool_id none = err (permission_error (concat "tool is not registered: " tool_id))
registered tool_id (some tool) = ok tool

unfoldable pub get : String → ToolRegistry → Result ToolDefinition
get tool_id tools = registered tool_id (lookup tool_id tools)

-- Arguments of a call: an object or another value with its canonical JSON text, or a value that
-- has none (not a number, infinite or no JSON value inside).
pub data Arguments : Type 0 where
  object : String → Arguments
  not_json : Arguments
  not_object : String → Arguments

abbrev is_object : Arguments → Bool
is_object (not_object text) = false
is_object _ = true

abbrev is_json : Arguments → Bool
is_json not_json = false
is_json _ = true

-- The tools that the run may use, and its authorization references.
pub record Grant : Type 0 where
  pub allowed_tools : List String
  pub authorization_refs : List String

unfoldable pub preflight : String → Arguments → Grant → ToolRegistry → Result ToolDefinition
unfolding get
preflight tool_id arguments grant tools = do
  guard (is_object arguments) (value_error "tool arguments must be an object")
  guard (is_json arguments) (value_error "arguments are not JSON compliant")
  guard (contains tool_id grant.allowed_tools)
      (permission_error (concat "tool is outside run scope: " tool_id))
  tool ← get tool_id tools
  reject_if (is_amber tool.risk && is_empty grant.authorization_refs)
      (permission_error "amber tool requires an authorization reference")
  reject_if (is_red tool.risk && not (contains (concat "red:" tool_id) grant.authorization_refs)) (
      permission_error (concat "red tool requires explicit red:" (concat tool_id " authorization")))
  ok tool

pub record Output : Type 0 where
  pub tool_id : String
  pub effect : Effect
  pub risk : Risk
  pub elapsed_seconds : ℕ
  pub output : String
  pub output_digest : String

-- What a handler did: its result, the ticks it took, those in seconds with three places, and the
-- world after it.
pub record Invocation (World : Type 0) : Type 0 where
  pub result : Result String
  pub elapsed : ℕ
  pub elapsed_text : String
  pub world : World

abbrev exceeds : ℕ → Duration → Bool
exceeds elapsed (ticks n) = ltb n elapsed
exceeds elapsed negative = true
exceeds elapsed _ = false

pub record BatchCall : Type 0 where
  pub tool_id : String
  pub arguments : Arguments

module _ {World : Type 0} (digest : String → String)
    (invoke : ToolDefinition → Arguments → World → Invocation World) where
  abbrev pub finish : String → ToolDefinition → Invocation World → Result Output
  finish tool_id tool done = do
    output ← done.result
    reject_if (exceeds done.elapsed tool.timeout_seconds)
        (timeout_error (concat "tool exceeded timeout after " (concat done.elapsed_text "s")))
    ok (record {
      tool_id = tool_id;
      effect = tool.effect;
      risk = tool.risk;
      elapsed_seconds = done.elapsed;
      output = output;
      output_digest = digest output;
    })

  abbrev execute_tool : String → Arguments → Result ToolDefinition → World → Result Output × World
  execute_tool tool_id arguments (err e) world = (err e, world)
  execute_tool tool_id arguments (ok tool) world =
      let done : Invocation World = invoke tool arguments world in
      (finish tool_id tool done, done.world)

  unfoldable pub execute : String → Arguments → Grant → ToolRegistry → World → Result Output × World
  execute tool_id arguments grant tools world =
      execute_tool tool_id arguments (preflight tool_id arguments grant tools) world

  -- The futures of a batch: every call is made, whatever the others return.
  unfoldable pub execute_all :
      List BatchCall → Grant → ToolRegistry → World → List (Result Output) × World
  execute_all [] grant tools world = ([], world)
  execute_all (call ∷ calls) grant tools world =
      let (r, world') = execute call.tool_id call.arguments grant tools world in
      let (rs, after) = execute_all calls grant tools world' in (r ∷ rs, after)

  -- `[future.result() for future in futures]`
  unfoldable pub results : List (Result Output) → Result (List Output)
  results [] = ok []
  results (r ∷ rs) = do output ← r; outputs ← results rs; ok (output ∷ outputs)

  unfoldable pub check_batch : List BatchCall → Grant → ToolRegistry → Result (Unit {0})
  check_batch calls grant tools = do
    definitions ←
        traverse (λ (call : BatchCall). preflight call.tool_id call.arguments grant tools) calls
    reject_if (any (λ (tool : ToolDefinition). not (tool.effect == read)) definitions)
        (permission_error "batched tool calls must all be read-only")
    reject_if (is_empty calls) (value_error "max_workers must be greater than 0")

  abbrev execute_checked :
      Result (Unit {0})
      → List BatchCall
      → Grant
      → ToolRegistry
      → World
      → Result (List Output) × World
  execute_checked (err e) calls grant tools world = (err e, world)
  execute_checked (ok checked) calls grant tools world =
      let (rs, after) = execute_all calls grant tools world in (results rs, after)

  unfoldable pub execute_batch :
      List BatchCall → Grant → ToolRegistry → World → Result (List Output) × World
  execute_batch calls grant tools world =
      execute_checked (check_batch calls grant tools) calls grant tools world
