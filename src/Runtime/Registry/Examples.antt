-- ===== src/Runtime/Registry/Examples.antt =====
-- runtime.py: `ToolRegistry` at concrete inputs, with a handler that counts its calls.
use trace_gate_framework.Prelude.{
  ℕ, suc, String, string_Eq, ◌≡◌, ◌≢◌, refl, true, none, some, List, [], ◌∷◌, arith, ok, traverse,
  any, contains, concat,
}
use trace_gate_framework.Prelude.Dict.{insert, lookup, has_key}
use trace_gate_framework.Runtime.Events.{read, destructive, green, red}
use trace_gate_framework.Runtime.Registry.{
  ticks, ToolDefinition, define_tool, ToolRegistry, register, get, Arguments, object, Grant,
  preflight, Invocation, BatchCall, execute, check_batch, execute_all, execute_batch,
}
use trace_gate_framework.Runtime.Registry.Authority.{
  Built, empty, add, mutation_needs_authority, destruction_needs_consent,
}

abbrev drop_table : ToolDefinition
drop_table = record {
  tool_id = "drop";
  description = "drops a table";
  effect = destructive;
  risk = red;
  timeout_seconds = ticks 5;
  idempotency_strategy = some "by name";
}

abbrev search_tool : ToolDefinition
search_tool = record {
  tool_id = "search";
  description = "searches";
  effect = read;
  risk = green;
  timeout_seconds = ticks 5;
  idempotency_strategy = none;
}

abbrev tools : ToolRegistry
tools = ("drop", drop_table) ∷ ("search", search_tool) ∷ []

abbrev grant : Grant
grant = record { allowed_tools = "drop" ∷ "search" ∷ []; authorization_refs = "red:drop" ∷ [] }

tools-Built : Built tools
unfolding register insert lookup define_tool has_key
tools-Built =
    add {tools = ("drop", drop_table) ∷ []} search_tool
      (add {tools = []} drop_table empty refl refl) refl refl

preflight_drop : preflight "drop" (object "{}") grant tools ≡ ok drop_table
unfolding preflight get lookup contains
preflight_drop = refl

mutation_needs_authority_example :
    (contains "drop" grant.allowed_tools ≡ true) × (grant.authorization_refs ≢ [])
mutation_needs_authority_example =
    mutation_needs_authority "drop" (object "{}") grant tools drop_table tools-Built preflight_drop
      (ground arith)

destruction_needs_consent_example : contains (concat "red:" "drop") grant.authorization_refs ≡ true
destruction_needs_consent_example =
    destruction_needs_consent "drop" (object "{}") grant tools drop_table tools-Built preflight_drop
      refl

abbrev count_call : ToolDefinition → Arguments → ℕ → Invocation ℕ
count_call tool arguments n = record {
  result = ok "done";
  elapsed = 1;
  elapsed_text = "0.001";
  world = suc n;
}

abbrev no_digest : String → String
no_digest text = text

abbrev calls : List BatchCall
calls =
    record { tool_id = "search"; arguments = object "{}" }
    ∷ record { tool_id = "search"; arguments = object "{1}" }
    ∷ []

-- The batch above takes the second case.
batch_runs : (execute_batch no_digest count_call calls grant tools 7).1 ≡ 9
unfolding execute_batch check_batch execute_all execute preflight get lookup contains traverse any
batch_runs = refl
