-- ===== src/Runtime/Registry/Authority.antt =====
-- What `ToolRegistry` requires before a handler runs.
use trace_gate_framework.Prelude.{
  String, ◌≡◌, ◌≢◌, refl, sym, true, false, inl, inr, some, List, [], ◌∷◌, arith, string_Eq,
  contains, is_empty, concat, ok, Bool-cases,
}
use trace_gate_framework.Prelude.Dict.{lookup, lookup-insert_cases, insert}
use trace_gate_framework.Runtime.Events.{read, write, destructive, effect_Eq, green, amber, red}
use trace_gate_framework.Runtime.Registry.{
  ToolDefinition, define_tool, ToolRegistry, register, Arguments, Grant, preflight, is_red,
  is_green,
}

-- A registry filled by `register` with definitions that passed their own check.
pub data Built : ToolRegistry → Type 0 where
  empty : Built []
  add :
      {tools tools' : ToolRegistry} (tool : ToolDefinition)
      → Built tools
      → define_tool tool ≡ ok tool
      → register tool tools ≡ ok tools'
      → Built tools'

register-insert :
    (tool : ToolDefinition) (old tools : ToolRegistry)
    → register tool old ≡ ok tools
    → tools ≡ insert tool.tool_id tool old
unfolding register
register-insert tool old tools h = ground arith

Built-defined :
    (tools : ToolRegistry) (k : String) (t : ToolDefinition)
    → Built tools
    → lookup k tools ≡ some t
    → define_tool t ≡ ok t
unfolding lookup
Built-defined tools k t empty h = cc
Built-defined tools k t (add {tools = old} tool b d r) h =
    elim (lookup-insert_cases tool.tool_id k tool t old
      (rw (register-insert tool old tools r) at h)) [
        | inl (_, e) ↦ rw e d
        | inr (_, before) ↦ Built-defined old k t b before
      ]

preflight_parts :
    (k : String) (args : Arguments) (grant : Grant) (tools : ToolRegistry) (t : ToolDefinition)
    → preflight k args grant tools ≡ ok t
    → (lookup k tools ≡ some t) × (contains k grant.allowed_tools ≡ true)
unfolding preflight
preflight_parts k args grant tools t h = ground arith

defined_green :
    (t : ToolDefinition) → define_tool t ≡ ok t → is_green t.risk ≡ true → t.effect ≡ read
unfolding define_tool
defined_green t h g =
    elim t.effect as (λ f. f ≡ t.effect → f ≡ read) [
      | read ↦ λ e. refl
      | write ↦ λ e. absurd (ground (arith, e))
      | destructive ↦ λ e. absurd (ground (arith, e))
    ]
      refl

-- What a checked definition says of risk.
defined_mutating :
    (t : ToolDefinition) → define_tool t ≡ ok t → t.effect ≢ read → is_green t.risk ≡ false
defined_mutating t h n = elim (Bool-cases (is_green t.risk)) [
  | inl y ↦ absurd (n (defined_green t h y))
  | inr y ↦ y
]

defined_destructive :
    (t : ToolDefinition) → define_tool t ≡ ok t → t.effect ≡ destructive → is_red t.risk ≡ true
unfolding define_tool
defined_destructive t h e = ground arith

preflight_red :
    (k : String) (args : Arguments) (grant : Grant) (tools : ToolRegistry) (t : ToolDefinition)
    → preflight k args grant tools ≡ ok t
    → is_red t.risk ≡ true
    → contains (concat "red:" k) grant.authorization_refs ≡ true
unfolding preflight
preflight_red k args grant tools t h r = ground arith

preflight_amber :
    (k : String) (args : Arguments) (grant : Grant) (tools : ToolRegistry) (t : ToolDefinition)
    → preflight k args grant tools ≡ ok t
    → t.risk ≡ amber
    → is_empty grant.authorization_refs ≡ false
unfolding preflight
preflight_amber k args grant tools t h r = ground arith

has_reference : (x : String) (refs : List String) → contains x refs ≡ true → refs ≢ []
unfolding contains
has_reference x [] h = absurd (ground arith)
has_reference x (y ∷ ys) h = ground arith

not_empty : (refs : List String) → is_empty refs ≡ false → refs ≢ []
not_empty [] h = absurd (ground arith)
not_empty (y ∷ ys) h = ground arith

-- With a registry of checked definitions, a call of a mutating tool passes only inside the run's
-- scope and with an authorization reference.
pub mutation_needs_authority :
    (k : String) (args : Arguments) (grant : Grant) (tools : ToolRegistry) (t : ToolDefinition)
    → Built tools
    → preflight k args grant tools ≡ ok t
    → t.effect ≢ read
    → (contains k grant.allowed_tools ≡ true) × (grant.authorization_refs ≢ [])
mutation_needs_authority k args grant tools t b h n =
    let parts = preflight_parts k args grant tools t h in
    let mutating : is_green t.risk ≡ false =
      defined_mutating t (Built-defined tools k t b parts.0) n in
    (
      parts.1,
      elim t.risk as (λ r. r ≡ t.risk → grant.authorization_refs ≢ []) [
        | green ↦ λ e. absurd (ground (arith, mutating, e))
        | amber ↦
            λ e. not_empty grant.authorization_refs (preflight_amber k args grant tools t h (sym e))
        | red ↦ λ e.
            has_reference (concat "red:" k) grant.authorization_refs
              (preflight_red k args grant tools t h (rw (← e) refl))
      ]
          refl,
    )

-- With a registry of checked definitions, a call of a destructive tool passes only with the
-- reference that names this very tool.
pub destruction_needs_consent :
    (k : String) (args : Arguments) (grant : Grant) (tools : ToolRegistry) (t : ToolDefinition)
    → Built tools
    → preflight k args grant tools ≡ ok t
    → t.effect ≡ destructive
    → contains (concat "red:" k) grant.authorization_refs ≡ true
destruction_needs_consent k args grant tools t b h e =
    preflight_red k args grant tools t h (
      defined_destructive t (Built-defined tools k t b (preflight_parts k args grant tools t h).0)
        e)
