-- ===== src/Runtime/Events.antt =====
-- runtime.py: the events of the ledger. A JSON value that the runtime only stores, compares or
-- hashes (arguments, output, a delegated task) stands as its canonical JSON text.
use trace_gate_framework.Prelude.{
  ℕ, String, Bool, true, false, ◌≡◌, Option, List, ℕ_discrete, string_discrete, Eq, ◌↔◌, arith,
  discrete_Eq,
}

pub data Effect : Type 0 where
  read write destructive : Effect

pub data Risk : Type 0 where
  green amber red : Risk

pub record Call : Type 0 where
  pub tool_id : String
  pub arguments : String

-- A model output; `other` is one of another type, which only a ledger read from disk can hold.
pub data Action : Type 0 where
  tool_call : Call → Action
  tool_batch : List Call → Action
  answer : String → Action
  model_error : Option String → Action
  delegate : Option String → Action
  other : String → Action

pub record Start : Type 0 where
  pub runtime_version : Option ℕ
  pub scope_digest : Option String
  pub limits : String
  pub deadline_epoch : ℕ

pub record Attempt : Type 0 where
  pub attempt_id : String
  pub tool_id : String
  pub effect : Effect
  pub arguments_digest : String

pub record Observation : Type 0 where
  pub attempt_id : Option String
  pub tool_id : String
  pub effect : Effect
  pub risk : Risk
  pub elapsed_seconds : String
  pub output : String
  pub output_digest : String

-- `result` of a verification: whether its `passed` is `True`, and the whole value.
pub record Verdict : Type 0 where
  pub passed : Bool
  pub result : String

pub data Body : Type 0 where
  run_started : Start → Body
  run_resumed : String → Body
  model_started : Body
  model_action : Action → Body
  attempt_started : Attempt → Body
  tool_observation : Observation → Body
  verification : Verdict → Body
  delegation_requested : Option String → Body
  run_completed : Option String → Body
  run_failed : String → Body
  run_blocked : String → Body
  unknown : String → Body

-- An event without its digest, which is what the digest covers.
pub record Unsigned : Type 0 where
  pub sequence : ℕ
  pub previous_digest : Option String
  pub run_id : String
  pub body : Body

pub record Event : Type 0 where
  pub unsigned : Unsigned
  pub open unsigned use *
  pub digest : String

abbrev pub effect_eq : Effect → Effect → Bool
effect_eq read read = true
effect_eq write write = true
effect_eq destructive destructive = true
effect_eq _ _ = false

pub effect_eq_iff : (a b : Effect) → (effect_eq a b ≡ true) ↔ (a ≡ b)
effect_eq_iff read b = ground arith
effect_eq_iff write b = ground arith
effect_eq_iff destructive b = ground arith

instance abbrev pub effect_Eq : Eq Effect
effect_Eq = record { same = effect_eq; same_iff = effect_eq_iff }

pub Unsigned-discrete : Discrete Unsigned
Unsigned-discrete = hlevel (string_discrete, ℕ_discrete)

pub Event-discrete : Discrete Event
Event-discrete = hlevel (string_discrete, ℕ_discrete)

instance abbrev pub event_Eq : Eq Event
event_Eq = discrete_Eq Event-discrete
