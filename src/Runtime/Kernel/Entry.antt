-- ===== src/Runtime/Kernel/Entry.antt =====
-- runtime.py: `RunKernel.run` around its loop, and `_rehydrate`.
use trace_gate_framework.Prelude.{
  ℕ, ◌+◌, ◌-◌, String, Bool, true, false, not, ◌&&◌, Option, none, some, List, [], ◌∷◌, ◌++◌, map,
  ◌==◌, nat_Eq, string_Eq, option_Eq, if◌then◌else◌, any, contains, is_empty, head?, last?, Result,
  ok, err, Error, permission_error,
}
use trace_gate_framework.Runtime.Events.{
  read, effect_Eq, Start, Verdict, Body, run_started, run_resumed, model_started, model_action,
  attempt_started, tool_observation, verification, run_completed, run_failed, run_blocked, Event,
}
use trace_gate_framework.Runtime.Ledger.{observed_of}
use trace_gate_framework.Runtime.Ledger.Scanning.{events_of}
use trace_gate_framework.Runtime.Ledger.Store.{EventStore, validate_on_disk}
use trace_gate_framework.Runtime.Kernel.{
  Turn, assistant, tool, feedback, Clock, RunKernel, RunState, RunStatus, completed, blocked,
  failed, RunResult,
}
use trace_gate_framework.Runtime.Kernel.Round.{Deadline, emit, loop}

-- What `_rehydrate` restores.
pub record Restored : Type 0 where
  pub conversation : List Turn
  pub steps : ℕ
  pub tool_calls : ℕ

abbrev pub restore_event : Body → Restored → Restored
restore_event model_started r = record r { steps = r.steps + 1 }
restore_event (model_action action) r = record r {
  conversation = r.conversation ++ assistant action ∷ [];
}
restore_event (attempt_started attempt) r = record r { tool_calls = r.tool_calls + 1 }
restore_event (tool_observation observation) r = record r {
  conversation = r.conversation ++ tool observation ∷ [];
}
restore_event (verification verdict) r =
    if verdict.passed
    then r
    else record r { conversation = r.conversation ++ feedback verdict.result ∷ [] }
restore_event _ r = r

-- The loop of `_rehydrate` over the events of the run.
unfoldable pub restore : List Event → Restored → Restored
restore [] r = r
restore (e ∷ events) r = restore events (restore_event e.body r)

unfoldable pub rehydrate : String → List Event → List Turn → Restored
unfolding restore
rehydrate run_id events messages =
    restore (events_of run_id events)
      (record { conversation = messages; steps = 0; tool_calls = 0 })

abbrev pub unresolved_attempt : List (Option String) → Body → Bool
unresolved_attempt observed (attempt_started a) =
    not (a.effect == read) && not (contains (some a.attempt_id) observed)
unresolved_attempt observed _ = false

-- Some mutating attempt has no observation.
unfoldable pub has_unresolved : List Event → Bool
has_unresolved existing =
    any (λ (e : Event). unresolved_attempt (observed_of existing) e.body) existing

-- How a run begins, from the events that it has already.
pub data Entry : Type 0 where
  replayed : Option String → Entry
  refused : String → Entry
  resumed : String → ℕ → Entry
  fresh_start : Entry

abbrev pub completion_of : Option Event → Option (Option String)
completion_of none = none
completion_of (some e) = elim e.body [ run_completed ans ↦ some ans | _ ↦ none ]

abbrev pub start_of : Option Event → Option Start
start_of none = none
start_of (some e) = elim e.body [ run_started start ↦ some start | _ ↦ none ]

abbrev pub same_envelope : String → Option Start → Bool
same_envelope scope none = false
same_envelope scope (some start) =
    (start.runtime_version == some 2) && (start.scope_digest == some scope)

abbrev pub approved_entry : (String → Bool) → List Event → Option Start → Option String → Entry
approved_entry is_blank existing start none = refused "explicit resume approval required"
approved_entry is_blank existing start (some approval) =
    if is_blank approval
    then refused "explicit resume approval required"
    else if has_unresolved existing
    then refused "unresolved mutation; reconcile before a new authorized run"
    else resumed approval (elim start [ none ↦ 0 | some s ↦ s.deadline_epoch ])

abbrev pub entry_after :
    (String → Bool) → String → List Event → Option String → Option (Option String) → Entry
entry_after is_blank scope existing approval (some ans) = replayed ans
entry_after is_blank scope existing approval none =
    if is_empty existing
    then fresh_start
    else if not (same_envelope scope (start_of (head? existing)))
    then refused "legacy or changed run envelope; use a new authorized run"
    else approved_entry is_blank existing (start_of (head? existing)) approval

unfoldable pub entry : (String → Bool) → String → List Event → Option String → Entry
unfolding has_unresolved
entry is_blank scope existing approval =
    entry_after is_blank scope existing approval (completion_of (last? existing))

module _ {World : Type 0} (k : RunKernel World) where
  abbrev pub result_of : RunStatus → Option String → Option String → RunState World → RunResult
  result_of status answer error s = record {
    run_id = k.run_id;
    status = status;
    answer = answer;
    steps = s.steps;
    tool_calls = s.tool_calls;
    evidence_refs = s.evidence;
    last_error = error;
  }

  abbrev pub is_permission : Error → Bool
  is_permission (permission_error text) = true
  is_permission _ = false

  abbrev pub after_error :
      RunStatus → Error → Result (Unit {0}) × RunState World → Result RunResult × RunState World
  after_error status e (err e', s) = (err e', s)
  after_error status e (ok done, s) =
      (ok (result_of status none (some (k.environment.message e)) s), s)

  -- The two `except` clauses and the ordinary end.
  unfoldable pub conclude :
      Result (RunStatus × Option String) × RunState World → Result RunResult × RunState World
  conclude (ok (status, answer), s) = (ok (result_of status answer none s), s)
  conclude (err e, s) =
      if is_permission e
      then after_error blocked e (emit k (run_blocked (k.environment.message e)) s)
      else after_error failed e (emit k (run_failed (k.environment.message e)) s)

  abbrev pub enter_by :
      Option (String → World → Result (Option Verdict) × World)
      → Deadline
      → RunState World
      → Result (RunStatus × Option String) × RunState World
  enter_by none deadline s = (err (permission_error "verifier is required"), s)
  enter_by (some verifier) deadline s = loop k deadline (k.limits.max_steps - s.steps) s

  -- `monotonic_deadline = time.monotonic() + max(0, deadline - time.time())`
  abbrev pub deadline_from : ℕ → Clock → Deadline
  deadline_from deadline now = record {
    time = deadline;
    monotonic = now.monotonic + (deadline - now.time);
  }

  abbrev pub guarded : ℕ → Result (Unit {0}) × RunState World → Result RunResult × RunState World
  guarded deadline (err e, s) = (err e, s)
  guarded deadline (ok done, s) =
      let (now, world) = k.environment.clock s.world in
      conclude
        (enter_by k.environment.verifier (deadline_from deadline now) (record s { world = world }))

  -- The first event of this call, and the loop.
  unfoldable pub begin : Body → ℕ → RunState World → Result RunResult × RunState World
  unfolding conclude
  begin body deadline s = guarded deadline (emit k body s)

  abbrev pub started_body : List Turn → ℕ → Body
  started_body messages deadline = run_started (record {
    runtime_version = some 2;
    scope_digest = some (k.environment.scope messages);
    limits = k.limits_text;
    deadline_epoch = deadline;
  })

  unfoldable pub enter : List Turn → Entry → RunState World → Result RunResult × RunState World
  unfolding begin
  enter messages (replayed ans) s = (ok (result_of completed ans none s), s)
  enter messages (refused reason) s = (ok (result_of blocked none (some reason) s), s)
  enter messages (resumed approval deadline) s = begin (run_resumed approval) deadline s
  enter messages fresh_start s =
      let (now, world) = k.environment.clock s.world in
      let deadline : ℕ = now.time + k.limits.deadline_seconds in
      begin (started_body messages deadline) deadline (record s { world = world })

  -- The variables of `run` before its first event.
  unfoldable pub initial : List Turn → EventStore → World → RunState World
  unfolding rehydrate
  initial messages store world =
      let restored : Restored = rehydrate k.run_id store.events messages in
      record {
        store = store;
        world = world;
        conversation = restored.conversation;
        steps = restored.steps;
        tool_calls = restored.tool_calls;
        evidence = map (λ (e : Event). e.digest) (events_of k.run_id store.events);
      }

  abbrev pub checked_run :
      List Turn
      → Option String
      → RunState World
      → Result (Unit {0})
      → Result RunResult × RunState World
  checked_run messages approval s (err e) = (err e, s)
  checked_run messages approval s (ok done) =
      enter messages
        (entry k.environment.is_blank (k.environment.scope messages)
          (events_of k.run_id s.store.events) approval)
        s

  unfoldable pub run :
      List Turn → Option String → EventStore → World → Result RunResult × RunState World
  unfolding initial enter
  run messages approval store world =
      checked_run messages approval (initial messages store world)
        (validate_on_disk k.environment.sha256 k.environment.dumps store)
