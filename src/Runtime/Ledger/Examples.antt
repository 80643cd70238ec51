-- ===== src/Runtime/Ledger/Examples.antt =====
-- The ledger of runtime.py at concrete inputs: a run that writes once, answers and completes. The
-- digest of a text is the text itself here, and the text of an event names its kind.
use trace_gate_framework.Prelude.{
  Among, ℕ, String, ◌≡◌, ◌⊎◌, inl, inr, refl, true, Option, none, some, List, [], ◌∷◌, ◌++◌, arith,
  ok, last?, contains,
}
use trace_gate_framework.Prelude.Dict.{lookup, has_key, insert}
use trace_gate_framework.Runtime.Events.{
  write, amber, answer, Attempt, Observation, Verdict, Body, run_started, model_action,
  attempt_started, tool_observation, verification, run_completed, Unsigned, Event,
}
use trace_gate_framework.Runtime.Ledger.{
  head_digest, digest_text, digest_event, check_body, check_event, scan_event, scan, validate,
  collect_attempts, observed_of, last_answer, unresolved,
}
use trace_gate_framework.Runtime.Ledger.Scanning.{events_of}
use trace_gate_framework.Runtime.Ledger.Store.{EventStore, missing, lines, append, validate_on_disk}
use trace_gate_framework.Runtime.Ledger.Tamper.{Collision, head_digest_binds}
use trace_gate_framework.Runtime.Ledger.Appending.{append_lem}
use trace_gate_framework.Runtime.Ledger.Completion.{completion_verified, completion_is_final}
use trace_gate_framework.Runtime.Ledger.Attempts.{completed_mutations_observed}

abbrev sha256 : String → String
sha256 text = text

abbrev dumps_body : Body → String
dumps_body (run_started start) = "run_started"
dumps_body (model_action action) = "model_action"
dumps_body (attempt_started a) = "attempt_started"
dumps_body (tool_observation o) = "tool_observation"
dumps_body (verification verdict) = "verification"
dumps_body (run_completed ans) = "run_completed"
dumps_body _ = "other"

abbrev dumps : Unsigned → String
dumps u = dumps_body u.body

abbrev signed : ℕ → Option String → Body → Event
signed n before body =
    let u : Unsigned = record {
      sequence = n;
      previous_digest = before;
      run_id = "run-1";
      body = body;
    } in
    record { unsigned = u; digest = digest_event sha256 dumps u }

abbrev start_body : Body
start_body = run_started (record {
  runtime_version = some 2;
  scope_digest = some "scope";
  limits = "{}";
  deadline_epoch = 10;
})

abbrev attempt : Attempt
attempt = record { attempt_id = "a1"; tool_id = "put"; effect = write; arguments_digest = "d" }

abbrev observation : Observation
observation = record {
  attempt_id = some "a1";
  tool_id = "put";
  effect = write;
  risk = amber;
  elapsed_seconds = "1";
  output = "out";
  output_digest = "sha256:out";
}

abbrev final_answer : Option String
final_answer = some "42"

abbrev e1 : Event
e1 = signed 1 none start_body

abbrev e2 : Event
e2 = signed 2 (some "sha256:run_started") (attempt_started attempt)

abbrev e3 : Event
e3 = signed 3 (some "sha256:attempt_started") (tool_observation observation)

abbrev e4 : Event
e4 = signed 4 (some "sha256:tool_observation") (model_action (answer "42"))

abbrev e5 : Event
e5 = signed 5 (some "sha256:model_action") (verification (record { passed = true; result = "{}" }))

abbrev e6 : Event
e6 = signed 6 (some "sha256:verification") (run_completed final_answer)

abbrev front : List Event
front = e1 ∷ e2 ∷ e3 ∷ e4 ∷ e5 ∷ []

ledger_accepted : validate sha256 dumps (front ++ e6 ∷ []) ≡ ok tt
unfolding validate scan scan_event check_event check_body digest_event digest_text lookup insert
    has_key contains collect_attempts observed_of last_answer unresolved
ledger_accepted = refl

completion_verified_example :
    (rs : List Event) × (a v : Event) × (content : String) × (verdict : Verdict) × (events_of
        "run-1" front
      ≡ rs ++ a ∷ v ∷ [])
    × (a.body ≡ model_action (answer content))
    × (v.body ≡ verification verdict)
    × (verdict.passed ≡ true)
    × (final_answer ≡ some content)
completion_verified_example =
    completion_verified sha256 dumps front [] e6 final_answer ledger_accepted refl

completion_is_final_example : events_of "run-1" [] ≡ []
completion_is_final_example = completion_is_final sha256 dumps front [] e6 ledger_accepted refl

attempt-Among : Among e2 (events_of "run-1" front)
unfolding events_of
attempt-Among = inr (inl refl)

completed_mutations_observed_example :
    (y : Event) × (o : Observation) × Among y (events_of "run-1" front)
    × (y.body ≡ tool_observation o)
    × (o.attempt_id ≡ some "a1")
completed_mutations_observed_example =
    completed_mutations_observed sha256 dumps front [] e6 e2 final_answer attempt ledger_accepted
      refl attempt-Among refl (ground arith)

head_digest_binds_example :
    (front ++ e6 ∷ [] ≡ front ++ e6 ∷ [])
    ⊎ Collision sha256 dumps (front ++ e6 ∷ []) (front ++ e6 ∷ [])
head_digest_binds_example =
    head_digest_binds sha256 dumps (front ++ e6 ∷ []) (front ++ e6 ∷ []) ledger_accepted
      ledger_accepted refl

abbrev new_store : EventStore
new_store = record { file = missing; events = [] }

abbrev started_store : EventStore
started_store = record { file = lines (e1 ∷ []); events = e1 ∷ [] }

started :
    append sha256 dumps "run-1" start_body new_store ≡ ok ("sha256:run_started", started_store)
unfolding append validate_on_disk validate scan scan_event check_event check_body digest_event
    digest_text lookup insert
started = refl

append_lem_example :
    (e : Event) × (started_store.events ≡ [] ++ e ∷ [])
    × (e.run_id ≡ "run-1")
    × (e.body ≡ start_body)
    × (validate sha256 dumps started_store.events ≡ ok tt)
    × (head_digest (last? started_store.events) ≡ some "sha256:run_started")
    × (validate_on_disk sha256 dumps started_store ≡ ok tt)
append_lem_example =
    append_lem sha256 dumps "run-1" start_body new_store started_store "sha256:run_started" started
