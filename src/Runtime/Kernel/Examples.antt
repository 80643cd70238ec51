-- ===== src/Runtime/Kernel/Examples.antt =====
-- The kernel of runtime.py at concrete inputs: a model that searches once and then answers, and a
-- world that counts its calls. The digest of a text is the text itself here.
use trace_gate_framework.Prelude.{
  ℕ, suc, ◌+◌, ◌-◌, ◌≤◌, String, string_Eq, option_Eq, ◌==◌, ◌≡◌, ◌⊎◌, refl, ap, sym, some-inj,
  true, false, Bool, not, inl, inr, Option, none, some, List, [], ◌∷◌, ◌++◌, arith, All, any,
  is_empty, Result, ok, err, Error, value_error, key_error, permission_error, runtime_error,
  timeout_error, contains, concat, last?, leb, ltb, subset, is_unique, traverse, ◌>>=◌,
}
use trace_gate_framework.Prelude.Exec
use trace_gate_framework.Prelude.Dict.{insert, lookup, has_key}
use trace_gate_framework.Runtime.Events.{
  read, green, effect_Eq, answer, Verdict, Body, run_started, model_action, attempt_started,
  tool_observation, verification, run_completed, Unsigned, Event,
}
use trace_gate_framework.Runtime.Registry.{
  ticks, ToolDefinition, Arguments, object, Invocation, get, preflight, execute, execute_batch,
  execute_all,
}
use trace_gate_framework.Runtime.Ledger.{
  digest_text, digest_event, check_body, check_event, scan_event, scan, validate, collect_attempts,
  observed_of, last_answer, unresolved,
}
use trace_gate_framework.Runtime.Ledger.Scanning.{events_of}
use trace_gate_framework.Runtime.Ledger.Store.{EventStore, no_path, append, validate_on_disk}
use trace_gate_framework.Runtime.Kernel.{
  Turn, given, RawAction, raw_call, raw_answer, parse_action, ledger_action, Environment, RunKernel,
  RunState, RunResult, completed, blocked,
}
use trace_gate_framework.Runtime.Kernel.Round.{
  emit, check_deadline, say, begin_step, ask_model, check_budget, begin_attempt, observe, call_tool,
  tool_call_round, verify, complete_run, answer_round, perform, round, loop,
}
use trace_gate_framework.Runtime.Kernel.Round.Keeping.{is_step, is_attempt, count_of}
use trace_gate_framework.Runtime.Kernel.Entry.{
  restore, rehydrate, completion_of, has_unresolved, entry, conclude, begin, enter, initial, run,
  result_of,
}
use trace_gate_framework.Runtime.Kernel.Budgets.{run_within_budgets}
use trace_gate_framework.Runtime.Kernel.Round.Meters.{IsMetered}
use trace_gate_framework.Runtime.Kernel.Completed.{completed_answer_verified}
use trace_gate_framework.Runtime.Kernel.Resuming.{IsHeld, held_run_blocked, completed_run_repeats}

abbrev dumps_body : Body → String
dumps_body (run_started start) = "run_started"
dumps_body (attempt_started a) = "attempt_started"
dumps_body (tool_observation o) = "tool_observation"
dumps_body (model_action action) = "model_action"
dumps_body (verification verdict) = "verification"
dumps_body (run_completed ans) = "run_completed"
dumps_body _ = "other"

abbrev dumps : Unsigned → String
dumps u = dumps_body u.body

abbrev same_text : String → String
same_text text = text

-- How often the model and the handlers were called.
record World : Type 0 where
  asked : ℕ
  ran : ℕ

abbrev untouched : World
untouched = record { asked = 0; ran = 0 }

abbrev elsewhere : World
elsewhere = record { asked = 7; ran = 7 }

abbrev counted : ToolDefinition → Arguments → World → Invocation World
counted tool arguments w = record {
  result = ok "found";
  elapsed = 1;
  elapsed_text = "0.001";
  world = record w { ran = suc w.ran };
}

abbrev next_action : List Turn → RawAction
next_action (question ∷ []) = raw_call (some "search") (some (object "{}"))
next_action _ = raw_answer (some "42")

abbrev verdict : Verdict
verdict = record { passed = true; result = "{}" }

abbrev environment : Environment World
environment = record {
  sha256 = same_text;
  dumps = dumps;
  digest = λ t. concat "sha256:" t;
  invoke = counted;
  model = λ turns w. (ok (next_action turns), record w { asked = suc w.asked });
  verifier = some (λ content w. (ok (some verdict), w));
  clock = λ w. (record { time = 0; monotonic = 0 }, w);
  decimal = λ n. "n";
  seconds = λ n. "s";
  message = λ e. "error";
  is_blank = λ t. t == "";
  scope = λ turns. "scope";
}

abbrev search_tool : ToolDefinition
search_tool = record {
  tool_id = "search";
  description = "searches";
  effect = read;
  risk = green;
  timeout_seconds = ticks 5;
  idempotency_strategy = none;
}

abbrev kernel : RunKernel World
kernel = record {
  run_id = "run-1";
  environment = environment;
  registry = ("search", search_tool) ∷ [];
  grant = record { allowed_tools = "search" ∷ []; authorization_refs = [] };
  limits = record { max_steps = 3; max_tool_calls = 1; deadline_seconds = 10 };
  limits_text = "{}";
}

abbrev messages : List Turn
messages = given "question" ∷ []

abbrev other_messages : List Turn
other_messages = given "another question" ∷ []

abbrev no_approval : Option String
no_approval = none

abbrev new_store : EventStore
new_store = record { file = no_path; events = [] }

abbrev ended : Result RunResult × RunState World
ended = run kernel messages no_approval new_store untouched

abbrev events_after : List Event
events_after = ended.1.store.events

new_accepted : validate_on_disk same_text dumps new_store ≡ ok tt
unfolding validate_on_disk validate scan
new_accepted = refl

abbrev asked_of : World → ℕ
asked_of w = w.asked

abbrev ran_of : World → ℕ
ran_of w = w.ran

kernel-IsMetered : IsMetered kernel asked_of ran_of
kernel-IsMetered = record {
  model_asked = λ turns w. refl;
  model_ran = λ turns w. refl;
  tool_asked = λ t arguments w. refl;
  tool_ran = λ t arguments w. refl;
  verifier_asked = λ verifier content w same. ap (λ v. (v content w).1.asked) (some-inj (sym same));
  verifier_ran = λ verifier content w same. ap (λ v. (v content w).1.ran) (some-inj (sym same));
  clock_asked = λ w. refl;
  clock_ran = λ w. refl;
}

run_within_budgets_example :
    (added : List Event) × (events_after ≡ [] ++ added)
    × All (λ (e : Event). e.run_id ≡ "run-1") added
    × (validate same_text dumps events_after ≡ ok tt)
    × (count_of is_step (events_of "run-1" added) ≤ 3 - count_of is_step (events_of "run-1" []))
    × (count_of is_attempt (events_of "run-1" added)
        ≤ 1 - count_of is_attempt (events_of "run-1" []))
    × (asked_of ended.1.world ≤ asked_of untouched + (3 - count_of is_step (events_of "run-1" [])))
    × (ran_of ended.1.world ≤ ran_of untouched + (1 - count_of is_attempt (events_of "run-1" [])))
run_within_budgets_example =
    run_within_budgets kernel asked_of ran_of kernel-IsMetered messages no_approval new_store
      untouched new_accepted

abbrev reported_answer : Option String
reported_answer = some "42"

abbrev reported_result : RunResult
reported_result = record {
  run_id = "run-1";
  status = completed;
  answer = reported_answer;
  steps = 2;
  tool_calls = 1;
  evidence_refs =
      "sha256:run_started" ∷ "sha256:other" ∷ "sha256:model_action" ∷ "sha256:attempt_started"
      ∷ "sha256:tool_observation" ∷ "sha256:other" ∷ "sha256:model_action" ∷ "sha256:verification"
      ∷ "sha256:run_completed" ∷ [];
  last_error = none;
}

ended_result : ended.0 ≡ ok reported_result
unfolding run initial enter begin conclude rehydrate restore entry has_unresolved any lookup insert
    has_key contains traverse trace_gate_framework.Prelude.Exec.◌>>=◌ events_of emit append
    validate_on_disk validate scan scan_event digest_event digest_text check_event check_body
    collect_attempts observed_of last_answer unresolved loop round check_deadline begin_step
    ask_model parse_action ledger_action perform tool_call_round answer_round check_budget
    begin_attempt call_tool observe say verify complete_run execute execute_batch execute_all get
    preflight
ended_result = refl

ended_returned : ended ≡ (ok reported_result, ended.1)
ended_returned = ap (λ x. (x, ended.1)) ended_result

completed_answer_verified_example :
    (rs : List Event) × (a v e : Event) × (content : String) × (found : Verdict) × (events_of
        "run-1" events_after
      ≡ (rs ++ a ∷ v ∷ []) ++ e ∷ [])
    × (a.body ≡ model_action (answer content))
    × (v.body ≡ verification found)
    × (found.passed ≡ true)
    × (e.body ≡ run_completed (some content))
    × (reported_result.answer ≡ some content)
completed_answer_verified_example =
    completed_answer_verified kernel messages no_approval new_store untouched reported_result
      ended.1 new_accepted ended_returned refl

completed_run_repeats_example :
    let repeated = run kernel other_messages no_approval ended.1.store elsewhere in
    (r' : RunResult) × (repeated.0 ≡ ok r')
    × (r'.status ≡ completed)
    × (r'.answer ≡ some "42")
    × (repeated.1.store ≡ ended.1.store)
    × (repeated.1.world ≡ elsewhere)
completed_run_repeats_example =
    completed_run_repeats kernel messages no_approval new_store untouched reported_result ended.1
      new_accepted ended_returned refl other_messages no_approval elsewhere

-- A run that was started and is asked for again without an approval.
abbrev started : Event
started =
    let u : Unsigned = record {
      sequence = 1;
      previous_digest = none;
      run_id = "run-1";
      body = run_started (record {
        runtime_version = some 2;
        scope_digest = some "scope";
        limits = "{}";
        deadline_epoch = 10;
      });
    } in
    record { unsigned = u; digest = digest_event same_text dumps u }

abbrev started_store : EventStore
started_store = record { file = no_path; events = started ∷ [] }

started_accepted : validate_on_disk same_text dumps started_store ≡ ok tt
unfolding validate_on_disk validate scan scan_event digest_event digest_text check_event check_body
    insert lookup has_key collect_attempts observed_of last_answer unresolved contains
started_accepted = refl

started_nonempty : is_empty (events_of "run-1" started_store.events) ≡ false
unfolding events_of
started_nonempty = refl

started_incomplete : completion_of (last? (events_of "run-1" started_store.events)) ≡ none
unfolding events_of
started_incomplete = refl

started-IsHeld : IsHeld kernel messages no_approval (events_of "run-1" started_store.events)
unfolding IsHeld
started-IsHeld = inr (inl refl)

held_run_blocked_example :
    let s = initial kernel messages started_store elsewhere in
    (reason : String) × (run kernel messages no_approval started_store elsewhere
      ≡ (ok (result_of kernel blocked none (some reason) s), s))
    × (s.store ≡ started_store)
    × (s.world ≡ elsewhere)
held_run_blocked_example =
    held_run_blocked kernel messages no_approval started_store elsewhere started_accepted
      started_nonempty started_incomplete started-IsHeld
