-- ===== src/Runtime/Kernel/Metered.antt =====
-- runtime.py: how often a whole call of `RunKernel.run` calls the model and the tools.
use trace_gate_framework.Prelude.{
  ℕ, ◌+◌, ◌-◌, String, ◌≡◌, inl, inr, Option, none, some, List, [], ◌∷◌, if◌then◌else◌, arith,
  Result, ok, err, Error, Bool-cases,
}
use trace_gate_framework.Prelude.Exec.{Post}
use trace_gate_framework.Runtime.Events.{Verdict, Body, run_resumed, run_failed, run_blocked, Event}
use trace_gate_framework.Runtime.Ledger.Scanning.{events_of}
use trace_gate_framework.Runtime.Ledger.Store.{EventStore, validate_on_disk}
use trace_gate_framework.Runtime.Kernel.{Turn, RunKernel, RunState, RunStatus, blocked, failed}
use trace_gate_framework.Runtime.Kernel.Round.{Deadline, emit, loop}
use trace_gate_framework.Runtime.Kernel.Round.Keeping.{is_step, is_attempt, count_of}
use trace_gate_framework.Runtime.Kernel.Round.Meters.{IsMetered, Meter}
use trace_gate_framework.Runtime.Kernel.Round.Calls.{Fit, emit-Takes, clocked}
use trace_gate_framework.Runtime.Kernel.Round.Metering.{loop-Takes}
use trace_gate_framework.Runtime.Kernel.Entry.{
  Restored, restore, rehydrate, Entry, replayed, refused, resumed, fresh_start, entry, conclude,
  begin, enter, initial, run, after_error, is_permission, guarded, enter_by, restore_event,
  deadline_from, started_body,
}

restore_event_counts :
    (body : Body) (r : Restored)
    → ((restore_event body r).steps ≡ r.steps + (if is_step body then 1 else 0))
      × ((restore_event body r).tool_calls ≡ r.tool_calls + (if is_attempt body then 1 else 0))
restore_event_counts body r = ground arith

pub restore_counts :
    (es : List Event) (r : Restored)
    → ((restore es r).steps ≡ r.steps + count_of is_step es)
      × ((restore es r).tool_calls ≡ r.tool_calls + count_of is_attempt es)
unfolding restore count_of
restore_counts [] r = omega arith
restore_counts (e ∷ es) r =
    omega (arith, restore_counts es (restore_event e.body r), restore_event_counts e.body r)

module _ {World : Type 0} (k : RunKernel World) where
  module _ (q : Meter k) where
    abbrev Fitting : RunState World → Type 0
    Fitting s = Fit k q s

    either :
        {A : Type 0} (r : Result A × RunState World)
        → Post (λ _ s. Fitting s) Fitting r
        → Fitting r.1
    either (ok a, s) v = v
    either (err e, s) v = v

    emitted : (body : Body) (s : RunState World) → Fitting s → Fitting (emit k body s).1
    emitted body s v = either (emit k body s) (emit-Takes k q 0 0 body s v)

    after_error-Fit :
        (status : RunStatus) (e : Error) (r : Result (Unit {0}) × RunState World)
        → Fitting r.1
        → Fitting (after_error k status e r).1
    after_error-Fit status e (err x, s) v = v
    after_error-Fit status e (ok done, s) v = v

    conclude-Fit :
        (r : Result (RunStatus × Option String) × RunState World)
        → Fitting r.1
        → Fitting (conclude k r).1
    unfolding conclude
    conclude-Fit (ok (status, answer), s) v = v
    conclude-Fit (err e, s) v = elim (Bool-cases (is_permission k e)) [
      | inl y ↦ rw y (
          after_error-Fit blocked e (emit k (run_blocked (k.environment.message e)) s)
            (emitted (run_blocked (k.environment.message e)) s v))
      | inr n ↦ rw n (
          after_error-Fit failed e (emit k (run_failed (k.environment.message e)) s)
            (emitted (run_failed (k.environment.message e)) s v))
    ]

    enter_by-Fit :
        (found : Option (String → World → Result (Option Verdict) × World)) (deadline : Deadline)
        (s : RunState World)
        → Fitting s
        → Fitting (enter_by k found deadline s).1
    enter_by-Fit none deadline s v = v
    enter_by-Fit (some verifier) deadline s v =
        either (loop k deadline (k.limits.max_steps - s.steps) s)
          (loop-Takes k q deadline (k.limits.max_steps - s.steps) s v)

    guarded-Fit :
        (deadline : ℕ) (r : Result (Unit {0}) × RunState World)
        → Fitting r.1
        → Fitting (guarded k deadline r).1
    guarded-Fit deadline (err e, s) v = v
    guarded-Fit deadline (ok done, s) v =
        let (now, world) = k.environment.clock s.world in
        conclude-Fit
          (enter_by k k.environment.verifier (deadline_from k deadline now)
            (record s { world = world }))
          (enter_by-Fit k.environment.verifier (deadline_from k deadline now)
            (record s { world = world }) (clocked k q 0 0 s v))

    enter-Fit :
        (messages : List Turn) (how : Entry) (s : RunState World)
        → Fitting s
        → Fitting (enter k messages how s).1
    unfolding enter begin
    enter-Fit messages (replayed ans) s v = v
    enter-Fit messages (refused reason) s v = v
    enter-Fit messages (resumed approval deadline) s v =
        guarded-Fit deadline (emit k (run_resumed approval) s) (emitted (run_resumed approval) s v)
    enter-Fit messages fresh_start s v =
        let (now, world) = k.environment.clock s.world in
        let deadline = now.time + k.limits.deadline_seconds in
        guarded-Fit deadline
          (emit k (started_body k messages deadline) (record s { world = world }))
          (emitted (started_body k messages deadline) (record s { world = world })
            (clocked k q 0 0 s v))

  abbrev pub meter_of :
      (asked ran : World → ℕ) → IsMetered k asked ran → EventStore → World → Meter k
  meter_of asked ran m store world = record {
    asked = asked;
    ran = ran;
    metered = m;
    steps = count_of is_step (events_of k.run_id store.events);
    calls = count_of is_attempt (events_of k.run_id store.events);
    asked_before = asked world;
    ran_before = ran world;
  }

  -- What was called is what the counters went up by from the counts in the ledger.
  pub run-Fit :
      (asked ran : World → ℕ) (m : IsMetered k asked ran) (messages : List Turn)
      (approval : Option String) (store : EventStore) (world : World)
      → validate_on_disk k.environment.sha256 k.environment.dumps store ≡ ok tt
      → Fit k (meter_of asked ran m store world) (run k messages approval store world).1
  unfolding run initial rehydrate
  run-Fit asked ran m messages approval store world h =
      let counts =
        restore_counts (events_of k.run_id store.events)
          (record { conversation = messages; steps = 0; tool_calls = 0 }) in
      rw h (
        enter-Fit (meter_of asked ran m store world) messages
          (entry k.environment.is_blank (k.environment.scope messages)
            (events_of k.run_id store.events) approval)
          (initial k messages store world)
          (record { steps_cover = omega (arith, counts.0); calls_cover = omega (arith, counts.1) }))
