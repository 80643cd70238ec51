-- ===== src/Runtime/Kernel/Budgets.antt =====
-- runtime.py: what a whole call of `RunKernel.run` does to the ledger.
use mathlib.Core.List.{append-nil}
use trace_gate_framework.Prelude.{
  ℕ, Bool, ◌+◌, ◌-◌, ◌≤◌, String, ◌≡◌, refl, sym, inl, inr, Option, none, some, List, [], ◌++◌,
  if◌then◌else◌, leb, arith, Result, ok, err, Error, Bool-cases, All,
}
use trace_gate_framework.Runtime.Events.{Verdict, Body, run_resumed, run_failed, run_blocked, Event}
use trace_gate_framework.Runtime.Ledger.{validate}
use trace_gate_framework.Runtime.Ledger.Scanning.{events_of, events_of-append}
use trace_gate_framework.Runtime.Ledger.Store.{EventStore, validate_on_disk}
use trace_gate_framework.Runtime.Kernel.{Turn, RunKernel, RunState, RunStatus, blocked, failed}
use trace_gate_framework.Runtime.Kernel.Round.{Deadline, emit, loop}
use trace_gate_framework.Runtime.Kernel.Round.Keeping.{
  is_step, is_attempt, count_of, count_of-append, Running,
}
use trace_gate_framework.Runtime.Kernel.Round.Meters.{IsMetered}
use trace_gate_framework.Runtime.Kernel.Metered.{restore_counts, run-Fit}
use trace_gate_framework.Runtime.Kernel.Round.Bounds.{plain-Keeps}
use trace_gate_framework.Runtime.Kernel.Round.Rounds.{weaken, loop-Running}
use trace_gate_framework.Runtime.Kernel.Entry.{
  rehydrate, Entry, replayed, refused, resumed, fresh_start, entry, conclude, begin, enter, initial,
  run, after_error, is_permission, guarded, enter_by, deadline_from, started_body,
}

abbrev pub larger : ℕ → ℕ → ℕ
larger a b = if leb a b then b else a

module _ {World : Type 0} (k : RunKernel World) (before : List Event) (c : ℕ)
    (roomy : k.limits.max_tool_calls ≤ c) (b : ℕ) (enough : k.limits.max_steps ≤ b) where
  after_error-Running :
      (status : RunStatus) (e : Error) (r : Result (Unit {0}) × RunState World)
      → Running k before b c r.1
      → Running k before b c (after_error k status e r).1
  after_error-Running status e (err x, s) v = v
  after_error-Running status e (ok done, s) v = v

  conclude-Running :
      (r : Result (RunStatus × Option String) × RunState World)
      → Running k before b c r.1
      → Running k before b c (conclude k r).1
  unfolding conclude
  conclude-Running (ok (status, answer), s) v = v
  conclude-Running (err e, s) v = elim (Bool-cases (is_permission k e)) [
    | inl y ↦ rw y (
        after_error-Running blocked e (emit k (run_blocked (k.environment.message e)) s)
          (plain-Keeps k before b c roomy (run_blocked (k.environment.message e)) refl refl s v))
    | inr n ↦ rw n (
        after_error-Running failed e (emit k (run_failed (k.environment.message e)) s)
          (plain-Keeps k before b c roomy (run_failed (k.environment.message e)) refl refl s v))
  ]

  enter_by-Running :
      (found : Option (String → World → Result (Option Verdict) × World)) (deadline : Deadline)
      (s : RunState World)
      → Running k before b c s
      → Running k before b c (enter_by k found deadline s).1
  enter_by-Running none deadline s v = v
  enter_by-Running (some verifier) deadline s v =
      weaken k before c roomy (s.steps + (k.limits.max_steps - s.steps)) b
        (loop k deadline (k.limits.max_steps - s.steps) s).1
        (omega (arith, v.steps_bounded, enough))
        (loop-Running k before c roomy s.steps (k.limits.max_steps - s.steps) deadline s (record {
          accepted = v.accepted;
          on_disk = v.on_disk;
          added = v.added;
          extends = v.extends;
          owned = v.owned;
          steps_counted = v.steps_counted;
          calls_counted = v.calls_counted;
          steps_bounded = omega arith;
          calls_bounded = v.calls_bounded;
        }))

  guarded-Running :
      (deadline : ℕ) (r : Result (Unit {0}) × RunState World)
      → Running k before b c r.1
      → Running k before b c (guarded k deadline r).1
  guarded-Running deadline (err e, s) v = v
  guarded-Running deadline (ok done, s) v =
      let (now, world) = k.environment.clock s.world in
      conclude-Running
        (enter_by k k.environment.verifier (deadline_from k deadline now)
          (record s { world = world }))
        (enter_by-Running k.environment.verifier (deadline_from k deadline now)
          (record s { world = world }) v)

  enter-Running :
      (messages : List Turn) (how : Entry) (s : RunState World)
      → Running k before b c s
      → Running k before b c (enter k messages how s).1
  unfolding enter begin
  enter-Running messages (replayed ans) s v = v
  enter-Running messages (refused reason) s v = v
  enter-Running messages (resumed approval deadline) s v =
      guarded-Running deadline (emit k (run_resumed approval) s)
        (plain-Keeps k before b c roomy (run_resumed approval) refl refl s v)
  enter-Running messages fresh_start s v =
      let (now, world) = k.environment.clock s.world in
      let deadline = now.time + k.limits.deadline_seconds in
      guarded-Running deadline
        (emit k (started_body k messages deadline) (record s { world = world }))
        (plain-Keeps k before b c roomy (started_body k messages deadline) refl refl
          (record s { world = world }) v)

module _ {World : Type 0} (k : RunKernel World) where
  -- The counters of `_rehydrate` are the counts of the run's events.
  initial-Running :
      (messages : List Turn) (store : EventStore) (world : World)
      → validate_on_disk k.environment.sha256 k.environment.dumps store ≡ ok tt
      → Running k store.events
          (larger k.limits.max_steps (count_of is_step (events_of k.run_id store.events)))
          (larger k.limits.max_tool_calls (count_of is_attempt (events_of k.run_id store.events)))
          (initial k messages store world)
  unfolding initial rehydrate validate_on_disk
  initial-Running messages store world h =
      let counts =
        restore_counts (events_of k.run_id store.events)
          (record { conversation = messages; steps = 0; tool_calls = 0 }) in
      record {
        accepted = ground arith;
        on_disk = h;
        added = [];
        extends = sym (append-nil store.events);
        owned = tt;
        steps_counted = omega (arith, counts.0);
        calls_counted = omega (arith, counts.1);
        steps_bounded = ground (arith, counts.0);
        calls_bounded = ground (arith, counts.1);
      }

  -- What the events of the run in the ledger count more than before.
  added_counts :
      (test : Body → Bool) (before added : List Event) {after : List Event}
      → after ≡ before ++ added
      → count_of test (events_of k.run_id after)
        ≡ count_of test (events_of k.run_id before) + count_of test (events_of k.run_id added)
  added_counts test before added same = rw (same, events_of-append, count_of-append) refl

  -- The ledger and the counters after a run on an accepted ledger.
  pub run-Running :
      (messages : List Turn) (approval : Option String) (store : EventStore) (world : World)
      → validate_on_disk k.environment.sha256 k.environment.dumps store ≡ ok tt
      → Running k store.events
          (larger k.limits.max_steps (count_of is_step (events_of k.run_id store.events)))
          (larger k.limits.max_tool_calls (count_of is_attempt (events_of k.run_id store.events)))
          (run k messages approval store world).1
  unfolding run
  run-Running messages approval store world h =
      let how =
        entry k.environment.is_blank (k.environment.scope messages)
          (events_of k.run_id store.events) approval in
      rw h (
        enter-Running k store.events
          (larger k.limits.max_tool_calls (count_of is_attempt (events_of k.run_id store.events)))
          (ground arith)
          (larger k.limits.max_steps (count_of is_step (events_of k.run_id store.events)))
          (ground arith) messages how (initial k messages store world)
          (initial-Running messages store world h))

  module _ (asked ran : World → ℕ) (m : IsMetered k asked ran) where
    -- A run on an accepted ledger leaves an accepted ledger, which goes on from the old one by events
    -- of this run. Whatever the model, the tools and the verifier answer, the calls of the model and
    -- the attempts that it adds are at most as many as the limits leave after those that the ledger
    -- had of the run. When `asked` counts the calls of the model in the world and `ran` those of the
    -- handlers of tools, as many of both at most are made.
    pub run_within_budgets :
        (messages : List Turn) (approval : Option String) (store : EventStore) (world : World)
        → validate_on_disk k.environment.sha256 k.environment.dumps store ≡ ok tt
        → let after = (run k messages approval store world).1 in
          let steps_left =
            k.limits.max_steps - count_of is_step (events_of k.run_id store.events) in
          let calls_left =
            k.limits.max_tool_calls - count_of is_attempt (events_of k.run_id store.events) in
          (added : List Event) × (after.store.events ≡ store.events ++ added)
          × All (λ (e : Event). e.run_id ≡ k.run_id) added
          × (validate k.environment.sha256 k.environment.dumps after.store.events ≡ ok tt)
          × (count_of is_step (events_of k.run_id added) ≤ steps_left)
          × (count_of is_attempt (events_of k.run_id added) ≤ calls_left)
          × (asked after.world ≤ asked world + steps_left)
          × (ran after.world ≤ ran world + calls_left)
    run_within_budgets messages approval store world h =
        let v = run-Running messages approval store world h in
        let f = run-Fit k asked ran m messages approval store world h in
        let steps_now = added_counts is_step store.events v.added v.extends in
        let calls_now = added_counts is_attempt store.events v.added v.extends in
        (
          v.added,
          v.extends,
          v.owned,
          v.accepted,
          ground (arith, steps_now, v.steps_counted, v.steps_bounded),
          ground (arith, calls_now, v.calls_counted, v.calls_bounded),
          ground (arith, f.steps_cover, v.steps_bounded),
          ground (arith, f.calls_cover, v.calls_bounded),
        )
