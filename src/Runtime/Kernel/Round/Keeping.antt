-- ===== src/Runtime/Kernel/Round/Keeping.antt =====
-- runtime.py: what every round of `RunKernel.run` keeps of the ledger and of the counters.
use mathlib.Core.List.{append_assoc}
use trace_gate_framework.Prelude.{
  ℕ, ◌+◌, ◌≤◌, string_Eq, string_eq_iff, ◌≡◌, refl, ap, ◌∙◌, Bool, true, false, inl, inr, List, [],
  ◌∷◌, ◌++◌, if◌then◌else◌, arith, ok, Result-cases, All, All-append,
}
use trace_gate_framework.Runtime.Events.{Body, model_started, attempt_started, Event}
use trace_gate_framework.Runtime.Ledger.{validate}
use trace_gate_framework.Runtime.Ledger.Scanning.{events_of, events_of-append}
use trace_gate_framework.Runtime.Ledger.Store.{EventStore, append, validate_on_disk}
use trace_gate_framework.Runtime.Ledger.Appending.{append_lem}
use trace_gate_framework.Runtime.Kernel.{RunKernel, RunState}
use trace_gate_framework.Runtime.Kernel.Round.{emit}

abbrev pub is_step : Body → Bool
is_step model_started = true
is_step _ = false

abbrev pub is_attempt : Body → Bool
is_attempt (attempt_started attempt) = true
is_attempt _ = false

-- How many events of the list pass a test.
unfoldable pub count_of : (Body → Bool) → List Event → ℕ
count_of test [] = 0
count_of test (e ∷ es) = (if test e.body then 1 else 0) + count_of test es

pub count_of-append :
    (test : Body → Bool) (xs ys : List Event)
    → count_of test (xs ++ ys) ≡ count_of test xs + count_of test ys
unfolding count_of
count_of-append test [] ys = omega arith
count_of-append test (x ∷ xs) ys = omega (arith, count_of-append test xs ys)

module _ {World : Type 0} (k : RunKernel World) (before : List Event) where
  -- The ledger is accepted, goes on from the one before by events of the run, and has no more
  -- model calls and attempts than were counted; the counters are within their bounds.
  pub record IsRunning (steps_bound calls_bound : ℕ) (store : EventStore) (steps tool_calls : ℕ)
      : Type 0 where
    pub accepted : validate k.environment.sha256 k.environment.dumps store.events ≡ ok tt
    pub on_disk : validate_on_disk k.environment.sha256 k.environment.dumps store ≡ ok tt
    pub added : List Event
    pub extends : store.events ≡ before ++ added
    pub owned : All (λ (e : Event). e.run_id ≡ k.run_id) added
    pub steps_counted : count_of is_step (events_of k.run_id store.events) ≤ steps
    pub calls_counted : count_of is_attempt (events_of k.run_id store.events) ≤ tool_calls
    pub steps_bounded : steps ≤ steps_bound
    pub calls_bounded : tool_calls ≤ calls_bound

  abbrev pub Running : ℕ → ℕ → RunState World → Type 0
  Running b c s = IsRunning b c s.store s.steps s.tool_calls

  pub events_of-own :
      (es : List Event) (e : Event)
      → e.run_id ≡ k.run_id
      → events_of k.run_id (es ++ e ∷ []) ≡ events_of k.run_id es ++ e ∷ []
  unfolding events_of
  events_of-own es e h = rw (events_of-append, (string_eq_iff e.run_id k.run_id).1 h) refl

  -- What one event adds to a count.
  pub count-own :
      (test : Body → Bool) (body : Body) (es : List Event) (e : Event)
      → e.run_id ≡ k.run_id
      → e.body ≡ body
      → count_of test (events_of k.run_id (es ++ e ∷ []))
        ≡ count_of test (events_of k.run_id es) + (if test body then 1 else 0)
  unfolding count_of
  count-own test body es e h b = rw (events_of-own es e h, count_of-append, b) (omega arith)

  -- An event whose kind is counted beforehand keeps the invariant.
  pub emit-Running :
      (b c : ℕ) (body : Body) (s : RunState World) (steps tool_calls : ℕ)
      → IsRunning b c s.store steps tool_calls
      → steps + (if is_step body then 1 else 0) ≤ s.steps
      → tool_calls + (if is_attempt body then 1 else 0) ≤ s.tool_calls
      → s.steps ≤ b
      → s.tool_calls ≤ c
      → Running b c (emit k body s).1
  unfolding emit
  emit-Running b c body s steps tool_calls v p q u w =
      elim (Result-cases (append k.environment.sha256 k.environment.dumps k.run_id body s.store)) [
        | inl (e, y) ↦ rw y (record {
          accepted = v.accepted;
          on_disk = v.on_disk;
          added = v.added;
          extends = v.extends;
          owned = v.owned;
          steps_counted = omega (arith, v.steps_counted, p);
          calls_counted = omega (arith, v.calls_counted, q);
          steps_bounded = u;
          calls_bounded = w;
        })
        | inr ((digest, store), y) ↦
            let (e, written, own, content, accepted, _, kept) =
              append_lem k.environment.sha256 k.environment.dumps k.run_id body s.store store digest
                y in
            let steps_now = count-own is_step body s.store.events e own content in
            let calls_now = count-own is_attempt body s.store.events e own content in
            rw y (record {
              accepted = accepted;
              on_disk = kept;
              added = v.added ++ e ∷ [];
              extends =
                  written
                  ∙ ap (λ es. es ++ e ∷ []) v.extends
                  ∙ append_assoc before v.added (e ∷ []);
              owned =
                  All-append (λ (f : Event). f.run_id ≡ k.run_id) v.added (e ∷ []) v.owned
                    (own, tt);
              steps_counted = rw (written, steps_now) (omega (arith, v.steps_counted, p));
              calls_counted = rw (written, calls_now) (omega (arith, v.calls_counted, q));
              steps_bounded = u;
              calls_bounded = w;
            })
      ]
