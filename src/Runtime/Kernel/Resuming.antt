-- ===== src/Runtime/Kernel/Resuming.antt =====
-- runtime.py: what `RunKernel.run` does with a run that has events already.
use trace_gate_framework.Prelude.{
  String, subst, Result, ap, some-inj, ◌≡◌, ◌⊎◌, inl, inr, refl, Bool, true, false, ◌==◌, Option,
  none, some, List, [], ◌∷◌, arith, any, contains, is_empty, head?, last?, option_Eq, string_Eq,
  Among, ok, Bool-cases,
}
use trace_gate_framework.Runtime.Events.{
  read, effect_Eq, Attempt, attempt_started, run_completed, Event,
}
use trace_gate_framework.Runtime.Ledger.{observed_of}
use trace_gate_framework.Runtime.Ledger.Scanning.{events_of}
use trace_gate_framework.Runtime.Ledger.Store.{EventStore, validate_on_disk}
use trace_gate_framework.Runtime.Kernel.{Turn, RunKernel, RunState, RunResult, completed, blocked}
use trace_gate_framework.Runtime.Kernel.Entry.{
  refused, completion_of, start_of, same_envelope, has_unresolved, unresolved_attempt, entry,
  approved_entry, enter, initial, run, result_of,
}
use trace_gate_framework.Runtime.Kernel.Budgets.{run-Running}
use trace_gate_framework.Runtime.Kernel.Answers.{Ended}
use trace_gate_framework.Runtime.Kernel.Completed.{run-Answered}

any-Among :
    {A : Type 0} (p : A → Bool) (x : A) (xs : List A) → Among x xs → p x ≡ true → any p xs ≡ true
unfolding any
any-Among p x [] h y = absurd h
any-Among p x (z ∷ xs) (inl same) y = rw (← same, y) refl
any-Among p x (z ∷ xs) (inr later) y = ground (arith, any-Among p x xs later y)

module _ {World : Type 0} (k : RunKernel World) where
  -- The run has a mutating attempt without an observation.
  unfoldable pub IsUnresolved : List Event → Type 0
  IsUnresolved existing =
      (e : Event) × (a : Attempt) × Among e existing
      × (e.body ≡ attempt_started a)
      × ((a.effect == read) ≡ false)
      × (contains (some a.attempt_id) (observed_of existing) ≡ false)

  -- Why a run that is not complete is not to be resumed: it was started by another envelope, nobody
  -- approved it, or it may have changed something that nobody saw.
  unfoldable pub IsHeld : List Turn → Option String → List Event → Type 0
  IsHeld messages approval existing =
      (same_envelope (k.environment.scope messages) (start_of (head? existing)) ≡ false)
      ⊎ (approval ≡ none)
      ⊎ ((text : String) × (approval ≡ some text) × (k.environment.is_blank text ≡ true))
      ⊎ IsUnresolved existing

  unresolved_lem : (existing : List Event) → IsUnresolved existing → has_unresolved existing ≡ true
  unfolding IsUnresolved has_unresolved
  unresolved_lem existing (e, a, among, body, mutating, unseen) =
      any-Among (λ (e : Event). unresolved_attempt (observed_of existing) e.body) e existing among
        (rw (body, mutating, unseen) refl)

  approval_held :
      (start : Bool) (approval : Option String) (existing : List Event)
      → (start ≡ false)
        ⊎ (approval ≡ none)
        ⊎ ((text : String) × (approval ≡ some text) × (k.environment.is_blank text ≡ true))
        ⊎ IsUnresolved existing
      → start ≡ true
      → (reason : String) × (approved_entry k.environment.is_blank existing
            (start_of (head? existing))
            approval
          ≡ refused reason)
  approval_held start none existing held y = ("explicit resume approval required", refl)
  approval_held start (some text) existing held y =
      elim (Bool-cases (k.environment.is_blank text)) [
        | inl blank ↦ ("explicit resume approval required", rw blank refl)
        | inr n ↦
            let seen : has_unresolved existing ≡ true = elim held [
              | inl other ↦ absurd (cc (other, y))
              | inr (inl missing) ↦ absurd (ground arith)
              | inr (inr (inl (t, same, blank))) ↦
                  absurd (cc (n, blank, ap k.environment.is_blank (some-inj same)))
              | inr (inr (inr u)) ↦ unresolved_lem existing u
            ] in
            ("unresolved mutation; reconcile before a new authorized run", rw (n, seen) refl)
      ]

  held_entry :
      (messages : List Turn) (approval : Option String) (existing : List Event)
      → is_empty existing ≡ false
      → completion_of (last? existing) ≡ none
      → IsHeld messages approval existing
      → (reason : String) × (entry k.environment.is_blank
            (k.environment.scope messages)
            existing
            approval
          ≡ refused reason)
  unfolding entry IsHeld
  held_entry messages approval existing started unfinished held =
      elim (Bool-cases (same_envelope (k.environment.scope messages) (start_of (head? existing)))) [
        | inr n ↦ (
          "legacy or changed run envelope; use a new authorized run",
          rw (unfinished, started, n) refl,
        )
        | inl y ↦
            let (reason, same) =
              approval_held
                (same_envelope (k.environment.scope messages) (start_of (head? existing))) approval
                existing held y in
            (reason, rw (unfinished, started, y) same)
      ]

  -- On an accepted ledger, a run with events and without a completion, which another envelope
  -- started, or which nobody approved for resumption, or which has a mutating attempt without an
  -- observation, is reported as blocked, and neither the ledger nor the world is changed.
  pub held_run_blocked :
      (messages : List Turn) (approval : Option String) (store : EventStore) (world : World)
      → validate_on_disk k.environment.sha256 k.environment.dumps store ≡ ok tt
      → is_empty (events_of k.run_id store.events) ≡ false
      → completion_of (last? (events_of k.run_id store.events)) ≡ none
      → IsHeld messages approval (events_of k.run_id store.events)
      → let s = initial k messages store world in
        (reason : String) × (run k messages approval store world
          ≡ (ok (result_of k blocked none (some reason) s), s))
        × (s.store ≡ store)
        × (s.world ≡ world)
  unfolding run enter initial
  held_run_blocked messages approval store world valid started unfinished held =
      let (reason, same) =
        held_entry messages approval (events_of k.run_id store.events) started unfinished held in
      (reason, rw (valid, same) refl, refl, refl)

  -- A run whose last event is its completion is not entered again.
  replayed_run :
      (messages : List Turn) (approval : Option String) (store : EventStore) (world : World)
      (e : Event) (ans : Option String)
      → validate_on_disk k.environment.sha256 k.environment.dumps store ≡ ok tt
      → last? (events_of k.run_id store.events) ≡ some e
      → e.body ≡ run_completed ans
      → let s = initial k messages store world in
        run k messages approval store world ≡ (ok (result_of k completed ans none s), s)
  unfolding run enter entry
  replayed_run messages approval store world e ans valid last body = rw (valid, last, body) refl

  -- After a run on an accepted ledger that returned a completed result, the run asked for again on
  -- the ledger that it left, with whatever messages, approval and world, is completed with the same
  -- answer, and neither the ledger nor the world is changed.
  pub completed_run_repeats :
      (messages : List Turn) (approval : Option String) (store : EventStore) (world : World)
      (r : RunResult) (s' : RunState World)
      → validate_on_disk k.environment.sha256 k.environment.dumps store ≡ ok tt
      → run k messages approval store world ≡ (ok r, s')
      → r.status ≡ completed
      → (messages' : List Turn) (approval' : Option String) (world' : World)
      → let repeated = run k messages' approval' s'.store world' in
        (r' : RunResult) × (repeated.0 ≡ ok r')
        × (r'.status ≡ completed)
        × (r'.answer ≡ r.answer)
        × (repeated.1.store ≡ s'.store)
        × (repeated.1.world ≡ world')
  unfolding initial
  completed_run_repeats messages approval store world r s' valid h done messages' approval' world' =
      let (e, last, body) =
        subst (λ x. Ended k x r.answer s') done
          (run-Answered k messages approval store world r s' valid h) in
      let kept : validate_on_disk k.environment.sha256 k.environment.dumps s'.store ≡ ok tt =
        subst
          (λ (t : Result RunResult × RunState World).
            validate_on_disk k.environment.sha256 k.environment.dumps t.1.store ≡ ok tt)
          h (run-Running k messages approval store world valid).on_disk in
      let same = replayed_run messages' approval' s'.store world' e r.answer kept last body in
      (
        result_of k completed r.answer none (initial k messages' s'.store world'),
        ap (λ t. t.0) same,
        refl,
        refl,
        ap (λ t. t.1.store) same,
        ap (λ t. t.1.world) same,
      )
