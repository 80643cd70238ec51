-- ===== src/Runtime/Ledger/Attempts.antt =====
-- Attempts and observations in an accepted ledger of runtime.py: a run completes only when each of
-- its mutating attempts has an observation.
use trace_gate_framework.Prelude.{
  Among, String, ◌≡◌, ◌≢◌, ◌⊎◌, refl, sym, ap, ◌∙◌, Bool, true, false, ◌&&◌, ◌||◌, not, inl, inr,
  Option, some, List, [], ◌∷◌, ◌++◌, arith, ok, Bool-cases, subst, some-inj, ◌==◌, string_Eq,
  option_Eq, string_eq_iff, option_eq_iff, eq_refl, contains,
}
use trace_gate_framework.Prelude.Dict.{Dict, lookup, lookup-insert, has_key, lookup-has_key}
use trace_gate_framework.Runtime.Events.{
  Effect, read, effect_Eq, effect_eq_iff, Body, Unsigned, Event, Attempt, Observation,
  attempt_started, tool_observation, run_completed,
}
use trace_gate_framework.Runtime.Ledger.{
  put_attempt, collect_attempts, attempts_of, observed_id, observed_of, unresolved, check_body,
  check_event, validate,
}
use trace_gate_framework.Runtime.Ledger.Scanning.{events_of, validate-cut}
use trace_gate_framework.Runtime.Ledger.Completion.{
  Checked, nothing, more, validate-Checked, completion_checks,
}

Among-snoc : (x e : Event) (xs : List Event) → Among x (xs ++ e ∷ []) → Among x xs ⊎ (x ≡ e)
Among-snoc x e [] (inl p) = inr p
Among-snoc x e [] (inr p) = absurd p
Among-snoc x e (y ∷ ys) (inl p) = inl (inl p)
Among-snoc x e (y ∷ ys) (inr p) = elim (Among-snoc x e ys p) [ inl q ↦ inl (inr q) | inr q ↦ inr q ]

collect-snoc :
    (run : List Event) (e : Event) (attempts : Dict Attempt)
    → collect_attempts (run ++ e ∷ []) attempts ≡ put_attempt e.body (collect_attempts run attempts)
unfolding collect_attempts
collect-snoc [] e attempts = refl
collect-snoc (x ∷ run) e attempts = collect-snoc run e _

put_keeps :
    (b : Body) (attempts : Dict Attempt) (a : Attempt)
    → ((c : Attempt) → b ≡ attempt_started c → has_key c.attempt_id attempts ≡ false)
    → lookup a.attempt_id attempts ≡ some a
    → lookup a.attempt_id (put_attempt b attempts) ≡ some a
put_keeps (attempt_started c) attempts a fresh h =
    elim (Bool-cases (c.attempt_id == a.attempt_id)) [
      | inl y ↦ absurd (
          cc (
            h,
            lookup-has_key c.attempt_id attempts (fresh c refl),
            (string_eq_iff c.attempt_id a.attempt_id).0 y,
          ))
      | inr n ↦ rw (lookup-insert, n) h
    ]
put_keeps _ attempts a fresh h = h

observed_cases :
    (k : Option String) (b : Body) (ids : List (Option String))
    → contains k (observed_id b ids) ≡ true
    → ((o : Observation) × (b ≡ tool_observation o) × (o.attempt_id ≡ k)) ⊎ (contains k ids ≡ true)
unfolding contains
observed_cases k (tool_observation o) ids h = elim (Bool-cases (o.attempt_id == k)) [
  | inl y ↦ inl (o, refl, (option_eq_iff o.attempt_id k).0 y)
  | inr n ↦ inr (rw n at h)
]
observed_cases k _ ids h = inr h

find_observation :
    (k : Option String) (run : List Event)
    → contains k (observed_of run) ≡ true
    → (y : Event) × (o : Observation) × Among y run
      × (y.body ≡ tool_observation o)
      × (o.attempt_id ≡ k)
unfolding observed_of contains
find_observation k [] h = cc
find_observation k (e ∷ run) h = elim (observed_cases k e.body (observed_of run) h) [
  | inl (o, b, i) ↦ (e, o, inl refl, b, i)
  | inr rest ↦ let (y, o, p, b, i) = find_observation k run rest in (y, o, inr p, b, i)
]

observed_one :
    (f : Effect) (seen rest : Bool)
    → f ≢ read
    → ((not (f == read) && not seen) || rest) ≡ false
    → seen ≡ true
observed_one f seen rest n h = elim (Bool-cases (f == read)) [
  | inl y ↦ absurd (n ((effect_eq_iff f read).0 y))
  | inr z ↦ ground arith
]

unresolved-observed :
    (observed : List (Option String)) (attempts : Dict Attempt) (k : String) (a : Attempt)
    → unresolved observed attempts ≡ false
    → lookup k attempts ≡ some a
    → a.effect ≢ read
    → contains (some k) observed ≡ true
unfolding unresolved lookup
unresolved-observed observed [] k a h e n = cc
unresolved-observed observed ((j, b) ∷ attempts) k a h e n = elim (Bool-cases (j == k)) [
  | inl y ↦
      let same : b ≡ a = some-inj (rw y at e) in
      subst (λ i. contains (some i) observed ≡ true) ((string_eq_iff j k).0 y)
        (observed_one b.effect (contains (some j) observed) (unresolved observed attempts)
          (λ r. n (ap (λ (c : Attempt). c.effect) (sym same) ∙ r)) h)
  | inr z ↦ unresolved-observed observed attempts k a (ground arith) (rw z at e) n
]

module _ (sha256 : String → String) (dumps : Unsigned → String) where
  attempt_checks :
      (run : List Event) (c : Attempt)
      → check_event sha256 dumps run (attempt_started c) ≡ ok tt
      → has_key c.attempt_id (attempts_of run) ≡ false
  unfolding check_event check_body
  attempt_checks run c h = ground arith

  -- Every attempt event of a run is the registered attempt of its identity.
  Checked-attempt :
      (run : List Event) (x : Event) (a : Attempt)
      → Checked sha256 dumps run
      → Among x run
      → x.body ≡ attempt_started a
      → lookup a.attempt_id (attempts_of run) ≡ some a
  Checked-attempt run x a nothing p b = absurd p
  Checked-attempt run x a (more {run = rs} e s c k) p b =
      rw (s, collect-snoc rs e [])
        (elim (Among-snoc x e rs (rw s at p)) [
          | inl old ↦
              put_keeps e.body (attempts_of rs) a (λ c' q. attempt_checks rs c' (rw q at k))
                (Checked-attempt rs x a c old b)
          | inr here ↦
              rw (sym (ap (λ (y : Event). y.body) here) ∙ b, lookup-insert, eq_refl a.attempt_id)
        ])

  -- In an accepted ledger every mutating attempt of a run that completes was observed before the
  -- completion: an observation event of the run carries the attempt's identity.
  pub completed_mutations_observed :
      (es fs : List Event) (e x : Event) (ans : Option String) (a : Attempt)
      → validate sha256 dumps (es ++ e ∷ fs) ≡ ok tt
      → e.body ≡ run_completed ans
      → Among x (events_of e.run_id es)
      → x.body ≡ attempt_started a
      → a.effect ≢ read
      → (y : Event) × (o : Observation) × Among y (events_of e.run_id es)
        × (y.body ≡ tool_observation o)
        × (o.attempt_id ≡ some a.attempt_id)
  completed_mutations_observed es fs e x ans a h b p q n =
      let (s, t, u, front, v, round, _) = validate-cut sha256 dumps es fs e h in
      let run = events_of e.run_id es in
      let c = validate-Checked sha256 dumps es e.run_id front in
      let checks =
        completion_checks sha256 dumps run ans (rw (← b, ← v.runs e.run_id) round.checked) in
      find_observation (some a.attempt_id) run (
        unresolved-observed (observed_of run) (attempts_of run) a.attempt_id a checks.0
          (Checked-attempt run x a c p q) n)
