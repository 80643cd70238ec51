-- ===== src/Runtime/Ledger/Completion.antt =====
-- What an accepted ledger of runtime.py says of a completed run: it ends there, and it ended in a
-- verified answer.
use mathlib.Core.List.{append-nil, append_assoc}
use trace_gate_framework.Prelude.{
  String, ◌≡◌, refl, sym, ap, ◌∙◌, Bool, true, false, inl, inr, Option, none, some, List, [], ◌∷◌,
  ◌++◌, arith, last?, ok, Result-cases, Bool-cases, ◌==◌, string_Eq, string_eq_iff, option_eq_iff,
  eq_refl,
}
use trace_gate_framework.Prelude.Dict.{lookup, lookup-insert}
use trace_gate_framework.Runtime.Events.{
  Body, Unsigned, Event, Verdict, run_completed, verification, model_action, answer,
}
use trace_gate_framework.Runtime.Ledger.{
  Scan, run_of, is_completion, is_answer, is_passed, last_is, last_answer, unresolved, observed_of,
  attempts_of, completion_bound, check_body, check_event, scan_event, scan, validate,
}
use trace_gate_framework.Runtime.Ledger.Scanning.{
  Scans, IsScanOf, events_of, events_of-append, validate_induction, last?-snoc, validate-cut,
  scan_event-Scans,
}

module _ (sha256 : String → String) (dumps : Unsigned → String) where
  -- Every event of a run was checked against the events before it.
  pub data Checked : List Event → Type 0 where
    nothing : Checked []
    more :
        {run run' : List Event} (e : Event)
        → run' ≡ run ++ e ∷ []
        → Checked run
        → check_event sha256 dumps run e.body ≡ ok tt
        → Checked run'

  pub validate-Checked :
      (es : List Event) (r : String) → validate sha256 dumps es ≡ ok tt → Checked (events_of r es)
  unfolding events_of
  validate-Checked es r h =
      (validate_induction sha256 dumps (λ done s. Checked (events_of r done)) step nothing es h).2
    where
      step :
          (done : List Event) (e : Event) (s s' : Scan)
          → Scans sha256 dumps e s s'
          → IsScanOf sha256 dumps done s
          → Checked (events_of r done)
          → Checked (events_of r (done ++ e ∷ []))
      step done e s s' t v p = rw events_of-append (elim (Bool-cases (e.run_id == r)) [
        | inl y ↦
            rw y
              (more e refl p (rw (← (string_eq_iff e.run_id r).0 y, ← v.runs e.run_id) t.checked))
        | inr n ↦ rw (n, append-nil) p
      ])

  last-Checked :
      (test : Body → Bool) (run : List Event)
      → Checked run
      → last_is test (last? run) ≡ true
      → (rs : List Event) × (x : Event) × (run ≡ rs ++ x ∷ [])
        × (test x.body ≡ true)
        × Checked rs
        × (check_event sha256 dumps rs x.body ≡ ok tt)
  last-Checked test run nothing h = cc
  last-Checked test run (more {run = rs} x e c k) h = (
    rs,
    x,
    e,
    ap (last_is test) (sym (last?-snoc rs x)) ∙ ap (λ xs. last_is test (last? xs)) (sym e) ∙ h,
    c,
    k,
  )

  pub completion_checks :
      (run : List Event) (ans : Option String)
      → check_event sha256 dumps run (run_completed ans) ≡ ok tt
      → (unresolved (observed_of run) (attempts_of run) ≡ false)
        × (last_is is_passed (last? run) ≡ true)
        × (completion_bound (last_answer run none) ans ≡ true)
  unfolding check_event check_body
  completion_checks run ans h = ground arith

  verification_checks :
      (run : List Event) (verdict : Verdict)
      → check_event sha256 dumps run (verification verdict) ≡ ok tt
      → last_is is_answer (last? run) ≡ true
  unfolding check_event check_body
  verification_checks run verdict h = ground arith

  passed_body :
      (b : Body)
      → is_passed b ≡ true
      → (verdict : Verdict) × (b ≡ verification verdict) × (verdict.passed ≡ true)
  passed_body (verification verdict) h = (verdict, refl, h)
  passed_body _ h = cc

  answer_body :
      (b : Body) → is_answer b ≡ true → (content : String) × (b ≡ model_action (answer content))
  answer_body (model_action (answer content)) h = (content, refl)
  answer_body (model_action _) h = cc
  answer_body _ h = cc

  last_answer-append :
      (xs ys : List Event) (before : Option String)
      → last_answer (xs ++ ys) before ≡ last_answer ys (last_answer xs before)
  unfolding last_answer
  last_answer-append [] ys before = refl
  last_answer-append (x ∷ xs) ys before = last_answer-append xs ys _

  bound_answer :
      (rs : List Event) (a v : Event) (content : String) (verdict : Verdict) (ans : Option String)
      → a.body ≡ model_action (answer content)
      → v.body ≡ verification verdict
      → completion_bound (last_answer (rs ++ a ∷ v ∷ []) none) ans ≡ true
      → ans ≡ some content
  unfolding last_answer
  bound_answer rs a v content verdict ans ba bv q =
      (option_eq_iff ans (some content)).0 (rw (last_answer-append, ba, bv) at q)

  completed_run :
      (run : List Event) (ans : Option String)
      → Checked run
      → check_event sha256 dumps run (run_completed ans) ≡ ok tt
      → (rs : List Event) × (a v : Event) × (content : String) × (verdict : Verdict) × (run
          ≡ rs ++ a ∷ v ∷ [])
        × (a.body ≡ model_action (answer content))
        × (v.body ≡ verification verdict)
        × (verdict.passed ≡ true)
        × (ans ≡ some content)
  completed_run run ans c k =
      let (_, p, q) = completion_checks run ans k in
      let (r₁, v, e₁, t₁, c₁, k₁) = last-Checked is_passed run c p in
      let (verdict, bv, pv) = passed_body v.body t₁ in
      let l = verification_checks r₁ verdict (rw bv at k₁) in
      let (rs, a, e₂, t₂, _, _) = last-Checked is_answer r₁ c₁ l in
      let (content, ba) = answer_body a.body t₂ in
      let e : run ≡ rs ++ a ∷ v ∷ [] =
        e₁ ∙ ap (λ xs. xs ++ v ∷ []) e₂ ∙ append_assoc rs (a ∷ []) (v ∷ []) in
      (
        rs,
        a,
        v,
        content,
        verdict,
        e,
        ba,
        bv,
        pv,
        bound_answer rs a v content verdict ans ba bv (rw e at q),
      )

  -- In an accepted ledger the run of a completion event ends, before it, in a candidate answer and
  -- a verification that passed, and the completion carries the content of that very answer.
  pub completion_verified :
      (es fs : List Event) (e : Event) (ans : Option String)
      → validate sha256 dumps (es ++ e ∷ fs) ≡ ok tt
      → e.body ≡ run_completed ans
      → (rs : List Event) × (a v : Event) × (content : String) × (verdict : Verdict) × (events_of
            e.run_id es
          ≡ rs ++ a ∷ v ∷ [])
        × (a.body ≡ model_action (answer content))
        × (v.body ≡ verification verdict)
        × (verdict.passed ≡ true)
        × (ans ≡ some content)
  completion_verified es fs e ans h b =
      let (s, t, u, front, v, round, _) = validate-cut sha256 dumps es fs e h in
      completed_run (events_of e.run_id es) ans (validate-Checked es e.run_id front)
        (rw (← b, ← v.runs e.run_id) round.checked)

  not_after_completion :
      (run : List Event) (body : Body)
      → check_event sha256 dumps run body ≡ ok tt
      → last_is is_completion (last? run) ≡ false
  unfolding check_event
  not_after_completion run body h = ground arith

  final_run :
      (r : String) (fs : List Event) (s u : Scan)
      → scan sha256 dumps fs s ≡ ok u
      → last_is is_completion (last? (run_of (lookup r s.per_run))) ≡ true
      → events_of r fs ≡ []
  unfolding scan events_of
  final_run r [] s u h l = refl
  final_run r (f ∷ fs) s u h l = elim (Result-cases (scan_event sha256 dumps f s)) [
    | inl (x, y) ↦ absurd (ground arith)
    | inr (t, y) ↦
        let round : Scans sha256 dumps f s t = scan_event-Scans sha256 dumps f s t y in
        elim (Bool-cases (f.run_id == r)) [
          | inl e ↦ absurd (
              cc (
                l,
                ap (λ k. last_is is_completion (last? (run_of (lookup k s.per_run))))
                    ((string_eq_iff f.run_id r).0 e),
                not_after_completion _ f.body round.checked,
              ))
          | inr n ↦ rw n (final_run r fs t u (ground arith) (rw (round.runs, lookup-insert, n) l))
        ]
  ]

  -- In an accepted ledger a completed run has no later event.
  pub completion_is_final :
      (es fs : List Event) (e : Event)
      → validate sha256 dumps (es ++ e ∷ fs) ≡ ok tt
      → is_completion e.body ≡ true
      → events_of e.run_id fs ≡ []
  completion_is_final es fs e h b =
      let (s, t, u, front, v, round, rest) = validate-cut sha256 dumps es fs e h in
      final_run e.run_id fs t u rest
        (rw (round.runs, lookup-insert, eq_refl e.run_id) (rw last?-snoc b))
