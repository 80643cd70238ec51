-- ===== src/Gates/Bound.antt =====
-- gates.py: `evaluate_bound_gate` around its loop over the evidence.
use trace_gate_framework.Prelude.{
  ℕ, String, ◌≡◌, ◌≢◌, Bool, false, not, ◌&&◌, ◌||◌, inl, inr, Option, none, some, List, [], ◌∷◌,
  arith, string_Eq, ltb, is_empty, subset, Result, ok, err, Error, value_error, guard, reject_if,
  ◌>>=◌, ◌>>◌, Result-cases, All, subst,
}
use trace_gate_framework.Prelude.Dict.{Dict, lookup, keys}
use trace_gate_framework.Documents.{Count, count, not_count}
use trace_gate_framework.Context.{Time}
use trace_gate_framework.Gates.{
  Value, null, boolean, number, text, mixed_list, mapping, texts, Python, Policy, ReceiptBody,
  EvaluationReceipt, cited_refs, evaluate_gate,
}
use trace_gate_framework.Gates.Deciding.{IsDecided, evaluate_gate_lem}
use trace_gate_framework.Gates.Binding.{
  Evidence, Binding, timestamp, check_all, IsTrusted, check_all-IsTrusted,
}

abbrev not_bounded : Error
not_bounded = value_error "bound gate requires facts schema and finite freshness limit"

abbrev positive_limit : ℕ → Result ℕ
positive_limit n = do guard (ltb 0 n) not_bounded; ok n

abbrev pub freshness : Count → Result ℕ
freshness not_count = err not_bounded
freshness (count n) = positive_limit n

abbrev pub named_refs : {Number : Type 0} → Option (Value Number) → List String
named_refs (some (texts refs)) = refs
named_refs _ = []

-- `set(xs) == set(ys)`
abbrev pub same_set : List String → List String → Bool
same_set xs ys = subset xs ys && subset ys xs

module _ {Number : Type 0} (python : Python Number) (fromisoformat : String → Option Time)
    (digest_evidence : Evidence → String)
    (validated : Policy Number → Dict (Value Number) → Result (Unit {0}))
    (input_digest : Policy Number → Dict (Value Number) → String)
    (digest : ReceiptBody Number → String) (facts_digest : Dict (Value Number) → String)
    (bound_digest : String) where
  abbrev pub binding_of : Policy Number → Dict (Value Number) → String → String → ℕ → ℕ → Binding
  binding_of policy facts run_id subject_revision now max_age = record {
    run_id = run_id;
    subject_revision = subject_revision;
    gate_id = policy.gate_id;
    facts_digest = facts_digest facts;
    now = now;
    max_age = max_age;
  }

  abbrev pub rebind : EvaluationReceipt Number → EvaluationReceipt Number
  rebind receipt =
      let body : ReceiptBody Number = record receipt.body { input_digest = bound_digest } in
      record { body = body; receipt_digest = digest body }

  -- `bound_digest` is the digest of the input with the trusted digests and the binding.
  unfoldable pub evaluate_bound_gate :
      Bool
      → Policy Number
      → Dict (Value Number)
      → Dict Evidence
      → Dict String
      → String
      → String
      → String
      → Count
      → Result (EvaluationReceipt Number)
  evaluate_bound_gate has_facts_schema policy facts evidence trusted run_id subject_revision
        evaluated_at max_age_seconds =
      do
        guard has_facts_schema not_bounded
        max_age ← freshness max_age_seconds
        now ← timestamp fromisoformat digest_evidence evaluated_at
        let refs : List String = named_refs (lookup "evidence_refs" facts)
        reject_if
            (is_empty refs
              || not (same_set refs (keys evidence))
              || not (same_set refs (keys trusted)))
            (value_error "evidence coverage mismatch")
        check_all fromisoformat digest_evidence
            (binding_of policy facts run_id subject_revision now max_age) evidence trusted refs
        receipt ← evaluate_gate python validated input_digest digest policy facts evaluated_at
        ok (rebind receipt)

  named_cited :
      (found : Option (Value Number)) (refs : List String)
      → cited_refs python found ≡ ok refs
      → named_refs found ≡ refs
  named_cited none refs h = ground arith
  named_cited (some (texts names)) refs h = ground arith
  named_cited (some null) refs h = absurd (ground arith)
  named_cited (some (boolean b)) refs h = absurd (ground arith)
  named_cited (some (number n)) refs h = absurd (ground arith)
  named_cited (some (text t)) refs h = absurd (ground arith)
  named_cited (some (mixed_list t)) refs h = absurd (ground arith)
  named_cited (some (mapping t)) refs h = absurd (ground arith)

  limited : (c : Count) (n : ℕ) → freshness c ≡ ok n → c ≡ count n
  limited not_count n h = absurd (ground arith)
  limited (count m) n h = ground arith

  some_refs : (refs : List String) → is_empty refs ≡ false → refs ≢ []
  some_refs [] h = absurd (ground arith)
  some_refs (ref ∷ refs) h = ground arith

  rebind-IsDecided :
      (policy : Policy Number) (facts : Dict (Value Number)) (receipt : EvaluationReceipt Number)
      → IsDecided python policy facts receipt.body
      → IsDecided python policy facts (rebind receipt).body
  rebind-IsDecided policy facts receipt d = record {
    passes = d.passes;
    grants = d.grants;
    withholds = d.withholds;
    cites = d.cites;
    evaluator = d.evaluator;
  }

  -- A receipt of a bound gate is decided as one of the plain evaluator, and cites evidence; each
  -- piece is the trusted one, about this run, subject, gate and these facts, not older than the
  -- limit, not from the future, not expired, and passed.
  pub evaluate_bound_gate_lem :
      (has_facts_schema : Bool) (policy : Policy Number) (facts : Dict (Value Number))
      (evidence : Dict Evidence) (trusted : Dict String)
      (run_id subject_revision evaluated_at : String) (max_age_seconds : Count)
      (receipt : EvaluationReceipt Number)
      → evaluate_bound_gate has_facts_schema policy facts evidence trusted run_id subject_revision
          evaluated_at max_age_seconds
        ≡ ok receipt
      → (now max_age : ℕ) × (timestamp fromisoformat digest_evidence evaluated_at ≡ ok now)
        × (max_age_seconds ≡ count max_age)
        × IsDecided python policy facts receipt.body
        × (receipt.evidence_refs ≢ [])
        × All
            (IsTrusted fromisoformat digest_evidence
              (binding_of policy facts run_id subject_revision now max_age)
              evidence
              trusted)
            receipt.evidence_refs
  unfolding evaluate_bound_gate
  evaluate_bound_gate_lem has_facts_schema policy facts evidence trusted run_id subject_revision
        evaluated_at max_age_seconds receipt h =
      elim (Result-cases (freshness max_age_seconds)) [
        | inl (e, y) ↦ absurd (ground arith)
        | inr (max_age, limit) ↦
            elim (Result-cases (timestamp fromisoformat digest_evidence evaluated_at)) [
              | inl (e, y) ↦ absurd (ground arith)
              | inr (now, time) ↦
                  elim (Result-cases (
                    evaluate_gate python validated input_digest digest policy facts evaluated_at)) [
                      | inl (e, y) ↦ absurd (ground arith)
                      | inr (plain, y) ↦
                          let decided =
                            evaluate_gate_lem python validated input_digest digest policy facts
                              evaluated_at plain y in
                          let named =
                            named_cited (lookup "evidence_refs" facts) plain.evidence_refs
                              decided.cites in
                          let binding =
                            binding_of policy facts run_id subject_revision now max_age in
                          let all_trusted =
                            check_all-IsTrusted fromisoformat digest_evidence binding evidence
                              trusted (named_refs (lookup "evidence_refs" facts)) (ground arith) in
                          let cited =
                            some_refs (named_refs (lookup "evidence_refs" facts)) (ground arith) in
                          let same : rebind plain ≡ receipt = ground arith in
                          let (d, n, a) =
                            subst
                              (λ (r : EvaluationReceipt Number).
                                IsDecided python policy facts r.body
                                × (r.evidence_refs ≢ [])
                                × All
                                    (IsTrusted fromisoformat digest_evidence binding evidence
                                      trusted)
                                    r.evidence_refs)
                              same
                              (
                                rebind-IsDecided policy facts plain decided,
                                rw (← named) cited,
                                rw (← named) all_trusted,
                              ) in
                          (now, max_age, time, limited max_age_seconds max_age limit, d, n, a)
                    ]
            ]
      ]
