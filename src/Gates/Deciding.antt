-- ===== src/Gates/Deciding.antt =====
-- gates.py: what the status and the authority of a receipt of `evaluate_gate` say.
use trace_gate_framework.Prelude.{
  String, ◌≡◌, ◌≢◌, ◌↔◌, refl, Bool, true, false, ◌&&◌, inl, inr, some, List, [], ◌∷◌, arith, ◌==◌,
  string_Eq, if◌then◌else◌, all, is_empty, Result, ok, Bool-cases, Option-cases, All,
}
use trace_gate_framework.Prelude.Dict.{Dict, lookup}
use trace_gate_framework.Gates.{
  Value, Python, compare, CheckResult, Policy, GateStatus, pass, fail, blocked, ReceiptBody,
  EvaluationReceipt, place_requirement, by_key, checks_of, missing_of, cited_refs, status_of,
  granted, evaluate_gate,
}

module _ {Number : Type 0} (python : Python Number) where
  -- A required key has a fact, which compares with its requirement.
  pub IsMet : Dict (Value Number) → String × Value Number → Type 0
  IsMet facts x =
      (fact : Value Number) × (lookup x.0 facts ≡ some fact) × ((compare python fact x.1).0 ≡ true)

  module _ (P : String × Value Number → Type 0) where
    All-if :
        (b : Bool) (xs ys : Dict (Value Number))
        → All P xs
        → All P ys
        → All P (if b then xs else ys)
    All-if true xs ys p q = p
    All-if false xs ys p q = q

    All-placed :
        (x : String × Value Number) (xs : Dict (Value Number))
        → P x
        → All P xs
        → All P (place_requirement python x xs)
    unfolding place_requirement
    All-placed x [] p q = (p, tt)
    All-placed x (y ∷ ys) p q =
        All-if (python.text_less y.0 x.0) (y ∷ place_requirement python x ys) (x ∷ y ∷ ys)
          (q.0, All-placed x ys p q.1) (p, q)

    placed-All :
        (x : String × Value Number) (xs : Dict (Value Number))
        → All P (place_requirement python x xs)
        → P x × All P xs
    unfolding place_requirement
    placed-All x [] p = p
    placed-All x (y ∷ ys) p = elim (Bool-cases (python.text_less y.0 x.0)) [
      | inl b ↦
          let q : All P (y ∷ place_requirement python x ys) = rw b at p in
          let r = placed-All x ys q.1 in (r.0, (q.0, r.1))
      | inr b ↦ let q : All P (x ∷ y ∷ ys) = rw b at p in (q.0, q.1)
    ]

    -- Sorting keeps what holds of every requirement, and adds none.
    by_key-All : (xs : Dict (Value Number)) → All P (by_key python xs) ↔ All P xs
    unfolding by_key
    by_key-All [] = (λ p. p, λ p. p)
    by_key-All (x ∷ xs) = (
      λ p. let r = placed-All x (by_key python xs) p in (r.0, (by_key-All xs).0 r.1),
      λ p. All-placed x (by_key python xs) p.0 ((by_key-All xs).1 p.1),
    )

  -- No key is missing and every check passed exactly when every requirement is met.
  IsMet-iff :
      (facts required : Dict (Value Number))
      → ((is_empty (missing_of python required facts)
            && all (λ (c : CheckResult Number). c.passed) (checks_of python required facts))
          ≡ true)
        ↔ All (IsMet facts) required
  unfolding missing_of checks_of all IsMet
  IsMet-iff facts [] = (λ h. tt, λ p. refl)
  IsMet-iff facts ((key, requirement) ∷ rest) = elim (Option-cases (lookup key facts)) [
    | inl absent ↦ (λ h. absurd (ground arith), λ p. absurd (ground (arith, p.0.1)))
    | inr (fact, there) ↦ (
      λ h. ((fact, there, ground arith), (IsMet-iff facts rest).0 (ground arith)),
      λ p. ground (arith, p.0.1, p.0.2, (IsMet-iff facts rest).1 p.1),
    )
  ]

  status_iff :
      (missing : List (CheckResult Number)) (refs : List String)
      (results : List (CheckResult Number))
      → (status_of python missing refs results ≡ pass) ↔ (
          (refs ≢ [])
          × ((is_empty missing && all (λ (c : CheckResult Number). c.passed) results) ≡ true))
  status_iff missing [] results = (λ h. absurd (ground arith), λ p. absurd (p.0 refl))
  status_iff missing (ref ∷ refs) results =
      (λ h. (ground arith, ground arith), λ p. ground (arith, p.1))

  granted_pass :
      (s : GateStatus) (authority : List String) → s ≡ pass → granted python s authority ≡ authority
  granted_pass pass authority h = refl
  granted_pass fail authority h = absurd (ground arith)
  granted_pass blocked authority h = absurd (ground arith)

  granted_other :
      (s : GateStatus) (authority : List String) → s ≢ pass → granted python s authority ≡ []
  granted_other pass authority n = absurd (n refl)
  granted_other fail authority n = refl
  granted_other blocked authority n = refl

  -- A receipt that passes exactly when evidence is cited and every requirement of the policy is
  -- met, and that grants the authority of the policy when it passes and none otherwise.
  pub record IsDecided (policy : Policy Number) (facts : Dict (Value Number))
      (receipt : ReceiptBody Number) : Type 0 where
    pub passes :
        (receipt.status ≡ pass) ↔ ((receipt.evidence_refs ≢ []) × All (IsMet facts) policy.required)
    pub grants :
        receipt.status ≡ pass → receipt.newly_allowed_authority ≡ policy.newly_allowed_authority
    pub withholds : receipt.status ≢ pass → receipt.newly_allowed_authority ≡ []
    pub cites : cited_refs python (lookup "evidence_refs" facts) ≡ ok receipt.evidence_refs
    pub evaluator :
        ((policy.evaluator_id == "trace-gate.reference-evaluator")
          && (policy.evaluator_version == "1.1.1"))
        ≡ true

  decided_status :
      (policy : Policy Number) (facts : Dict (Value Number)) (refs : List String)
      → (status_of python
            (missing_of python (by_key python policy.required) facts)
            refs
            (checks_of python (by_key python policy.required) facts)
          ≡ pass)
        ↔ ((refs ≢ []) × All (IsMet facts) policy.required)
  decided_status policy facts refs = (
    λ h.
        let (cited, met) = (status_iff missing refs results).0 h in
        (cited, sorted.0 ((IsMet-iff facts required).0 met)),
    λ p. (status_iff missing refs results).1 (p.0, (IsMet-iff facts required).1 (sorted.1 p.1)),
  )
    where
      required : Dict (Value Number)
      required = by_key python policy.required

      missing : List (CheckResult Number)
      missing = missing_of python required facts

      results : List (CheckResult Number)
      results = checks_of python required facts

      sorted : All (IsMet facts) required ↔ All (IsMet facts) policy.required
      sorted = by_key-All (IsMet facts) policy.required

  -- A receipt that is returned passes exactly when evidence is cited and every requirement of the
  -- policy is met by a fact, and it grants the authority of the policy only when it passes.
  pub evaluate_gate_lem :
      (validated : Policy Number → Dict (Value Number) → Result (Unit {0}))
      (input_digest : Policy Number → Dict (Value Number) → String)
      (digest : ReceiptBody Number → String) (policy : Policy Number) (facts : Dict (Value Number))
      (evaluated_at : String) (receipt : EvaluationReceipt Number)
      → evaluate_gate python validated input_digest digest policy facts evaluated_at ≡ ok receipt
      → IsDecided policy facts receipt.body
  unfolding evaluate_gate
  evaluate_gate_lem validated input_digest digest policy facts evaluated_at receipt h =
      let status : status_of python (missing_of python (by_key python policy.required) facts)
            receipt.evidence_refs (checks_of python (by_key python policy.required) facts)
          ≡ receipt.status =
        ground arith in
      let authority : granted python receipt.status policy.newly_allowed_authority
          ≡ receipt.newly_allowed_authority =
        ground arith in
      record {
        passes = rw (← status) (decided_status policy facts receipt.evidence_refs);
        grants =
            λ p. rw (← authority) (granted_pass receipt.status policy.newly_allowed_authority p);
        withholds =
            λ n. rw (← authority) (granted_other receipt.status policy.newly_allowed_authority n);
        cites = ground arith;
        evaluator = ground arith;
      }
