-- ===== src/Gates/Binding.antt =====
-- gates.py: `evaluate_bound_gate`. Times and the freshness limit are microseconds; evidence
-- references of another type than a list of texts are refused like those without evidence.
use trace_gate_framework.Prelude.{
  ℕ, ◌+◌, ◌≤◌, ◌<◌, String, ◌≡◌, Bool, true, ◌&&◌, inl, inr, Option, none, some, List, [], ◌∷◌,
  arith, ◌==◌, string_Eq, option_Eq, string_eq_iff, ltb, leb, Result, ok, err, Error, value_error,
  guard, subscript, ◌>>=◌, ◌>>◌, Result-cases, Option-cases, All,
}
use trace_gate_framework.Prelude.Dict.{Dict, lookup}
use trace_gate_framework.Context.{Time, aware, naive}

pub record Evidence : Type 0 where
  pub run_id : Option String
  pub subject_revision : Option String
  pub gate_id : Option String
  pub facts_digest : Option String
  pub observed_at : Option String
  pub expires_at : Option String
  -- Whether `passed` is True.
  pub passed : Bool

-- The run and the subject that evidence must be about, and what it must say.
pub record Binding : Type 0 where
  pub run_id : String
  pub subject_revision : String
  pub gate_id : String
  pub facts_digest : String
  pub now : ℕ
  pub max_age : ℕ

module _ (fromisoformat : String → Option Time) (digest_evidence : Evidence → String) where
  abbrev zoned_time : Option Time → Result ℕ
  zoned_time none = err (value_error "Invalid isoformat string")
  zoned_time (some naive) = err (value_error "timezone required")
  zoned_time (some (aware t)) = ok t

  unfoldable pub timestamp : String → Result ℕ
  timestamp value = zoned_time (fromisoformat value)

  abbrev pub is_about : Binding → Evidence → Bool
  is_about b e =
      (e.run_id == some b.run_id)
      && (e.subject_revision == some b.subject_revision)
      && (e.gate_id == some b.gate_id)
      && (e.facts_digest == some b.facts_digest)

  abbrev stale : Error
  stale = value_error "evidence expired, future, or not passed"

  -- One round of the loop over the references.
  unfoldable pub check_evidence : Binding → Dict Evidence → Dict String → String → Result (Unit {0})
  unfolding timestamp
  check_evidence b evidence trusted ref = do
    e ← subscript (lookup ref evidence)
    trusted_digest ← subscript (lookup ref trusted)
    guard (digest_evidence e == trusted_digest) (value_error "untrusted evidence digest")
    guard (is_about b e) (value_error "evidence binding mismatch")
    observed_at ← subscript e.observed_at
    observed ← timestamp observed_at
    guard (leb observed b.now && leb b.now (observed + b.max_age)) stale
    expires_at ← subscript e.expires_at
    expires ← timestamp expires_at
    guard (ltb b.now expires && e.passed) stale

  unfoldable pub check_all : Binding → Dict Evidence → Dict String → List String → Result (Unit {0})
  check_all b evidence trusted [] = ok tt
  check_all b evidence trusted (ref ∷ refs) = do
    check_evidence b evidence trusted ref
    check_all b evidence trusted refs

  -- Evidence under a reference that is trusted, about the subject, fresh, unexpired and passed.
  pub record IsTrusted (b : Binding) (evidence : Dict Evidence) (trusted : Dict String)
      (ref : String) : Type 0 where
    pub piece : Evidence
    pub given : lookup ref evidence ≡ some piece
    pub resolved : lookup ref trusted ≡ some (digest_evidence piece)
    pub about : is_about b piece ≡ true
    pub observed_at : String
    pub observed_text : piece.observed_at ≡ some observed_at
    pub observed : ℕ
    pub observed_time : timestamp observed_at ≡ ok observed
    pub not_future : observed ≤ b.now
    pub not_old : b.now ≤ observed + b.max_age
    pub expires_at : String
    pub expires_text : piece.expires_at ≡ some expires_at
    pub expires : ℕ
    pub expires_time : timestamp expires_at ≡ ok expires
    pub unexpired : b.now < expires
    pub passed : piece.passed ≡ true

  check_evidence-IsTrusted :
      (b : Binding) (evidence : Dict Evidence) (trusted : Dict String) (ref : String)
      → check_evidence b evidence trusted ref ≡ ok tt
      → IsTrusted b evidence trusted ref
  unfolding check_evidence
  check_evidence-IsTrusted b evidence trusted ref h = elim (Option-cases (lookup ref evidence)) [
    | inl y ↦ absurd (ground arith)
    | inr (e, given) ↦ elim (Option-cases (lookup ref trusted)) [
      | inl y ↦ absurd (ground arith)
      | inr (d, found) ↦ elim (Option-cases e.observed_at) [
        | inl y ↦ absurd (ground arith)
        | inr (o, ot) ↦ elim (Result-cases (timestamp o)) [
          | inl (x, y) ↦ absurd (ground arith)
          | inr (observed, om) ↦ elim (Option-cases e.expires_at) [
            | inl y ↦ absurd (ground arith)
            | inr (z, zt) ↦ elim (Result-cases (timestamp z)) [
              | inl (x, y) ↦ absurd (ground arith)
              | inr (expires, zm) ↦
                  let same : digest_evidence e ≡ d =
                    (string_eq_iff (digest_evidence e) d).0 (ground arith) in
                  record {
                    piece = e;
                    given = given;
                    resolved = rw same found;
                    about = ground arith;
                    observed_at = o;
                    observed_text = ot;
                    observed = observed;
                    observed_time = om;
                    not_future = ground arith;
                    not_old = ground arith;
                    expires_at = z;
                    expires_text = zt;
                    expires = expires;
                    expires_time = zm;
                    unexpired = ground arith;
                    passed = ground arith;
                  }
            ]
          ]
        ]
      ]
    ]
  ]

  -- What the loop establishes of every reference.
  pub check_all-IsTrusted :
      (b : Binding) (evidence : Dict Evidence) (trusted : Dict String) (refs : List String)
      → check_all b evidence trusted refs ≡ ok tt
      → All (IsTrusted b evidence trusted) refs
  unfolding check_all
  check_all-IsTrusted b evidence trusted [] h = tt
  check_all-IsTrusted b evidence trusted (ref ∷ refs) h =
      elim (Result-cases (check_evidence b evidence trusted ref)) [
        | inl (x, y) ↦ absurd (ground arith)
        | inr (tt, y) ↦ (
          check_evidence-IsTrusted b evidence trusted ref y,
          check_all-IsTrusted b evidence trusted refs (ground arith),
        )
      ]
