-- ===== src/Gates/Examples.antt =====
-- gates.py at a concrete input: numbers are natural, and the one expression is `>= 3`.
use trace_gate_framework.Prelude.{
  ℕ, String, string_Eq, nat_Eq, contains, ◌==◌, ◌≡◌, ◌≢◌, All, subset, option_Eq, refl, true, false,
  Option, none, some, [], ◌∷◌, Result, ok, ltb, any, all, is_unique, if◌then◌else◌,
}
use trace_gate_framework.Prelude.Dict.{Dict, lookup}
use trace_gate_framework.Gates.{
  Symbol, at_least, Value, number, text, texts, Python, Policy, pass, EvaluationReceipt,
  ReceiptBody, literal, ordered, compare, place_requirement, by_key, checks_of, missing_of,
  evaluate_gate,
}
use trace_gate_framework.Gates.Deciding.{IsDecided, evaluate_gate_lem}
use trace_gate_framework.Documents.{Count, count}
use trace_gate_framework.Context.{Time, aware}
use trace_gate_framework.Gates.Binding.{Evidence, timestamp, check_evidence, check_all, IsTrusted}
use trace_gate_framework.Gates.Bound.{
  binding_of, rebind, evaluate_bound_gate, evaluate_bound_gate_lem,
}

abbrev three : String → Option (Symbol × String)
three t = if t == ">= 3" then some (at_least, "3") else none

abbrev python : Python ℕ
python = record {
  is_finite = λ n. true;
  less = ltb;
  same_number = λ a b. a == b;
  int = λ t. if t == "3" then some 3 else none;
  float = λ t. none;
  expression = three;
  without_percent = λ t. none;
  lower = λ t. t;
  is_fractional = λ t. false;
  is_blank = λ t. t == "";
  text_less = λ a b. false;
  same_json = λ a b. a == b;
  repr = λ v. "value";
}

abbrev policy : Policy ℕ
policy = record {
  gate_id = "g";
  evaluator_id = "trace-gate.reference-evaluator";
  evaluator_version = "1.1.1";
  required = ("coverage", text ">= 3") ∷ ("name", text "x") ∷ [];
  newly_allowed_authority = "deploy" ∷ [];
  still_forbidden = [];
}

abbrev facts : Dict (Value ℕ)
facts = ("coverage", number 4) ∷ ("name", text "x") ∷ ("evidence_refs", texts ("ref" ∷ [])) ∷ []

abbrev validated : Policy ℕ → Dict (Value ℕ) → Result (Unit {0})
validated p f = ok tt

abbrev input_digest : Policy ℕ → Dict (Value ℕ) → String
input_digest p f = "in"

abbrev digest : ReceiptBody ℕ → String
digest b = "out"

abbrev receipt : EvaluationReceipt ℕ
receipt = record {
  body = record {
    gate_id = "g";
    evaluated_at = "now";
    status = pass;
    input_digest = "in";
    checks =
        record {
          key = "coverage";
          actual = number 4;
          required = text ">= 3";
          passed = true;
          expression = "value >= value";
        }
        ∷ record {
          key = "name";
          actual = text "x";
          required = text "x";
          passed = true;
          expression = "value == value";
        }
        ∷ [];
    evidence_refs = "ref" ∷ [];
    newly_allowed_authority = "deploy" ∷ [];
    still_forbidden = [];
  };
  receipt_digest = "out";
}

evaluates : evaluate_gate python validated input_digest digest policy facts "now" ≡ ok receipt
unfolding evaluate_gate by_key place_requirement checks_of missing_of compare literal ordered lookup
    any all is_unique
evaluates = refl

evaluate_gate_lem_example : IsDecided python policy facts receipt.body
evaluate_gate_lem_example =
    evaluate_gate_lem python validated input_digest digest policy facts "now" receipt evaluates

abbrev clock_text : String → Option Time
clock_text t = if t == "later" then some (aware 100) else some (aware 5)

abbrev piece : Evidence
piece = record {
  run_id = some "run";
  subject_revision = some "rev";
  gate_id = some "g";
  facts_digest = some "facts";
  observed_at = some "now";
  expires_at = some "later";
  passed = true;
}

abbrev evidence : Dict Evidence
evidence = ("ref", piece) ∷ []

abbrev trusted : Dict String
trusted = ("ref", "piece") ∷ []

abbrev digest_evidence : Evidence → String
digest_evidence e = "piece"

abbrev facts_digest : Dict (Value ℕ) → String
facts_digest f = "facts"

abbrev bound_receipt : EvaluationReceipt ℕ
bound_receipt =
    rebind python clock_text digest_evidence validated input_digest digest facts_digest "bound"
      receipt

abbrev freshness_limit : Count
freshness_limit = count 60

bound_evaluates :
    evaluate_bound_gate python clock_text digest_evidence validated input_digest digest facts_digest
      "bound" true policy facts evidence trusted "run" "rev" "now" freshness_limit
    ≡ ok bound_receipt
unfolding evaluate_bound_gate evaluate_gate by_key place_requirement checks_of missing_of compare
    literal ordered lookup any all is_unique check_all check_evidence timestamp subset contains
bound_evaluates = refl

evaluate_bound_gate_lem_example :
    (now max_age : ℕ) × (timestamp clock_text digest_evidence "now" ≡ ok now)
    × (freshness_limit ≡ count max_age)
    × IsDecided python policy facts bound_receipt.body
    × (bound_receipt.evidence_refs ≢ [])
    × All
        (IsTrusted clock_text digest_evidence
          (binding_of python clock_text digest_evidence validated input_digest digest facts_digest
            "bound" policy facts "run" "rev" now max_age)
          evidence
          trusted)
        bound_receipt.evidence_refs
evaluate_bound_gate_lem_example =
    evaluate_bound_gate_lem python clock_text digest_evidence validated input_digest digest
      facts_digest "bound" true policy facts evidence trusted "run" "rev" "now" freshness_limit
      bound_receipt bound_evaluates
