-- ===== src/Gates.antt =====
-- src/trace_gate/gates.py: `compare` and `evaluate_gate`. Numbers (int and float), the parsing of
-- literals and the texts of Python values are the fields of `Python`.
pub mod Deciding
pub mod Binding
pub mod Bound
mod Examples
use trace_gate_framework.Prelude.{
  String, ◌≡◌, Bool, true, false, not, ◌&&◌, ◌||◌, Option, none, some, List, [], ◌∷◌, ◌++◌, map, Eq,
  ◌==◌, string_Eq, bool_Eq, list_Eq, if◌then◌else◌, any, all, is_empty, is_unique, concat, Result,
  ok, err, Error, value_error, guard, reject_if, ◌>>=◌, ◌>>◌,
}
use trace_gate_framework.Prelude.Dict.{Dict, lookup}

pub data Symbol : Type 0 where
  at_least at_most above under equal unequal : Symbol

-- A JSON value; an object, or a list that is no list of texts, stands as its JSON text.
pub data Value (Number : Type 0) : Type 0 where
  null : Value Number
  boolean : Bool → Value Number
  number : Number → Value Number
  text : String → Value Number
  texts : List String → Value Number
  mixed_list mapping : String → Value Number

pub record Python (Number : Type 0) : Type 0 where
  pub is_finite : Number → Bool
  pub less : Number → Number → Bool
  pub same_number : Number → Number → Bool
  -- `int(text)` and `float(text)`, where they raise no ValueError.
  pub int : String → Option Number
  pub float : String → Option Number
  -- `EXPRESSION.match(text.strip())` and its groups, the second one stripped.
  pub expression : String → Option (Symbol × String)
  -- `text[:-1].strip()` of a text that ends in %.
  pub without_percent : String → Option String
  pub lower : String → String
  -- Whether the text has a dot or an e in lower case.
  pub is_fractional : String → Bool
  pub is_blank : String → Bool
  pub text_less : String → String → Bool
  -- Equality of two objects or two lists, which takes 1 and 1.0 for the same.
  pub same_json : String → String → Bool
  pub repr : Value Number → String

module _ {Number : Type 0} (python : Python Number) where
  abbrev parsed : String → Option Number → Value Number
  parsed value none = text value
  parsed value (some n) = number n

  abbrev numeral : String → Value Number
  numeral value =
      parsed value (if python.is_fractional value then python.float value else python.int value)

  abbrev bare_literal : String → Value Number
  bare_literal value =
      if python.lower value == "true"
      then boolean true
      else if python.lower value == "false"
      then boolean false
      else if python.lower value == "null"
      then null
      else numeral value

  abbrev unless_percent : String → Option String → String
  unless_percent value none = value
  unless_percent value (some shorter) = shorter

  unfoldable pub literal : String → Value Number
  literal value = bare_literal (unless_percent value (python.without_percent value))

  -- `compatible(expected)`
  abbrev pub compatible : Value Number → Value Number → Bool
  compatible (number a) (number b) = python.is_finite a && python.is_finite b
  compatible null null = true
  compatible (boolean a) (boolean b) = true
  compatible (text a) (text b) = true
  compatible (texts a) (texts b) = true
  compatible (texts a) (mixed_list b) = true
  compatible (mixed_list a) (texts b) = true
  compatible (mixed_list a) (mixed_list b) = true
  compatible (mapping a) (mapping b) = true
  compatible _ _ = false

  -- `a == b` of compatible values.
  abbrev pub equals : Value Number → Value Number → Bool
  equals (number a) (number b) = python.same_number a b
  equals null null = true
  equals (boolean a) (boolean b) = a == b
  equals (text a) (text b) = a == b
  equals (texts a) (texts b) = a == b
  equals (mixed_list a) (mixed_list b) = python.same_json a b
  equals (mapping a) (mapping b) = python.same_json a b
  equals _ _ = false

  -- `a < b` of compatible values, where it is no TypeError.
  abbrev pub precedes : Value Number → Value Number → Option Bool
  precedes (number a) (number b) = some (python.less a b)
  precedes (boolean a) (boolean b) = some (not a && b)
  precedes (text a) (text b) = some (python.text_less a b)
  precedes _ _ = none

  abbrev or_equal : Value Number → Value Number → Option Bool → Option Bool
  or_equal a b none = none
  or_equal a b (some smaller) = some (smaller || equals a b)

  -- `COMPARATORS[symbol](a, b)`, where it is no TypeError.
  unfoldable pub ordered : Symbol → Value Number → Value Number → Option Bool
  ordered at_least a b = or_equal a b (precedes b a)
  ordered at_most a b = or_equal a b (precedes a b)
  ordered above a b = precedes b a
  ordered under a b = precedes a b
  ordered equal a b = some (equals a b)
  ordered unequal a b = some (not (equals a b))

  abbrev sign : Symbol → String
  sign at_least = " >= "
  sign at_most = " <= "
  sign above = " > "
  sign under = " < "
  sign equal = " == "
  sign unequal = " != "

  abbrev formula : Value Number → Symbol → Value Number → String
  formula a symbol b = concat (python.repr a) (concat (sign symbol) (python.repr b))

  abbrev outcome : Value Number → Symbol → Value Number → Option Bool → Bool × String
  outcome a symbol b none = (false, concat "incomparable values: " (formula a symbol b))
  outcome a symbol b (some passed) = (passed, formula a symbol b)

  abbrev compare_with : Value Number → Symbol → Value Number → Bool × String
  compare_with actual symbol expected =
      if not (compatible actual expected)
      then (false, "incompatible fact type")
      else outcome actual symbol expected (ordered symbol actual expected)

  abbrev compare_literally : Value Number → Value Number → Bool × String
  compare_literally actual requirement =
      (compatible actual requirement && equals actual requirement, formula actual equal requirement)

  abbrev compare_matched : Value Number → Value Number → Option (Symbol × String) → Bool × String
  compare_matched actual requirement none = compare_literally actual requirement
  compare_matched actual requirement (some (symbol, raw)) = compare_with actual symbol (literal raw)

  unfoldable pub compare : Value Number → Value Number → Bool × String
  unfolding literal ordered
  compare actual (text requirement) =
      compare_matched actual (text requirement) (python.expression requirement)
  compare actual requirement = compare_literally actual requirement

pub record CheckResult (Number : Type 0) : Type 0 where
  pub key : String
  pub actual : Value Number
  pub required : Value Number
  pub passed : Bool
  pub expression : String

pub record Policy (Number : Type 0) : Type 0 where
  pub gate_id : String
  pub evaluator_id : String
  pub evaluator_version : String
  pub required : Dict (Value Number)
  pub newly_allowed_authority : List String
  pub still_forbidden : List String

pub data GateStatus : Type 0 where
  pass fail blocked : GateStatus

pub record ReceiptBody (Number : Type 0) : Type 0 where
  pub gate_id : String
  pub evaluated_at : String
  pub status : GateStatus
  pub input_digest : String
  pub checks : List (CheckResult Number)
  pub evidence_refs : List String
  pub newly_allowed_authority : List String
  pub still_forbidden : List String

pub record EvaluationReceipt (Number : Type 0) : Type 0 where
  pub body : ReceiptBody Number
  pub open body use *
  pub receipt_digest : String

module _ {Number : Type 0} (python : Python Number) where
  unfoldable pub place_requirement :
      (String × Value Number) → Dict (Value Number) → Dict (Value Number)
  place_requirement x [] = x ∷ []
  place_requirement x (y ∷ ys) =
      let rest = place_requirement x ys in if python.text_less y.0 x.0 then y ∷ rest else x ∷ y ∷ ys

  -- `sorted(policy["required"].items())`
  unfoldable pub by_key : Dict (Value Number) → Dict (Value Number)
  unfolding place_requirement
  by_key [] = []
  by_key (x ∷ xs) = place_requirement x (by_key xs)

  abbrev pub check : String → Value Number → Value Number → CheckResult Number
  check key requirement fact = record {
    key = key;
    actual = fact;
    required = requirement;
    passed = (compare python fact requirement).0;
    expression = (compare python fact requirement).1;
  }

  abbrev add_check :
      String
      → Value Number
      → Option (Value Number)
      → List (CheckResult Number)
      → List (CheckResult Number)
  add_check key requirement none rest = rest
  add_check key requirement (some fact) rest = check key requirement fact ∷ rest

  -- `results` of the loop.
  unfoldable pub checks_of : Dict (Value Number) → Dict (Value Number) → List (CheckResult Number)
  checks_of [] facts = []
  checks_of ((key, requirement) ∷ rest) facts =
      add_check key requirement (lookup key facts) (checks_of rest facts)

  abbrev add_missing :
      String
      → Value Number
      → Option (Value Number)
      → List (CheckResult Number)
      → List (CheckResult Number)
  add_missing key requirement none rest =
      record {
        key = key;
        actual = null;
        required = requirement;
        passed = false;
        expression = "missing";
      }
      ∷ rest
  add_missing key requirement (some fact) rest = rest

  -- The checks of the keys of `missing`.
  unfoldable pub missing_of : Dict (Value Number) → Dict (Value Number) → List (CheckResult Number)
  missing_of [] facts = []
  missing_of ((key, requirement) ∷ rest) facts =
      add_missing key requirement (lookup key facts) (missing_of rest facts)

  abbrev bad_refs : Error
  bad_refs = value_error "evidence_refs must be unique non-empty strings"

  abbrev checked_refs : List String → Result (List String)
  checked_refs refs = do
    reject_if (any python.is_blank refs || not (is_unique refs)) bad_refs
    ok refs

  abbrev pub cited_refs : Option (Value Number) → Result (List String)
  cited_refs none = ok []
  cited_refs (some (texts refs)) = checked_refs refs
  cited_refs (some _) = err bad_refs

  abbrev pub status_of :
      List (CheckResult Number) → List String → List (CheckResult Number) → GateStatus
  status_of missing refs results =
      if not (is_empty missing) || is_empty refs
      then blocked
      else if all (λ (c : CheckResult Number). c.passed) results
      then pass
      else fail

  abbrev pub granted : GateStatus → List String → List String
  granted pass authority = authority
  granted _ authority = []

  abbrev no_evidence : List String → List (CheckResult Number)
  no_evidence [] =
      record {
        key = "evidence_refs";
        actual = texts [];
        required = text "non-empty";
        passed = false;
        expression = "missing evidence references";
      }
      ∷ []
  no_evidence (ref ∷ refs) = []

  -- `validated` is the outcome of the schema checks of policy and facts and of the canonical JSON
  -- of the facts, `input_digest` and `digest` are the digests of the input and of a receipt.
  unfoldable pub evaluate_gate :
      (Policy Number → Dict (Value Number) → Result (Unit {0}))
      → (Policy Number → Dict (Value Number) → String)
      → (ReceiptBody Number → String)
      → Policy Number
      → Dict (Value Number)
      → String
      → Result (EvaluationReceipt Number)
  evaluate_gate validated input_digest digest policy facts evaluated_at = do
    validated policy facts
    refs ← cited_refs (lookup "evidence_refs" facts)
    guard
        ((policy.evaluator_id == "trace-gate.reference-evaluator")
          && (policy.evaluator_version == "1.1.1"))
        (value_error "policy evaluator id/version does not match this executable")
    let required : Dict (Value Number) = by_key policy.required
    let results : List (CheckResult Number) = checks_of required facts
    let missing : List (CheckResult Number) = missing_of required facts
    let status : GateStatus = status_of missing refs results
    let body : ReceiptBody Number = record {
      gate_id = policy.gate_id;
      evaluated_at = evaluated_at;
      status = status;
      input_digest = input_digest policy facts;
      checks = results ++ missing ++ no_evidence refs;
      evidence_refs = refs;
      newly_allowed_authority = granted status policy.newly_allowed_authority;
      still_forbidden = policy.still_forbidden;
    }
    ok (record { body = body; receipt_digest = digest body })
