-- ===== src/Documents.antt =====
-- validation.py: the access intent and the read profile, and what `validate_value` checks of them.
-- The messages of the JSON Schema validator are an argument. The records have the fields that the
-- schema requires; a field that it leaves open is optional here.
use trace_gate_framework.Prelude.{
  ℕ, String, Bool, true, false, not, ◌&&◌, ◌||◌, Option, none, some, List, [], ◌∷◌, ◌++◌, ◌==◌,
  string_Eq, if◌then◌else◌, ltb, contains, subset, is_empty, length, concat, Result, ok, err,
  value_error, key_error,
}

-- A JSON value where the code expects a list of texts.
pub data Strings : Type 0 where
  strings : List String → Strings
  not_strings : Strings

-- A JSON value where the code expects a positive integer.
pub data Count : Type 0 where
  count : ℕ → Count
  not_count : Count

pub record Retrieval : Type 0 where
  pub mode : String
  pub embedding_group_ids : List String
  pub query_digest : Option String

pub record Constraints : Type 0 where
  pub maximum_sensitivity : String
  pub freshness_requirement : String
  pub context_budget_bytes : ℕ
  pub raw_access_requested : Bool
  pub full_history_requested : Option Bool

-- `targets`; `bounded_in_time` tells whether some bound of the time range is given.
pub record Targets : Type 0 where
  pub artifact_ids : Option Strings
  pub ledger_ids : Option (List String)
  pub bounded_in_time : Bool

pub record AccessIntent : Type 0 where
  pub purpose_class : String
  pub operation : String
  pub targets : Targets
  pub retrieval : Option Retrieval
  pub constraints : Constraints

pub record AppliesTo : Type 0 where
  pub purpose_classes : Option (List String)
  pub operations : Option (List String)
  pub artifact_types : Option (List String)

pub record Selection : Type 0 where
  pub default_tiers : List String
  pub full_history_allowed : Bool
  pub raw_access_allowed : Bool
  pub field_allowlist : Option (List String)
  pub field_denylist : Option (List String)

pub record Limits : Type 0 where
  pub maximum_sensitivity : String
  pub max_context_bytes : Count
  pub max_records : Count
  pub max_age_seconds : Count

pub record SemanticPolicy : Type 0 where
  pub mode : String
  pub allowed_group_ids : List String
  pub max_candidates : ℕ
  -- in units of 2⁻¹⁰⁷⁴, which every non-negative finite double is a multiple of
  pub minimum_score : ℕ
  pub allow_cross_group : Option Bool
  pub exact_fallback : Option Bool

pub record ReadProfile : Type 0 where
  pub profile_id : String
  pub status : String
  pub applies_to : AppliesTo
  pub selection : Selection
  pub semantic_retrieval : Option SemanticPolicy
  pub limits : Limits

-- `d.get(k, [])`
abbrev pub listed {ℓ} : {A : Type ℓ} → Option (List A) → List A
listed none = []
listed (some xs) = xs

-- The truth value of `d.get(k)`.
abbrev pub is_set : Option Bool → Bool
is_set none = false
is_set (some b) = b

abbrev is_text : Option String → Bool
is_text none = false
is_text (some text) = not (text == "")

-- `errors.append(message)` under a test.
abbrev pub complain : Bool → String → List String
complain true message = message ∷ []
complain false message = []

abbrev exact_retrieval : Retrieval
exact_retrieval = record { mode = "exact"; embedding_group_ids = []; query_digest = none }

abbrev pub retrieval_of : AccessIntent → Retrieval
retrieval_of intent = elim intent.retrieval [ none ↦ exact_retrieval | some r ↦ r ]

-- `semantic_errors("document-access-intent.yaml", intent)`
unfoldable pub intent_errors : AccessIntent → List String
intent_errors intent =
    let r : Retrieval = retrieval_of intent in
    let searches : Bool = (r.mode == "semantic") || (r.mode == "hybrid") in
    complain
      (intent.constraints.raw_access_requested
        && not (contains intent.purpose_class ("incident_response" ∷ "audit_reconstruction" ∷ [])))
      "raw access requires incident_response or audit_reconstruction"
    ++ complain
        (is_set intent.constraints.full_history_requested
          && not (intent.purpose_class == "audit_reconstruction"))
        "full history requires audit_reconstruction"
    ++ complain ((r.mode == "exact") && not (is_empty r.embedding_group_ids))
        "exact retrieval cannot request embedding groups"
    ++ complain (searches && is_empty r.embedding_group_ids)
        "semantic or hybrid retrieval requires embedding groups"
    ++ complain (searches && not (is_text r.query_digest))
        "semantic or hybrid retrieval requires a query digest"

-- The mode, the allowed groups and `allow_cross_group` of a profile.
abbrev pub semantic_mode : ReadProfile → String
semantic_mode profile = elim profile.semantic_retrieval [ none ↦ "disabled" | some p ↦ p.mode ]

abbrev semantic_groups : ReadProfile → List String
semantic_groups profile = elim profile.semantic_retrieval [
  | none ↦ []
  | some p ↦ p.allowed_group_ids
]

abbrev semantic_crosses : ReadProfile → Bool
semantic_crosses profile = elim profile.semantic_retrieval [
  | none ↦ false
  | some p ↦ is_set p.allow_cross_group
]

-- `semantic_errors("document-read-profile.yaml", profile)`
unfoldable pub profile_errors : ReadProfile → List String
profile_errors profile =
    let groups : List String = semantic_groups profile in
    let disabled : Bool = semantic_mode profile == "disabled" in
    complain
      (profile.selection.raw_access_allowed
        && not (
            subset (listed profile.applies_to.purpose_classes)
              ("incident_response" ∷ "audit_reconstruction" ∷ [])))
      "raw-enabled profiles may only serve incident or audit purposes"
    ++ complain (disabled && not (is_empty groups))
        "disabled semantic retrieval cannot allow embedding groups"
    ++ complain (not disabled && is_empty groups)
        "enabled semantic retrieval requires allowed embedding groups"
    ++ complain (semantic_crosses profile && ltb (length groups) 2)
        "cross-group retrieval requires at least two allowed groups"

unfoldable pub join : String → List String → String
join separator [] = ""
join separator (x ∷ []) = x
join separator (x ∷ y ∷ xs) = concat x (concat separator (join separator (y ∷ xs)))

-- The end of `validate_value`.
unfoldable pub raise_messages : String → List String → Result (Unit {0})
unfolding join
raise_messages name [] = ok tt
raise_messages name (m ∷ ms) = err (value_error (concat name (concat ": " (join "; " (m ∷ ms)))))

unfoldable pub validate_intent : (AccessIntent → List String) → AccessIntent → Result (Unit {0})
unfolding raise_messages intent_errors
validate_intent schema_messages intent =
    raise_messages "document-access-intent.yaml" (schema_messages intent ++ intent_errors intent)

unfoldable pub validate_profile : (ReadProfile → List String) → ReadProfile → Result (Unit {0})
unfolding raise_messages profile_errors
validate_profile schema_messages profile =
    raise_messages "document-read-profile.yaml" (schema_messages profile ++ profile_errors profile)

-- `SENSITIVITY[level]`
unfoldable pub sensitivity : String → Result ℕ
sensitivity level =
    if level == "public"
    then ok 0
    else if level == "internal"
    then ok 1
    else if level == "confidential"
    then ok 2
    else if level == "restricted"
    then ok 3
    else err key_error
