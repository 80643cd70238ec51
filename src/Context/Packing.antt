-- ===== src/Context/Packing.antt =====
-- context.py: `select_context` around its loop, and `assemble_prompt`.
use trace_gate_framework.Prelude.{
  ℕ, String, Bool, not, ◌&&◌, ◌||◌, Option, none, some, List, [], ◌∷◌, ◌==◌, string_Eq,
  if◌then◌else◌, ltb, leb, contains, is_empty, concat, Result, ok, err, Error, value_error,
  permission_error, guard, reject_if, ◌>>=◌, ◌>>◌,
}
use trace_gate_framework.Documents.{
  Strings, strings, not_strings, Count, count, not_count, AccessIntent, ReadProfile, listed, is_set,
  validate_intent, validate_profile, sensitivity,
}
use trace_gate_framework.Context.{
  Time, aware, naive, Artifact, Item, PackBody, ContextPack, Platform, Request, Progress,
  select_all,
}

abbrev pub min : ℕ → ℕ → ℕ
min a b = if leb a b then a else b

-- `_digest` of the body of a pack.
unfoldable pub digest_body : Platform → PackBody → String
digest_body platform body = concat "sha256:" (platform.sha256 (platform.dumps body))

abbrev no_targets : Error
no_targets = permission_error "resolve explicit artifact targets before context selection"

abbrev explicit_texts : List String → Result (List String)
explicit_texts texts = do reject_if (is_empty texts || contains "" texts) no_targets; ok texts

abbrev pub explicit_ids : Option Strings → Result (List String)
explicit_ids none = err no_targets
explicit_ids (some not_strings) = err no_targets
explicit_ids (some (strings texts)) = explicit_texts texts

abbrev pub zoned : Time → Result ℕ
zoned naive = err (value_error "context evaluation time requires timezone")
zoned (aware now) = ok now

abbrev positive : String → ℕ → Result ℕ
positive key n = do guard (ltb 0 n) (value_error (concat "invalid profile limit: " key)); ok n

abbrev pub limit : String → Count → Result ℕ
limit key not_count = err (value_error (concat "invalid profile limit: " key))
limit key (count n) = positive key n

-- `evaluated_at or datetime.now(UTC)`
abbrev pub evaluation_time : Option Time → Time → Time
evaluation_time none clock = clock
evaluation_time (some t) clock = t

abbrev pub nothing_selected : Progress
nothing_selected = record { selected = []; excluded = []; used = 0 }

abbrev pub pack_body : ReadProfile → Progress → PackBody
pack_body profile s = record {
  decision = if is_empty s.selected then "blocked" else "allow";
  profile_id = profile.profile_id;
  items = s.selected;
  excluded = s.excluded;
  bytes_used = s.used;
}

module _ (platform : Platform) (schema_messages_intent : AccessIntent → List String)
    (schema_messages_profile : ReadProfile → List String) (clock : Time) where
  -- The checks of `select_context` before its loop.
  unfoldable pub request_of : AccessIntent → ReadProfile → Option Time → Result Request
  unfolding validate_intent validate_profile
  request_of intent profile evaluated_at = do
    validate_intent schema_messages_intent intent
    validate_profile schema_messages_profile profile
    guard (profile.status == "active") (permission_error "read profile is not active")
    allowed_ids ← explicit_ids intent.targets.artifact_ids
    reject_if (not (is_empty (listed intent.targets.ledger_ids)) || intent.targets.bounded_in_time)
        (permission_error "ledger/time-range selection requires a separate resolver")
    guard (intent.constraints.freshness_requirement == "current")
        (permission_error "historical selection requires a separate resolver")
    now ← zoned (evaluation_time evaluated_at clock)
    max_context_bytes ← limit "max_context_bytes" profile.limits.max_context_bytes
    max_records ← limit "max_records" profile.limits.max_records
    max_age_seconds ← limit "max_age_seconds" profile.limits.max_age_seconds
    guard (contains intent.purpose_class (listed profile.applies_to.purpose_classes))
        (permission_error "read profile does not authorize the declared purpose")
    guard (contains intent.operation (listed profile.applies_to.operations))
        (permission_error "read profile does not authorize the operation")
    intent_level ← sensitivity intent.constraints.maximum_sensitivity
    profile_level ← sensitivity profile.limits.maximum_sensitivity
    ok (record {
      now = now;
      allowed_ids = allowed_ids;
      artifact_types = profile.applies_to.artifact_types;
      max_records = max_records;
      max_age_seconds = max_age_seconds;
      budget = min intent.constraints.context_budget_bytes max_context_bytes;
      max_sensitivity = min intent_level profile_level;
      allowed_tiers = profile.selection.default_tiers;
      raw_allowed = profile.selection.raw_access_allowed && intent.constraints.raw_access_requested;
      history_allowed =
          profile.selection.full_history_allowed
          && is_set intent.constraints.full_history_requested;
      field_denylist = listed profile.selection.field_denylist;
      field_allowlist = listed profile.selection.field_allowlist;
    })

  unfoldable pub select_context :
      AccessIntent → ReadProfile → List Artifact → Option Time → Result ContextPack
  select_context intent profile artifacts evaluated_at = do
    request ← request_of intent profile evaluated_at
    s ← select_all platform request artifacts nothing_selected
    ok (record { body = pack_body profile s; digest = digest_body platform (pack_body profile s) })

pub data Message : Type 0 where
  system user : String → Message
  -- `trace_context`, `context_pack_digest`, `allowed_tool_ids`
  context : List Item → String → List String → Message

pub record PromptBody : Type 0 where
  pub messages : List Message
  pub context_pack_digest : String
  pub tool_ids : List String

pub record PromptEnvelope : Type 0 where
  pub body : PromptBody
  pub digest : String

unfoldable pub place : (String → String → Bool) → String → List String → List String
place before x [] = x ∷ []
place before x (y ∷ ys) =
    let rest = place before x ys in if before x y then x ∷ y ∷ ys else y ∷ rest

-- `sorted(xs)`, where `before` is the order of texts.
unfoldable pub sorted : (String → String → Bool) → List String → List String
unfolding place
sorted before [] = []
sorted before (x ∷ xs) = place before x (sorted before xs)

module _ (platform : Platform) (digest_prompt : PromptBody → String)
    (before : String → String → Bool) where
  abbrev pub prompt_body : String → String → ContextPack → List String → PromptBody
  prompt_body system_instruction request_text pack tool_ids = record {
    messages =
        system system_instruction
        ∷ context pack.items pack.digest (sorted before tool_ids)
        ∷ user request_text
        ∷ [];
    context_pack_digest = pack.digest;
    tool_ids = sorted before tool_ids;
  }

  unfoldable pub assemble_prompt :
      String → String → ContextPack → List String → Result PromptEnvelope
  unfolding digest_body
  assemble_prompt system_instruction request_text pack tool_ids = do
    guard (pack.decision == "allow")
        (permission_error "a blocked context pack cannot be assembled into a prompt")
    guard (pack.digest == digest_body platform pack.body)
        (value_error "context pack changed after selection")
    let body : PromptBody = prompt_body system_instruction request_text pack tool_ids
    ok (record { body = body; digest = digest_prompt body })
