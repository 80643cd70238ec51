-- ===== src/Context/Examples.antt =====
-- context.py at concrete inputs. The digest of a text is the text itself here, and the JSON text of
-- a pack is its decision.
use trace_gate_framework.Prelude.{
  String, string_Eq, nat_Eq, option_Eq, ◌≡◌, ◌≢◌, ◌⊎◌, refl, Bool, true, false, none, some, List,
  [], ◌∷◌, arith, ok, All, any, contains, subset, concat,
}
use trace_gate_framework.Prelude.Dict.{lookup, has_key}
use trace_gate_framework.Documents.{
  strings, count, AccessIntent, ReadProfile, validate_intent, validate_profile, intent_errors,
  profile_errors, raise_messages, sensitivity,
}
use trace_gate_framework.Context.{
  aware, text, context_budget_exceeded, outside_requested_targets, Artifact, ContextPack, Platform,
  Request, find_tier, tier_denied, early_exclusion, judge_content, judge_tier, judge, apply_verdict,
  select_all,
}
use trace_gate_framework.Context.Packing.{
  request_of, select_context, digest_body, PromptBody, PromptEnvelope, prompt_body, assemble_prompt,
  sorted, system, context, user, evaluation_time,
}
use trace_gate_framework.Context.Soundness.{IsDisclosable, Authorizes, select_context_sound}
use trace_gate_framework.Context.Prompts.{selected_pack_assembles, assembled_digest_binds}
use trace_gate_framework.Context.Budget.{KeepsLimits, pack_within_limits}

abbrev platform : Platform
platform = record {
  sha256 = λ t. t;
  encoded_size = λ t. 5;
  fromisoformat = λ t. some (aware 1000000);
  is_digest = λ t. true;
  dumps = λ b. b.decision;
}

abbrev no_messages {ℓ} : {A : Type ℓ} → A → List String
no_messages a = []

abbrev intent : AccessIntent
intent = record {
  purpose_class = "lookup";
  operation = "read";
  targets = record {
    artifact_ids = some (strings ("a1" ∷ "a2" ∷ []));
    ledger_ids = none;
    bounded_in_time = false;
  };
  retrieval = none;
  constraints = record {
    maximum_sensitivity = "internal";
    freshness_requirement = "current";
    context_budget_bytes = 8;
    raw_access_requested = false;
    full_history_requested = none;
  };
}

abbrev profile : ReadProfile
profile = record {
  profile_id = "p";
  status = "active";
  applies_to = record {
    purpose_classes = some ("lookup" ∷ []);
    operations = some ("read" ∷ []);
    artifact_types = none;
  };
  selection = record {
    default_tiers = "raw" ∷ "summary" ∷ [];
    full_history_allowed = false;
    raw_access_allowed = false;
    field_allowlist = none;
    field_denylist = none;
  };
  semantic_retrieval = none;
  limits = record {
    maximum_sensitivity = "confidential";
    max_context_bytes = count 10;
    max_records = count 3;
    max_age_seconds = count 60;
  };
}

abbrev artifact : String → Artifact
artifact id = record {
  artifact_id = id;
  revision_id = some "r1";
  artifact_type = none;
  validation_status = some "pass";
  freshness_status = some "current";
  validated_at = some "1970-01-01T00:00:01Z";
  sensitivity_level = some "public";
  tiers = some (("summary", text "hello") ∷ []);
  tier_fields = some (("summary", strings ("title" ∷ [])) ∷ []);
  tier_digests = some (("summary", "sha256:hello") ∷ []);
  source_digest = some "sha256:source";
}

-- The first is selected, the second is over the budget and the third was not asked for.
abbrev artifacts : List Artifact
artifacts = artifact "a1" ∷ artifact "a2" ∷ artifact "a3" ∷ []

abbrev pack : ContextPack
pack = record {
  body = record {
    decision = "allow";
    profile_id = "p";
    items =
        record {
          artifact_id = "a1";
          revision_id = "r1";
          tier = "summary";
          content = "hello";
          source_digest = "sha256:source";
        }
        ∷ [];
    excluded =
        record { artifact_id = "a2"; reason = context_budget_exceeded }
        ∷ record { artifact_id = "a3"; reason = outside_requested_targets }
        ∷ [];
    bytes_used = 5;
  };
  digest = "sha256:allow";
}

selects :
    select_context platform no_messages no_messages (aware 2000000) intent profile artifacts none
    ≡ ok pack
unfolding select_context request_of validate_intent validate_profile intent_errors profile_errors
    raise_messages sensitivity select_all judge early_exclusion judge_tier judge_content find_tier
    tier_denied apply_verdict contains any subset lookup has_key digest_body
selects = refl

select_context_sound_example :
    (r : Request) × Authorizes intent profile (evaluation_time none (aware 2000000)) r
    × All (IsDisclosable platform r artifacts) pack.items
select_context_sound_example =
    select_context_sound platform no_messages no_messages (aware 2000000) intent profile artifacts
      none pack selects

pack_within_limits_example :
    (r : Request) × Authorizes intent profile (evaluation_time none (aware 2000000)) r
    × KeepsLimits platform r artifacts pack.body
pack_within_limits_example =
    pack_within_limits platform no_messages no_messages (aware 2000000) intent profile artifacts
      none pack selects

abbrev digest_prompt : PromptBody → String
digest_prompt body = body.context_pack_digest

abbrev before : String → String → Bool
before a b = true

abbrev tool_ids : List String
tool_ids = "search" ∷ []

abbrev prompt : PromptEnvelope
prompt = record {
  body = record {
    messages =
        system "be brief"
        ∷ context pack.items pack.digest (sorted before tool_ids)
        ∷ user "hi"
        ∷ [];
    context_pack_digest = pack.digest;
    tool_ids = sorted before tool_ids;
  };
  digest = digest_prompt (prompt_body platform digest_prompt before "be brief" "hi" pack tool_ids);
}

assembles : assemble_prompt platform digest_prompt before "be brief" "hi" pack tool_ids ≡ ok prompt
unfolding assemble_prompt digest_body
assembles = refl

selected_pack_assembles_example :
    assemble_prompt platform digest_prompt before "be brief" "hi" pack tool_ids ≡ ok prompt
selected_pack_assembles_example =
    selected_pack_assembles platform no_messages no_messages (aware 2000000) intent profile
      artifacts none pack digest_prompt before "be brief" "hi" tool_ids selects (ground arith)

assembled_digest_binds_example :
    (platform.dumps pack.body ≡ platform.dumps pack.body)
    ⊎ ((platform.dumps pack.body ≢ platform.dumps pack.body)
        × (concat "sha256:" (platform.sha256 (platform.dumps pack.body))
            ≡ concat "sha256:" (platform.sha256 (platform.dumps pack.body))))
assembled_digest_binds_example =
    assembled_digest_binds platform digest_prompt before "be brief" "hi" tool_ids pack pack prompt
      prompt assembles assembles refl
