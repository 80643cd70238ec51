-- ===== src/Context.antt =====
-- src/trace_gate/context.py: `select_context` and `assemble_prompt`. The clock is an argument; the hash,
-- the parser of time stamps, the pattern of a digest, the canonical JSON text and the order of
-- texts are the fields of `Platform`. Times are microseconds.
pub mod Packing
pub mod Loop
pub mod Soundness
pub mod Budget
pub mod Prompts
mod Examples
use trace_gate_framework.Prelude.{
  ℕ, ◌+◌, ◌*◌, String, ◌≡◌, Bool, true, false, not, ◌&&◌, ◌||◌, Option, none, some, List, [], ◌∷◌,
  ◌++◌, map, Eq, ◌==◌, string_Eq, option_Eq, if◌then◌else◌, ltb, leb, any, contains, subset,
  is_empty, length, concat, Result, ok, err, value_error, permission_error, key_error, guard,
  reject_if, subscript, ◌>>=◌, ◌>>◌,
}
use trace_gate_framework.Prelude.Dict.{Dict, lookup, has_key}
use trace_gate_framework.Documents.{
  Strings, strings, not_strings, Count, count, not_count, Targets, AccessIntent, ReadProfile,
  listed, is_set, validate_intent, validate_profile, sensitivity,
}

-- A time stamp, with or without a time zone.
pub data Time : Type 0 where
  aware : ℕ → Time
  naive : Time

pub data Content : Type 0 where
  text : String → Content
  not_text : Content

pub record Artifact : Type 0 where
  pub artifact_id : String
  pub revision_id : Option String
  pub artifact_type : Option String
  pub validation_status : Option String
  pub freshness_status : Option String
  pub validated_at : Option String
  pub sensitivity_level : Option String
  pub tiers : Option (Dict Content)
  pub tier_fields : Option (Dict Strings)
  pub tier_digests : Option (Dict String)
  pub source_digest : Option String

pub record Item : Type 0 where
  pub artifact_id : String
  pub revision_id : String
  pub tier : String
  pub content : String
  pub source_digest : String

pub data Reason : Type 0 where
  outside_requested_targets duplicate_artifact record_limit_exceeded artifact_type_not_allowed :
      Reason
  validation_not_passed not_current validation_expired_or_missing sensitivity_exceeded : Reason
  no_allowed_tier tier_not_authorized field_policy_unverified_or_denied : Reason
  content_integrity_mismatch context_budget_exceeded : Reason

pub record Exclusion : Type 0 where
  pub artifact_id : String
  pub reason : Reason

pub record PackBody : Type 0 where
  pub decision : String
  pub profile_id : String
  pub items : List Item
  pub excluded : List Exclusion
  pub bytes_used : ℕ

pub record ContextPack : Type 0 where
  pub body : PackBody
  pub open body use *
  pub digest : String

pub record Platform : Type 0 where
  pub sha256 : String → String
  pub encoded_size : String → ℕ
  -- `datetime.fromisoformat(text.replace("Z", "+00:00"))`
  pub fromisoformat : String → Option Time
  -- `re.fullmatch(r"sha256:[a-f0-9]{64}", text)`
  pub is_digest : String → Bool
  pub dumps : PackBody → String

-- What the loop of `select_context` reads, and the state that it changes.
pub record Request : Type 0 where
  pub now : ℕ
  pub allowed_ids : List String
  pub artifact_types : Option (List String)
  pub max_records : ℕ
  pub max_age_seconds : ℕ
  pub budget : ℕ
  pub max_sensitivity : ℕ
  pub allowed_tiers : List String
  pub raw_allowed : Bool
  pub history_allowed : Bool
  pub field_denylist : List String
  pub field_allowlist : List String

pub record Progress : Type 0 where
  pub selected : List Item
  pub excluded : List Exclusion
  pub used : ℕ

pub data Judgement : Type 0 where
  exclude : Reason → Judgement
  include : Item → ℕ → Judgement

abbrev pub item_ids : List Item → List String
item_ids items = map (λ (i : Item). i.artifact_id) items

abbrev pub or_text : String → Option String → String
or_text default none = default
or_text default (some t) = t

-- `0 <= age <= max_age_seconds` for a stamp with a time zone; another stamp is not fresh.
abbrev pub fresh_stamp : Request → Option Time → Bool
fresh_stamp r none = false
fresh_stamp r (some naive) = false
fresh_stamp r (some (aware stamp)) =
    leb stamp r.now && leb r.now (stamp + r.max_age_seconds * 1000000)

abbrev pub fresh : Platform → Request → Option String → Bool
fresh platform r none = false
fresh platform r (some stamp) = fresh_stamp r (platform.fromisoformat stamp)

-- `artifact["tiers"]` is read for a candidate only.
unfoldable pub find_tier : List String → Option (Dict Content) → Result (Option String)
find_tier [] tiers = ok none
find_tier (candidate ∷ candidates) none = err key_error
find_tier (candidate ∷ candidates) (some tiers) =
    let rest = find_tier candidates (some tiers) in
    if has_key candidate tiers then ok (some candidate) else rest

abbrev pub fields_of : Option (Dict Strings) → String → Option Strings
fields_of none tier = none
fields_of (some fields) tier = lookup tier fields

abbrev pub digest_of : Option (Dict String) → String → Option String
digest_of none tier = none
digest_of (some digests) tier = lookup tier digests

abbrev pub content_of : Option (Dict Content) → String → Option Content
content_of none tier = none
content_of (some tiers) tier = lookup tier tiers

abbrev pub fields_denied : Request → Option Strings → Bool
fields_denied r none = true
fields_denied r (some not_strings) = true
fields_denied r (some (strings fields)) =
    any (λ f. contains f (r.field_denylist ++ "secrets" ∷ "credentials" ∷ [])) fields
    || (not (is_empty r.field_allowlist) && not (subset fields r.field_allowlist))

unfoldable pub tier_denied : Request → String → Bool
tier_denied r tier =
    ((tier == "raw") && not r.raw_allowed) || ((tier == "full_records") && not r.history_allowed)

-- The tests that read no tier.
unfoldable pub early_exclusion : Platform → Request → Artifact → Progress → Option Reason
early_exclusion platform r a s =
    if not (contains a.artifact_id r.allowed_ids)
    then some outside_requested_targets
    else if contains a.artifact_id (item_ids s.selected)
    then some duplicate_artifact
    else if leb r.max_records (length s.selected)
    then some record_limit_exceeded
    else if not (is_empty (listed r.artifact_types))
        && not (contains a.artifact_type (map some (listed r.artifact_types)))
    then some artifact_type_not_allowed
    else if not (a.validation_status == some "pass")
    then some validation_not_passed
    else if not (a.freshness_status == some "current")
    then some not_current
    else if not (fresh platform r a.validated_at)
    then some validation_expired_or_missing
    else none

abbrev select_item : Artifact → String → String → ℕ → Result Judgement
select_item a tier content size = do
  revision_id ← subscript a.revision_id
  source_digest ← subscript a.source_digest
  ok (
      include
        (record {
          artifact_id = a.artifact_id;
          revision_id = revision_id;
          tier = tier;
          content = content;
          source_digest = source_digest;
        })
        size)

-- The integrity and the budget of the content of the chosen tier.
unfoldable pub judge_content :
    Platform → Request → Artifact → Progress → String → Content → Result Judgement
judge_content platform r a s tier not_text = ok (exclude content_integrity_mismatch)
judge_content platform r a s tier (text content) =
    if not (platform.is_digest (or_text "" a.source_digest))
      || not (digest_of a.tier_digests tier == some (concat "sha256:" (platform.sha256 content)))
    then ok (exclude content_integrity_mismatch)
    else if ltb r.budget (s.used + platform.encoded_size content)
    then ok (exclude context_budget_exceeded)
    else select_item a tier content (platform.encoded_size content)

unfoldable pub judge_tier :
    Platform → Request → Artifact → Progress → Option String → Result Judgement
judge_tier platform r a s none = ok (exclude no_allowed_tier)
judge_tier platform r a s (some tier) =
    if tier_denied r tier then ok (exclude tier_not_authorized) else do
      content ← subscript (content_of a.tiers tier)
      if fields_denied r (fields_of a.tier_fields tier)
          then ok (exclude field_policy_unverified_or_denied)
          else judge_content platform r a s tier content

abbrev judge_access : Platform → Request → Artifact → Progress → Option Reason → Result Judgement
judge_access platform r a s (some reason) = ok (exclude reason)
judge_access platform r a s none = do
  level ← sensitivity (or_text "restricted" a.sensitivity_level)
  if ltb r.max_sensitivity level
      then ok (exclude sensitivity_exceeded)
      else do tier ← find_tier r.allowed_tiers a.tiers; judge_tier platform r a s tier

-- One round of the loop.
unfoldable pub judge : Platform → Request → Artifact → Progress → Result Judgement
judge platform r a s = judge_access platform r a s (early_exclusion platform r a s)

unfoldable pub apply_verdict : Artifact → Progress → Judgement → Progress
apply_verdict a s (exclude reason) = record {
  selected = s.selected;
  excluded = s.excluded ++ record { artifact_id = a.artifact_id; reason = reason } ∷ [];
  used = s.used;
}
apply_verdict a s (include item size) = record {
  selected = s.selected ++ item ∷ [];
  excluded = s.excluded;
  used = s.used + size;
}

unfoldable pub select_all : Platform → Request → List Artifact → Progress → Result Progress
select_all platform r [] s = ok s
select_all platform r (a ∷ artifacts) s = do
  verdict ← judge platform r a s
  select_all platform r artifacts (apply_verdict a s verdict)
