-- ===== src/Context/Soundness.antt =====
-- context.py: what `select_context` selects, it may disclose.
use trace_gate_framework.Prelude.{
  ℕ, ◌≤◌, String, ◌≡◌, true, false, ◌&&◌, inl, inr, Option, none, some, List, [], ◌∷◌, arith,
  string_Eq, option_Eq, string_eq_iff, option_eq_iff, concat, contains, ok, Result-cases,
  Bool-cases, All, All-append, Among, All-Among,
}
use trace_gate_framework.Prelude.Dict.{Dict, has_key}
use trace_gate_framework.Documents.{
  AccessIntent, ReadProfile, Strings, strings, not_strings, not_count, Count, sensitivity, listed,
  is_set, count,
}
use trace_gate_framework.Context.{
  Content, text, Time, aware, naive, Artifact, Item, ContextPack, Platform, Request, Progress,
  or_text, fresh, find_tier, fields_of, digest_of, content_of, fields_denied, tier_denied,
  early_exclusion, apply_verdict, select_all,
}
use trace_gate_framework.Context.Loop.{Includes, select_all_induction}
use trace_gate_framework.Context.Packing.{
  min, explicit_ids, zoned, limit, evaluation_time, request_of, select_context, nothing_selected,
}

-- An item that a request may be given, out of one of the artifacts.
pub record IsDisclosable (platform : Platform) (r : Request) (artifacts : List Artifact)
    (item : Item) : Type 0 where
  pub artifact : Artifact
  pub offered : Among artifact artifacts
  pub identity : artifact.artifact_id ≡ item.artifact_id
  pub requested : contains item.artifact_id r.allowed_ids ≡ true
  pub validated : artifact.validation_status ≡ some "pass"
  pub current : artifact.freshness_status ≡ some "current"
  pub recent : fresh platform r artifact.validated_at ≡ true
  pub level : ℕ
  pub rated : sensitivity (or_text "restricted" artifact.sensitivity_level) ≡ ok level
  pub cleared : level ≤ r.max_sensitivity
  pub tier_listed : contains item.tier r.allowed_tiers ≡ true
  pub tier_permitted : tier_denied r item.tier ≡ false
  pub fields_permitted : fields_denied r (fields_of artifact.tier_fields item.tier) ≡ false
  pub stored : content_of artifact.tiers item.tier ≡ some (text item.content)
  pub intact :
      digest_of artifact.tier_digests item.tier
      ≡ some (concat "sha256:" (platform.sha256 item.content))
  pub sourced : artifact.source_digest ≡ some item.source_digest

find_tier-contains :
    (candidates : List String) (tiers : Option (Dict Content)) (tier : String)
    → find_tier candidates tiers ≡ ok (some tier)
    → contains tier candidates ≡ true
unfolding find_tier contains
find_tier-contains [] tiers tier h = absurd (ground arith)
find_tier-contains (c ∷ cs) none tier h = absurd (ground arith)
find_tier-contains (c ∷ cs) (some tiers) tier h = elim (Bool-cases (has_key c tiers)) [
  | inl y ↦ ground (arith, string_eq_iff c tier)
  | inr n ↦ ground (arith, find_tier-contains cs (some tiers) tier)
]

early_parts :
    (platform : Platform) (r : Request) (a : Artifact) (s : Progress)
    → early_exclusion platform r a s ≡ none
    → (contains a.artifact_id r.allowed_ids ≡ true)
      × (a.validation_status ≡ some "pass")
      × (a.freshness_status ≡ some "current")
      × (fresh platform r a.validated_at ≡ true)
unfolding early_exclusion
early_parts platform r a s h = (
  ground arith,
  (option_eq_iff a.validation_status (some "pass")).0 (ground arith),
  (option_eq_iff a.freshness_status (some "current")).0 (ground arith),
  ground arith,
)

Includes-IsDisclosable :
    (platform : Platform) (r : Request) (artifacts : List Artifact) (a : Artifact) (s : Progress)
    (item : Item) (size : ℕ)
    → Includes platform r a s item size
    → Among a artifacts
    → IsDisclosable platform r artifacts item
Includes-IsDisclosable platform r artifacts a s item size t m =
    let (requested, validated, current, recent) = early_parts platform r a s t.early in
    record {
      artifact = a;
      offered = m;
      identity = t.holds.identity;
      requested = rw (← t.holds.identity) requested;
      validated = validated;
      current = current;
      recent = recent;
      level = t.level;
      rated = t.rated;
      cleared = t.allowed;
      tier_listed = find_tier-contains r.allowed_tiers a.tiers item.tier t.found;
      tier_permitted = t.permitted;
      fields_permitted = t.fields;
      stored = t.stored;
      intact = t.holds.intact;
      sourced = t.holds.source;
    }

select_all-IsDisclosable :
    (platform : Platform) (r : Request) (artifacts : List Artifact) (s : Progress)
    → select_all platform r artifacts nothing_selected ≡ ok s
    → All (IsDisclosable platform r artifacts) s.selected
unfolding apply_verdict
select_all-IsDisclosable platform r artifacts s h =
    select_all_induction platform r (λ a. Among a artifacts)
      (λ t. All (IsDisclosable platform r artifacts) t.selected) (λ a t reason p. p)
      (λ a t item size x m p.
        All-append (IsDisclosable platform r artifacts) t.selected (item ∷ []) p
          (Includes-IsDisclosable platform r artifacts a t item size x m, tt))
      artifacts nothing_selected s h (All-Among artifacts artifacts (λ x m. m)) tt

-- What a request has checked of the intent and the profile that it stands for.
pub record Authorizes (intent : AccessIntent) (profile : ReadProfile) (evaluated : Time)
    (r : Request) : Type 0 where
  pub time : evaluated ≡ aware r.now
  pub age : profile.limits.max_age_seconds ≡ count r.max_age_seconds
  pub active : profile.status ≡ "active"
  pub purpose : contains intent.purpose_class (listed profile.applies_to.purpose_classes) ≡ true
  pub operation : contains intent.operation (listed profile.applies_to.operations) ≡ true
  pub targets : intent.targets.artifact_ids ≡ some (strings r.allowed_ids)
  pub intent_level : ℕ
  pub intent_rated : sensitivity intent.constraints.maximum_sensitivity ≡ ok intent_level
  pub profile_level : ℕ
  pub profile_rated : sensitivity profile.limits.maximum_sensitivity ≡ ok profile_level
  pub within_intent : r.max_sensitivity ≤ intent_level
  pub within_profile : r.max_sensitivity ≤ profile_level
  pub tiers : r.allowed_tiers ≡ profile.selection.default_tiers
  pub raw :
      r.raw_allowed
      ≡ (profile.selection.raw_access_allowed && intent.constraints.raw_access_requested)
  pub history :
      r.history_allowed
      ≡ (profile.selection.full_history_allowed && is_set intent.constraints.full_history_requested)
  pub denylist : r.field_denylist ≡ listed profile.selection.field_denylist
  pub allowlist : r.field_allowlist ≡ listed profile.selection.field_allowlist
  pub records : profile.limits.max_records ≡ count r.max_records
  pub profile_bytes : ℕ
  pub profile_limit : profile.limits.max_context_bytes ≡ count profile_bytes
  pub budget_profile : r.budget ≤ profile_bytes
  pub budget_intent : r.budget ≤ intent.constraints.context_budget_bytes

min_left : (a b : ℕ) → min a b ≤ a
min_left a b = ground arith

min_right : (a b : ℕ) → min a b ≤ b
min_right a b = ground arith

limit_count : (key : String) (c : Count) (n : ℕ) → limit key c ≡ ok n → c ≡ count n
limit_count key not_count n h = absurd (ground arith)
limit_count key (count m) n h = ground arith

zoned-aware : (t : Time) (n : ℕ) → zoned t ≡ ok n → t ≡ aware n
zoned-aware naive n h = absurd (ground arith)
zoned-aware (aware m) n h = ground arith

explicit_targets :
    (found : Option Strings) (xs : List String)
    → explicit_ids found ≡ ok xs
    → found ≡ some (strings xs)
explicit_targets none xs h = absurd (ground arith)
explicit_targets (some not_strings) xs h = absurd (ground arith)
explicit_targets (some (strings ys)) xs h = ground arith

module _ (platform : Platform) (schema_messages_intent : AccessIntent → List String)
    (schema_messages_profile : ReadProfile → List String) (clock : Time) where
  -- What the checks before the loop establish.
  pub request_of-Authorizes :
      (intent : AccessIntent) (profile : ReadProfile) (evaluated_at : Option Time) (r : Request)
      → request_of platform schema_messages_intent schema_messages_profile clock intent profile
          evaluated_at
        ≡ ok r
      → Authorizes intent profile (evaluation_time evaluated_at clock) r
  unfolding request_of
  request_of-Authorizes intent profile evaluated_at r h =
      elim (Result-cases (limit "max_context_bytes" profile.limits.max_context_bytes)) [
        | inl (e, y) ↦ absurd (ground arith)
        | inr (bytes, b) ↦
            elim (Result-cases (sensitivity intent.constraints.maximum_sensitivity)) [
              | inl (e, y) ↦ absurd (ground arith)
              | inr (l, i) ↦ elim (Result-cases (sensitivity profile.limits.maximum_sensitivity)) [
                | inl (e, y) ↦ absurd (ground arith)
                | inr (m, p) ↦
                    let budget : r.budget ≡ min intent.constraints.context_budget_bytes bytes =
                      ground arith in
                    let level : r.max_sensitivity ≡ min l m = ground arith in
                    record {
                      time = zoned-aware (evaluation_time evaluated_at clock) r.now (ground arith);
                      age =
                          limit_count "max_age_seconds" profile.limits.max_age_seconds
                            r.max_age_seconds (ground arith);
                      active = ground (arith, string_eq_iff profile.status "active");
                      purpose = ground arith;
                      operation = ground arith;
                      targets =
                          explicit_targets intent.targets.artifact_ids r.allowed_ids (ground arith);
                      intent_level = l;
                      intent_rated = i;
                      profile_level = m;
                      profile_rated = p;
                      within_intent = rw level (min_left l m);
                      within_profile = rw level (min_right l m);
                      tiers = ground arith;
                      raw = ground arith;
                      history = ground arith;
                      denylist = ground arith;
                      allowlist = ground arith;
                      records =
                          limit_count "max_records" profile.limits.max_records r.max_records
                            (ground arith);
                      profile_bytes = bytes;
                      profile_limit =
                          limit_count "max_context_bytes" profile.limits.max_context_bytes bytes b;
                      budget_profile =
                          rw budget (min_right intent.constraints.context_budget_bytes bytes);
                      budget_intent =
                          rw budget (min_left intent.constraints.context_budget_bytes bytes);
                    }
              ]
            ]
      ]

  -- A pack that is returned was asked for by an intent and a profile that authorize the request,
  -- and every item of it comes from an artifact that the request may be given.
  pub select_context_sound :
      (intent : AccessIntent) (profile : ReadProfile) (artifacts : List Artifact)
      (evaluated_at : Option Time) (pack : ContextPack)
      → select_context platform schema_messages_intent schema_messages_profile clock intent profile
          artifacts evaluated_at
        ≡ ok pack
      → (r : Request) × Authorizes intent profile (evaluation_time evaluated_at clock) r
        × All (IsDisclosable platform r artifacts) pack.items
  unfolding select_context
  select_context_sound intent profile artifacts evaluated_at pack h =
      elim (Result-cases (
        request_of platform schema_messages_intent schema_messages_profile clock intent profile
          evaluated_at)) [
            | inl (e, y) ↦ absurd (ground arith)
            | inr (r, y) ↦ elim (Result-cases (select_all platform r artifacts nothing_selected)) [
              | inl (e, z) ↦ absurd (ground arith)
              | inr (s, z) ↦
                  let items : s.selected ≡ pack.items = ground arith in
                  (
                    r,
                    request_of-Authorizes intent profile evaluated_at r y,
                    rw (← items) (select_all-IsDisclosable platform r artifacts s z),
                  )
            ]
          ]
