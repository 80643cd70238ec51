-- ===== src/Context/Loop.antt =====
-- context.py: what a round of the loop of `select_context` has checked when it selects an artifact.
use trace_gate_framework.Prelude.{
  ℕ, ◌+◌, ◌≤◌, String, ◌≡◌, ap, true, false, inl, inr, Option, none, some, List, [], ◌∷◌, arith,
  string_Eq, option_Eq, option_eq_iff, concat, ok, Result-cases, Option-cases, subst, All,
}
use trace_gate_framework.Documents.{sensitivity}
use trace_gate_framework.Context.{
  Content, text, not_text, Artifact, Item, Platform, Request, Progress, exclude, include, Reason,
  or_text, find_tier, fields_of, digest_of, content_of, fields_denied, tier_denied, early_exclusion,
  judge_content, judge_tier, judge, apply_verdict, select_all,
}

-- What makes a content fit to be selected from a tier of an artifact.
pub record Holds (platform : Platform) (r : Request) (a : Artifact) (s : Progress) (item : Item)
    (size : ℕ) : Type 0 where
  pub referenced : platform.is_digest (or_text "" a.source_digest) ≡ true
  pub intact :
      digest_of a.tier_digests item.tier ≡ some (concat "sha256:" (platform.sha256 item.content))
  pub fits : s.used + size ≤ r.budget
  pub sized : size ≡ platform.encoded_size item.content
  pub identity : a.artifact_id ≡ item.artifact_id
  pub revision : a.revision_id ≡ some item.revision_id
  pub source : a.source_digest ≡ some item.source_digest

pub record Includes (platform : Platform) (r : Request) (a : Artifact) (s : Progress) (item : Item)
    (size : ℕ) : Type 0 where
  pub early : early_exclusion platform r a s ≡ none
  pub level : ℕ
  pub rated : sensitivity (or_text "restricted" a.sensitivity_level) ≡ ok level
  pub allowed : level ≤ r.max_sensitivity
  pub found : find_tier r.allowed_tiers a.tiers ≡ ok (some item.tier)
  pub permitted : tier_denied r item.tier ≡ false
  pub fields : fields_denied r (fields_of a.tier_fields item.tier) ≡ false
  pub stored : content_of a.tiers item.tier ≡ some (text item.content)
  pub holds : Holds platform r a s item size

module _ (platform : Platform) (r : Request) (a : Artifact) (s : Progress) where
  judge_content-Holds :
      (tier : String) (c : Content) (item : Item) (size : ℕ)
      → judge_content platform r a s tier c ≡ ok (include item size)
      → (c ≡ text item.content) × (tier ≡ item.tier) × Holds platform r a s item size
  unfolding judge_content
  judge_content-Holds tier not_text item size h = absurd (ground arith)
  judge_content-Holds tier (text content) item size h = (
    same,
    here,
    record {
      referenced = ground arith;
      intact = rw (← here, ← content_same) intact_here;
      fits = ground arith;
      sized = ground arith;
      identity = ground arith;
      revision = ground arith;
      source = ground arith;
    },
  )
    where
      content_same : content ≡ item.content
      content_same = ground arith

      same : text content ≡ text item.content
      same = ap text content_same

      here : tier ≡ item.tier
      here = ground arith

      intact_here :
          digest_of a.tier_digests tier ≡ some (concat "sha256:" (platform.sha256 content))
      intact_here = ground (
        arith,
        option_eq_iff (digest_of a.tier_digests tier)
            (some (concat "sha256:" (platform.sha256 content))),
      )

  judge_tier-chosen :
      (chosen : Option String) (item : Item) (size : ℕ)
      → judge_tier platform r a s chosen ≡ ok (include item size)
      → (chosen ≡ some item.tier)
        × (tier_denied r item.tier ≡ false)
        × (fields_denied r (fields_of a.tier_fields item.tier) ≡ false)
        × (content_of a.tiers item.tier ≡ some (text item.content))
        × Holds platform r a s item size
  unfolding judge_tier
  judge_tier-chosen none item size h = absurd (ground arith)
  judge_tier-chosen (some tier) item size h = elim (Option-cases (content_of a.tiers tier)) [
    | inl absent ↦ absurd (ground arith)
    | inr (c, present) ↦
        let (same, here, holds) = judge_content-Holds tier c item size (ground arith) in
        (
          ap some here,
          rw (← here) (ground arith),
          rw (← here) (ground arith),
          rw (← here, present) (ap some same),
          holds,
        )
  ]

  -- What a round has checked that selects.
  pub judge-Includes :
      (item : Item) (size : ℕ)
      → judge platform r a s ≡ ok (include item size)
      → Includes platform r a s item size
  unfolding judge
  judge-Includes item size h = elim (Option-cases (early_exclusion platform r a s)) [
    | inr (reason, y) ↦ absurd (ground arith)
    | inl early ↦ elim (Result-cases (sensitivity (or_text "restricted" a.sensitivity_level))) [
      | inl (e, y) ↦ absurd (ground arith)
      | inr (level, rated) ↦ elim (Result-cases (find_tier r.allowed_tiers a.tiers)) [
        | inl (e, y) ↦ absurd (ground arith)
        | inr (chosen, found) ↦
            let (at, permitted, fields, stored, holds) =
              judge_tier-chosen chosen item size (ground arith) in
            record {
              early = early;
              level = level;
              rated = rated;
              allowed = ground arith;
              found = rw (← at) found;
              permitted = permitted;
              fields = fields;
              stored = stored;
              holds = holds;
            }
      ]
    ]
  ]

module _ (platform : Platform) (r : Request) (Q : Artifact → Type 0) (P : Progress → Type 0) where
  -- A property that every round keeps holds after the loop.
  pub select_all_induction :
      ((a : Artifact) (s : Progress) (reason : Reason)
        → P s
        → P (apply_verdict a s (exclude reason)))
      → ((a : Artifact) (s : Progress) (item : Item) (size : ℕ)
          → Includes platform r a s item size
          → Q a
          → P s
          → P (apply_verdict a s (include item size)))
      → (artifacts : List Artifact) (s s' : Progress) → select_all platform r artifacts s ≡ ok s'
      → All Q artifacts
      → P s
      → P s'
  unfolding select_all
  select_all_induction skip take [] s s' h q p = subst P (ground arith) p
  select_all_induction skip take (a ∷ artifacts) s s' h q p =
      elim (Result-cases (judge platform r a s)) [
        | inl (e, y) ↦ absurd (ground arith)
        | inr (exclude reason, y) ↦
            select_all_induction skip take artifacts (apply_verdict a s (exclude reason)) s'
              (ground arith) q.1 (skip a s reason p)
        | inr (include item size, y) ↦
            select_all_induction skip take artifacts (apply_verdict a s (include item size)) s'
              (ground arith) q.1
              (take a s item size (judge-Includes platform r a s item size y) q.0 p)
      ]
