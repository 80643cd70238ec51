-- ===== src/Semantic.antt =====
-- src/trace_gate/semantic.py: `select_semantic_candidates`. A score is a multiple of 2⁻¹⁰⁷⁴, as every
-- finite double is, and `one` is the multiple that is 1. The digest of a result is an argument.
pub mod Selecting
pub mod Order
pub mod Candidates
pub mod Outcomes
mod Examples
use trace_gate_framework.Prelude.{
  ℕ, ◌+◌, String, ◌≡◌, Bool, true, false, not, ◌&&◌, ◌||◌, Option, none, some, List, [], ◌∷◌, ◌++◌,
  map, Eq, ◌==◌, string_Eq, nat_Eq, if◌then◌else◌, ltb, leb, any, contains, is_empty, length,
  Result, ok, err, value_error, permission_error, guard, reject_if, ◌>>=◌, ◌>>◌,
}
use trace_gate_framework.Prelude.Dict.{Dict, lookup}
use trace_gate_framework.Documents.{
  AccessIntent, ReadProfile, Retrieval, SemanticPolicy, retrieval_of, listed, is_set, sensitivity,
}

pub data Score : Type 0 where
  plus minus : ℕ → Score

pub record Candidate : Type 0 where
  pub artifact_id : String
  pub revision_id : String
  pub chunk_id : String
  pub embedding_group_id : String
  pub score : Score

pub record EmbeddingScope : Type 0 where
  pub membership_mode : String
  pub include_artifact_ids : List String
  pub exclude_artifact_ids : List String
  pub include_artifact_types : List String
  pub include_tags : List String

-- `model` stands as its canonical JSON text.
pub record EmbeddingProfile : Type 0 where
  pub embedding_group_id : String
  pub status : String
  pub model : String
  pub scope : EmbeddingScope
  pub allow_cross_group : Option Bool
  pub allowed_purpose_classes : List String
  pub minimum_score : ℕ
  pub max_candidates : ℕ
  pub maximum_sensitivity : String

pub record SourceMember : Type 0 where
  pub artifact_id : String
  pub revision_id : String
  pub source_digest : String
  pub chunk_ids : List String

pub record EmbeddingManifest : Type 0 where
  pub embedding_manifest_id : String
  pub embedding_group_id : String
  pub status : String
  pub freshness_status : String
  pub validation_status : String
  pub model : String
  pub source_members : List SourceMember

pub record DocumentManifest : Type 0 where
  pub artifact_type : Option String
  pub revision_id : String
  pub tags : Option (List String)
  pub freshness_status : String
  pub validation_status : String
  pub contains_secrets : Option Bool
  pub sensitivity_level : String
  pub group_memberships : Option (List String)
  pub embedding_manifest_refs : Option (List String)
  pub subject_digests : Option (List String)

pub data RejectionReason : Type 0 where
  cross_group_candidate invalid_score below_minimum_score source_revision_not_indexed :
      RejectionReason
  chunk_not_indexed document_manifest_missing document_excluded_from_group : RejectionReason
  document_outside_explicit_group document_does_not_match_group_selector : RejectionReason
  document_revision_changed document_not_current document_not_validated : RejectionReason
  secret_content_excluded sensitivity_exceeded document_group_membership_missing : RejectionReason
  embedding_manifest_ref_missing source_digest_mismatch : RejectionReason

pub record Rejection : Type 0 where
  pub artifact_id : String
  pub reason : RejectionReason

-- What the loop reads.
pub record Search : Type 0 where
  pub group_id : String
  pub scope : EmbeddingScope
  pub manifest : EmbeddingManifest
  pub manifests : Dict DocumentManifest
  pub maximum_sensitivity : ℕ
  pub minimum_score : ℕ
  pub max_candidates : ℕ

pub record SelectedCandidate : Type 0 where
  pub artifact_id : String
  pub revision_id : String
  pub chunk_id : String
  pub score : Score
  pub embedding_group_id : String
  pub embedding_manifest_id : String

pub record Found : Type 0 where
  pub selected : List SelectedCandidate
  pub excluded : List Rejection

-- `source_index.get((artifact_id, revision_id))`: of two members with one identity the last counts.
unfoldable pub find_member : String → String → List SourceMember → Option SourceMember
find_member artifact_id revision_id [] = none
find_member artifact_id revision_id (member ∷ members) =
    elim (find_member artifact_id revision_id members) [
      | some later ↦ some later
      | none ↦
          if (member.artifact_id == artifact_id) && (member.revision_id == revision_id)
          then some member
          else none
    ]

-- `0 <= score <= 1`
abbrev pub in_unit : ℕ → Score → Bool
in_unit one (plus n) = leb n one
in_unit one (minus n) = n == 0

abbrev pub below : ℕ → Score → Bool
below minimum (plus n) = ltb n minimum
below minimum (minus n) = ltb 0 n || ltb 0 minimum

abbrev pub matches_selector : EmbeddingScope → DocumentManifest → Bool
matches_selector scope d =
    elim d.artifact_type [ none ↦ false | some kind ↦ contains kind scope.include_artifact_types ]
    || any (λ tag. contains tag scope.include_tags) (listed d.tags)

-- The tests of a candidate against the profile and the index.
unfoldable pub index_exclusion :
    ℕ → Search → Candidate → Option SourceMember → Option RejectionReason
index_exclusion one q c member =
    if not (c.embedding_group_id == q.group_id)
    then some cross_group_candidate
    else if not (in_unit one c.score)
    then some invalid_score
    else if below q.minimum_score c.score
    then some below_minimum_score
    else elim member [
      | none ↦ some source_revision_not_indexed
      | some m ↦ if not (contains c.chunk_id m.chunk_ids) then some chunk_not_indexed else none
    ]

-- The tests of the document before its sensitivity.
unfoldable pub document_exclusion : Search → Candidate → DocumentManifest → Option RejectionReason
document_exclusion q c d =
    if contains c.artifact_id q.scope.exclude_artifact_ids
    then some document_excluded_from_group
    else if (q.scope.membership_mode == "explicit")
        && not (contains c.artifact_id q.scope.include_artifact_ids)
    then some document_outside_explicit_group
    else if (q.scope.membership_mode == "selector") && not (matches_selector q.scope d)
    then some document_does_not_match_group_selector
    else if not (d.revision_id == c.revision_id)
    then some document_revision_changed
    else if not (d.freshness_status == "current")
    then some document_not_current
    else if not (d.validation_status == "pass")
    then some document_not_validated
    else if is_set d.contains_secrets
    then some secret_content_excluded
    else none

abbrev pub member_digest : Option SourceMember → String
member_digest none = ""
member_digest (some m) = m.source_digest

-- The tests of the document after its sensitivity.
unfoldable pub binding_exclusion :
    Search → DocumentManifest → Option SourceMember → Option RejectionReason
binding_exclusion q d member =
    if not (contains q.group_id (listed d.group_memberships))
    then some document_group_membership_missing
    else if not (contains q.manifest.embedding_manifest_id (listed d.embedding_manifest_refs))
    then some embedding_manifest_ref_missing
    else if not (contains (member_digest member) (listed d.subject_digests))
    then some source_digest_mismatch
    else none

abbrev exclusion_after :
    Search → DocumentManifest → Option SourceMember → Result ℕ → Result (Option RejectionReason)
exclusion_after q d member (err e) = err e
exclusion_after q d member (ok level) = ok (
    if ltb q.maximum_sensitivity level
    then some sensitivity_exceeded
    else binding_exclusion q d member)

abbrev judge_document :
    Search
    → Candidate
    → Option SourceMember
    → DocumentManifest
    → Option RejectionReason
    → Result (Option RejectionReason)
judge_document q c member d (some reason) = ok (some reason)
judge_document q c member d none = exclusion_after q d member (sensitivity d.sensitivity_level)

abbrev judge_manifest :
    Search
    → Candidate
    → Option SourceMember
    → Option DocumentManifest
    → Result (Option RejectionReason)
judge_manifest q c member none = ok (some document_manifest_missing)
judge_manifest q c member (some d) = judge_document q c member d (document_exclusion q c d)

abbrev judge_indexed :
    Search
    → Candidate
    → Option SourceMember
    → Option RejectionReason
    → Result (Option RejectionReason)
judge_indexed q c member (some reason) = ok (some reason)
judge_indexed q c member none = judge_manifest q c member (lookup c.artifact_id q.manifests)

-- The reason of one round of the loop.
unfoldable pub judge_candidate : ℕ → Search → Candidate → Result (Option RejectionReason)
judge_candidate one q c =
    let member : Option SourceMember =
      find_member c.artifact_id c.revision_id q.manifest.source_members in
    judge_indexed q c member (index_exclusion one q c member)
