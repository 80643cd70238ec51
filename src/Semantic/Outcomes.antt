-- ===== src/Semantic/Outcomes.antt =====
-- semantic.py: the results of `select_semantic_candidates` as a whole.
use trace_gate_framework.Prelude.{ℕ, ◌≤◌, ◌≡◌, true, string_Eq, contains, ok}
use trace_gate_framework.Prelude.Dict.{Dict}
use trace_gate_framework.Documents.{
  AccessIntent, ReadProfile, SemanticPolicy, retrieval_of, sensitivity,
}
use trace_gate_framework.Semantic.{EmbeddingProfile, EmbeddingManifest, DocumentManifest, Search}

-- What the checks before the loop establish of a search.
pub record IsPermitted (intent : AccessIntent) (profile : ReadProfile) (policy : SemanticPolicy)
    (embedding : EmbeddingProfile) (manifest : EmbeddingManifest)
    (manifests : Dict DocumentManifest) (q : Search) : Type 0 where
  pub group : q.group_id ≡ embedding.embedding_group_id
  pub scope : q.scope ≡ embedding.scope
  pub index : q.manifest ≡ manifest
  pub index_group : manifest.embedding_group_id ≡ embedding.embedding_group_id
  pub documents : q.manifests ≡ manifests
  pub requested : contains q.group_id (retrieval_of intent).embedding_group_ids ≡ true
  pub allowed : contains q.group_id policy.allowed_group_ids ≡ true
  pub active : embedding.status ≡ "active"
  pub manifest_active : manifest.status ≡ "active"
  pub manifest_current : manifest.freshness_status ≡ "current"
  pub manifest_valid : manifest.validation_status ≡ "pass"
  pub model : manifest.model ≡ embedding.model
  pub purpose : contains intent.purpose_class embedding.allowed_purpose_classes ≡ true
  pub intent_level : ℕ
  pub intent_rated : sensitivity intent.constraints.maximum_sensitivity ≡ ok intent_level
  pub within_intent : q.maximum_sensitivity ≤ intent_level
  pub profile_level : ℕ
  pub profile_rated : sensitivity profile.limits.maximum_sensitivity ≡ ok profile_level
  pub within_profile : q.maximum_sensitivity ≤ profile_level
  pub embedding_level : ℕ
  pub embedding_rated : sensitivity embedding.maximum_sensitivity ≡ ok embedding_level
  pub within_embedding : q.maximum_sensitivity ≤ embedding_level
  pub policy_score : policy.minimum_score ≤ q.minimum_score
  pub embedding_score : embedding.minimum_score ≤ q.minimum_score
  pub policy_count : q.max_candidates ≤ policy.max_candidates
  pub embedding_count : q.max_candidates ≤ embedding.max_candidates
