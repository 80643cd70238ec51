-- ===== src/Semantic/Examples.antt =====
-- semantic.py at a concrete input: a search that finds one of two candidates.
use trace_gate_framework.Prelude.{ℕ, String, string_Eq, false, none, some, List, [], ◌∷◌}
use trace_gate_framework.Prelude.Dict.{Dict}
use trace_gate_framework.Documents.{count, AccessIntent, ReadProfile, SemanticPolicy}
use trace_gate_framework.Semantic.{
  plus, Candidate, EmbeddingProfile, SourceMember, EmbeddingManifest, DocumentManifest,
  below_minimum_score,
}
use trace_gate_framework.Semantic.Selecting.{SetBody, SemanticCandidateSet}

abbrev intent : AccessIntent
intent = record {
  purpose_class = "lookup";
  operation = "read";
  targets = record { artifact_ids = none; ledger_ids = none; bounded_in_time = false };
  retrieval =
      some (record { mode = "semantic"; embedding_group_ids = "g1" ∷ []; query_digest = some "q" });
  constraints = record {
    maximum_sensitivity = "internal";
    freshness_requirement = "current";
    context_budget_bytes = 8;
    raw_access_requested = false;
    full_history_requested = none;
  };
}

abbrev policy : SemanticPolicy
policy = record {
  mode = "optional";
  allowed_group_ids = "g1" ∷ [];
  max_candidates = 3;
  minimum_score = 5;
  allow_cross_group = some false;
  exact_fallback = none;
}

abbrev profile : ReadProfile
profile = record {
  profile_id = "p";
  status = "active";
  applies_to = record { purpose_classes = none; operations = none; artifact_types = none };
  selection = record {
    default_tiers = [];
    full_history_allowed = false;
    raw_access_allowed = false;
    field_allowlist = none;
    field_denylist = none;
  };
  semantic_retrieval = some policy;
  limits = record {
    maximum_sensitivity = "restricted";
    max_context_bytes = count 10;
    max_records = count 3;
    max_age_seconds = count 60;
  };
}

abbrev embedding : EmbeddingProfile
embedding = record {
  embedding_group_id = "g1";
  status = "active";
  model = "m";
  scope = record {
    membership_mode = "explicit";
    include_artifact_ids = "a1" ∷ "a2" ∷ [];
    exclude_artifact_ids = [];
    include_artifact_types = [];
    include_tags = [];
  };
  allow_cross_group = none;
  allowed_purpose_classes = "lookup" ∷ [];
  minimum_score = 4;
  max_candidates = 2;
  maximum_sensitivity = "confidential";
}

abbrev member : SourceMember
member = record {
  artifact_id = "a1";
  revision_id = "r1";
  source_digest = "d1";
  chunk_ids = "c1" ∷ [];
}

abbrev manifest : EmbeddingManifest
manifest = record {
  embedding_manifest_id = "em1";
  embedding_group_id = "g1";
  status = "active";
  freshness_status = "current";
  validation_status = "pass";
  model = "m";
  source_members = member ∷ [];
}

abbrev document : DocumentManifest
document = record {
  artifact_type = none;
  revision_id = "r1";
  tags = none;
  freshness_status = "current";
  validation_status = "pass";
  contains_secrets = none;
  sensitivity_level = "public";
  group_memberships = some ("g1" ∷ []);
  embedding_manifest_refs = some ("em1" ∷ []);
  subject_digests = some ("d1" ∷ []);
}

abbrev documents : Dict DocumentManifest
documents = ("a1", document) ∷ []

abbrev candidate : String → ℕ → Candidate
candidate id score = record {
  artifact_id = id;
  revision_id = "r1";
  chunk_id = "c1";
  embedding_group_id = "g1";
  score = plus score;
}

abbrev candidates : List Candidate
candidates = candidate "a2" 2 ∷ candidate "a1" 7 ∷ []

abbrev digest : SetBody → String
digest body = body.status

abbrev found : SemanticCandidateSet
found = record {
  body = record {
    status = "pass";
    embedding_group_id = some "g1";
    candidates =
        record {
          artifact_id = "a1";
          revision_id = "r1";
          chunk_id = "c1";
          score = plus 7;
          embedding_group_id = "g1";
          embedding_manifest_id = "em1";
        }
        ∷ [];
    excluded = record { artifact_id = "a2"; reason = below_minimum_score } ∷ [];
    query_digest = some "q";
  };
  digest = "pass";
}
