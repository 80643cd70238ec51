-- ===== src/Semantic/Selecting.antt =====
-- semantic.py: the loop of `select_semantic_candidates` and what surrounds it.
use trace_gate_framework.Prelude.{
  ℕ, String, Bool, false, not, ◌&&◌, ◌||◌, Option, none, some, List, [], ◌∷◌, ◌++◌, ◌==◌, string_Eq,
  nat_Eq, if◌then◌else◌, ltb, leb, any, contains, is_empty, length, Result, ok, err, value_error,
  permission_error, guard, reject_if, ◌>>=◌, ◌>>◌,
}
use trace_gate_framework.Prelude.Dict.{Dict}
use trace_gate_framework.Documents.{
  AccessIntent, ReadProfile, Retrieval, SemanticPolicy, retrieval_of, semantic_mode, is_set,
  sensitivity,
}
use trace_gate_framework.Semantic.{
  Score, plus, minus, Candidate, EmbeddingProfile, EmbeddingManifest, DocumentManifest,
  RejectionReason, Rejection, SelectedCandidate, Search, Found, judge_candidate,
}

abbrev pub less : Score → Score → Bool
less (plus a) (plus b) = ltb a b
less (plus a) (minus b) = false
less (minus a) (plus b) = ltb 0 a || ltb 0 b
less (minus a) (minus b) = ltb b a

unfoldable pub place_candidate : Candidate → List Candidate → List Candidate
place_candidate c [] = c ∷ []
place_candidate c (d ∷ ds) =
    let rest = place_candidate c ds in if less c.score d.score then d ∷ rest else c ∷ d ∷ ds

-- `sorted(candidates, key=score, reverse=True)`, which keeps the order of equal scores.
unfoldable pub by_score : List Candidate → List Candidate
unfolding place_candidate
by_score [] = []
by_score (c ∷ cs) = place_candidate c (by_score cs)

abbrev pub select_candidate : Search → Candidate → SelectedCandidate
select_candidate q c = record {
  artifact_id = c.artifact_id;
  revision_id = c.revision_id;
  chunk_id = c.chunk_id;
  score = c.score;
  embedding_group_id = q.group_id;
  embedding_manifest_id = q.manifest.embedding_manifest_id;
}

abbrev pub add_candidate : Search → Candidate → Option RejectionReason → Found → Found
add_candidate q c (some reason) s = record {
  selected = s.selected;
  excluded = s.excluded ++ record { artifact_id = c.artifact_id; reason = reason } ∷ [];
}
add_candidate q c none s = record {
  selected = s.selected ++ select_candidate q c ∷ [];
  excluded = s.excluded;
}

-- The test of the `break`, which only a selected candidate reaches.
abbrev pub is_full : Search → Option RejectionReason → Found → Bool
is_full q (some reason) s = false
is_full q none s = leb q.max_candidates (length s.selected)

unfoldable pub select_candidates : ℕ → Search → List Candidate → Found → Result Found
select_candidates one q [] s = ok s
select_candidates one q (c ∷ cs) s = do
  reason ← judge_candidate one q c
  let next : Found = add_candidate q c reason s
  let rest : Result Found = select_candidates one q cs next
  if is_full q reason next then ok next else rest

-- `len(set(xs)) > 1`
abbrev is_several : List String → Bool
is_several [] = false
is_several (x ∷ xs) = any (λ y. not (y == x)) xs

abbrev pub least : ℕ → ℕ → ℕ
least a b = if leb a b then a else b

abbrev pub greatest : ℕ → ℕ → ℕ
greatest a b = if leb a b then b else a

-- The checks before the loop.
unfoldable pub search_of :
    AccessIntent
    → ReadProfile
    → List String
    → SemanticPolicy
    → EmbeddingProfile
    → EmbeddingManifest
    → Dict DocumentManifest
    → Result Search
search_of intent profile requested policy embedding manifest manifests = do
  reject_if (is_several requested && not (is_set policy.allow_cross_group))
      (permission_error "read profile forbids cross-group retrieval")
  reject_if (is_several requested && not (is_set embedding.allow_cross_group))
      (permission_error "embedding profile forbids cross-group retrieval")
  guard (contains embedding.embedding_group_id requested)
      (permission_error "embedding group was not requested")
  guard (contains embedding.embedding_group_id policy.allowed_group_ids)
      (permission_error "embedding group is outside the read profile")
  guard (embedding.status == "active") (value_error "embedding profile is not active")
  guard (manifest.status == "active") (value_error "embedding manifest is not active")
  guard (manifest.freshness_status == "current") (value_error "embedding manifest is stale")
  guard (manifest.validation_status == "pass") (value_error "embedding manifest is not validated")
  guard (manifest.embedding_group_id == embedding.embedding_group_id)
      (value_error "embedding profile and manifest group mismatch")
  guard (manifest.model == embedding.model) (value_error "embedding model contract mismatch")
  guard (contains intent.purpose_class embedding.allowed_purpose_classes)
      (permission_error "declared purpose cannot use this embedding group")
  intent_level ← sensitivity intent.constraints.maximum_sensitivity
  profile_level ← sensitivity profile.limits.maximum_sensitivity
  embedding_level ← sensitivity embedding.maximum_sensitivity
  ok (record {
    group_id = embedding.embedding_group_id;
    scope = embedding.scope;
    manifest = manifest;
    manifests = manifests;
    maximum_sensitivity = least intent_level (least profile_level embedding_level);
    minimum_score = greatest policy.minimum_score embedding.minimum_score;
    max_candidates = least policy.max_candidates embedding.max_candidates;
  })

pub record SetBody : Type 0 where
  pub status : String
  pub embedding_group_id : Option String
  pub candidates : List SelectedCandidate
  pub excluded : List Rejection
  pub query_digest : Option String

pub record SemanticCandidateSet : Type 0 where
  pub body : SetBody
  pub open body use *
  pub digest : String

abbrev pub search_status : Retrieval → SemanticPolicy → Found → String
search_status r policy s =
    if not (is_empty s.selected)
    then "pass"
    else if (r.mode == "hybrid") && is_set policy.exact_fallback
    then "reduced"
    else "blocked"

abbrev pub set_body : Retrieval → SemanticPolicy → Search → Found → SetBody
set_body r policy q s = record {
  status = search_status r policy s;
  embedding_group_id = some q.group_id;
  candidates = s.selected;
  excluded = s.excluded;
  query_digest = r.query_digest;
}

abbrev pub no_search : SetBody
no_search = record {
  status = "not_requested";
  embedding_group_id = none;
  candidates = [];
  excluded = [];
  query_digest = none;
}

-- `skipped` is the digest of a result without a search.
module _ (one : ℕ) (digest : SetBody → String) (skipped : String) (intent : AccessIntent)
    (profile : ReadProfile) (candidates : List Candidate) (manifests : Dict DocumentManifest) where
  unfoldable pub run_search :
      SemanticPolicy → EmbeddingProfile → EmbeddingManifest → Result SemanticCandidateSet
  run_search policy embedding manifest = do
    let r : Retrieval = retrieval_of intent
    q ← search_of intent profile r.embedding_group_ids policy embedding manifest manifests
    s ← select_candidates one q (by_score candidates) (record { selected = []; excluded = [] })
    ok (record { body = set_body r policy q s; digest = digest (set_body r policy q s) })

  abbrev search_with :
      SemanticPolicy
      → Option EmbeddingProfile
      → Option EmbeddingManifest
      → Result SemanticCandidateSet
  search_with policy (some embedding) (some manifest) = run_search policy embedding manifest
  search_with policy _ _ = err (value_error "semantic retrieval requires profile and manifest")

  -- A profile without a semantic policy has the mode `disabled`.
  abbrev search_under :
      Option SemanticPolicy
      → Option EmbeddingProfile
      → Option EmbeddingManifest
      → Result SemanticCandidateSet
  search_under none embedding manifest =
      err (permission_error "read profile disables semantic retrieval")
  search_under (some policy) embedding manifest = do
    reject_if (policy.mode == "disabled")
        (permission_error "read profile disables semantic retrieval")
    search_with policy embedding manifest

  abbrev skip_search : Result SemanticCandidateSet
  skip_search = do
    reject_if (semantic_mode profile == "required")
        (permission_error "read profile requires semantic retrieval")
    ok (record { body = no_search; digest = skipped })

  unfoldable pub select_semantic_candidates :
      Option EmbeddingProfile → Option EmbeddingManifest → Result SemanticCandidateSet
  select_semantic_candidates embedding manifest =
      if (retrieval_of intent).mode == "exact"
      then skip_search
      else search_under profile.semantic_retrieval embedding manifest
