-- ===== src/Semantic/Candidates.antt =====
-- semantic.py: what `select_semantic_candidates` returns.
use trace_gate_framework.Prelude.{
  ℕ, ◌≤◌, ◌<◌, ◌≡◌, refl, subst, true, false, inl, inr, Option, none, some, List, [], ◌∷◌, ◌++◌,
  arith, string_Eq, nat_Eq, string_eq_iff, leb, contains, not, ◌&&◌, ◌==◌, length, length-append,
  ok, Result-cases, Option-cases, Bool-cases, Among, All, All-append,
}
use trace_gate_framework.Prelude.Dict.{lookup}
use trace_gate_framework.Documents.{is_set, sensitivity, listed}
use trace_gate_framework.Semantic.{
  Candidate, DocumentManifest, SourceMember, SelectedCandidate, Search, Found, matches_selector,
  in_unit, below, find_member, index_exclusion, document_exclusion, binding_exclusion,
  judge_candidate,
}
use trace_gate_framework.Semantic.Selecting.{select_candidate, add_candidate, select_candidates}

-- A document that a search may show a candidate of.
pub record IsOpen (q : Search) (c : Candidate) (m : SourceMember) (d : DocumentManifest)
    : Type 0 where
  pub level : ℕ
  pub rated : sensitivity d.sensitivity_level ≡ ok level
  pub cleared : level ≤ q.maximum_sensitivity
  pub not_left_out : contains c.artifact_id q.scope.exclude_artifact_ids ≡ false
  pub chosen :
      ((q.scope.membership_mode == "explicit")
        && not (contains c.artifact_id q.scope.include_artifact_ids))
      ≡ false
  pub matching :
      ((q.scope.membership_mode == "selector") && not (matches_selector q.scope d)) ≡ false
  pub revision : d.revision_id ≡ c.revision_id
  pub current : d.freshness_status ≡ "current"
  pub validated : d.validation_status ≡ "pass"
  pub no_secrets : is_set d.contains_secrets ≡ false
  pub grouped : contains q.group_id (listed d.group_memberships) ≡ true
  pub bound : contains q.manifest.embedding_manifest_id (listed d.embedding_manifest_refs) ≡ true
  pub digest : contains m.source_digest (listed d.subject_digests) ≡ true

-- A result of a search: one of the candidates, of the group of the search, with a score in range,
-- in the index of the manifest and of an open document.
pub record IsRetrievable (one : ℕ) (q : Search) (candidates : List Candidate)
    (x : SelectedCandidate) : Type 0 where
  pub candidate : Candidate
  pub offered : Among candidate candidates
  pub shown : x ≡ select_candidate q candidate
  pub group : candidate.embedding_group_id ≡ q.group_id
  pub in_range : in_unit one candidate.score ≡ true
  pub sufficient : below q.minimum_score candidate.score ≡ false
  pub member : SourceMember
  pub indexed :
      find_member candidate.artifact_id candidate.revision_id q.manifest.source_members
      ≡ some member
  pub chunk : contains candidate.chunk_id member.chunk_ids ≡ true
  pub document : DocumentManifest
  pub known : lookup candidate.artifact_id q.manifests ≡ some document
  pub opened : IsOpen q candidate member document

index_parts :
    (one : ℕ) (q : Search) (c : Candidate) (found : Option SourceMember)
    → index_exclusion one q c found ≡ none
    → (m : SourceMember) × (found ≡ some m)
      × (c.embedding_group_id ≡ q.group_id)
      × (in_unit one c.score ≡ true)
      × (below q.minimum_score c.score ≡ false)
      × (contains c.chunk_id m.chunk_ids ≡ true)
unfolding index_exclusion
index_parts one q c none h = absurd (ground arith)
index_parts one q c (some m) h = (
  m,
  refl,
  (string_eq_iff c.embedding_group_id q.group_id).0 (ground arith),
  ground arith,
  ground arith,
  ground arith,
)

document_parts :
    (q : Search) (c : Candidate) (d : DocumentManifest)
    → document_exclusion q c d ≡ none
    → (contains c.artifact_id q.scope.exclude_artifact_ids ≡ false)
      × (((q.scope.membership_mode == "explicit")
            && not (contains c.artifact_id q.scope.include_artifact_ids))
          ≡ false)
      × (((q.scope.membership_mode == "selector") && not (matches_selector q.scope d)) ≡ false)
      × (d.revision_id ≡ c.revision_id)
      × (d.freshness_status ≡ "current")
      × (d.validation_status ≡ "pass")
      × (is_set d.contains_secrets ≡ false)
unfolding document_exclusion
document_parts q c d h = (
  ground arith,
  ground arith,
  ground arith,
  (string_eq_iff d.revision_id c.revision_id).0 (ground arith),
  (string_eq_iff d.freshness_status "current").0 (ground arith),
  (string_eq_iff d.validation_status "pass").0 (ground arith),
  ground arith,
)

binding_parts :
    (q : Search) (d : DocumentManifest) (m : SourceMember)
    → binding_exclusion q d (some m) ≡ none
    → (contains q.group_id (listed d.group_memberships) ≡ true)
      × (contains q.manifest.embedding_manifest_id (listed d.embedding_manifest_refs) ≡ true)
      × (contains m.source_digest (listed d.subject_digests) ≡ true)
unfolding binding_exclusion
binding_parts q d m h = (ground arith, ground arith, ground arith)

judge_candidate-opens :
    (one : ℕ) (q : Search) (c : Candidate) (all : List Candidate)
    → judge_candidate one q c ≡ ok none
    → Among c all
    → IsRetrievable one q all (select_candidate q c)
unfolding judge_candidate
judge_candidate-opens one q c all h m =
    elim (Option-cases (
      index_exclusion one q c
        (find_member c.artifact_id c.revision_id q.manifest.source_members))) [
          | inr (reason, y) ↦ absurd (ground arith)
          | inl y ↦ elim (Option-cases (lookup c.artifact_id q.manifests)) [
            | inl absent ↦ absurd (ground arith)
            | inr (d, known) ↦ elim (Option-cases (document_exclusion q c d)) [
              | inr (reason, z) ↦ absurd (ground arith)
              | inl z ↦ elim (Result-cases (sensitivity d.sensitivity_level)) [
                | inl (e, w) ↦ absurd (ground arith)
                | inr (level, rated) ↦
                    let (member, indexed, group, in_range, sufficient, chunk) =
                      index_parts one q c
                        (find_member c.artifact_id c.revision_id q.manifest.source_members) y in
                    let (not_left_out, chosen, matching, revision, current, validated, no_secrets) =
                      document_parts q c d z in
                    let (grouped, bound, digest) =
                      binding_parts q d member (rw (← indexed) (ground arith)) in
                    record {
                      candidate = c;
                      offered = m;
                      shown = refl;
                      group = group;
                      in_range = in_range;
                      sufficient = sufficient;
                      member = member;
                      indexed = indexed;
                      chunk = chunk;
                      document = d;
                      known = known;
                      opened = record {
                        level = level;
                        rated = rated;
                        cleared = ground arith;
                        not_left_out = not_left_out;
                        chosen = chosen;
                        matching = matching;
                        revision = revision;
                        current = current;
                        validated = validated;
                        no_secrets = no_secrets;
                        grouped = grouped;
                        bound = bound;
                        digest = digest;
                      };
                    }
              ]
            ]
          ]
        ]

-- What the loop keeps of its results.
pub record IsFound (one : ℕ) (q : Search) (all : List Candidate) (s : Found) : Type 0 where
  pub retrievable : All (IsRetrievable one q all) s.selected
  pub limited : length s.selected ≤ q.max_candidates

pub select_candidates-IsFound :
    (one : ℕ) (q : Search) (all cs : List Candidate) (s s' : Found)
    → select_candidates one q cs s ≡ ok s'
    → ((c : Candidate) → Among c cs → Among c all)
    → All (IsRetrievable one q all) s.selected
    → length s.selected < q.max_candidates
    → IsFound one q all s'
unfolding select_candidates
select_candidates-IsFound one q all [] s s' h from p room =
    let same : s ≡ s' = ground arith in
    subst (IsFound one q all) same (record { retrievable = p; limited = omega (arith, room) })
select_candidates-IsFound one q all (c ∷ cs) s s' h from p room =
    elim (Result-cases (judge_candidate one q c)) [
      | inl (e, y) ↦ absurd (ground arith)
      | inr (some reason, y) ↦
          select_candidates-IsFound one q all cs (add_candidate q c (some reason) s) s'
            (ground arith) (λ d m. from d (inr m)) p room
      | inr (none, y) ↦
          let longer = length-append s.selected (select_candidate q c ∷ []) in
          let more : All (IsRetrievable one q all) (s.selected ++ select_candidate q c ∷ []) =
            All-append (IsRetrievable one q all) s.selected (select_candidate q c ∷ []) p
              (judge_candidate-opens one q c all y (from c (inl refl)), tt) in
          elim (Bool-cases
            (leb q.max_candidates (length (s.selected ++ select_candidate q c ∷ [])))) [
              | inl full ↦
                  let same : add_candidate q c none s ≡ s' = ground arith in
                  subst (IsFound one q all) same
                    (record { retrievable = more; limited = omega (arith, room, longer) })
              | inr n ↦
                  select_candidates-IsFound one q all cs (add_candidate q c none s) s'
                    (ground arith) (λ d m. from d (inr m)) more (ground (arith, n))
            ]
    ]
