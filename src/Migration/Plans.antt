-- ===== src/Migration/Plans.antt =====
-- migration.py: `plan_errors` and `package_errors`. A check that fails raises, and nothing else is
-- returned. The digests of values, and the recursion limit, are arguments.
use trace_gate_framework.Prelude.{
  ℕ, zero, suc, String, string_Eq, option_Eq, nat_Eq, list_Eq, bool_Eq, Bool, true, false, not,
  ◌&&◌, ◌||◌, ◌==◌, Option, none, some, List, [], ◌∷◌, ◌++◌, map, if◌then◌else◌, any, contains,
  subset, is_unique, is_empty, Result, ok, err, runtime_error, ◌>>=◌, ◌>>◌,
}
use trace_gate_framework.Prelude.Dict.{Dict, lookup, insert, keys}
use trace_gate_framework.Migration.{
  Text, PlannedArtifact, ScopedExport, ReferenceBinding, Plan, MigrationPlan, require,
}
use trace_gate_framework.Migration.Paths.{
  Unicode, relative_path, pure_path, is_within, related_paths, unique_paths,
}

-- `digest` of the values that a plan binds, and the limit of the walk over their parents.
pub record PlanDigests : Type 0 where
  pub of_plan : Plan → String
  pub of_references : List ReferenceBinding → String
  -- How many calls of `visit` may be nested: beyond that Python raises a `RecursionError`.
  pub recursion_limit : ℕ

-- `set(a) == set(b)`
abbrev pub same_members : List String → List String → Bool
same_members a b = subset a b && subset b a

-- `set(a) & set(b)` is empty.
abbrev disjoint : List String → List String → Bool
disjoint a b = not (any (λ x. contains x b) a)

abbrev pub planned_ids : List PlannedArtifact → List String
planned_ids artifacts = map (λ (a : PlannedArtifact). a.artifact_id) artifacts

abbrev known_ids : Plan → List String
known_ids p = planned_ids p.artifacts ++ p.external_parent_ids

abbrev is_below : Text → Text → Bool
is_below root path =
    (path == root)
    || (is_within (pure_path root) (pure_path path)
        && not ((pure_path root).parts == (pure_path path).parts))

unfoldable pub overlapping : (Text → Text) → List Text → Bool
overlapping casefold [] = false
overlapping casefold (a ∷ paths) =
    any (λ b. related_paths (casefold a) (casefold b)) paths || overlapping casefold paths

unfoldable pub has_revision : String → String → List PlannedArtifact → Bool
has_revision id revision [] = false
has_revision id revision (a ∷ artifacts) =
    ((a.artifact_id == id) && (a.revision_id == revision)) || has_revision id revision artifacts

unfoldable pub one_revision_each : List PlannedArtifact → Bool
unfolding has_revision
one_revision_each [] = true
one_revision_each (a ∷ artifacts) =
    not (has_revision a.artifact_id a.revision_id artifacts) && one_revision_each artifacts

module _ (unicode : Unicode) (p : Plan) where
  unfoldable pub check_artifact : PlannedArtifact → Result (Unit {0})
  check_artifact a = do
    relative_path unicode a.path
    require (any (λ root. is_below root a.path) p.scope_paths) "artifact outside scope"
    require (subset a.parent_ids (known_ids p)) "parent closure missing"
    require (a.canonical_owner == p.source.partition_id) "migrating artifact not source owned"

unfoldable pub each {ℓ} : {A : Type ℓ} → (A → Result (Unit {0})) → List A → Result (Unit {0})
each check [] = ok tt
each check (x ∷ xs) = do check x; each check xs

unfoldable pub parent_graph : List PlannedArtifact → Dict (List String) → Dict (List String)
parent_graph [] graph = graph
parent_graph (a ∷ artifacts) graph =
    parent_graph artifacts (insert a.artifact_id a.parent_ids graph)

-- `for parent in graph[node]: visit(parent)`, with the set of the nodes that are done.
unfoldable pub visit_each :
    (List String → String → Result (List String)) → List String → List String → Result (List String)
visit_each visit done [] = ok done
visit_each visit done (node ∷ nodes) = do done ← visit done node; visit_each visit done nodes

-- `visit`, with the number of calls that may still be nested.
unfoldable pub visit :
    ℕ → Dict (List String) → List String → List String → String → Result (List String)
unfolding visit_each
visit zero graph visiting done node = err (runtime_error "maximum recursion depth exceeded")
visit (suc depth) graph visiting done node = do
  require (not (contains node visiting)) "artifact parent cycle"
  elim (if contains node done then none else lookup node graph) [
    | none ↦ ok done
    | some parents ↦ do
      done ← visit_each (visit depth graph (node ∷ visiting)) done parents
      ok (node ∷ done)
  ]

unfoldable pub check_parents : ℕ → Dict (List String) → Result (List String)
unfolding visit visit_each
check_parents limit graph = visit_each (visit limit graph []) [] (keys graph)

abbrev check_export : Plan → ScopedExport → Result (Unit {0})
check_export p export = do
  require (contains export.source_artifact_id p.shared_records) "scoped export lacks shared owner"
  require (subset export.parent_ids (known_ids p ++ p.shared_records))
      "export parent closure missing"
  require export.original_chain_preserved "mixed ledger chain rewritten"

abbrev same_binding : ReferenceBinding → ReferenceBinding → Bool
same_binding a b =
    (a.canonical_owner == b.canonical_owner)
    && (a.version == b.version)
    && (a.sha256 == b.sha256)
    && (a.retained_location == b.retained_location)

abbrev binds : ReferenceBinding → Option ReferenceBinding → Bool
binds r none = true
binds r (some other) = same_binding other r

-- `owners`: the first binding of every payload.
unfoldable pub check_owners : List ReferenceBinding → Dict ReferenceBinding → Result (Unit {0})
check_owners [] owners = ok tt
check_owners (r ∷ refs) owners = do
  require (binds r (lookup r.payload_artifact_id owners))
      "multiple reference payload owners/versions"
  check_owners refs (insert r.payload_artifact_id r owners)

abbrev payloads : List ReferenceBinding → List String
payloads refs = map (λ (r : ReferenceBinding). r.payload_artifact_id) refs

abbrev reference_ids : List ReferenceBinding → List String
reference_ids refs = map (λ (r : ReferenceBinding). r.reference_id) refs

abbrev pub is_reference_only : Plan → Bool
is_reference_only p = p.migration_mode == "reference_only"

module _ (digests : PlanDigests) where
  unfoldable pub check_references : Plan → Result (Unit {0})
  unfolding check_owners
  check_references p =
      if is_reference_only p
      then (do
        require
            (not (is_empty p.reference_bindings)
              && (p.reference_manifest_sha256 == some (digests.of_references p.reference_bindings)))
            "reference-only needs a bound reference manifest"
        require (is_unique (reference_ids p.reference_bindings)) "duplicate reference identity"
        require (same_members (reference_ids p.reference_bindings) (planned_ids p.artifacts))
            "reference scope/identity mismatch"
        require (disjoint (payloads p.reference_bindings) (planned_ids p.artifacts))
            "reference-only cannot transfer payload canonical ownership"
        require (subset (payloads p.reference_bindings) p.external_parent_ids)
            "reference payload parent closure missing"
        check_owners p.reference_bindings [])
      else require ((p.reference_manifest_sha256 == none) && is_empty p.reference_bindings)
          "physical plan cannot silently use reference-only bindings"

  unfoldable pub plan_errors : Unicode → MigrationPlan → Result (Unit {0})
  unfolding overlapping one_revision_each check_artifact each parent_graph check_parents
      check_references
  plan_errors unicode value = do
    let p = value.plan
    require (digests.of_plan p == value.plan_sha256) "approved plan digest mismatch"
    require (not (p.source.partition_id == p.destination.partition_id)) "same partition"
    require
        (not (
          (p.source.host_id == p.destination.host_id)
          && related_paths (unicode.casefold p.source.root) (unicode.casefold p.destination.root)))
        "nested source/destination roots"
    relative_path unicode p.source.root
    relative_path unicode p.destination.root
    unique_paths unicode p.scope_paths
    require (not (overlapping unicode.casefold p.scope_paths)) "overlapping scope paths"
    require (one_revision_each p.artifacts) "duplicate artifact revision"
    each (check_artifact unicode p) p.artifacts
    require (disjoint p.shared_records (planned_ids p.artifacts))
        "shared canonical record cannot be transferred"
    checked ← check_parents digests.recursion_limit (parent_graph p.artifacts [])
    each (check_export p) p.scoped_exports
    require ((p.transfer_mode == "copy") && p.retain_original) "archive must be retained and copied"
    require (p.overlap_check_required && p.stale_and_offline_check_required)
        "writer boundary checks required"
    check_references p
