-- ===== src/MultiAgent/Coordinator/Merging.antt =====
-- `AgentCoordinator.merge` against the list of all artifacts that the merged tasks contribute.
use mathlib.Core.Path.{fun_ext}
use mathlib.Core.List.{append_assoc, append-nil}
use trace_gate_framework.Prelude.{
  String, Bool, ◌≡◌, refl, sym, ap, ◌∙◌, ◌&&◌, true, false, Option, none, some, List, [], ◌∷◌, ◌++◌,
  arith, string_Eq, option_Eq, all, is_empty, ok, err, Error, key_error, value_error, concat,
  Option-cases, Bool-cases, inl, inr,
}
use trace_gate_framework.Prelude.Dict.{Dict, lookup}
use trace_gate_framework.MultiAgent.Coordinator.{
  TaskState, AgentCoordinator, Merge, MergeReport, merge_artifacts, merge_tasks, merge,
  is_completed, no_merge,
}
use trace_gate_framework.MultiAgent.Coordinator.MergeLoop.{
  or_else-none, or_else_assoc, agrees, view_after, lookup-append, agrees-append, agrees_view,
  and_assoc, is_empty-merge_artifacts, lookup-merge_artifacts, evidence-merge_artifacts, and_true,
}

abbrev artifacts_of : Option TaskState → Dict String
artifacts_of none = []
artifacts_of (some t) = t.artifacts

abbrev refs_of : Option TaskState → List String
refs_of none = []
refs_of (some t) = t.evidence_refs

abbrev is_done : Option TaskState → Bool
is_done none = false
is_done (some t) = is_completed t.status

-- All artifacts of the listed tasks, in the order of the merge.
unfoldable pub contributions : Dict TaskState → List String → Dict String
contributions tasks [] = []
contributions tasks (k ∷ ks) = artifacts_of (lookup k tasks) ++ contributions tasks ks

-- All evidence of the listed tasks, in the order of the merge.
unfoldable pub evidence_of : Dict TaskState → List String → List String
evidence_of tasks [] = []
evidence_of tasks (k ∷ ks) = refs_of (lookup k tasks) ++ evidence_of tasks ks

-- Every listed task is registered and completed.
unfoldable pub all_completed : Dict TaskState → List String → Bool
all_completed tasks ks = all (λ k. is_done (lookup k tasks)) ks

-- What `merge_tasks` makes of a merge so far.
record Merges (cs : Dict String) (es : List String) (m m' : Merge) : Type 0 where
  found : (q : String) → lookup q m'.artifacts ≡ view_after m cs q
  clean : is_empty m'.conflicts ≡ (is_empty m.conflicts && agrees (view_after m cs) cs)
  cited : m'.evidence_refs ≡ m.evidence_refs ++ es

module _ (id : String) (es : Dict String) (refs : List String) (m : Merge) where
  abbrev merged_task : Merge
  merged_task =
      let merged : Merge = merge_artifacts id es m in
      record merged { evidence_refs = merged.evidence_refs ++ refs }

  view_merged_task : (rest : Dict String) → view_after merged_task rest ≡ view_after m (es ++ rest)
  unfolding view_after
  view_merged_task rest = fun_ext λ q.
      rw (lookup-merge_artifacts id es m q, lookup-append q es rest, view_after)
        (or_else_assoc (lookup q m.artifacts) (lookup q es) (lookup q rest))

  merged_task-Merges :
      (rest : Dict String) (more : List String) (m' : Merge)
      → Merges rest more merged_task m'
      → Merges (es ++ rest) (refs ++ more) m m'
  merged_task-Merges rest more m' h = record {
    found = λ q. h.found q ∙ ap (λ (f : String → Option String). f q) (view_merged_task rest);
    clean =
        h.clean
        ∙ rw
            (
              view_merged_task rest,
              is_empty-merge_artifacts id es m,
              agrees_view m es rest,
              agrees-append,
            )
            (and_assoc (is_empty m.conflicts) _ _);
    cited =
        h.cited ∙ rw (evidence-merge_artifacts id es m) (append_assoc m.evidence_refs refs more);
  }

merge_nothing : (m : Merge) → Merges [] [] m m
unfolding agrees view_after all lookup
merge_nothing m = record {
  found = λ q. or_else-none (lookup q m.artifacts);
  clean = and_true (is_empty m.conflicts);
  cited = sym (append-nil m.evidence_refs);
}

merge_tasks-Merges :
    (tasks : Dict TaskState) (ks : List String) (m : Merge)
    → all_completed tasks ks ≡ true
    → (m' : Merge) × (merge_tasks tasks ks m ≡ ok m')
      × Merges (contributions tasks ks) (evidence_of tasks ks) m m'
unfolding merge_tasks all_completed contributions evidence_of all
merge_tasks-Merges tasks [] m h = (m, refl, merge_nothing m)
merge_tasks-Merges tasks (k ∷ ks) m h = elim (Option-cases (lookup k tasks)) [
  | inl e ↦ absurd (ground arith)
  | inr (t, e) ↦
      let after : Merge = merged_task k t.artifacts t.evidence_refs m in
      let (m', go, spec) = merge_tasks-Merges tasks ks after (ground arith) in
      (
        m',
        rw e (ground (arith, go)),
        rw e (
            merged_task-Merges k t.artifacts t.evidence_refs m (contributions tasks ks)
              (evidence_of tasks ks) m' spec),
      )
]

merge_tasks-err :
    (tasks : Dict TaskState) (ks : List String) (m : Merge)
    → all_completed tasks ks ≡ false
    → (e : Error) × (merge_tasks tasks ks m ≡ err e)
unfolding merge_tasks all_completed all
merge_tasks-err tasks [] m h = cc
merge_tasks-err tasks (k ∷ ks) m h = elim (Option-cases (lookup k tasks)) [
  | inl e ↦ (key_error, rw e)
  | inr (t, e) ↦ elim (Bool-cases (is_completed t.status)) [
    | inr n ↦ (value_error (concat "cannot merge non-completed task: " k), rw (e, n))
    | inl y ↦
        let after : Merge = merged_task k t.artifacts t.evidence_refs m in
        let (x, stop) = merge_tasks-err tasks ks after (ground arith) in (x, rw (e, y) stop)
  ]
]

-- The merge of completed tasks returns; it passes exactly when no two contributed artifacts give
-- one path two digests, gives every path its first contributed digest, and cites all evidence.
pub merge_lem :
    (ks : List String) (s : AgentCoordinator)
    → all_completed s.tasks ks ≡ true
    → let cs : Dict String = contributions s.tasks ks in
      (r : MergeReport) × (merge ks s ≡ ok r)
      × (r.passed ≡ agrees (λ path. lookup path cs) cs)
      × ((path : String) → lookup path r.merged.artifacts ≡ lookup path cs)
      × (r.merged.evidence_refs ≡ evidence_of s.tasks ks)
unfolding merge view_after lookup
merge_lem ks s h =
    let (m, go, spec) = merge_tasks-Merges s.tasks ks no_merge h in
    (
      record { passed = is_empty m.conflicts; merged = m },
      rw go,
      spec.clean,
      spec.found,
      spec.cited,
    )

-- A merge that names a task that is missing or not completed raises.
pub merge_refuses :
    (ks : List String) (s : AgentCoordinator)
    → all_completed s.tasks ks ≡ false
    → (e : Error) × (merge ks s ≡ err e)
unfolding merge
merge_refuses ks s h = let (e, stop) = merge_tasks-err s.tasks ks no_merge h in (e, rw stop)
