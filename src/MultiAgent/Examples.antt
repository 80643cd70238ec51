-- ===== src/MultiAgent/Examples.antt =====
-- Runs of the coordinator of multi_agent.py at concrete inputs.
use trace_gate_framework.Prelude.{
  String, ◌≡◌, refl, true, false, none, some, [], ◌∷◌, string_Eq, option_Eq, contains, subset, any,
  ok, err, traverse, value_error, permission_error, concat, Error, ◌<◌, inl, ◌↔◌, all,
}
use trace_gate_framework.Prelude.Dict.{Dict, lookup, has_key, insert, delete}
use trace_gate_framework.MultiAgent.Paths.{FilePath, path_Eq, path_identity, parents, overlaps}
use trace_gate_framework.MultiAgent.Paths.Overlap.{IsBelow, overlaps_iff}
use trace_gate_framework.MultiAgent.Paths.Cover.{Covered}
use trace_gate_framework.MultiAgent.Leases.{Lease, acquire, release}
use trace_gate_framework.MultiAgent.Coordinator.{
  TaskContract, TaskState, ParentScope, new_task, writer, AgentCoordinator, new_coordinator,
  register_parent_scope, delegate, complete, cancel_parent, check_reservations, merge, MergeReport,
}
use trace_gate_framework.MultiAgent.Coordinator.Invariant.{Active, Reserved, IsConsistent}
use trace_gate_framework.MultiAgent.Coordinator.Safety.{
  Reach, start, next, registers, delegates, Reach-IsConsistent, one_writer_per_location,
  one_task_per_writer_key,
}
use trace_gate_framework.MultiAgent.Coordinator.Outcomes.{
  lease_for, delegate_confines, complete_once, cancel_parent_stops, cancel_parent_spares,
}
use trace_gate_framework.MultiAgent.Coordinator.Preservation.{done_task}
use trace_gate_framework.MultiAgent.Coordinator.Cancellation.{cancelled_task}
use trace_gate_framework.MultiAgent.Coordinator.MergeLoop.{agrees}
use trace_gate_framework.MultiAgent.Coordinator.Merging.{
  contributions, evidence_of, all_completed, merge_lem, merge_refuses,
}

-- Two roots, "/docs" and "/src"; every other value resolves below "/other".
abbrev resolve : String → FilePath
resolve value = record { absolute = true; parts = value ∷ [] }

abbrev contract : String → String → TaskContract
contract id root = record {
  task_id = id;
  parent_run_id = "RUN";
  child_trace_id = "TRACE";
  objective = "bounded task";
  read_roots = "docs" ∷ [];
  write_roots = root ∷ [];
  allowed_tools = "read" ∷ [];
  writer_key = some id;
  expires_at = 100;
  cancel_on_parent_cancel = true;
}

abbrev scope : ParentScope
scope = record {
  read_roots = resolve "docs" ∷ [];
  write_roots = resolve "docs" ∷ resolve "src" ∷ [];
  allowed_tools = "read" ∷ [];
}

abbrev registered : AgentCoordinator
registered = record new_coordinator { parent_scopes = ("RUN", scope) ∷ [] }

abbrev first : TaskState
first = new_task (contract "ONE" "docs")

abbrev second : TaskState
second = new_task (contract "TWO" "src")

abbrev lease : String → Lease
lease id = record { holder = id; expires_at = 100 }

abbrev one_task : AgentCoordinator
one_task = record registered {
  tasks = ("ONE", first) ∷ [];
  leases = ("ONE", lease "ONE") ∷ [];
  task_write_roots = ("ONE", resolve "docs" ∷ []) ∷ [];
}

abbrev two_tasks : AgentCoordinator
two_tasks = record registered {
  tasks = ("ONE", first) ∷ ("TWO", second) ∷ [];
  leases = ("ONE", lease "ONE") ∷ ("TWO", lease "TWO") ∷ [];
  task_write_roots = ("ONE", resolve "docs" ∷ []) ∷ ("TWO", resolve "src" ∷ []) ∷ [];
}

abbrev results : Dict String
results = ("README.md", "sha256:one") ∷ []

abbrev first_done : TaskState
first_done = done_task results ("EVD.1" ∷ []) first

abbrev one_done : AgentCoordinator
one_done = record two_tasks {
  tasks = ("ONE", first_done) ∷ ("TWO", second) ∷ [];
  leases = ("TWO", lease "TWO") ∷ [];
}

register_runs :
    register_parent_scope resolve "RUN"
      ("docs" ∷ [])
      ("docs" ∷ "src" ∷ [])
      ("read" ∷ [])
      new_coordinator
    ≡ ok registered
unfolding register_parent_scope traverse path_identity insert
register_runs = refl

first_runs : delegate resolve 1 (contract "ONE" "docs") registered ≡ ok one_task
unfolding delegate has_key lookup traverse path_identity subset contains check_reservations acquire
    insert
first_runs = refl

second_runs : delegate resolve 2 (contract "TWO" "src") one_task ≡ ok two_tasks
unfolding delegate has_key lookup traverse path_identity subset contains check_reservations any
    overlaps parents acquire insert
second_runs = refl

overlap_refused :
    delegate resolve 2 (contract "TWO" "docs") one_task
    ≡ err (permission_error "write scope overlaps active task ONE")
unfolding delegate has_key lookup traverse path_identity subset contains check_reservations any
    overlaps parents
overlap_refused = refl

complete_runs : complete 3 "ONE" results ("EVD.1" ∷ []) true two_tasks ≡ ok one_done
unfolding complete lookup insert release delete
complete_runs = refl

Reach-two : Reach two_tasks
Reach-two =
    next
      (next (next start (registers resolve "RUN" _ _ _ register_runs))
        (delegates resolve 1 _ first_runs))
      (delegates resolve 2 _ second_runs)

first-Active : Active two_tasks "ONE" first
unfolding lookup
first-Active = record { registered = refl; runs = refl }

first-Reserved : Reserved two_tasks "ONE" (resolve "docs" ∷ [])
unfolding lookup
first-Reserved = record { task = first; active = first-Active; roots = refl }

abbrev readme : FilePath
readme = record { absolute = true; parts = "docs" ∷ "README.md" ∷ [] }

readme-Covered : Covered readme (resolve "docs" ∷ [])
readme-Covered = inl (record { anchor = refl; rest = "README.md" ∷ []; parts = refl })

overlaps_iff_example :
    (overlaps readme (resolve "docs") ≡ true)
    ↔ ((c : FilePath) × IsBelow c readme × IsBelow c (resolve "docs"))
overlaps_iff_example = overlaps_iff readme (resolve "docs")

Reach-IsConsistent_example : IsConsistent two_tasks
Reach-IsConsistent_example = Reach-IsConsistent Reach-two

one_writer_per_location_example : first.contract.task_id ≡ first.contract.task_id
one_writer_per_location_example =
    one_writer_per_location two_tasks "ONE" "ONE" (resolve "docs" ∷ []) (resolve "docs" ∷ []) readme
      Reach-two first-Reserved first-Reserved readme-Covered readme-Covered

one_task_per_writer_key_example : first.contract.task_id ≡ first.contract.task_id
one_task_per_writer_key_example =
    one_task_per_writer_key two_tasks "ONE" "ONE" "ONE" first first Reach-two first-Active
      first-Active refl refl

delegate_confines_example :
    (parent : ParentScope) × (lookup "RUN" registered.parent_scopes ≡ some parent)
    × Covered readme parent.write_roots
    × (contains "read" parent.allowed_tools ≡ true)
unfolding lookup contains
delegate_confines_example =
    delegate_confines resolve 1 (contract "ONE" "docs") registered one_task (resolve "docs" ∷ [])
      readme "read" first_runs refl readme-Covered refl

complete_once_example :
    (t : TaskState) × Active two_tasks "ONE" t
    × (true ≡ true)
    × (3 < t.contract.expires_at)
    × (lookup "ONE" one_done.tasks ≡ some (done_task results ("EVD.1" ∷ []) t))
    × (lease_for (writer t.contract.writer_key) one_done.leases ≡ none)
    × (complete 4 "ONE" [] [] true one_done
        ≡ err (value_error (concat "task is not running: " "completed")))
complete_once_example =
    complete_once 3 4 "ONE" results [] ("EVD.1" ∷ []) [] true true two_tasks one_done
      (Reach-IsConsistent Reach-two) complete_runs

cancel_parent_stops_example :
    (lookup "ONE" (cancel_parent "RUN" two_tasks).0.tasks ≡ some (cancelled_task first))
    × (contains "ONE" (cancel_parent "RUN" two_tasks).1 ≡ true)
    × (lease_for (some "ONE") (cancel_parent "RUN" two_tasks).0.leases ≡ none)
unfolding lookup
cancel_parent_stops_example =
    cancel_parent_stops "RUN" "ONE" first two_tasks (Reach-IsConsistent Reach-two) refl refl

cancel_parent_spares_example :
    (lookup "ONE" (cancel_parent "OTHER" two_tasks).0.tasks ≡ some first)
    × (contains "ONE" (cancel_parent "OTHER" two_tasks).1 ≡ false)
unfolding lookup
cancel_parent_spares_example =
    cancel_parent_spares "OTHER" "ONE" first two_tasks (Reach-IsConsistent Reach-two) refl refl

merge_lem_example :
    let cs : Dict String = contributions one_done.tasks ("ONE" ∷ []) in
    (r : MergeReport) × (merge ("ONE" ∷ []) one_done ≡ ok r)
    × (r.passed ≡ agrees (λ path. lookup path cs) cs)
    × ((path : String) → lookup path r.merged.artifacts ≡ lookup path cs)
    × (r.merged.evidence_refs ≡ evidence_of one_done.tasks ("ONE" ∷ []))
unfolding all_completed all lookup
merge_lem_example = merge_lem ("ONE" ∷ []) one_done refl

merge_refuses_example : (e : Error) × (merge ("TWO" ∷ []) one_done ≡ err e)
unfolding all_completed all lookup
merge_refuses_example = merge_refuses ("TWO" ∷ []) one_done refl
