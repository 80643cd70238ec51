-- ===== src/MultiAgent/Coordinator.antt =====
-- multi_agent.py: `TaskContract`, `TaskState` and `AgentCoordinator`. A call that raises has
-- changed nothing (every raise of a method stands before its first write), so a method returns the
-- new coordinator or the exception. Time and the path resolver are arguments of each call.
pub mod Delegation
pub mod Invariant
pub mod Cancellation
pub mod Preservation
pub mod Safety
pub mod Outcomes
pub mod MergeLoop
pub mod Merging
use trace_gate_framework.Prelude.{
  ℕ, String, ◌≡◌, Bool, true, false, not, ◌&&◌, ◌||◌, Option, none, some, List, [], ◌∷◌, ◌++◌, Eq,
  ◌==◌, string_Eq, if◌then◌else◌, leb, any, is_empty, subset, Result, ok, err, value_error,
  permission_error, concat, guard, reject_if, subscript, traverse, ◌>>=◌, ◌>>◌,
}
use trace_gate_framework.Prelude.Dict.{Dict, lookup, has_key, insert, values}
use trace_gate_framework.MultiAgent.Paths.{FilePath, path_Eq, path_identity, overlaps}
use trace_gate_framework.MultiAgent.Leases.{Lease, LeaseRegistry, acquire, release}

pub record TaskContract : Type 0 where
  pub task_id : String
  pub parent_run_id : String
  pub child_trace_id : String
  pub objective : String
  pub read_roots : List String
  pub write_roots : List String
  pub allowed_tools : List String
  pub writer_key : Option String
  pub expires_at : ℕ
  pub cancel_on_parent_cancel : Bool

pub data Status : Type 0 where
  planned running completed cancelled : Status

abbrev pub is_running : Status → Bool
is_running running = true
is_running _ = false

abbrev pub status_name : Status → String
status_name planned = "planned"
status_name running = "running"
status_name completed = "completed"
status_name cancelled = "cancelled"

pub record TaskState : Type 0 where
  pub contract : TaskContract
  pub status : Status
  pub artifacts : Dict String
  pub evidence_refs : List String

pub record ParentScope : Type 0 where
  pub read_roots : List FilePath
  pub write_roots : List FilePath
  pub allowed_tools : List String

pub record AgentCoordinator : Type 0 where
  pub tasks : Dict TaskState
  pub leases : LeaseRegistry
  pub parent_scopes : Dict ParentScope
  pub task_write_roots : Dict (List FilePath)

abbrev pub new_coordinator : AgentCoordinator
new_coordinator = record { tasks = []; leases = []; parent_scopes = []; task_write_roots = [] }

-- The writer key where it is truthy: neither `None` nor the empty text.
abbrev pub writer : Option String → Option String
writer none = none
writer (some key) = if key == "" then none else some key

abbrev has_writer : Option String → Bool
has_writer none = false
has_writer (some key) = not (key == "")

unfoldable pub register_parent_scope :
    (String → FilePath)
    → String
    → List String
    → List String
    → List String
    → AgentCoordinator
    → Result AgentCoordinator
register_parent_scope resolve parent_run_id read_roots write_roots allowed_tools s = do
  reads ← traverse (path_identity resolve) read_roots
  writes ← traverse (path_identity resolve) write_roots
  let scope : ParentScope = record {
    read_roots = reads;
    write_roots = writes;
    allowed_tools = allowed_tools;
  }
  ok (record s { parent_scopes = insert parent_run_id scope s.parent_scopes })

abbrev pub any_overlap : List FilePath → List FilePath → Bool
any_overlap active writes = any (λ a. any (λ b. overlaps a b) writes) active

-- The loop of `delegate` over the registered tasks.
unfoldable pub check_reservations :
    (String → FilePath) → List FilePath → Dict (List FilePath) → List TaskState → Result (Unit {0})
check_reservations resolve writes roots [] = ok tt
check_reservations resolve writes roots (task ∷ rest) = do
  active ← subscript (lookup task.contract.task_id roots)
  aliases ← traverse (path_identity resolve) task.contract.write_roots
  reject_if (is_running task.status && any_overlap (active ++ aliases) writes)
      (permission_error (concat "write scope overlaps active task " task.contract.task_id))
  check_reservations resolve writes roots rest

abbrev parent_scope_of : Option ParentScope → Result ParentScope
parent_scope_of none = err (permission_error "parent run scope is not registered")
parent_scope_of (some scope) = ok scope

abbrev pub acquire_writer : Option String → TaskContract → LeaseRegistry → Result LeaseRegistry
acquire_writer none contract leases = ok leases
acquire_writer (some key) contract leases = acquire key contract.task_id contract.expires_at leases

abbrev pub new_task : TaskContract → TaskState
new_task contract = record {
  contract = contract;
  status = running;
  artifacts = [];
  evidence_refs = [];
}

unfoldable pub delegate :
    (String → FilePath) → ℕ → TaskContract → AgentCoordinator → Result AgentCoordinator
delegate resolve now contract s = do
  reject_if (has_key contract.task_id s.tasks)
      (value_error (concat "duplicate task: " contract.task_id))
  reject_if (not (is_empty contract.write_roots) && not (has_writer contract.writer_key))
      (value_error "write-capable subagents require a writer key")
  reject_if (leb contract.expires_at now) (value_error "task lease is already expired")
  parent ← parent_scope_of (lookup contract.parent_run_id s.parent_scopes)
  reads ← traverse (path_identity resolve) contract.read_roots
  writes ← traverse (path_identity resolve) contract.write_roots
  guard (subset reads parent.read_roots) (permission_error "child read scope exceeds parent scope")
  guard (subset writes parent.write_roots)
      (permission_error "child write scope exceeds parent scope")
  guard (subset contract.allowed_tools parent.allowed_tools)
      (permission_error "child tool scope exceeds parent scope")
  check_reservations resolve writes s.task_write_roots (values s.tasks)
  leases ← acquire_writer (writer contract.writer_key) contract s.leases
  ok (record s {
    tasks = insert contract.task_id (new_task contract) s.tasks;
    leases = leases;
    task_write_roots = insert contract.task_id writes s.task_write_roots;
  })

abbrev pub release_writer : Option String → String → LeaseRegistry → LeaseRegistry
release_writer none task_id leases = leases
release_writer (some key) task_id leases = release key task_id leases

unfoldable pub complete :
    ℕ → String → Dict String → List String → Bool → AgentCoordinator → Result AgentCoordinator
complete now task_id artifacts evidence_refs verification_passed s = do
  task ← subscript (lookup task_id s.tasks)
  guard (is_running task.status)
      (value_error (concat "task is not running: " (status_name task.status)))
  reject_if (leb task.contract.expires_at now)
      (permission_error "expired task requires reconciliation")
  guard verification_passed (permission_error "child result requires independent verification")
  let done : TaskState = record task {
    status = completed;
    artifacts = artifacts;
    evidence_refs = evidence_refs;
  }
  ok (record s {
    tasks = insert task_id done s.tasks;
    leases = release_writer (writer task.contract.writer_key) task_id s.leases;
  })

abbrev pub is_cancelled_by : String → TaskState → Bool
is_cancelled_by parent_run_id task =
    (task.contract.parent_run_id == parent_run_id)
    && task.contract.cancel_on_parent_cancel
    && is_running task.status

-- The loop of `cancel_parent`: the tasks, the leases and the cancelled ids after it.
pub record Cancelling : Type 0 where
  pub tasks : Dict TaskState
  pub leases : LeaseRegistry
  pub ids : List String

unfoldable pub cancel_tasks : String → Dict TaskState → LeaseRegistry → Cancelling
cancel_tasks parent_run_id [] leases = record { tasks = []; leases = leases; ids = [] }
cancel_tasks parent_run_id ((task_id, task) ∷ rest) leases =
    let hit : Bool = is_cancelled_by parent_run_id task in
    let after : Cancelling =
      cancel_tasks parent_run_id rest
        (if hit then release_writer (writer task.contract.writer_key) task_id leases else leases) in
    record {
      tasks = (task_id, (if hit then record task { status = cancelled } else task)) ∷ after.tasks;
      leases = after.leases;
      ids = if hit then task_id ∷ after.ids else after.ids;
    }

unfoldable pub cancel_parent : String → AgentCoordinator → AgentCoordinator × List String
cancel_parent parent_run_id s =
    let after : Cancelling = cancel_tasks parent_run_id s.tasks s.leases in
    (record s { tasks = after.tasks; leases = after.leases }, after.ids)

pub record Conflict : Type 0 where
  pub path : String
  pub task_id : String

pub record Merge : Type 0 where
  pub artifacts : Dict String
  pub conflicts : List Conflict
  pub evidence_refs : List String

abbrev merge_artifact : Option String → String → String → String → Merge → Merge
merge_artifact none path digest task_id m = record m { artifacts = insert path digest m.artifacts }
merge_artifact (some seen) path digest task_id m =
    if not (seen == digest)
    then record m { conflicts = m.conflicts ++ record { path = path; task_id = task_id } ∷ [] }
    else record m { artifacts = insert path digest m.artifacts }

unfoldable pub merge_artifacts : String → Dict String → Merge → Merge
merge_artifacts task_id [] m = m
merge_artifacts task_id ((path, digest) ∷ rest) m =
    merge_artifacts task_id rest (merge_artifact (lookup path m.artifacts) path digest task_id m)

abbrev is_completed : Status → Bool
is_completed completed = true
is_completed _ = false

unfoldable pub merge_tasks : Dict TaskState → List String → Merge → Result Merge
merge_tasks tasks [] m = ok m
merge_tasks tasks (task_id ∷ rest) m = do
  task ← subscript (lookup task_id tasks)
  guard (is_completed task.status)
      (value_error (concat "cannot merge non-completed task: " task_id))
  let merged : Merge = merge_artifacts task_id task.artifacts m
  merge_tasks tasks rest
      (record merged { evidence_refs = merged.evidence_refs ++ task.evidence_refs })

abbrev pub no_merge : Merge
no_merge = record { artifacts = []; conflicts = []; evidence_refs = [] }

pub record MergeReport : Type 0 where
  pub passed : Bool
  pub merged : Merge

unfoldable pub merge : List String → AgentCoordinator → Result MergeReport
merge task_ids s = do
  merged ← merge_tasks s.tasks task_ids no_merge
  ok (record { passed = is_empty merged.conflicts; merged = merged })
