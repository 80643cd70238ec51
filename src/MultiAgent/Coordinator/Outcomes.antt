-- ===== src/MultiAgent/Coordinator/Outcomes.antt =====
-- What the calls of `AgentCoordinator` achieve: scopes, leases and states of the tasks.
use trace_gate_framework.Prelude.{
  ℕ, String, Bool, ◌≡◌, refl, sym, ◌∙◌, true, false, Option, none, some, some-inj, subst, List,
  arith, string_Eq, ◌<◌, contains, subset_lem, ok, err, value_error, concat, eq_refl,
}
use trace_gate_framework.Prelude.Dict.{Dict, lookup, lookup-insert}
use trace_gate_framework.MultiAgent.Paths.{FilePath}
use trace_gate_framework.MultiAgent.Paths.Cover.{Covered, subset-Covered}
use trace_gate_framework.MultiAgent.Leases.{Lease, LeaseRegistry, is_held_by}
use trace_gate_framework.MultiAgent.Coordinator.{
  TaskContract, TaskState, AgentCoordinator, ParentScope, writer, complete, delegate,
  is_cancelled_by, cancel_parent, cancel_tasks, release_writer,
}
use trace_gate_framework.MultiAgent.Coordinator.Delegation.{Delegates, delegate-Delegates}
use trace_gate_framework.MultiAgent.Coordinator.Invariant.{Active, IsConsistent}
use trace_gate_framework.MultiAgent.Coordinator.Cancellation.{
  cancelled_task, lookup-cancel_tasks, contains-ids, lease_freed, release-freed,
}
use trace_gate_framework.MultiAgent.Coordinator.Preservation.{
  done_task, Completes, complete-Completes,
}

-- The lease of a task's writer key, if it has a truthy one.
abbrev pub lease_for : Option String → LeaseRegistry → Option Lease
lease_for none leases = none
lease_for (some key) leases = lookup key leases

-- After a delegation that returns, a location under the reserved write roots of the new task lies
-- under a write root that its parent run had registered, and a tool of its contract is a tool of
-- that parent run.
pub delegate_confines :
    (resolve : String → FilePath) (now : ℕ) (c : TaskContract) (s s' : AgentCoordinator)
    (xs : List FilePath) (location : FilePath) (tool : String)
    → delegate resolve now c s ≡ ok s'
    → lookup c.task_id s'.task_write_roots ≡ some xs
    → Covered location xs
    → contains tool c.allowed_tools ≡ true
    → (parent : ParentScope) × (lookup c.parent_run_id s.parent_scopes ≡ some parent)
      × Covered location parent.write_roots
      × (contains tool parent.allowed_tools ≡ true)
delegate_confines resolve now c s s' xs location tool h r p m = (
  d.parent,
  d.registered,
  subset-Covered location d.writes d.parent.write_roots d.writes_scoped
      (subst (Covered location) (sym same) p),
  subset_lem c.allowed_tools d.parent.allowed_tools tool d.tools_scoped m,
)
  where
    d : Delegates resolve now c s s'
    d = delegate-Delegates resolve now c s s' h

    reserved : lookup c.task_id s'.task_write_roots ≡ some d.writes
    reserved = rw (d.roots, lookup-insert) (rw eq_refl)

    same : d.writes ≡ xs
    same = some-inj (sym reserved ∙ r)

lease_for-none :
    (o : Option String) (l : LeaseRegistry)
    → ((w : String) → o ≡ some w → lookup w l ≡ none)
    → lease_for o l ≡ none
lease_for-none none l h = refl
lease_for-none (some w) l h = h w refl

freed :
    (o : Option String) (k : String) (l : LeaseRegistry)
    → ((w : String) → o ≡ some w → is_held_by k (lookup w l) ≡ true)
    → lease_for o (release_writer o k l) ≡ none
freed none k l h = refl
freed (some w) k l h = release-freed w k l (h w refl)

-- A completion that returns was verified, in time and of a running task; it stores the results,
-- frees the lease of the task's writer key, and a second completion raises.
pub complete_once :
    (now later : ℕ) (k : String) (artifacts more : Dict String) (refs others : List String)
    (passed again : Bool) (s s' : AgentCoordinator)
    → IsConsistent s
    → complete now k artifacts refs passed s ≡ ok s'
    → (t : TaskState) × Active s k t
      × (passed ≡ true)
      × (now < t.contract.expires_at)
      × (lookup k s'.tasks ≡ some (done_task artifacts refs t))
      × (lease_for (writer t.contract.writer_key) s'.leases ≡ none)
      × (complete later k more others again s'
          ≡ err (value_error (concat "task is not running: " "completed")))
unfolding complete
complete_once now later k artifacts more refs others passed again s s' v h = (
  c.task,
  c.active,
  c.verified,
  c.unexpired,
  stored,
  rw c.written
      (freed (writer c.task.contract.writer_key) k s.leases (λ w. v.leased k w c.task c.active)),
  rw stored,
)
  where
    c : Completes now k artifacts refs passed s s'
    c = complete-Completes now k artifacts refs passed s s' h

    stored : lookup k s'.tasks ≡ some (done_task artifacts refs c.task)
    stored = rw (c.written, lookup-insert, eq_refl k)

-- Cancelling a parent stops each of its running tasks that asks for it, reports its id and frees
-- the lease of its writer key.
pub cancel_parent_stops :
    (p k : String) (t : TaskState) (s : AgentCoordinator)
    → IsConsistent s
    → lookup k s.tasks ≡ some t
    → is_cancelled_by p t ≡ true
    → (lookup k (cancel_parent p s).0.tasks ≡ some (cancelled_task t))
      × (contains k (cancel_parent p s).1 ≡ true)
      × (lease_for (writer t.contract.writer_key) (cancel_parent p s).0.leases ≡ none)
unfolding cancel_parent
cancel_parent_stops p k t s v e h = (
  rw (lookup-cancel_tasks p k s.tasks s.leases t e, h),
  rw (contains-ids p k s.tasks s.leases t v.distinct e) h,
  lease_for-none (writer t.contract.writer_key) (cancel_tasks p s.tasks s.leases).leases (λ w o.
      lease_freed p k w s.tasks s.leases t e h o
        (v.leased k w t (record { registered = e; runs = ground arith }) o)),
)

-- Cancelling a parent leaves every other task as it was, and does not report it.
pub cancel_parent_spares :
    (p k : String) (t : TaskState) (s : AgentCoordinator)
    → IsConsistent s
    → lookup k s.tasks ≡ some t
    → is_cancelled_by p t ≡ false
    → (lookup k (cancel_parent p s).0.tasks ≡ some t) × (contains k (cancel_parent p s).1 ≡ false)
unfolding cancel_parent
cancel_parent_spares p k t s v e h = (
  rw (lookup-cancel_tasks p k s.tasks s.leases t e, h),
  rw (contains-ids p k s.tasks s.leases t v.distinct e) h,
)
