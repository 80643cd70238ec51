-- ===== src/MultiAgent/Coordinator/Safety.antt =====
-- Histories of `AgentCoordinator` calls: every one keeps the coordinator consistent, so no two
-- running tasks can write one location or hold one writer key.
use trace_gate_framework.Prelude.{
  ℕ, String, ◌≡◌, inl, inr, Bool, some, List, Bool-cases, string_Eq, ◌==◌, string_eq_iff, eq_ne, ok,
  subst,
}
use trace_gate_framework.Prelude.Dict.{Dict, lookup}
use trace_gate_framework.MultiAgent.Paths.{FilePath}
use trace_gate_framework.MultiAgent.Paths.Cover.{Covered}
use trace_gate_framework.MultiAgent.Leases.Laws.{is_held_by_unique}
use trace_gate_framework.MultiAgent.Coordinator.{
  TaskContract, TaskState, AgentCoordinator, writer, new_coordinator, complete, delegate,
  register_parent_scope, cancel_parent,
}
use trace_gate_framework.MultiAgent.Coordinator.Invariant.{
  Active, Reserved, IsConsistent, IsConsistent-new, delegate-IsConsistent,
}
use trace_gate_framework.MultiAgent.Coordinator.Preservation.{
  Winds-IsConsistent, complete-Winds, cancel_parent-Winds, register-Winds,
}

-- One call that returns. A call that raises writes nothing.
pub data Step (s s' : AgentCoordinator) : Type 0 where
  registers :
      (resolve : String → FilePath) (run : String) (reads writes tools : List String)
      → register_parent_scope resolve run reads writes tools s ≡ ok s'
      → Step s s'
  delegates :
      (resolve : String → FilePath) (now : ℕ) (c : TaskContract)
      → delegate resolve now c s ≡ ok s'
      → Step s s'
  completes :
      (now : ℕ) (k : String) (artifacts : Dict String) (refs : List String) (passed : Bool)
      → complete now k artifacts refs passed s ≡ ok s'
      → Step s s'
  cancels : (run : String) → (cancel_parent run s).0 ≡ s' → Step s s'

-- The coordinators that a history of calls leads to.
pub data Reach : AgentCoordinator → Type 0 where
  start : Reach new_coordinator
  next : {s s' : AgentCoordinator} → Reach s → Step s s' → Reach s'

Step-IsConsistent : {s s' : AgentCoordinator} → Step s s' → IsConsistent s → IsConsistent s'
Step-IsConsistent {s} {s'} (registers f run reads writes tools h) v =
    Winds-IsConsistent (register-Winds f run reads writes tools s s' h v) v
Step-IsConsistent (delegates f now c h) v = delegate-IsConsistent f now c v h
Step-IsConsistent (completes now k artifacts refs passed h) v =
    Winds-IsConsistent (complete-Winds now k artifacts refs passed v h) v
Step-IsConsistent (cancels run h) v =
    subst IsConsistent h (Winds-IsConsistent (cancel_parent-Winds run v) v)

-- After any history of calls, the coordinator is consistent.
pub Reach-IsConsistent : {s : AgentCoordinator} → Reach s → IsConsistent s
Reach-IsConsistent start = IsConsistent-new
Reach-IsConsistent (next r step) = Step-IsConsistent step (Reach-IsConsistent r)

-- After any history of calls no location lies under the reserved write roots of two running tasks.
pub one_writer_per_location :
    (s : AgentCoordinator) (k j : String) (xs ys : List FilePath) (location : FilePath)
    → Reach s
    → Reserved s k xs
    → Reserved s j ys
    → Covered location xs
    → Covered location ys
    → k ≡ j
one_writer_per_location s k j xs ys location r p q x y = elim (Bool-cases (k == j)) [
  | inl e ↦ (string_eq_iff k j).0 e
  | inr n ↦ absurd ((Reach-IsConsistent r).separate k j xs ys (eq_ne k j n) p q location x y)
]

-- After any history of calls two running tasks with one truthy writer key are one task.
pub one_task_per_writer_key :
    (s : AgentCoordinator) (k j w : String) (t u : TaskState)
    → Reach s
    → Active s k t
    → Active s j u
    → writer t.contract.writer_key ≡ some w
    → writer u.contract.writer_key ≡ some w
    → k ≡ j
one_task_per_writer_key s k j w t u r a b x y =
    let v = Reach-IsConsistent r in
    is_held_by_unique k j (lookup w s.leases) (v.leased k w t a x) (v.leased j w u b y)
