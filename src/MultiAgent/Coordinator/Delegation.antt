-- ===== src/MultiAgent/Coordinator/Delegation.antt =====
-- What a call of `AgentCoordinator.delegate` that returns has checked and written.
use trace_gate_framework.Prelude.{
  ℕ, String, ◌≡◌, ◌<◌, inl, inr, true, false, some, List, arith, subset, ok, traverse, Result-cases,
  Option-cases, string_Eq,
}
use trace_gate_framework.Prelude.Dict.{lookup, has_key, insert, values}
use trace_gate_framework.MultiAgent.Paths.{FilePath, path_Eq, path_identity}
use trace_gate_framework.MultiAgent.Coordinator.{
  TaskContract, AgentCoordinator, ParentScope, delegate, writer, acquire_writer, check_reservations,
  new_task,
}

module _ (resolve : String → FilePath) (now : ℕ) (c : TaskContract) (s s' : AgentCoordinator) where
  pub record Delegates : Type 0 where
    pub fresh : has_key c.task_id s.tasks ≡ false
    pub unexpired : now < c.expires_at
    pub parent : ParentScope
    pub registered : lookup c.parent_run_id s.parent_scopes ≡ some parent
    pub reads : List FilePath
    pub reads_resolved : traverse (path_identity resolve) c.read_roots ≡ ok reads
    pub writes : List FilePath
    pub writes_resolved : traverse (path_identity resolve) c.write_roots ≡ ok writes
    pub reads_scoped : subset reads parent.read_roots ≡ true
    pub writes_scoped : subset writes parent.write_roots ≡ true
    pub tools_scoped : subset c.allowed_tools parent.allowed_tools ≡ true
    pub unreserved : check_reservations resolve writes s.task_write_roots (values s.tasks) ≡ ok tt
    pub acquired : acquire_writer (writer c.writer_key) c s.leases ≡ ok s'.leases
    pub tasks : s'.tasks ≡ insert c.task_id (new_task c) s.tasks
    pub roots : s'.task_write_roots ≡ insert c.task_id writes s.task_write_roots
    pub scopes : s'.parent_scopes ≡ s.parent_scopes

  pub delegate-Delegates : delegate resolve now c s ≡ ok s' → Delegates
  unfolding delegate
  delegate-Delegates h = elim (Option-cases (lookup c.parent_run_id s.parent_scopes)) [
    | inl e ↦ absurd (ground arith)
    | inr (parent, e) ↦ elim (Result-cases (traverse (path_identity resolve) c.read_roots)) [
      | inl (x, r) ↦ absurd (ground arith)
      | inr (reads, r) ↦ elim (Result-cases (traverse (path_identity resolve) c.write_roots)) [
        | inl (x, w) ↦ absurd (ground arith)
        | inr (writes, w) ↦ record {
          fresh = ground arith;
          unexpired = ground arith;
          parent = parent;
          registered = e;
          reads = reads;
          reads_resolved = r;
          writes = writes;
          writes_resolved = w;
          reads_scoped = ground arith;
          writes_scoped = ground arith;
          tools_scoped = ground arith;
          unreserved = ground arith;
          acquired = ground arith;
          tasks = ground arith;
          roots = ground arith;
          scopes = ground arith;
        }
      ]
    ]
  ]
