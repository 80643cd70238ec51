-- ===== src/MultiAgent/Leases.antt =====
-- multi_agent.py: `LeaseRegistry`. An instant is a number; the registry only stores it.
pub mod Laws
use trace_gate_framework.Prelude.{
  ℕ, String, ◌≡◌, Bool, true, false, not, Option, none, some, ◌==◌, string_Eq, if◌then◌else◌,
  Result, ok, err, permission_error, concat,
}
use trace_gate_framework.Prelude.Dict.{Dict, lookup, insert, delete}

pub record Lease : Type 0 where
  pub holder : String
  pub expires_at : ℕ

abbrev pub LeaseRegistry : Type 0
LeaseRegistry = Dict Lease

-- `current` is the lease that the key has now, if any.
abbrev acquire_over : Option Lease → String → String → ℕ → LeaseRegistry → Result LeaseRegistry
acquire_over none writer_key task_id expires_at leases =
    ok (insert writer_key (record { holder = task_id; expires_at = expires_at }) leases)
acquire_over (some current) writer_key task_id expires_at leases =
    if not (current.holder == task_id)
    then err (permission_error (concat "writer lease already held by " current.holder))
    else ok (insert writer_key (record { holder = task_id; expires_at = expires_at }) leases)

unfoldable pub acquire : String → String → ℕ → LeaseRegistry → Result LeaseRegistry
acquire writer_key task_id expires_at leases =
    acquire_over (lookup writer_key leases) writer_key task_id expires_at leases

abbrev pub is_held_by : String → Option Lease → Bool
is_held_by task_id none = false
is_held_by task_id (some current) = current.holder == task_id

unfoldable pub release : String → String → LeaseRegistry → LeaseRegistry
release writer_key task_id leases =
    if is_held_by task_id (lookup writer_key leases) then delete writer_key leases else leases
