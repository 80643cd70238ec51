-- ===== src/Runtime/Ledger/Store.antt =====
-- runtime.py: `EventStore`, opening and `append`. A write to the ledger file is taken to succeed.
use trace_gate_framework.Prelude.{
  ◌+◌, String, Bool, true, Option, none, some, List, [], ◌∷◌, ◌++◌, ◌==◌, string_Eq, option_Eq,
  list_Eq, length, Result, ok, value_error, guard, ◌>>◌, last?,
}
use trace_gate_framework.Runtime.Events.{Body, Unsigned, Event, event_Eq}
use trace_gate_framework.Runtime.Ledger.{head_digest, digest_event, validate}

-- `path`, and the lines of its file where it exists.
pub data LedgerFile : Type 0 where
  no_path missing : LedgerFile
  lines : List Event → LedgerFile

pub record EventStore : Type 0 where
  pub file : LedgerFile
  pub events : List Event

abbrev pub agrees_with_disk : LedgerFile → List Event → Bool
agrees_with_disk no_path events = true
agrees_with_disk missing events = [] == events
agrees_with_disk (lines disk) events = disk == events

abbrev pub write_line : LedgerFile → Event → LedgerFile
write_line no_path e = no_path
write_line missing e = lines (e ∷ [])
write_line (lines disk) e = lines (disk ++ e ∷ [])

abbrev pub opened_events : LedgerFile → List Event → List Event
opened_events (lines disk) events = disk
opened_events _ events = events

abbrev pub head_matches : Option String → Option String → Bool
head_matches none actual = true
head_matches (some expected) actual = actual == some expected

module _ (sha256 : String → String) (dumps : Unsigned → String) where
  -- `__post_init__`
  unfoldable pub open_store : LedgerFile → List Event → Option String → Result EventStore
  open_store file given expected_head = do
    let events : List Event = opened_events file given
    validate sha256 dumps events
    guard (head_matches expected_head (head_digest (last? events)))
        (value_error "trusted checkpoint head mismatch")
    ok (record { file = file; events = events })

  -- `validate(check_disk=True)`
  unfoldable pub validate_on_disk : EventStore → Result (Unit {0})
  validate_on_disk s = do
    guard (agrees_with_disk s.file s.events)
        (value_error "ledger changed externally; reload and verify")
    validate sha256 dumps s.events

  abbrev pub envelope : List Event → String → Body → Event
  envelope events run_id body =
      let u : Unsigned = record {
        sequence = length events + 1;
        previous_digest = head_digest (last? events);
        run_id = run_id;
        body = body;
      } in
      record { unsigned = u; digest = digest_event sha256 dumps u }

  unfoldable pub append : String → Body → EventStore → Result (String × EventStore)
  append run_id body s = do
    validate_on_disk s
    let e : Event = envelope s.events run_id body
    validate sha256 dumps (s.events ++ e ∷ [])
    ok (e.digest, record { file = write_line s.file e; events = s.events ++ e ∷ [] })
