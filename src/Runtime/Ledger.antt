-- ===== src/Runtime/Ledger.antt =====
-- runtime.py: `EventStore.validate`. `sha256` is the hexadecimal digest of a text and `dumps` the canonical
-- JSON text of an event without its digest. The lines of the file are read as the events they hold.
pub mod Store
pub mod Scanning
pub mod Tamper
pub mod Appending
pub mod Completion
pub mod Attempts
mod Examples
use trace_gate_framework.Prelude.{
  ℕ, zero, suc, ◌+◌, String, ◌≡◌, Bool, true, false, not, ◌&&◌, ◌||◌, Option, none, some, List, [],
  ◌∷◌, ◌++◌, Eq, ◌==◌, nat_Eq, string_Eq, option_Eq, if◌then◌else◌, any, contains, is_empty, length,
  concat, Result, ok, err, value_error, guard, reject_if, ◌>>=◌, ◌>>◌, head?, last?,
}
use trace_gate_framework.Prelude.Dict.{Dict, lookup, has_key, insert}
use trace_gate_framework.Runtime.Events.{
  Effect, read, effect_Eq, Action, answer, Attempt, Observation, Verdict, Start, Body, run_started,
  model_action, attempt_started, tool_observation, verification, run_completed, unknown, Unsigned,
  Event,
}

abbrev is_unknown : Body → Bool
is_unknown (unknown kind) = true
is_unknown _ = false

abbrev pub is_start : Body → Bool
is_start (run_started start) = true
is_start _ = false

abbrev pub is_completion : Body → Bool
is_completion (run_completed ans) = true
is_completion _ = false

abbrev pub is_answer : Body → Bool
is_answer (model_action (answer content)) = true
is_answer _ = false

abbrev is_passed : Body → Bool
is_passed (verification verdict) = verdict.passed
is_passed _ = false

abbrev last_is : (Body → Bool) → Option Event → Bool
last_is test none = false
last_is test (some e) = test e.body

abbrev started_at_version : Option Event → Option ℕ
started_at_version none = none
started_at_version (some e) = elim e.body [ run_started start ↦ start.runtime_version | _ ↦ none ]

-- `attempts[e["attempt_id"]] = e`
abbrev put_attempt : Body → Dict Attempt → Dict Attempt
put_attempt (attempt_started attempt) attempts = insert attempt.attempt_id attempt attempts
put_attempt _ attempts = attempts

unfoldable pub collect_attempts : List Event → Dict Attempt → Dict Attempt
collect_attempts [] attempts = attempts
collect_attempts (e ∷ run) attempts = collect_attempts run (put_attempt e.body attempts)

abbrev pub attempts_of : List Event → Dict Attempt
attempts_of run = collect_attempts run []

abbrev observed_id : Body → List (Option String) → List (Option String)
observed_id (tool_observation observation) ids = observation.attempt_id ∷ ids
observed_id _ ids = ids

unfoldable pub observed_of : List Event → List (Option String)
observed_of [] = []
observed_of (e ∷ run) = observed_id e.body (observed_of run)

abbrev latest_answer : Body → Option String → Option String
latest_answer (model_action (answer content)) before = some content
latest_answer _ before = before

unfoldable pub last_answer : List Event → Option String → Option String
last_answer [] before = before
last_answer (e ∷ run) before = last_answer run (latest_answer e.body before)

abbrev attempt_for : Option String → Dict Attempt → Option Attempt
attempt_for none attempts = none
attempt_for (some id) attempts = lookup id attempts

unfoldable pub unresolved : List (Option String) → Dict Attempt → Bool
unresolved observed [] = false
unresolved observed ((key, a) ∷ attempts) =
    (not (a.effect == read) && not (contains (some key) observed)) || unresolved observed attempts

-- `answers and event.get("answer") == answers[-1]["action"]["content"]`
abbrev completion_bound : Option String → Option String → Bool
completion_bound none ans = false
completion_bound (some content) ans = ans == some content

-- The state of the loop of `validate`.
pub record Scan : Type 0 where
  pub position : ℕ
  pub previous : Option String
  pub per_run : Dict (List Event)

abbrev pub scan_start : Scan
scan_start = record { position = 1; previous = none; per_run = [] }

abbrev pub run_of : Option (List Event) → List Event
run_of none = []
run_of (some run) = run

abbrev head_digest : Option Event → Option String
head_digest none = none
head_digest (some e) = some e.digest

module _ (sha256 : String → String) (dumps : Unsigned → String) where
  -- `_digest` of a JSON value, which stands as its canonical text.
  unfoldable pub digest_text : String → String
  digest_text text = concat "sha256:" (sha256 text)

  unfoldable pub digest_event : Unsigned → String
  unfolding digest_text
  digest_event u = digest_text (dumps u)

  abbrev attempt_matches : Option Attempt → Observation → Bool
  attempt_matches none o = false
  attempt_matches (some a) o =
      (a.tool_id == o.tool_id)
      && (a.effect == o.effect)
      && (o.output_digest == digest_text o.output)

  unfoldable pub check_body : List Event → Body → Result (Unit {0})
  check_body run (attempt_started a) =
      reject_if (has_key a.attempt_id (attempts_of run)) (value_error "duplicate attempt identity")
  check_body run (tool_observation o) =
      reject_if
        ((started_at_version (head? run) == some 2)
          && not (
              attempt_matches (attempt_for o.attempt_id (attempts_of run)) o
              && not (contains o.attempt_id (observed_of run))))
        (value_error "observation attempt/output binding mismatch")
  check_body run (verification verdict) =
      guard (last_is is_answer (last? run)) (value_error "verification requires candidate answer")
  check_body run (run_completed ans) = do
    reject_if (unresolved (observed_of run) (attempts_of run))
        (value_error "unresolved mutation attempts cannot complete")
    guard (last_is is_passed (last? run)) (value_error "completion requires verified result")
    guard (completion_bound (last_answer run none) ans)
        (value_error "completion answer binding mismatch")
  check_body run _ = ok tt

  unfoldable pub check_event : List Event → Body → Result (Unit {0})
  check_event run body = do
    reject_if (is_unknown body) (value_error "unknown event type")
    reject_if (is_empty run && not (is_start body)) (value_error "run must begin with run_started")
    reject_if (last_is is_completion (last? run)) (value_error "completed run is terminal")
    reject_if (not (is_empty run) && is_start body) (value_error "duplicate run start")
    check_body run body

  -- One round of the loop of `validate`.
  unfoldable pub scan_event : Event → Scan → Result Scan
  scan_event e s = do
    guard
        ((e.sequence == s.position)
          && (e.previous_digest == s.previous)
          && (e.digest == digest_event e.unsigned))
        (value_error "event chain integrity mismatch")
    let run : List Event = run_of (lookup e.run_id s.per_run)
    check_event run e.body
    ok (record {
      position = s.position + 1;
      previous = some e.digest;
      per_run = insert e.run_id (run ++ e ∷ []) s.per_run;
    })

  unfoldable pub scan : List Event → Scan → Result Scan
  scan [] s = ok s
  scan (e ∷ events) s = do next ← scan_event e s; scan events next

  -- `validate(check_disk=False)`
  unfoldable pub validate : List Event → Result (Unit {0})
  validate events = do scanned ← scan events scan_start; ok tt
