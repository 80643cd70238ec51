-- ===== src/Runtime/Ledger/Appending.antt =====
-- `EventStore.append`: what a call that returns has written.
use trace_gate_framework.Prelude.{
  String, ◌≡◌, refl, ap, true, some, List, [], ◌∷◌, ◌++◌, arith, list_eq_iff, ◌==◌, list_Eq, last?,
  ok,
}
use trace_gate_framework.Runtime.Events.{Body, Unsigned, Event, event_Eq}
use trace_gate_framework.Runtime.Ledger.{head_digest, validate}
use trace_gate_framework.Runtime.Ledger.Scanning.{last?-snoc}
use trace_gate_framework.Runtime.Ledger.Store.{
  EventStore, no_path, missing, lines, LedgerFile, append, validate_on_disk, envelope, write_line,
  agrees_with_disk,
}

same_snoc :
    (xs es : List Event) (e : Event) → (xs == es) ≡ true → ((xs ++ e ∷ []) == (es ++ e ∷ [])) ≡ true
same_snoc xs es e h =
    (list_eq_iff (xs ++ e ∷ []) (es ++ e ∷ [])).1
      (ap (λ ys. ys ++ e ∷ []) ((list_eq_iff xs es).0 h))

on_disk_after :
    (file : LedgerFile) (es : List Event) (e : Event)
    → agrees_with_disk file es ≡ true
    → agrees_with_disk (write_line file e) (es ++ e ∷ []) ≡ true
on_disk_after no_path es e h = refl
on_disk_after missing es e h = same_snoc [] es e h
on_disk_after (lines disk) es e h = same_snoc disk es e h

module _ (sha256 : String → String) (dumps : Unsigned → String) where
  module _ (run_id : String) (body : Body) (s s' : EventStore) (digest : String)
      (h : append sha256 dumps run_id body s ≡ ok (digest, s')) where
    append-agrees : agrees_with_disk s.file s.events ≡ true
    unfolding append validate_on_disk
    append-agrees = ground arith

    append-validate :
        validate sha256 dumps (s.events ++ envelope sha256 dumps s.events run_id body ∷ []) ≡ ok tt
    unfolding append
    append-validate = ground arith

    append-writes :
        ((envelope sha256 dumps s.events run_id body).digest ≡ digest)
        × (s'.events ≡ s.events ++ envelope sha256 dumps s.events run_id body ∷ [])
        × (s'.file ≡ write_line s.file (envelope sha256 dumps s.events run_id body))
    unfolding append
    append-writes = ground arith

  -- An append that returns adds one event with the given content behind the others, and leaves an
  -- accepted ledger; the returned digest is its head.
  pub append_lem :
      (run_id : String) (body : Body) (s s' : EventStore) (digest : String)
      → append sha256 dumps run_id body s ≡ ok (digest, s')
      → (e : Event) × (s'.events ≡ s.events ++ e ∷ [])
        × (e.run_id ≡ run_id)
        × (e.body ≡ body)
        × (validate sha256 dumps s'.events ≡ ok tt)
        × (head_digest (last? s'.events) ≡ some digest)
        × (validate_on_disk sha256 dumps s' ≡ ok tt)
  unfolding append
  append_lem run_id body s s' digest h = (
    e,
    written.1,
    refl,
    refl,
    rw written.1 valid,
    rw (written.1, last?-snoc) (ap some written.0),
    rw (written.2, written.1)
        (unfold validate_on_disk in rw (on_disk_after s.file s.events e kept, valid)),
  )
    where
      e : Event
      e = envelope sha256 dumps s.events run_id body

      kept : agrees_with_disk s.file s.events ≡ true
      kept = append-agrees run_id body s s' digest h

      valid : validate sha256 dumps (s.events ++ e ∷ []) ≡ ok tt
      valid = append-validate run_id body s s' digest h

      written :
          (e.digest ≡ digest) × (s'.events ≡ s.events ++ e ∷ []) × (s'.file ≡ write_line s.file e)
      written = append-writes run_id body s s' digest h
