-- ===== src/Migration/Validation.antt =====
-- migration.py: `transaction_errors`. A check that fails raises, and nothing else is returned.
use trace_gate_framework.Prelude.{
  ℕ, String, string_Eq, option_Eq, nat_Eq, list_Eq, bool_Eq, Bool, true, false, not, ◌&&◌, ◌||◌,
  ◌==◌, Option, none, some, List, [], ◌∷◌, ◌++◌, map, if◌then◌else◌, all, contains, subset,
  is_unique, leb, Result, ok, ◌>>=◌, ◌>>◌,
}
use trace_gate_framework.Prelude.Dict.{Dict, lookup, insert}
use trace_gate_framework.Migration.{
  Stage, planned, migrating_frozen, packaged, delivered, relocated, received_complete,
  cutover_pending, completed, Phase, stage, phase_Eq, EvidenceReceipt, CutoverReceipt, Transaction,
  require, rank,
}
use trace_gate_framework.Migration.Plans.{PlanDigests, is_reference_only}

pub record Digests : Type 0 where
  pub plans : PlanDigests
  -- `digest` of a receipt without its own digest, and of a receipt of evidence.
  pub of_cutover : CutoverReceipt → String
  pub of_evidence : EvidenceReceipt → String
  -- `sorted` of texts
  pub sort_texts : List String → List String

-- The stage of the phase, or the last verified one.
abbrev pub reached_by : Phase → Stage → Stage
reached_by (stage s) verified = s
reached_by _ verified = verified

abbrev pub reached : Transaction → Stage
reached t = reached_by t.phase t.last_verified_phase

abbrev pub phase_verified : Phase → Stage → Bool
phase_verified (stage s) verified = rank verified == rank s
phase_verified _ verified = true

unfoldable pub check_phase : Transaction → Result (Unit {0})
check_phase t = do
  let p = t.migration_plan.plan
  require (t.transaction_id == p.transaction_id) "transaction identity mismatch"
  require (t.idempotency_key == p.idempotency_key) "idempotency mismatch"
  require (leb (rank t.last_verified_phase) (rank (reached t))) "last verified phase ahead of state"
  require (phase_verified t.phase t.last_verified_phase)
      "normal phase must be verified, not merely attempted"

abbrev pub receipt_ids : List EvidenceReceipt → List String
receipt_ids receipts = map (λ (r : EvidenceReceipt). r.evidence_id) receipts

abbrev is_bound : Transaction → EvidenceReceipt → Bool
is_bound t r =
    (r.transaction_id == t.transaction_id)
    && (r.plan_sha256 == t.migration_plan.plan_sha256)
    && (r.scope_sha256 == t.migration_plan.plan.scope_sha256)

abbrev has_kind : String → Option EvidenceReceipt → Bool
has_kind kind none = false
has_kind kind (some r) = r.kind == kind

unfoldable pub check_superseded :
    Dict EvidenceReceipt → EvidenceReceipt → List String → Result (Unit {0})
check_superseded seen r [] = ok tt
check_superseded seen r (previous ∷ ids) = do
  require (has_kind r.kind (lookup previous seen)) "invalid evidence supersession/closure"
  require (r.result == "pass") "failed correction cannot supersede evidence"
  check_superseded seen r ids

-- The loop over the receipts, which returns `superseded`.
unfoldable pub superseded_by :
    List EvidenceReceipt → Dict EvidenceReceipt → List String → Result (List String)
unfolding check_superseded
superseded_by [] seen superseded = ok superseded
superseded_by (r ∷ receipts) seen superseded = do
  check_superseded seen r r.supersedes_evidence_ids
  superseded_by receipts (insert r.evidence_id r seen) (superseded ++ r.supersedes_evidence_ids)

unfoldable pub effective : List String → List EvidenceReceipt → List EvidenceReceipt
effective superseded [] = []
effective superseded (r ∷ receipts) =
    let rest = effective superseded receipts in
    if contains r.evidence_id superseded then rest else r ∷ rest

unfoldable pub passed_kinds : List EvidenceReceipt → List String
passed_kinds [] = []
passed_kinds (r ∷ receipts) =
    let rest = passed_kinds receipts in if r.result == "pass" then r.kind ∷ rest else rest

-- `REQUIRED`
abbrev required_kinds : Stage → List String
required_kinds planned = []
required_kinds migrating_frozen =
    "scope_verified" ∷ "dependency_verified" ∷ "writer_quiescence_verified" ∷ "scope_freeze"
    ∷ "backup" ∷ "restore_rehearsal" ∷ []
required_kinds packaged = "package_retained" ∷ []
required_kinds delivered = "delivery_verified" ∷ []
required_kinds relocated = "safe_extraction" ∷ "relocation_verified" ∷ []
required_kinds received_complete = "destination_acceptance" ∷ []
required_kinds cutover_pending = "source_transfer" ∷ "destination_prepared" ∷ []
required_kinds completed = "pointers_verified" ∷ "single_owner_verified" ∷ "cutover_verified" ∷ []

-- `REFERENCE_REQUIRED`
abbrev reference_kinds_required : Stage → List String
reference_kinds_required packaged =
    "reference_manifest_retained" ∷ "reference_access_verified" ∷ "reference_version_verified"
    ∷ "reference_durability_verified" ∷ []
reference_kinds_required delivered = "reference_registration_verified" ∷ []
reference_kinds_required relocated =
    "reference_dependency_verified" ∷ "reference_rollback_verified" ∷ []
reference_kinds_required received_complete = "reference_acceptance" ∷ []
reference_kinds_required s = required_kinds s

abbrev pub requirements : Bool → Stage → List String
requirements true s = reference_kinds_required s
requirements false s = required_kinds s

abbrev pub phases : List Stage
phases =
    planned ∷ migrating_frozen ∷ packaged ∷ delivered ∷ relocated ∷ received_complete
    ∷ cutover_pending ∷ completed ∷ []

-- The kinds that the stages up to one of this rank need.
unfoldable pub needed : Bool → ℕ → List Stage → List String
needed reference last [] = []
needed reference last (s ∷ stages) =
    let rest = needed reference last stages in
    if leb (rank s) last then requirements reference s ++ rest else rest

unfoldable pub check_receipts : Transaction → Result (List EvidenceReceipt)
unfolding superseded_by effective passed_kinds needed
check_receipts t = do
  require (is_unique (receipt_ids t.evidence)) "duplicate evidence id"
  require (all (is_bound t) t.evidence) "evidence binding mismatch"
  superseded ← superseded_by t.evidence [] []
  let current = effective superseded t.evidence
  require
      (subset (needed (is_reference_only t.migration_plan.plan) (rank (reached t)) phases)
        (passed_kinds current))
      "required stage evidence missing or failed"
  ok current

abbrev package_digest : Transaction → Option String
package_digest t =
    if t.package_format == "single_archive"
    then t.archive_sha256
    else if t.package_format == "chunk_set"
    then t.package_set_sha256
    else t.reference_manifest_sha256

-- The kinds of the schema that begin with `reference_`.
abbrev reference_kinds : List String
reference_kinds =
    "reference_acceptance" ∷ "reference_access_verified" ∷ "reference_dependency_verified"
    ∷ "reference_durability_verified" ∷ "reference_manifest_retained"
    ∷ "reference_registration_verified" ∷ "reference_rollback_verified"
    ∷ "reference_version_verified" ∷ []

abbrev is_of_package : Bool → EvidenceReceipt → Bool
is_of_package reference r =
    contains r.kind ("package_retained" ∷ "delivery_verified" ∷ [])
    || (reference && contains r.kind reference_kinds)

abbrev is_digest_of_plan : Transaction → Bool
is_digest_of_plan t =
    if is_reference_only t.migration_plan.plan
    then (package_digest t == t.migration_plan.plan.reference_manifest_sha256)
      && (t.package_set_sha256 == none)
    else (t.reference_manifest_sha256 == none)
      && (not (t.package_format == "single_archive") || (t.package_set_sha256 == none))

unfoldable pub check_package : Transaction → List EvidenceReceipt → Result (Unit {0})
check_package t current =
    if leb 2 (rank (reached t))
    then (do
      let reference = is_reference_only t.migration_plan.plan
      require (reference == (t.package_format == "reference_manifest"))
          "physical/reference-only evidence modes differ"
      require
          (not (package_digest t == none)
            && ((t.package_format == "single_archive") || (t.archive_sha256 == none)))
          "archive/package-set/reference digest required and distinct"
      require (is_digest_of_plan t) (
          if reference
          then "reference manifest binding mismatch"
          else "physical package digest ambiguity")
      require
          (all
            (λ (r : EvidenceReceipt).
              not (is_of_package reference r) || (some r.subject_sha256 == package_digest t))
            current)
          "retained/delivered archive digest mismatch")
    else ok tt
