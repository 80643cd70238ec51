-- ===== src/Migration/Receipts.antt =====
-- migration.py: `package_errors`, `relocation_errors`, `cutover_errors` and `compensation_errors`. A
-- check that fails raises, and nothing else is returned.
use trace_gate_framework.Prelude.{
  ℕ, String, string_Eq, option_Eq, nat_Eq, list_Eq, bool_Eq, Bool, true, false, not, ◌&&◌, ◌||◌,
  ◌==◌, Option, none, some, List, [], ◌∷◌, map, if◌then◌else◌, any, all, contains, is_unique,
  is_empty, ltb, Result, ok, ◌>>◌,
}
use trace_gate_framework.Migration.{Text, Owner, CutoverReceipt, require}
use trace_gate_framework.Migration.Paths.{
  Unicode, slash, split, relative_path, keep_named, fronts, unique_paths,
}
use trace_gate_framework.Migration.Plans.{each, same_members}

abbrev pub is_given : Option String → Bool
is_given none = false
is_given (some text) = true

-- TRACE-DM-MANIFEST.json
abbrev manifest_name : Text
manifest_name =
    84 ∷ 82 ∷ 65 ∷ 67 ∷ 69 ∷ 45 ∷ 68 ∷ 77 ∷ 45 ∷ 77 ∷ 65 ∷ 78 ∷ 73 ∷ 70 ∷ 69 ∷ 83 ∷ 84 ∷ 46 ∷ 106
    ∷ 115 ∷ 111 ∷ 110 ∷ []

abbrev but_last : List Text → List Text
but_last [] = []
but_last (x ∷ []) = []
but_last (x ∷ y ∷ xs) = x ∷ but_last (y ∷ xs)

-- The parents of a relative path as texts, without the one that stands for the root.
abbrev parent_texts : Text → List Text
parent_texts name = but_last (fronts [] (keep_named (split slash name)))

-- The paths of the files of a package.
unfoldable pub package_errors : Unicode → List Text → Result (Unit {0})
package_errors unicode names = do
  unique_paths unicode names
  require (not (contains manifest_name names)) "manifest cannot contain its own hash"
  require (not (any (λ name. any (λ p. contains p names) (parent_texts name)) names))
      "file used as parent directory"

pub record Relocation : Type 0 where
  pub artifact_id : String
  pub old_revision_id : String
  pub new_revision_id : String
  pub old_management_revision : String
  pub new_management_revision : String
  pub old_path : Text
  pub new_path : Text
  pub old_sha256 : String
  pub new_sha256 : String
  pub content_changed : Bool

unfoldable pub is_mapped : String → String → List Relocation → Bool
is_mapped id revision [] = false
is_mapped id revision (r ∷ rows) =
    ((r.artifact_id == id) && (r.old_revision_id == revision)) || is_mapped id revision rows

unfoldable pub one_row_each : List Relocation → Bool
unfolding is_mapped
one_row_each [] = true
one_row_each (r ∷ rows) = not (is_mapped r.artifact_id r.old_revision_id rows) && one_row_each rows

unfoldable pub check_row : Unicode → Relocation → Result (Unit {0})
check_row unicode row = do
  relative_path unicode row.old_path
  relative_path unicode row.new_path
  require (not (row.old_management_revision == row.new_management_revision))
      "location change needs management revision"
  require (not (row.old_sha256 == row.new_sha256) == row.content_changed)
      "content change/hash disagreement"
  if row.content_changed
      then require (not (row.old_revision_id == row.new_revision_id))
          "changed content needs derived revision"
      else require (row.old_revision_id == row.new_revision_id) "unchanged payload identity drift"

unfoldable pub relocation_errors : Unicode → List Relocation → Result (Unit {0})
unfolding one_row_each check_row each
relocation_errors unicode rows = do
  require (one_row_each rows) "duplicate relocation identity"
  each (check_row unicode) rows
  unique_paths unicode (map (λ (r : Relocation). r.new_path) rows)

abbrev pub owner_ids : List Owner → List String
owner_ids owners = map (λ (r : Owner). r.artifact_id) owners

abbrev digest_keys : List (String × String) → List String
digest_keys [] = []
digest_keys ((k, d) ∷ entries) = k ∷ digest_keys entries

-- Exactly the digest that the format of the package names is given.
unfoldable pub check_format : CutoverReceipt → Result (Unit {0})
check_format c =
    if c.package_format == "reference_manifest"
    then require
        (not (is_given c.archive_sha256)
          && not (is_given c.package_set_sha256)
          && is_given c.reference_manifest_sha256)
        "reference completion is not physical package delivery"
    else if c.package_format == "chunk_set"
    then require
        (not (is_given c.archive_sha256)
          && is_given c.package_set_sha256
          && not (is_given c.reference_manifest_sha256))
        "chunk-set requires distinct package-set digest"
    else require
        (is_given c.archive_sha256
          && not (is_given c.package_set_sha256)
          && not (is_given c.reference_manifest_sha256))
        "single archive/set/reference digest ambiguity"

-- The digest is that of the receipt without its own `receipt_sha256`.
unfoldable pub cutover_errors : (CutoverReceipt → String) → CutoverReceipt → Result (Unit {0})
unfolding check_format
cutover_errors body_digest c = do
  require (c.receipt_sha256 == body_digest c) "cutover receipt digest mismatch"
  require (not (c.source_partition == c.destination_partition)) "same cutover partition"
  require (ltb c.expected_epoch c.new_epoch) "owner epoch must increase"
  require (c.source_preservation_frozen && c.destination_accepted && c.bilateral_verified)
      "bilateral cutover incomplete"
  require (is_unique (owner_ids c.owners)) "multiple canonical owners"
  require (all (λ (r : Owner). r.partition_id == c.destination_partition) c.owners)
      "incorrect final owner"
  require (same_members (digest_keys c.evidence_sha256) c.evidence_ids)
      "cutover evidence digest coverage"
  check_format c

pub record Compensation : Type 0 where
  pub original_transaction_id : String
  pub compensation_transaction_id : String
  pub destination_quiesced : Bool
  pub new_data_present : Bool
  pub new_data_preserved : Bool
  pub new_data_backup_sha256 : Option String
  pub previous_epoch : ℕ
  pub new_epoch : ℕ
  pub restore_verified : Bool
  pub result : String
  pub blockers : List String

unfoldable pub compensation_errors : Compensation → Result (Unit {0})
compensation_errors c = do
  require (not (c.original_transaction_id == c.compensation_transaction_id))
      "compensation needs distinct transaction"
  require (ltb c.previous_epoch c.new_epoch) "compensation epoch must increase"
  if c.result == "pass"
      then (do
        require (is_empty c.blockers && c.destination_quiesced && c.restore_verified)
            "rollback guards unverified"
        if c.new_data_present
            then require (c.new_data_preserved && is_given c.new_data_backup_sha256)
                "new data must be backed up before rollback"
            else ok tt)
      else require (not (is_empty c.blockers)) "blocked rollback needs reason"
