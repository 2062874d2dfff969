-- ===== src/Contract/Structure.antt =====
-- Structural validation: src/pi/operation_contract/structural.py. The schema check of the third-party
-- package, `ContractPayload.model_validate`, is the parameter `model_validate`, and `json.loads` of a
-- raw document the parameter `loads`.
use g3_voicestock.Base.{
  ℕ, Bool, ◌&&◌, not, Option, none, some, is_none, List, [], ◌∷◌, map, Text, str, text_eq, every,
  Outcome, returned, raised, other, if◌then◌else◌,
}
use g3_voicestock.Json.{Value, obj, get, is_text}
use g3_voicestock.Contract.Payload.{ContractPayload, OperationItem, contract_version_1}
use g3_voicestock.Contract.Rejection.{
  RejectionReason, Verdict, accepted, rejected, invalid_json, invalid_structure,
  unsupported_version, unknown_operation, unknown_unit, no_operations, too_many_operations,
}

-- One part of `issue["loc"]`.
pub data Location : Type 0 where
  key : Text → Location
  index : ℕ → Location

-- The parts of an entry of `ValidationError.errors()` that the source reads.
pub record Issue : Type 0 where
  pub kind : Text
  pub loc : List Location
  pub input_is_text : Bool

pub data Validation : Type 0 where
  valid : ContractPayload → Validation
  invalid : List Issue → Validation

abbrev pub reject : {A : Type 0} → RejectionReason → Verdict A
reject r = rejected (record { reason = r; candidate_ids = [] })

-- `_VOCABULARY_FIELDS.get(location[-1])`, and `none` for an empty location.
unfoldable pub vocabulary_field : List Location → Option RejectionReason
vocabulary_field [] = none
vocabulary_field (index _ ∷ []) = none
vocabulary_field (key k ∷ []) =
    if text_eq k (str "operation")
    then some unknown_operation
    else if text_eq k (str "unit")
    then some unknown_unit
    else none
vocabulary_field (_ ∷ l ∷ rest) = vocabulary_field (l ∷ rest)

unfoldable pub vocabulary_reason : Issue → Option RejectionReason
unfolding vocabulary_field
vocabulary_reason issue =
    if text_eq issue.kind (str "literal_error") && issue.input_is_text
    then vocabulary_field issue.loc
    else none

-- `vocabulary_reasons[0]` when all are present; an empty list of errors would be an `IndexError`.
unfoldable pub first_reason : List (Option RejectionReason) → Outcome (Verdict ContractPayload)
first_reason [] = raised other
first_reason (none ∷ rest) = returned (reject invalid_structure)
first_reason (some r ∷ rest) = returned (reject r)

unfoldable pub rejection_from : List Issue → Outcome (Verdict ContractPayload)
unfolding vocabulary_reason first_reason
rejection_from issues =
    let reasons = map vocabulary_reason issues in
    if every (λ r. not (is_none r)) reasons
    then first_reason reasons
    else returned (reject invalid_structure)

-- The count of operations, `SUPPORTED_OPERATION_COUNT` at most.
unfoldable pub check_count : ContractPayload → List OperationItem → Verdict ContractPayload
check_count p [] = reject no_operations
check_count p (i ∷ []) = accepted p
check_count p (i ∷ j ∷ rest) = reject too_many_operations

-- What follows the schema check: its errors become a reason, and the operations are counted.
unfoldable pub after_schema : Validation → Outcome (Verdict ContractPayload)
unfolding rejection_from check_count
after_schema (invalid issues) = rejection_from issues
after_schema (valid p) = returned (check_count p p.operations)

module _ (model_validate : Value → Validation) where
  unfoldable pub validate_fields : Value → Option Value → Outcome (Verdict ContractPayload)
  unfolding after_schema
  validate_fields whole none = returned (reject invalid_structure)
  validate_fields whole (some version) =
      if is_text contract_version_1 (some version)
      then after_schema (model_validate whole)
      else returned (reject unsupported_version)

  unfoldable pub validate_structure : Value → Outcome (Verdict ContractPayload)
  unfolding validate_fields get
  validate_structure (obj fields) =
      validate_fields (obj fields) (get (str "contract_version") fields)
  validate_structure _ = returned (reject invalid_structure)

  unfoldable pub validate_structure_json :
      {Raw : Type 0} → (Raw → Option Value) → Raw → Outcome (Verdict ContractPayload)
  unfolding validate_structure
  validate_structure_json loads raw = elim (loads raw) [
    | none ↦ returned (reject invalid_json)
    | some v ↦ validate_structure v
  ]
