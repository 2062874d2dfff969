-- ===== src/Contract/Validator.antt =====
-- From a payload to a validated operation: src/pi/operation_contract/validator.py.
pub mod Acceptance
pub mod Total
use g3_voicestock.Base.{
  Option, none, some, List, [], ◌∷◌, Text, text_eq, some_of, ℤ, is_nonpositive, Outcome, returned,
  raised, runtime_error, other, bind, if◌then◌else◌,
}
use g3_voicestock.Json.{Value}
use g3_voicestock.Contract.Payload.{
  ContractPayload, OperationItem, ProductDescription, operation_text, unit_text,
}
use g3_voicestock.Contract.Rejection.{
  RejectionReason, Verdict, accepted, rejected, insufficient_product_attributes, unknown_product,
  ambiguous_product, invalid_quantity, incompatible_unit,
}
use g3_voicestock.Contract.Normalize.{join}
use g3_voicestock.Contract.Catalog.{
  CatalogProduct, ProductQuery, ProductResolution, ResolutionStatus, identified, unknown, ambiguous,
  insufficient_attributes, add_part,
}
use g3_voicestock.Contract.Structure.{
  Validation, reject, validate_structure, validate_structure_json,
}

pub record ValidatedOperation : Type 0 where
  pub operation : Text
  pub product_id : Text
  pub product_name : Text
  pub quantity : ℤ
  pub unit : Text

-- `CatalogProduct.display_name`
unfoldable pub display_name : CatalogProduct → Text
unfolding join
display_name p =
    join
      (add_part (some p.name) (add_part p.brand (add_part p.variant (add_part p.presentation []))))

-- `_RESOLUTION_REJECTIONS.get(status)`
abbrev pub resolution_rejection : ResolutionStatus → Option RejectionReason
resolution_rejection insufficient_attributes = some insufficient_product_attributes
resolution_rejection unknown = some unknown_product
resolution_rejection ambiguous = some ambiguous_product
resolution_rejection identified = none

abbrev pub query_of_description : ProductDescription → ProductQuery
query_of_description d = record {
  name = some d.name;
  brand = d.brand;
  variant = d.variant;
  presentation = d.presentation;
}

-- The rules that depend on the identified product.
unfoldable pub check_identified : OperationItem → CatalogProduct → Verdict ValidatedOperation
unfolding display_name
check_identified item p =
    if is_nonpositive item.quantity
    then reject invalid_quantity
    else if some_of (text_eq (unit_text item.unit)) p.units
    then accepted (record {
      operation = operation_text item.operation;
      product_id = p.product_id;
      product_name = display_name p;
      quantity = item.quantity;
      unit = unit_text item.unit;
    })
    else reject incompatible_unit

-- An identified resolution must carry a product.
unfoldable pub check_product :
    OperationItem → Option CatalogProduct → Outcome (Verdict ValidatedOperation)
unfolding check_identified
check_product item none = raised runtime_error
check_product item (some p) = returned (check_identified item p)

unfoldable pub check_resolution :
    OperationItem → ProductResolution → Outcome (Verdict ValidatedOperation)
unfolding check_product
check_resolution item r = elim (resolution_rejection r.status) [
  | some reason ↦ returned (rejected (record { reason = reason; candidate_ids = r.candidate_ids }))
  | none ↦ check_product item r.product
]

-- `resolve` is the `ProductResolver` of the validator.
module _ (model_validate : Value → Validation) (resolve : ProductQuery → ProductResolution) where
  unfoldable pub validate_item : OperationItem → Outcome (Verdict ValidatedOperation)
  unfolding check_resolution
  validate_item item = check_resolution item (resolve (query_of_description item.product))

  -- `result.operations[0]`, which is an `IndexError` on an empty list.
  unfoldable pub validate_first : List OperationItem → Outcome (Verdict ValidatedOperation)
  unfolding validate_item
  validate_first [] = raised other
  validate_first (item ∷ rest) = validate_item item

  unfoldable pub validate_structured :
      Verdict ContractPayload → Outcome (Verdict ValidatedOperation)
  unfolding validate_first
  validate_structured (rejected r) = returned (rejected r)
  validate_structured (accepted p) = validate_first p.operations

  unfoldable pub validate : Value → Outcome (Verdict ValidatedOperation)
  unfolding validate_structured validate_structure
  validate payload = bind (validate_structure model_validate payload) validate_structured

  unfoldable pub validate_json :
      {Raw : Type 0} → (Raw → Option Value) → Raw → Outcome (Verdict ValidatedOperation)
  unfolding validate_structured validate_structure_json
  validate_json loads raw =
      bind (validate_structure_json model_validate loads raw) validate_structured
