-- ===== src/Contract/Validator/Acceptance.antt =====
-- What an accepted payload has passed (`OperationValidator` of
-- src/pi/operation_contract/validator.py, over the stages of structural.py and products.py).
use g3_voicestock.Base.{
  ◌≡◌, refl, sym, ap, ◌∙◌, ◌≢◌, true, false, Option, none, some, List, [], ◌∷◌, str, text_eq,
  some_of, is_nonpositive, Outcome, returned, raised, bind, arith, Exc, map,
}
use g3_voicestock.Json.{Value, Fields, obj, get, is_text}
use g3_voicestock.Contract.Payload.{
  ContractPayload, OperationItem, operation_text, unit_text, contract_version_1,
}
use g3_voicestock.Contract.Rejection.{
  Verdict, accepted, rejected, RejectionReason, ValidationRejection,
}
use g3_voicestock.Contract.Catalog.{CatalogProduct, ProductQuery, ProductResolution, identified}
use g3_voicestock.Contract.Structure.{
  Validation, Issue, valid, invalid, after_schema, validate_fields, validate_structure, check_count,
  rejection_from, first_reason, vocabulary_reason,
}
use g3_voicestock.Contract.Validator.{
  ValidatedOperation, display_name, query_of_description, check_identified, check_product,
  check_resolution, validate_first, validate_structured, validate,
}

-- What stands behind an accepted operation: a version 1 object that the schema accepts with exactly
-- one item, the product that the resolver identified for it, and the rules of that product.
pub record Accepted (model_validate : Value → Validation)
    (resolve : ProductQuery → ProductResolution) (payload : Value) (op : ValidatedOperation)
    : Type 0 where
  pub fields : Fields
  pub is_object : payload ≡ obj fields
  pub has_version : is_text contract_version_1 (get (str "contract_version") fields) ≡ true
  pub contract : ContractPayload
  pub schema : model_validate payload ≡ valid contract
  pub item : OperationItem
  pub one_item : contract.operations ≡ item ∷ []
  pub product : CatalogProduct
  pub resolved : (resolve (query_of_description item.product)).status ≡ identified
  pub carried : (resolve (query_of_description item.product)).product ≡ some product
  pub positive : is_nonpositive item.quantity ≡ false
  pub counted : some_of (text_eq (unit_text item.unit)) product.units ≡ true
  pub result : op ≡ record {
    operation = operation_text item.operation;
    product_id = product.product_id;
    product_name = display_name product;
    quantity = item.quantity;
    unit = unit_text item.unit;
  }

first_reason_rejects :
    (l : List (Option RejectionReason)) (p : ContractPayload)
    → first_reason l ≢ returned (accepted p)
unfolding first_reason
first_reason_rejects [] p = λ e. cc
first_reason_rejects (none ∷ l) p = λ e. cc
first_reason_rejects (some r ∷ l) p = λ e. cc

rejection_from_rejects :
    (issues : List Issue) (p : ContractPayload) → rejection_from issues ≢ returned (accepted p)
unfolding rejection_from
rejection_from_rejects issues p e =
    ground (arith, first_reason_rejects (map vocabulary_reason issues) p)

check_count_one :
    (p q : ContractPayload) (l : List OperationItem)
    → check_count p l ≡ accepted q
    → (item : OperationItem) × (l ≡ item ∷ []) × (p ≡ q)
unfolding check_count
check_count_one p q [] h = cc
check_count_one p q (i ∷ []) h = (i, refl, cc)
check_count_one p q (i ∷ j ∷ l) h = cc

after_schema_accepts :
    (v : Validation) (p : ContractPayload)
    → after_schema v ≡ returned (accepted p)
    → (item : OperationItem) × (p.operations ≡ item ∷ []) × (v ≡ valid p)
after_schema_accepts (invalid issues) p h =
    absurd (rejection_from_rejects issues p (unfold after_schema in h))
after_schema_accepts (valid c) p h =
    let (item, e, q) = check_count_one c p c.operations (verdict_of (unfold after_schema in h)) in
    (item, (ap (λ (r : ContractPayload). r.operations) (sym q)) ∙ e, ap valid q)
  where
    verdict_of :
        {a b : Verdict ContractPayload}
        → ◌≡◌ {A = Outcome (Verdict ContractPayload)} (returned a) (returned b)
        → a ≡ b
    verdict_of e = cc

-- What `validate_structure` has found when it accepts.
abbrev pub Structured : (Value → Validation) → Value → ContractPayload → Type 0
Structured mv payload p =
    (fields : Fields) × (payload ≡ obj fields)
    × (is_text contract_version_1 (get (str "contract_version") fields) ≡ true)
    × (mv payload ≡ valid p)
    × (item : OperationItem) × (p.operations ≡ item ∷ [])

module _ (mv : Value → Validation) (p : ContractPayload) where
  validate_fields_accepts :
      (whole : Value) (o : Option Value)
      → validate_fields mv whole o ≡ returned (accepted p)
      → (is_text contract_version_1 o ≡ true) × (after_schema (mv whole) ≡ returned (accepted p))
  unfolding validate_fields
  validate_fields_accepts whole none h = cc
  validate_fields_accepts whole (some v) h = ground arith

  only_object :
      (payload : Value)
      → validate_structure mv payload ≡ returned (accepted p)
      → (fields : Fields) × (payload ≡ obj fields)
        × (validate_fields mv payload (get (str "contract_version") fields) ≡ returned (accepted p))
  unfolding validate_structure
  only_object (obj fields) h = (fields, refl, h)
  only_object Value.null h = cc
  only_object (Value.bool b) h = cc
  only_object (Value.int z) h = cc
  only_object (Value.float t) h = cc
  only_object (Value.text t) h = cc
  only_object (Value.arr xs) h = cc

  pub validate_structure-Structured :
      (payload : Value)
      → validate_structure mv payload ≡ returned (accepted p)
      → Structured mv payload p
  validate_structure-Structured payload h =
      let (fields, e, k) = only_object payload h in
      let (version, after) = validate_fields_accepts payload _ k in
      let (item, one, schema) = after_schema_accepts _ p after in
      (fields, e, version, schema, item, one)

-- What the resolver has returned for an accepted item, and what the rules have found.
module _ (item : OperationItem) (op : ValidatedOperation) where
  check_identified_accepts :
      (p : CatalogProduct)
      → check_identified item p ≡ accepted op
      → (is_nonpositive item.quantity ≡ false)
        × (some_of (text_eq (unit_text item.unit)) p.units ≡ true)
        × (op ≡ record {
          operation = operation_text item.operation;
          product_id = p.product_id;
          product_name = display_name p;
          quantity = item.quantity;
          unit = unit_text item.unit;
        })
  unfolding check_identified
  check_identified_accepts p h = ground arith

  check_product_accepts :
      (o : Option CatalogProduct)
      → check_product item o ≡ returned (accepted op)
      → (p : CatalogProduct) × (o ≡ some p) × (check_identified item p ≡ accepted op)
  unfolding check_product
  check_product_accepts none h = cc
  check_product_accepts (some p) h = (p, refl, cc)

  check_resolution_accepts :
      (r : ProductResolution)
      → check_resolution item r ≡ returned (accepted op)
      → (r.status ≡ identified) × (check_product item r.product ≡ returned (accepted op))
  unfolding check_resolution
  check_resolution_accepts r h = ground arith

never_accepts :
    (r : ValidationRejection) (op : ValidatedOperation)
    → ◌≡◌ {A = Outcome (Verdict ValidatedOperation)}
        (returned (rejected r))
        (returned (accepted op))
    → ⊥
never_accepts r op e = cc

never_accepts_raised :
    {e : Exc} {op : ValidatedOperation}
    → ◌≡◌ {A = Outcome (Verdict ValidatedOperation)} (raised e) (returned (accepted op))
    → ⊥
never_accepts_raised e = cc

module _ (mv : Value → Validation) (resolve : ProductQuery → ProductResolution) (payload : Value)
    (op : ValidatedOperation) where
  first_item :
      (l : List OperationItem) (item : OperationItem)
      → l ≡ item ∷ []
      → validate_first mv resolve l ≡ returned (accepted op)
      → check_resolution item (resolve (query_of_description item.product)) ≡ returned (accepted op)
  unfolding validate_first
  first_item l item e h = rw e at h

  validate_item_accepts :
      (p : ContractPayload)
      → Structured mv payload p
      → validate_first mv resolve p.operations ≡ returned (accepted op)
      → Accepted mv resolve payload op
  validate_item_accepts p (f, is_obj, version, schema, item, one) h =
      let k = first_item p.operations item one h in
      let (status, carried) = check_resolution_accepts item op _ k in
      let (product, e, ok) = check_product_accepts item op _ carried in
      let (pos, counted, result) = check_identified_accepts item op product ok in
      record {
        fields = f;
        is_object = is_obj;
        has_version = version;
        contract = p;
        schema = schema;
        item = item;
        one_item = one;
        product = product;
        resolved = status;
        carried = e;
        positive = pos;
        counted = counted;
        result = result;
      }

  by_structure :
      (o : Outcome (Verdict ContractPayload))
      → validate_structure mv payload ≡ o
      → bind o (validate_structured mv resolve) ≡ returned (accepted op)
      → Accepted mv resolve payload op
  by_structure (raised e) k h = absurd (never_accepts_raised h)
  by_structure (returned (rejected r)) k h =
      absurd (never_accepts r op (unfold validate_structured in h))
  by_structure (returned (accepted p)) k h =
      validate_item_accepts p (validate_structure-Structured mv p payload k)
        (unfold validate_structured in h)

  -- The validator accepts a payload only as the operation that `Accepted` describes.
  pub validate-Accepted :
      validate mv resolve payload ≡ returned (accepted op) → Accepted mv resolve payload op
  validate-Accepted h = by_structure (validate_structure mv payload) refl (unfold validate in h)
