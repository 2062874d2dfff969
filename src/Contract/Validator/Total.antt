-- ===== src/Contract/Validator/Total.antt =====
-- The validator answers every payload (`OperationValidator.validate` of
-- src/pi/operation_contract/validator.py).
use g3_voicestock.Base.{
  ◌≡◌, refl, ◌≢◌, ◌∙◌, ap, Exc, keep, Bool, true, false, Option, none, some, List, [], ◌∷◌, arith,
  Outcome, returned, raised, bind, if◌then◌else◌,
}
use g3_voicestock.Json.{Value, obj}
use g3_voicestock.Contract.Payload.{ContractPayload, OperationItem}
use g3_voicestock.Contract.Rejection.{Verdict, accepted, rejected, RejectionReason}
use g3_voicestock.Contract.Catalog.{
  CatalogProduct, ProductQuery, ProductResolution, ResolutionStatus, identified, unknown, ambiguous,
  insufficient_attributes, resolution_of, match_products, is_candidate, normalized_attributes,
  query_attribute,
}
use g3_voicestock.Contract.Normalize.{Unicode}
use g3_voicestock.Contract.Structure.{
  Validation, Issue, valid, invalid, after_schema, validate_fields, validate_structure,
  rejection_from, first_reason,
}
use g3_voicestock.Contract.Validator.{
  check_product, check_resolution, validate_structured, validate,
}
use g3_voicestock.Contract.Validator.Acceptance.{validate_structure-Structured}

abbrev pub Returns : {A : Type 0} → Outcome A → Type 0
Returns {A} o = (a : A) × (o ≡ returned a)

-- `ValidationError.errors()` of the schema package never is an empty list.
abbrev pub HasErrors : (Value → Validation) → Type 0
HasErrors mv = (v : Value) → mv v ≢ invalid []

-- A resolver that identifies a product carries it.
abbrev pub Carries : (ProductQuery → ProductResolution) → Type 0
Carries resolve = (q : ProductQuery) → (resolve q).status ≡ identified → (resolve q).product ≢ none

first_reason-Returns :
    (x : Option RejectionReason) (l : List (Option RejectionReason))
    → Returns (first_reason (x ∷ l))
unfolding first_reason
first_reason-Returns none l = (_, refl)
first_reason-Returns (some r) l = (_, refl)

no_raise : {A : Type 0} {e : Exc} {a : A} → raised e ≡ returned a → ⊥
no_raise h = cc

if-Returns :
    {A : Type 0} (b : Bool) (x y : Outcome A) → Returns x → Returns y → Returns (if b then x else y)
if-Returns true x y h k = h
if-Returns false x y h k = k

rejection_from-Returns : (issues : List Issue) → issues ≢ [] → Returns (rejection_from issues)
unfolding rejection_from
rejection_from-Returns [] h = absurd (h refl)
rejection_from-Returns (i ∷ l) h = if-Returns _ _ _ (first_reason-Returns _ _) (_, refl)

module _ (mv : Value → Validation) (errors : HasErrors mv) where
  after_schema-Returns : (whole : Value) (v : Validation) → mv whole ≡ v → Returns (after_schema v)
  unfolding after_schema
  after_schema-Returns whole (invalid issues) e =
      rejection_from-Returns issues (λ q. errors whole (e ∙ ap invalid q))
  after_schema-Returns whole (valid p) e = (_, refl)

  validate_fields-Returns :
      (whole : Value) (o : Option Value) → Returns (validate_fields mv whole o)
  unfolding validate_fields
  validate_fields-Returns whole none = (_, refl)
  validate_fields-Returns whole (some v) =
      if-Returns _ _ _ (after_schema-Returns whole _ refl) (_, refl)

  validate_structure-Returns : (payload : Value) → Returns (validate_structure mv payload)
  unfolding validate_structure
  validate_structure-Returns (obj fields) = validate_fields-Returns (obj fields) _
  validate_structure-Returns Value.null = (_, refl)
  validate_structure-Returns (Value.bool b) = (_, refl)
  validate_structure-Returns (Value.int z) = (_, refl)
  validate_structure-Returns (Value.float t) = (_, refl)
  validate_structure-Returns (Value.text t) = (_, refl)
  validate_structure-Returns (Value.arr xs) = (_, refl)

check_product-Returns :
    (item : OperationItem) (o : Option CatalogProduct) → o ≢ none → Returns (check_product item o)
unfolding check_product
check_product-Returns item none h = absurd (h refl)
check_product-Returns item (some p) h = (_, refl)

check_resolution-Returns :
    (item : OperationItem) (r : ProductResolution)
    → (r.status ≡ identified → r.product ≢ none)
    → Returns (check_resolution item r)
unfolding check_resolution
check_resolution-Returns item r h = by_status r.status refl
  where
    by_status : (s : ResolutionStatus) → r.status ≡ s → Returns (check_resolution item r)
    by_status identified e = rw (e, check_resolution) (check_product-Returns item r.product (h e))
    by_status unknown e = rw (e, check_resolution) (_, refl)
    by_status ambiguous e = rw (e, check_resolution) (_, refl)
    by_status insufficient_attributes e = rw (e, check_resolution) (_, refl)

module _ (mv : Value → Validation) (resolve : ProductQuery → ProductResolution)
    (errors : HasErrors mv) (carries : Carries resolve) where
  validate_structured-Returns :
      (p : ContractPayload) (item : OperationItem)
      → p.operations ≡ item ∷ []
      → Returns (validate_structured mv resolve (accepted p))
  unfolding validate_structured
  validate_structured-Returns p item one = rw one (check_resolution-Returns item _ (carries _))

  by_structure :
      (payload : Value) (o : Outcome (Verdict ContractPayload))
      → validate_structure mv payload ≡ o
      → Returns o
      → Returns (bind o (validate_structured mv resolve))
  by_structure payload (raised e) k (a, h) = absurd (no_raise h)
  by_structure payload (returned (rejected r)) k h = unfold validate_structured in (_, refl)
  by_structure payload (returned (accepted p)) k h =
      let (f, o, ver, schema, item, one) = validate_structure-Structured mv p payload k in
      validate_structured-Returns p item one

  -- When the schema check never reports an empty list of errors and the resolver carries each product
  -- that it identifies, the validator never raises: each payload is accepted or rejected.
  pub validate_total : (payload : Value) → Returns (validate mv resolve payload)
  unfolding validate
  validate_total payload =
      by_structure payload (validate_structure mv payload) refl
        (validate_structure-Returns mv errors payload)

resolution_of-Carries :
    (l : List CatalogProduct)
    → (resolution_of l).status ≡ identified
    → (resolution_of l).product ≢ none
unfolding resolution_of
resolution_of-Carries [] h = cc
resolution_of-Carries (p ∷ []) h = λ e. cc
resolution_of-Carries (p ∷ q ∷ l) h = cc

-- The matching rule carries the product that it identifies.
pub match_products-Carries :
    (u : Unicode) (products : List CatalogProduct) → Carries (λ q. match_products u q products)
unfolding match_products
match_products-Carries u products q h = ground (
  arith,
  resolution_of-Carries
      (keep (is_candidate u (normalized_attributes u (query_attribute q))) products),
)
