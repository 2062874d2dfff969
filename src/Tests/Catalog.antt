-- ===== src/Tests/Catalog.antt =====
-- Product matching and the validator on concrete inputs.
use mathlib.Core.List.{Memᴰ}
use mathlib.Core.List.Memᴰ
use g3_voicestock.Base.{
  ◌≡◌, refl, ap, All, false, not, none, some, List, [], ◌∷◌, map, Text, str, is_space, text_eq,
  arith, pos,
}
use g3_voicestock.Json.{Value, obj, Fields, end}
use g3_voicestock.Contract.Payload.{ContractPayload, version_1, ProductDescription, add_stock, unit}
use g3_voicestock.Contract.Normalize.{Unicode, normalize_attribute, spaced, split_from, join}
use g3_voicestock.Contract.Catalog.{
  name, brand, variant, presentation, ProductQuery, CatalogProduct, ProductResolution, identified,
  match_products, query_attribute, match_wanted, is_candidate, resolution_of, normalized_attributes,
  wanted_from, unknown,
}
use g3_voicestock.Contract.Catalog.Matching.{Matches, match_products_unique}
use g3_voicestock.Contract.Catalog.Complete.{match_products_found}
use g3_voicestock.Contract.Resolver.{new_resolver, product_eq}
use g3_voicestock.Contract.Resolver.Reachable.{new_resolver_lem, NoRepeat, IdentifiesItself}
use g3_voicestock.Contract.Structure.{Validation, valid, invalid}
use g3_voicestock.Contract.Validator.{ValidatedOperation, validate, query_of_description}
use g3_voicestock.Contract.Validator.Acceptance.{Accepted, validate-Accepted}
use g3_voicestock.Contract.Validator.Total.{
  HasErrors, Returns, validate_total, match_products-Carries,
}
use g3_voicestock.Pc.Match.{match_description}
use g3_voicestock.Pc.Match.Agreement.{match_description-match_products, entry_of, match_of_status}

-- Unicode tables for plain ASCII text in lower case.
abbrev pub plain : Unicode
plain = record {
  nfkd = λ s. s;
  is_combining = λ c. false;
  casefold = λ s. s;
  is_alnum = λ c. not (is_space c);
}

abbrev pub rice : CatalogProduct
rice = record {
  product_id = str "p1";
  name = str "arroz";
  brand = some (str "norte");
  variant = none;
  presentation = none;
  units = str "unit" ∷ [];
}

abbrev pub milk : CatalogProduct
milk = record {
  product_id = str "p2";
  name = str "leche";
  brand = none;
  variant = none;
  presentation = none;
  units = str "unit" ∷ [];
}

abbrev pub products : List CatalogProduct
products = milk ∷ rice ∷ []

abbrev by_name : Text → ProductQuery
by_name t = record { name = some t; brand = none; variant = none; presentation = none }

rice_found :
    match_products plain (by_name (str " arroz ")) products
    ≡ record { status = identified; product = some rice; candidate_ids = [] }
unfolding match_products match_wanted is_candidate resolution_of normalized_attributes wanted_from
    normalize_attribute spaced split_from join is_space text_eq
rice_found = refl

bread_unknown :
    match_products plain (by_name (str "pan")) products
    ≡ record { status = unknown; product = none; candidate_ids = [] }
unfolding match_products match_wanted is_candidate resolution_of normalized_attributes wanted_from
    normalize_attribute spaced split_from join is_space text_eq
bread_unknown = refl

match_products_unique_example :
    Memᴰ rice products
    × Matches plain (query_attribute (by_name (str " arroz "))) rice
    × ((r : CatalogProduct)
        → Memᴰ r products
        → Matches plain (query_attribute (by_name (str " arroz "))) r
        → r ≡ rice)
match_products_unique_example =
    match_products_unique plain (by_name (str " arroz ")) products rice
      (ap (λ (r : ProductResolution). r.product) rice_found)

arroz : normalize_attribute plain (some (str " arroz ")) ≡ some (str "arroz")
unfolding normalize_attribute spaced split_from join is_space
arroz = refl

rice-Matches : Matches plain (query_attribute (by_name (str " arroz "))) rice
unfolding normalize_attribute spaced split_from join is_space
rice-Matches name t h = h
rice-Matches brand t h = cc
rice-Matches variant t h = cc
rice-Matches presentation t h = cc

milk_differs : ¬ (normalize_attribute plain (some (str "leche")) ≡ some (str "arroz"))
unfolding normalize_attribute spaced split_from join is_space
milk_differs h = ground arith

no_other :
    (r : CatalogProduct)
    → Memᴰ r (milk ∷ [])
    → ¬ Matches plain (query_attribute (by_name (str " arroz "))) r
no_other r m h = milk_differs (rw (Memᴰ.eq_of_singleton m) at (h name (str "arroz") arroz))

match_products_found_example :
    match_products plain (by_name (str " arroz ")) (milk ∷ rice ∷ [])
    ≡ record { status = identified; product = some rice; candidate_ids = [] }
match_products_found_example =
    match_products_found plain (by_name (str " arroz ")) (str "arroz") rice (milk ∷ []) [] arroz
      rice-Matches no_other

new_resolver_example :
    (products ≡ products)
    × NoRepeat (map (λ p. p.product_id) products)
    × All (IdentifiesItself plain products) products
unfolding new_resolver product_eq match_products match_wanted is_candidate resolution_of
    normalized_attributes wanted_from normalize_attribute spaced split_from join is_space text_eq
new_resolver_example = new_resolver_lem plain products products refl

abbrev described : ProductDescription
described = record { name = str "arroz"; brand = none; variant = none; presentation = none }

match_description-match_products_example :
    match_description plain described (entry_of milk ∷ entry_of rice ∷ [])
    ≡ match_of_status (match_products plain (query_of_description described) products).status
match_description-match_products_example = match_description-match_products plain described products

abbrev contract : ContractPayload
contract = record {
  contract_version = version_1;
  operations =
      record { operation = add_stock; product = described; quantity = pos 12; unit = unit } ∷ [];
}

-- A schema check that accepts an object as `contract`.
abbrev schema : Value → Validation
schema (obj fields) = valid contract
schema _ = invalid (record { kind = str "model_type"; loc = []; input_is_text = false } ∷ [])

schema-HasErrors : HasErrors schema
schema-HasErrors (obj fields) = λ e. cc
schema-HasErrors Value.null = λ e. cc
schema-HasErrors (Value.bool b) = λ e. cc
schema-HasErrors (Value.int z) = λ e. cc
schema-HasErrors (Value.float t) = λ e. cc
schema-HasErrors (Value.text t) = λ e. cc
schema-HasErrors (Value.arr xs) = λ e. cc

abbrev resolve : ProductQuery → ProductResolution
resolve q = match_products plain q products

abbrev version : Text → Value
version t = obj (Fields.field (str "contract_version") (Value.text t) end)

abbrev op : ValidatedOperation
op = record {
  operation = str "add_stock";
  product_id = str "p1";
  product_name = str "arroz norte";
  quantity = pos 12;
  unit = str "unit";
}

validate-Accepted_example : Accepted schema resolve (version (str "1")) op
unfolding validate text_eq match_products normalize_attribute is_space resolution_of is_candidate
validate-Accepted_example = validate-Accepted schema resolve (version (str "1")) op refl

validate_total_example : Returns (validate schema resolve (version (str "2")))
validate_total_example =
    validate_total schema resolve schema-HasErrors (match_products-Carries plain products)
      (version (str "2"))
