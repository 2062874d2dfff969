-- ===== src/Contract/Resolver.antt =====
-- `InMemoryProductResolver` and `_check_catalog`: src/pi/operation_contract/products.py.

pub mod Reachable
use g3_voicestock.Base.{
  ℕ, suc, Bool, true, false, ◌&&◌, not, Option, none, some, List, [], ◌∷◌, map, Text, text_eq,
  some_of, ltb, Outcome, returned, raised, value_error, type_error, bind, raise_if, if◌then◌else◌,
}
use g3_voicestock.Contract.Normalize.{Unicode}
use g3_voicestock.Contract.Catalog.{
  CatalogProduct, ProductQuery, ProductResolution, Wanted, Attribute, ResolutionStatus, identified,
  name, brand, variant, presentation, option_eq, product_attribute, normalized_attributes,
  match_products,
}

-- `wanted.get(attribute)`
abbrev pub same_attribute : Attribute → Attribute → Bool
same_attribute name name = true
same_attribute brand brand = true
same_attribute variant variant = true
same_attribute presentation presentation = true
same_attribute _ _ = false

unfoldable pub lookup : Attribute → Wanted → Option Text
lookup a [] = none
lookup a ((b, t) ∷ rest) = if same_attribute b a then some t else lookup a rest

-- `ProductQuery(**wanted)`: `name` has no default.
unfoldable pub query_of : Wanted → Outcome ProductQuery
unfolding lookup
query_of w = elim (lookup name w) [
  | none ↦ raised type_error
  | some n ↦ returned (record {
    name = some n;
    brand = lookup brand w;
    variant = lookup variant w;
    presentation = lookup presentation w;
  })
]

-- `==` of the frozen dataclasses.
unfoldable pub texts_eq : List Text → List Text → Bool
texts_eq [] [] = true
texts_eq [] (_ ∷ _) = false
texts_eq (_ ∷ _) [] = false
texts_eq (s ∷ ss) (t ∷ ts) = text_eq s t && texts_eq ss ts

unfoldable pub product_eq : CatalogProduct → CatalogProduct → Bool
unfolding texts_eq
product_eq p q =
    text_eq p.product_id q.product_id
    && (text_eq p.name q.name
        && (option_eq p.brand q.brand
            && (option_eq p.variant q.variant
                && (option_eq p.presentation q.presentation && texts_eq p.units q.units))))

abbrev pub is_identified : ResolutionStatus → Bool
is_identified identified = true
is_identified _ = false

abbrev pub same_product : CatalogProduct → Option CatalogProduct → Bool
same_product p none = false
same_product p (some q) = product_eq q p

-- `resolution == ProductResolution(IDENTIFIED, product=product)`
unfoldable pub is_identified_as : CatalogProduct → ProductResolution → Bool
is_identified_as p r =
    is_identified r.status && (same_product p r.product && texts_eq r.candidate_ids [])

-- `ids.count(item)`
unfoldable pub count : Text → List Text → ℕ
count t [] = 0
count t (s ∷ rest) = let n = count t rest in if text_eq s t then suc n else n

unfoldable pub has_duplicates : List Text → Bool
unfolding count
has_duplicates ids = some_of (λ item. ltb 1 (count item ids)) ids

module _ (u : Unicode) where
  -- One turn of the comprehension: is the product identified by its own attributes?
  unfoldable pub is_reachable : CatalogProduct → List CatalogProduct → Outcome Bool
  unfolding query_of normalized_attributes is_identified_as
  is_reachable p products =
      bind (query_of (normalized_attributes u (product_attribute p)))
        (λ q. returned (is_identified_as p (match_products u q products)))

  -- `not unreachable`
  unfoldable pub all_reachable : List CatalogProduct → List CatalogProduct → Outcome Bool
  unfolding is_reachable
  all_reachable [] products = returned true
  all_reachable (p ∷ rest) products =
      bind (is_reachable p products)
        (λ b. bind (all_reachable rest products) (λ bs. returned (b && bs)))

  -- `_check_catalog`, which the constructor of the resolver calls: the products, or the exception.
  unfoldable pub new_resolver : List CatalogProduct → Outcome (List CatalogProduct)
  unfolding all_reachable has_duplicates
  new_resolver products = raise_if (has_duplicates (map (λ p. p.product_id) products)) value_error (
      bind (all_reachable products products)
        (λ b. raise_if (not b) value_error (returned products)))
