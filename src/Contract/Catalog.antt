-- ===== src/Contract/Catalog.antt =====
-- Product identification: src/pi/operation_contract/products.py.
pub mod Matching
pub mod Complete
use g3_voicestock.Base.{
  Bool, true, false, Option, none, some, is_none, List, [], ◌∷◌, map, Text, text_eq, is_empty,
  is_blank, keep, is_nil, every, some_of, Outcome, returned, value_error, raise_if, if◌then◌else◌,
}
use g3_voicestock.Contract.Normalize.{Unicode, normalize_attribute}

pub data Attribute : Type 0 where
  name brand variant presentation : Attribute

abbrev pub attributes : List Attribute
attributes = name ∷ brand ∷ variant ∷ presentation ∷ []

pub record ProductQuery : Type 0 where
  pub name : Option Text
  pub brand : Option Text
  pub variant : Option Text
  pub presentation : Option Text

pub record CatalogProduct : Type 0 where
  pub product_id : Text
  pub name : Text
  pub brand : Option Text
  pub variant : Option Text
  pub presentation : Option Text
  pub units : List Text

-- `getattr(source, attribute)`
abbrev pub query_attribute : ProductQuery → Attribute → Option Text
query_attribute q name = q.name
query_attribute q brand = q.brand
query_attribute q variant = q.variant
query_attribute q presentation = q.presentation

abbrev pub product_attribute : CatalogProduct → Attribute → Option Text
product_attribute p name = some p.name
product_attribute p brand = p.brand
product_attribute p variant = p.variant
product_attribute p presentation = p.presentation

abbrev pub is_name : Attribute → Bool
is_name name = true
is_name _ = false

-- `a == b` on optional texts.
abbrev pub option_eq : Option Text → Option Text → Bool
option_eq none none = true
option_eq none (some _) = false
option_eq (some _) none = false
option_eq (some s) (some t) = text_eq s t

pub data ResolutionStatus : Type 0 where
  identified unknown ambiguous insufficient_attributes : ResolutionStatus

pub record ProductResolution : Type 0 where
  pub status : ResolutionStatus
  pub product : Option CatalogProduct
  pub candidate_ids : List Text

abbrev pub Wanted : Type 0
Wanted = List (Attribute × Text)

-- The entries of a comprehension whose value is true: neither `None` nor empty.
abbrev pub present : Attribute → Option Text → Wanted → Wanted
present a none rest = rest
present a (some t) rest = if is_empty t then rest else (a, t) ∷ rest

-- The texts of a filtered `parts`, joined by one space, in `display_name`.
abbrev pub add_part : Option Text → List Text → List Text
add_part none rest = rest
add_part (some t) rest = if is_empty t then rest else t ∷ rest

-- The outcome for a list of candidates: there is no tie-breaking.
unfoldable pub resolution_of : List CatalogProduct → ProductResolution
resolution_of [] = record { status = unknown; product = none; candidate_ids = [] }
resolution_of (p ∷ []) = record { status = identified; product = some p; candidate_ids = [] }
resolution_of (p ∷ q ∷ rest) = record {
  status = ambiguous;
  product = none;
  candidate_ids = map (λ c. c.product_id) (p ∷ q ∷ rest);
}

module _ (u : Unicode) where
  -- `CatalogProduct.__post_init__`
  unfoldable pub new_product : CatalogProduct → Outcome CatalogProduct
  new_product p = raise_if (is_blank p.product_id) value_error (
      raise_if (is_none (normalize_attribute u (some p.name))) value_error
        (raise_if (is_nil p.units) value_error (returned p)))

  unfoldable pub wanted_from : (Attribute → Option Text) → List Attribute → Wanted
  wanted_from source [] = []
  wanted_from source (a ∷ rest) =
      present a (normalize_attribute u (source a)) (wanted_from source rest)

  -- `_normalized_attributes`
  unfoldable pub normalized_attributes : (Attribute → Option Text) → Wanted
  unfolding wanted_from
  normalized_attributes source = wanted_from source attributes

  -- The condition of the comprehension in `match_products`, and its test of one attribute.
  abbrev pub fits : CatalogProduct → Attribute × Text → Bool
  fits p (a, value) = option_eq (normalize_attribute u (product_attribute p a)) (some value)

  unfoldable pub is_candidate : Wanted → CatalogProduct → Bool
  is_candidate wanted p = every (fits p) wanted

  unfoldable pub match_wanted : Wanted → List CatalogProduct → ProductResolution
  match_wanted wanted products =
      if some_of (λ (a, value). is_name a) wanted
      then resolution_of (keep (is_candidate wanted) products)
      else record { status = insufficient_attributes; product = none; candidate_ids = [] }

  unfoldable pub match_products : ProductQuery → List CatalogProduct → ProductResolution
  unfolding match_wanted normalized_attributes
  match_products query products =
      match_wanted (normalized_attributes (query_attribute query)) products
