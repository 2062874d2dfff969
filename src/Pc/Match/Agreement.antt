-- ===== src/Pc/Match/Agreement.antt =====
-- The PC and the Raspberry Pi apply one matching rule (src/pc/audio/catalog.py against
-- src/pi/operation_contract/products.py).
use g3_voicestock.Base.{
  ◌≡◌, refl, ◌≢◌, Option, none, some, List, [], ◌∷◌, map, Text, keep, every, arith,
}
use g3_voicestock.Contract.Payload.{ProductDescription}
use g3_voicestock.Contract.Normalize.{Unicode}
use g3_voicestock.Contract.Catalog as Catalog
use g3_voicestock.Contract.Catalog.{
  Attribute, attributes, name, brand, variant, presentation, CatalogProduct, ResolutionStatus,
  Wanted, present, fits, is_candidate, resolution_of, match_products, match_wanted, ProductQuery,
  query_attribute, normalized_attributes,
}
use g3_voicestock.Contract.Catalog.Matching.{normalize-ne-nil}
use g3_voicestock.Contract.Validator.{query_of_description}
use g3_voicestock.Pc.Match.{
  ProductMatch, CatalogEntry, add_present, match_of, wanted_from, entry_fits, match_entries,
  match_description, identified, unknown, ambiguous, insufficient, description_attribute,
}

-- The attributes that a PC catalog row copies from a product.
abbrev pub entry_of : CatalogProduct → CatalogEntry
entry_of p = record {
  name = p.name;
  brand = p.brand;
  variant = p.variant;
  presentation = p.presentation;
}

abbrev pub match_of_status : ResolutionStatus → ProductMatch
match_of_status Catalog.identified = identified
match_of_status Catalog.unknown = unknown
match_of_status Catalog.ambiguous = ambiguous
match_of_status Catalog.insufficient_attributes = insufficient

-- The two filters, of `None` and of what is false, keep the same values.
add_present-present :
    (a : Attribute) (o : Option Text) (rest : Wanted)
    → o ≢ some []
    → add_present a o rest ≡ present a o rest
add_present-present a none rest h = refl
add_present-present a (some []) rest h = absurd (h refl)
add_present-present a (some (c ∷ s)) rest h = refl

same_source :
    (d : ProductDescription) (a : Attribute)
    → description_attribute d a ≡ query_attribute (query_of_description d) a
same_source d name = refl
same_source d brand = refl
same_source d variant = refl
same_source d presentation = refl

module _ (u : Unicode) where
  wanted_from_lem :
      (d : ProductDescription) (l : List Attribute)
      → wanted_from u d l ≡ Catalog.wanted_from u (query_attribute (query_of_description d)) l
  unfolding wanted_from Catalog.wanted_from
  wanted_from_lem d [] = refl
  wanted_from_lem d (a ∷ l) =
      rw (wanted_from_lem d l, same_source d a) (add_present-present a _ _ (normalize-ne-nil u _))

  entry_fits_lem :
      (p : CatalogProduct) (w : Wanted) → every (entry_fits u (entry_of p)) w ≡ every (fits u p) w
  entry_fits_lem p [] = refl
  entry_fits_lem p ((name, t) ∷ w) = rw (entry_fits_lem p w)
  entry_fits_lem p ((brand, t) ∷ w) = rw (entry_fits_lem p w)
  entry_fits_lem p ((variant, t) ∷ w) = rw (entry_fits_lem p w)
  entry_fits_lem p ((presentation, t) ∷ w) = rw (entry_fits_lem p w)

  keep_entries :
      (w : Wanted) (products : List CatalogProduct)
      → keep (λ e. every (entry_fits u e) w) (map entry_of products)
        ≡ map entry_of (keep (is_candidate u w) products)
  unfolding is_candidate
  keep_entries w [] = refl
  keep_entries w (p ∷ products) = ground (arith, entry_fits_lem p w, keep_entries w products)

  match_of_lem :
      (l : List CatalogProduct)
      → match_of (map entry_of l) ≡ match_of_status (resolution_of l).status
  unfolding resolution_of
  match_of_lem [] = refl
  match_of_lem (p ∷ []) = refl
  match_of_lem (p ∷ q ∷ l) = refl

  match_entries-match_wanted :
      (w : Wanted) (products : List CatalogProduct)
      → match_entries u w (map entry_of products)
        ≡ match_of_status (match_wanted u w products).status
  unfolding match_entries match_wanted
  match_entries-match_wanted w products =
      ground (arith, keep_entries w products, match_of_lem (keep (is_candidate u w) products))

  match_description_lem :
      (d : ProductDescription) (entries : List CatalogEntry)
      → match_description u d entries ≡ match_entries u (wanted_from u d attributes) entries
  unfolding match_description
  match_description_lem d entries = refl

  match_products_lem :
      (q : ProductQuery) (products : List CatalogProduct)
      → match_products u q products
        ≡ match_wanted u (Catalog.wanted_from u (query_attribute q) attributes) products
  unfolding match_products
  match_products_lem q products = refl

  -- For a catalog whose rows copy the attributes of the Raspberry Pi's products, the PC's verdict on
  -- a description is the Raspberry Pi's status for the query of that description.
  pub match_description-match_products :
      (d : ProductDescription) (products : List CatalogProduct)
      → match_description u d (map entry_of products)
        ≡ match_of_status (match_products u (query_of_description d) products).status
  match_description-match_products d products =
      rw
        (
          match_description_lem d (map entry_of products),
          match_products_lem (query_of_description d) products,
        )
        (rw (wanted_from_lem d attributes) (match_entries-match_wanted _ products))
