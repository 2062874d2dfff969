-- ===== src/Contract/Catalog/Complete.antt =====
-- When a query is answered (`match_products` of src/pi/operation_contract/products.py).
use mathlib.Core.List.{Memᴰ}
use mathlib.Core.List.Memᴰ
use g3_voicestock.Base.{
  ◌≡◌, refl, ◌↔◌, ◌≢◌, ◌∙◌, ap, Bool, false, not, Option, none, some, is_none, List, [], ◌∷◌, ◌++◌,
  Text, keep, some_of, arith, cases_false, keep-append, keep-none,
}
use g3_voicestock.Contract.Normalize.{Unicode, normalize_attribute}
use g3_voicestock.Contract.Catalog.{
  Attribute, name, brand, variant, presentation, ProductQuery, CatalogProduct, Wanted,
  query_attribute, present, normalized_attributes, is_candidate, resolution_of, match_products,
  match_wanted, is_name, identified, insufficient_attributes,
}
use g3_voicestock.Contract.Catalog.Matching.{Matches, is_candidate_iff, normalize-ne-nil}

abbrev named : Attribute × Text → Bool
named (a, value) = is_name a

some_of-present :
    (a : Attribute) (o : Option Text) (rest : Wanted)
    → is_name a ≡ false
    → some_of named rest ≡ false
    → some_of named (present a o rest) ≡ false
some_of-present a none rest n h = h
some_of-present a (some []) rest n h = h
some_of-present a (some (c ∷ s)) rest n h = ground arith

has_name :
    (n b v p : Option Text)
    → n ≢ some []
    → some_of named
        (present name n (present brand b (present variant v (present presentation p []))))
      ≡ not (is_none n)
has_name none b v p h =
    some_of-present brand b _ refl
      (some_of-present variant v _ refl (some_of-present presentation p [] refl refl))
has_name (some []) b v p h = absurd (h refl)
has_name (some (c ∷ s)) b v p h = refl

module _ (u : Unicode) (q : ProductQuery) where
  wanted : Wanted
  wanted = normalized_attributes u (query_attribute q)

  wanted_name : some_of named wanted ≡ not (is_none (normalize_attribute u q.name))
  unfolding wanted normalized_attributes
  wanted_name = has_name _ _ _ _ (normalize-ne-nil u q.name)

  match_products_lem :
      (products : List CatalogProduct)
      → match_products u q products ≡ match_wanted u wanted products
  unfolding match_products wanted
  match_products_lem products = refl

  resolution_of-sufficient :
      (l : List CatalogProduct) → (resolution_of l).status ≢ insufficient_attributes
  unfolding resolution_of
  resolution_of-sufficient [] = λ e. cc
  resolution_of-sufficient (p ∷ []) = λ e. cc
  resolution_of-sufficient (p ∷ r ∷ rest) = λ e. cc

  -- The query is refused as insufficient exactly when its name normalizes to nothing, whatever the
  -- catalog holds.
  pub match_products_insufficient :
      (products : List CatalogProduct)
      → ((match_products u q products).status ≡ insufficient_attributes)
        ↔ (normalize_attribute u q.name ≡ none)
  unfolding match_wanted
  match_products_insufficient products = rw (match_products_lem products) (
    λ e.
        ground
          (arith, wanted_name, resolution_of-sufficient (keep (is_candidate u wanted) products)),
    λ e. ground (arith, wanted_name),
  )

  -- When the query's name normalizes to something, a product of the catalog that matches while no
  -- other row does is identified.
  pub match_products_found :
      (t : Text) (p : CatalogProduct) (before after : List CatalogProduct)
      → normalize_attribute u q.name ≡ some t
      → Matches u (query_attribute q) p
      → ((r : CatalogProduct) → Memᴰ r (before ++ after) → ¬ Matches u (query_attribute q) r)
      → match_products u q (before ++ p ∷ after)
        ≡ record { status = identified; product = some p; candidate_ids = [] }
  unfolding match_wanted resolution_of wanted
  match_products_found t p before after n m others = rw (match_products_lem (before ++ p ∷ after)) (
      rw (wanted_name ∙ ap (λ o. not (is_none o)) n) (
        rw
          (
            keep-append test before (p ∷ after),
            keep-none test before (λ r k. refuses r (Memᴰ.append_left after k)),
          )
          (rw ((is_candidate_iff u (query_attribute q) p).1 m)
            (rw (keep-none test after (λ r k. refuses r (Memᴰ.append_right before k)))))))
    where
      test : CatalogProduct → Bool
      test = is_candidate u (normalized_attributes u (query_attribute q))

      refuses : (r : CatalogProduct) → Memᴰ r (before ++ after) → test r ≡ false
      refuses r k = cases_false _ (λ e. others r k ((is_candidate_iff u (query_attribute q) r).0 e))
