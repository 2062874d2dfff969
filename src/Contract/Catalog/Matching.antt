-- ===== src/Contract/Catalog/Matching.antt =====
-- The matching rule of ADR-0006 against its description (`match_products` of
-- src/pi/operation_contract/products.py).
use mathlib.Core.List.{Memᴰ}
use mathlib.Core.List.Memᴰ
use mathlib.Core.Bool.{false≢true}
use g3_voicestock.Base.{
  ◌≡◌, refl, ap, ◌∙◌, ◌↔◌, ◌≢◌, true, Option, none, some, List, [], ◌∷◌, Text, text_eq_iff, keep,
  keep-mem, mem-keep, every, All, arith, Bool-cases, inl, inr,
}
use g3_voicestock.Contract.Normalize.{Unicode, normalize_attribute, or_none}
use g3_voicestock.Contract.Catalog.{
  Attribute, ResolutionStatus, attributes, name, brand, variant, presentation, ProductQuery,
  CatalogProduct, Wanted, query_attribute, product_attribute, option_eq, present, wanted_from,
  normalized_attributes, fits, is_candidate, resolution_of, match_products, identified, unknown,
  ambiguous, insufficient_attributes,
}

-- A product has every attribute that the query has, with the same normalized value.
abbrev pub Matches : Unicode → (Attribute → Option Text) → CatalogProduct → Type 0
Matches u source p =
    (a : Attribute) (t : Text)
    → normalize_attribute u (source a) ≡ some t
    → normalize_attribute u (product_attribute p a) ≡ some t

option_eq→eq : (o : Option Text) (t : Text) → option_eq o (some t) ≡ true → o ≡ some t
option_eq→eq none t h = cc
option_eq→eq (some s) t h = ap some ((text_eq_iff s t).0 h)

option_eq_refl : (t : Text) → option_eq (some t) (some t) ≡ true
option_eq_refl t = (text_eq_iff t t).1 refl

or_none-ne-nil : (s : Text) → or_none s ≢ some []
or_none-ne-nil [] = λ e. cc
or_none-ne-nil (c ∷ s) = λ e. cc

-- A normalized value is never empty.
pub normalize-ne-nil : (u : Unicode) (o : Option Text) → normalize_attribute u o ≢ some []
unfolding normalize_attribute
normalize-ne-nil u none = λ e. cc
normalize-ne-nil u (some v) = or_none-ne-nil _

module _ (u : Unicode) (p : CatalogProduct) where
  -- The query's attribute `a`, whose normalized value is `o`, does not rule the product out.
  abbrev Agrees : Attribute → Option Text → Type 0
  Agrees a o = (t : Text) → o ≡ some t → normalize_attribute u (product_attribute p a) ≡ some t

  present→Agrees :
      (a : Attribute) (o : Option Text) (rest : Wanted)
      → every (fits u p) (present a o rest) ≡ true
      → o ≢ some []
      → Agrees a o × (every (fits u p) rest ≡ true)
  present→Agrees a none rest h n = (λ t e. cc, h)
  present→Agrees a (some []) rest h n = absurd (n refl)
  present→Agrees a (some (c ∷ s)) rest h n = elim (Bool-cases (fits u p (a, c ∷ s))) [
    | inl e ↦ (λ t q. option_eq→eq _ (c ∷ s) e ∙ q, rw e at h)
    | inr e ↦ absurd (false≢true (rw e at h))
  ]

  Agrees→present :
      (a : Attribute) (o : Option Text) (rest : Wanted)
      → Agrees a o
      → every (fits u p) rest ≡ true
      → every (fits u p) (present a o rest) ≡ true
  Agrees→present a none rest g h = h
  Agrees→present a (some []) rest g h = h
  Agrees→present a (some (c ∷ s)) rest g h = rw (g (c ∷ s) refl) (rw (option_eq_refl (c ∷ s)) h)

  module _ (source : Attribute → Option Text) where
    abbrev AgreesAt : Attribute → Type 0
    AgreesAt a = Agrees a (normalize_attribute u (source a))

    wanted→All :
        (l : List Attribute) → every (fits u p) (wanted_from u source l) ≡ true → All AgreesAt l
    unfolding wanted_from
    wanted→All [] h = tt
    wanted→All (a ∷ l) h =
        let (here, rest) = present→Agrees a _ (wanted_from u source l) h (normalize-ne-nil u _) in
        (here, wanted→All l rest)

    All→wanted :
        (l : List Attribute) → All AgreesAt l → every (fits u p) (wanted_from u source l) ≡ true
    unfolding wanted_from
    All→wanted [] h = refl
    All→wanted (a ∷ l) h = Agrees→present a _ _ h.0 (All→wanted l h.1)

-- The test that the code makes is the rule.
pub is_candidate_iff :
    (u : Unicode) (source : Attribute → Option Text) (p : CatalogProduct)
    → (is_candidate u (normalized_attributes u source) p ≡ true) ↔ Matches u source p
unfolding is_candidate normalized_attributes
is_candidate_iff u source p = (
  λ h.
      let w = wanted→All u p source attributes h in
      elim [ name ↦ w.0 | brand ↦ w.1.0 | variant ↦ w.1.1.0 | presentation ↦ w.1.1.1.0 ],
  λ m. All→wanted u p source attributes (m name, (m brand, (m variant, (m presentation, tt)))),
)

module _ (u : Unicode) (q : ProductQuery) (products : List CatalogProduct) where
  abbrev candidates : List CatalogProduct
  candidates = keep (is_candidate u (normalized_attributes u (query_attribute q))) products

  candidates-Matches :
      {p : CatalogProduct} → Memᴰ p candidates → Memᴰ p products × Matches u (query_attribute q) p
  candidates-Matches {p} m =
      let (k, h) = keep-mem (is_candidate u _) products m in
      (k, (is_candidate_iff u (query_attribute q) p).0 h)

  Matches-candidates :
      {p : CatalogProduct} → Memᴰ p products → Matches u (query_attribute q) p → Memᴰ p candidates
  Matches-candidates {p} m h =
      mem-keep (is_candidate u _) products m ((is_candidate_iff u (query_attribute q) p).1 h)

  -- The status and the product, by the list of candidates.
  abbrev Says : ResolutionStatus → Option CatalogProduct → List CatalogProduct → Type 0
  Says identified (some p) l = l ≡ p ∷ []
  Says identified none l = ⊥
  Says unknown o l = (l ≡ []) × (o ≡ none)
  Says _ o l = o ≡ none

  resolution_of-Says :
      (l : List CatalogProduct) → Says (resolution_of l).status (resolution_of l).product l
  unfolding resolution_of
  resolution_of-Says [] = (refl, refl)
  resolution_of-Says (p ∷ []) = refl
  resolution_of-Says (p ∷ r ∷ rest) = refl

  match-Says :
      Says (match_products u q products).status (match_products u q products).product candidates
  unfolding match_products
  match-Says = ground (arith, resolution_of-Says candidates)

  product→identified :
      (p : CatalogProduct)
      → (s : ResolutionStatus) (o : Option CatalogProduct) → Says s o candidates
      → o ≡ some p
      → candidates ≡ p ∷ []
  product→identified p identified none h e = absurd h
  product→identified p identified (some r) h e = ground (arith, h)
  product→identified p unknown o h e = cc (h.1)
  product→identified p _ o h e = cc h

  -- A product is returned only if it is in the catalog, carries every attribute of the query with
  -- the same normalized value, and no other catalog product does.
  pub match_products_unique :
      (p : CatalogProduct)
      → (match_products u q products).product ≡ some p
      → Memᴰ p products
        × Matches u (query_attribute q) p
        × ((r : CatalogProduct) → Memᴰ r products → Matches u (query_attribute q) r → r ≡ p)
  match_products_unique p e =
      let only : candidates ≡ p ∷ [] = product→identified p _ _ match-Says e in
      let (m, h) = candidates-Matches {p = p} (rw only (Memᴰ.head refl)) in
      (m, h, λ r k g. Memᴰ.eq_of_singleton (rw only at (Matches-candidates {p = r} k g)))

  unknown→none :
      (s : ResolutionStatus) (o : Option CatalogProduct)
      → Says s o candidates
      → s ≡ unknown
      → candidates ≡ []
  unknown→none unknown o h e = h.0
  unknown→none identified o h e = cc
  unknown→none ambiguous o h e = cc
  unknown→none insufficient_attributes o h e = cc

  -- `unknown` is reported only if no catalog product matches the query.
  pub match_products_unknown :
      (match_products u q products).status ≡ unknown
      → (r : CatalogProduct) → Memᴰ r products
      → ¬ Matches u (query_attribute q) r
  match_products_unknown e r m h =
      Memᴰ.not-nil (rw (unknown→none _ _ match-Says e) at (Matches-candidates {p = r} m h))
