-- ===== src/Contract/Resolver/Reachable.antt =====
-- What the constructor of the resolver guarantees (`_check_catalog` of
-- src/pi/operation_contract/products.py).
use mathlib.Core.List.{Memᴰ}
use mathlib.Core.List.Memᴰ
use native.Mathlib.Nat.{le_refl, le_trans}
use g3_voicestock.Base.{
  suc, ◌≤◌, ◌≡◌, refl, ap, Bool, true, false, ◌&&◌, not, Option, none, some, List, [], ◌∷◌, map,
  Text, text_eq→eq, text_eq_refl, some_of, ltb, All, Outcome, returned, raised, bind, raise_if,
  arith, inl, inr, value_error,
}
use g3_voicestock.Contract.Normalize.{Unicode}
use g3_voicestock.Contract.Catalog.{
  CatalogProduct, ProductQuery, ResolutionStatus, identified, unknown, ambiguous,
  insufficient_attributes, option_eq, product_attribute, normalized_attributes, match_products,
}
use g3_voicestock.Contract.Resolver.{
  query_of, texts_eq, product_eq, is_identified, same_product, is_identified_as, count,
  has_duplicates, is_reachable, all_reachable, new_resolver,
}

option_eq→eq : (o r : Option Text) → option_eq o r ≡ true → o ≡ r
option_eq→eq none none h = refl
option_eq→eq none (some t) h = cc
option_eq→eq (some s) none h = cc
option_eq→eq (some s) (some t) h = ap some (text_eq→eq s t h)

texts_eq→eq : (s t : List Text) → texts_eq s t ≡ true → s ≡ t
unfolding texts_eq
texts_eq→eq [] [] h = refl
texts_eq→eq [] (t ∷ ts) h = cc
texts_eq→eq (s ∷ ss) [] h = cc
texts_eq→eq (s ∷ ss) (t ∷ ts) h = ground (arith, text_eq→eq s t, texts_eq→eq ss ts)

product_eq→eq : (p q : CatalogProduct) → product_eq p q ≡ true → p ≡ q
unfolding product_eq
product_eq→eq p q h = ground (
  arith,
  text_eq→eq p.product_id q.product_id,
  text_eq→eq p.name q.name,
  option_eq→eq p.brand q.brand,
  option_eq→eq p.variant q.variant,
  option_eq→eq p.presentation q.presentation,
  texts_eq→eq p.units q.units,
)

identified_parts :
    (p : CatalogProduct) (s : ResolutionStatus) (o : Option CatalogProduct) (ids : List Text)
    → (is_identified s && (same_product p o && texts_eq ids [])) ≡ true
    → (s ≡ identified) × (o ≡ some p)
identified_parts p identified none ids h = cc
identified_parts p identified (some q) ids h = ground (arith, product_eq→eq q p)
identified_parts p unknown o ids h = cc
identified_parts p ambiguous o ids h = cc
identified_parts p insufficient_attributes o ids h = cc

Outcome-injective : {a b : Bool} → ◌≡◌ {A = Outcome Bool} (returned a) (returned b) → a ≡ b
Outcome-injective h = cc

both_true :
    (m n : Outcome Bool)
    → bind m (λ b. bind n (λ bs. returned (b && bs))) ≡ returned true
    → (m ≡ returned true) × (n ≡ returned true)
both_true (raised e) n h = cc
both_true (returned b) (raised e) h = cc
both_true (returned true) (returned true) h = (refl, refl)
both_true (returned true) (returned false) h = cc
both_true (returned false) (returned bs) h = cc

-- No text stands twice.
abbrev pub NoRepeat : List Text → Type 0
NoRepeat [] = Unit
NoRepeat (t ∷ rest) = (¬ Memᴰ t rest) × NoRepeat rest

count-mem : (t : Text) (l : List Text) → Memᴰ t l → 1 ≤ count t l
unfolding count
count-mem t [] m = absurd (Memᴰ.not-nil m)
count-mem t (s ∷ l) m = elim (Memᴰ.cases_cons m) [
  | inl e ↦ rw (← e) (rw (text_eq_refl t) (omega arith))
  | inr k ↦ ground (arith, count-mem t l k)
]

count-cons_self : (t : Text) (l : List Text) → count t (t ∷ l) ≡ suc (count t l)
unfolding count
count-cons_self t l = rw (text_eq_refl t)

count-le-cons : (s t : Text) (l : List Text) → count s l ≤ count s (t ∷ l)
unfolding count
count-le-cons s t l = ground arith

NoRepeat-count :
    (whole l : List Text)
    → ((t : Text) → count t l ≤ count t whole)
    → some_of (λ t. ltb 1 (count t whole)) l ≡ false
    → NoRepeat l
NoRepeat-count whole [] c h = tt
NoRepeat-count whole (t ∷ l) c h = (
  λ m. ground (arith, c t, count-cons_self t l, count-mem t l m),
  NoRepeat-count whole l (λ s. le_trans (count-le-cons s t l) (c s)) (ground arith),
)

NoRepeat-of_unique : (ids : List Text) → has_duplicates ids ≡ false → NoRepeat ids
unfolding has_duplicates
NoRepeat-of_unique ids h = NoRepeat-count ids ids (λ t. le_refl _) h

both_checks :
    (repeated : Bool) (reached : Outcome Bool) (products l : List CatalogProduct)
    → raise_if repeated value_error
        (bind reached (λ b. raise_if (not b) value_error (returned products)))
      ≡ returned l
    → (l ≡ products) × (repeated ≡ false) × (reached ≡ returned true)
both_checks true m products l h = cc
both_checks false (raised e) products l h = cc
both_checks false (returned false) products l h = cc
both_checks false (returned true) products l h = (cc, refl, refl)

module _ (u : Unicode) where
  -- The product answers to the query of its own normalized attributes.
  abbrev pub IdentifiesItself : List CatalogProduct → CatalogProduct → Type 0
  IdentifiesItself products p =
      (q : ProductQuery) × (query_of (normalized_attributes u (product_attribute p)) ≡ returned q)
      × ((match_products u q products).status ≡ identified)
      × ((match_products u q products).product ≡ some p)

  reachable_at :
      (p : CatalogProduct) (products : List CatalogProduct) (o : Outcome ProductQuery)
      → query_of (normalized_attributes u (product_attribute p)) ≡ o
      → bind o (λ q. returned (is_identified_as p (match_products u q products))) ≡ returned true
      → IdentifiesItself products p
  unfolding is_identified_as
  reachable_at p products (raised e) k h = cc
  reachable_at p products (returned q) k h =
      let (st, pr) =
        identified_parts p _ _ (match_products u q products).candidate_ids (Outcome-injective h) in
      (q, k, st, pr)

  is_reachable→IdentifiesItself :
      (p : CatalogProduct) (products : List CatalogProduct)
      → is_reachable u p products ≡ returned true
      → IdentifiesItself products p
  unfolding is_reachable
  is_reachable→IdentifiesItself p products h = reachable_at p products _ refl h

  all_reachable_lem :
      (l products : List CatalogProduct)
      → all_reachable u l products ≡ returned true
      → All (IdentifiesItself products) l
  all_reachable_lem [] products h = tt
  all_reachable_lem (p ∷ l) products h =
      let (here, rest) =
        both_true (is_reachable u p products) (all_reachable u l products)
          (unfold all_reachable in h) in
      (is_reachable→IdentifiesItself p products here, all_reachable_lem l products rest)

  -- A resolver is only built over a catalog in which no id is repeated and every product is found
  -- by the query of its own attributes, and it serves that catalog unchanged.
  pub new_resolver_lem :
      (products l : List CatalogProduct)
      → new_resolver u products ≡ returned l
      → (l ≡ products)
        × NoRepeat (map (λ p. p.product_id) products)
        × All (IdentifiesItself products) products
  new_resolver_lem products l h =
      let (e, d, r) =
        both_checks (has_duplicates (map (λ p. p.product_id) products))
          (all_reachable u products products) products l (unfold new_resolver in h) in
      (e, NoRepeat-of_unique _ d, all_reachable_lem products products r)
