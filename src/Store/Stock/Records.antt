-- ===== src/Store/Stock/Records.antt =====
-- What the records of stock satisfy (src/pi/inventory/stock.py).
use mathlib.Core.List.{Memᴰ}
use mathlib.Core.List.Memᴰ
use g3_voicestock.Base.{
  ◌≡◌, refl, sym, ◌↔◌, ◌≢◌, false, ◌&&◌, not, Option, none, some, List, [], ◌∷◌, map, keep,
  keep-mem, mem-keep, Text, text_eq, text_eq_refl, text_eq→eq, ℤ, is_negative, arith, Bool-cases,
  inl, inr,
}
use g3_voicestock.Store.Stock.{
  ProductRow, StockRow, Database, Quantity, integer, not_integer, ok, find_product, find_stock,
  create_for, create_stock_record, lacks_stock, find_active_products_without_stock,
}

-- A stock row is exact and not negative, in the unit of its catalog product, and the only one.
abbrev pub IsSound : List ProductRow → List StockRow → Type 0
IsSound products [] = Unit
IsSound products (s ∷ rest) =
    (is_negative s.quantity ≡ false)
    × (((p : ProductRow) × (find_product s.product_id products ≡ some p) × (p.stock_unit ≡ s.unit))
        × ((find_stock s.product_id rest ≡ none) × IsSound products rest))

find_product-id :
    (i : Text) (l : List ProductRow) (p : ProductRow) → find_product i l ≡ some p → p.product_id ≡ i
unfolding find_product
find_product-id i [] p h = cc
find_product-id i (q ∷ l) p h = ground (arith, text_eq→eq q.product_id i, find_product-id i l p)

-- What a call that creates a record has found, and what it has written.
pub record Created (i : Text) (quantity : Quantity) (db db' : Database) : Type 0 where
  pub z : ℤ
  pub product : ProductRow
  pub exact : quantity ≡ integer z
  pub nonnegative : is_negative z ≡ false
  pub in_catalog : find_product i db.catalog_products ≡ some product
  pub active : product.retired ≡ false
  pub was_missing : find_stock i db.inventory_stock ≡ none
  pub written : db' ≡ record db {
    inventory_stock =
        record { product_id = i; quantity = z; unit = product.stock_unit } ∷ db.inventory_stock;
  }

module _ (i : Text) (db db' : Database) where
  create_for-Created :
      (z : ℤ) (o : Option ProductRow)
      → is_negative z ≡ false
      → find_product i db.catalog_products ≡ o
      → create_for z o db ≡ ok db'
      → Created i (integer z) db db'
  unfolding create_for
  create_for-Created z none n f h = cc
  create_for-Created z (some p) n f h =
      let e = find_product-id i db.catalog_products p f in
      record {
        z = z;
        product = p;
        exact = refl;
        nonnegative = n;
        in_catalog = f;
        active = ground arith;
        was_missing = rw (sym e) (ground arith);
        written = rw (sym e) (ground arith);
      }

  -- A record is created only for an exact, non-negative quantity of an active product that has none,
  -- in the product's stock unit, and nothing else is changed.
  pub create_stock_record-Created :
      (quantity : Quantity) → create_stock_record i quantity db ≡ ok db' → Created i quantity db db'
  unfolding create_stock_record
  create_stock_record-Created not_integer h = cc
  create_stock_record-Created (integer z) h = elim (Bool-cases (is_negative z)) [
    | inl n ↦ absurd (ground arith)
    | inr n ↦ create_for-Created z _ n refl (ground arith)
  ]

-- Creating a record keeps the records sound: each is not negative, in the unit of its catalog product,
-- and the only one of its product.
pub create_stock_record-IsSound :
    (i : Text) (db db' : Database) (quantity : Quantity)
    → IsSound db.catalog_products db.inventory_stock
    → create_stock_record i quantity db ≡ ok db'
    → IsSound db'.catalog_products db'.inventory_stock
create_stock_record-IsSound i db db' quantity h e =
    let c = create_stock_record-Created i db db' quantity e in
    rw (c.written) (c.nonnegative, ((c.product, c.in_catalog, refl), (c.was_missing, h)))

lacks_stock-cons :
    (s : StockRow) (stock : List StockRow) (p : ProductRow)
    → lacks_stock (s ∷ stock) p ≡ (lacks_stock stock p && not (text_eq s.product_id p.product_id))
unfolding find_stock
lacks_stock-cons s stock p = ground arith

module _ (products : List ProductRow) (stock : List StockRow) where
  abbrev missing : List StockRow → List Text
  missing l = map (λ p. p.product_id) (keep (lacks_stock l) products)

  missing-cons :
      (s : StockRow) (j : Text)
      → Memᴰ j (missing (s ∷ stock)) ↔ (Memᴰ j (missing stock) × (j ≢ s.product_id))
  missing-cons s j = (
    λ m.
        let (p, k, e) =
          Memᴰ.of_map (λ (p : ProductRow). p.product_id) (keep (lacks_stock (s ∷ stock)) products)
            m in
        let (inside, test) = keep-mem (lacks_stock (s ∷ stock)) products k in
        (
          rw (← e) (
              Memᴰ.map (λ (p : ProductRow). p.product_id)
                (mem-keep (lacks_stock stock) products inside
                  (ground (arith, lacks_stock-cons s stock p)))),
          λ q. ground (arith, lacks_stock-cons s stock p, text_eq_refl s.product_id, test, e, q),
        ),
    λ (m, n).
        let (p, k, e) =
          Memᴰ.of_map (λ (p : ProductRow). p.product_id) (keep (lacks_stock stock) products) m in
        let (inside, test) = keep-mem (lacks_stock stock) products k in
        rw (← e) (
          Memᴰ.map (λ (p : ProductRow). p.product_id)
            (mem-keep (lacks_stock (s ∷ stock)) products inside (
              ground
                (arith, lacks_stock-cons s stock p, test, text_eq→eq s.product_id p.product_id)))),
  )

-- When a record is created, the report of active products without a record loses exactly that product.
pub create_stock_record-missing :
    (i j : Text) (db db' : Database) (quantity : Quantity)
    → create_stock_record i quantity db ≡ ok db'
    → Memᴰ j (find_active_products_without_stock db')
      ↔ (Memᴰ j (find_active_products_without_stock db) × (j ≢ i))
unfolding find_active_products_without_stock
create_stock_record-missing i j db db' quantity e =
    let c = create_stock_record-Created i db db' quantity e in
    rw (c.written) (
      missing-cons db.catalog_products db.inventory_stock
        (record { product_id = i; quantity = c.z; unit = c.product.stock_unit }) j)
