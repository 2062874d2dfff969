-- ===== src/Store/Stock.antt =====
-- Stock records: src/pi/inventory/stock.py, over the two tables of src/pi/storage/migrations.py with
-- their checks and the triggers on `inventory_stock`.
pub mod Records
use g3_voicestock.Base.{
  ℕ, Bool, true, false, ◌&&◌, ◌||◌, not, Option, none, some, is_none, List, [], ◌∷◌, map, keep,
  some_of, Text, text_eq, ℤ, pos, negsuc, leb, is_negative, if◌then◌else◌,
}

pub record ProductRow : Type 0 where
  pub product_id : Text
  pub stock_unit : Text
  pub retired : Bool

pub record StockRow : Type 0 where
  pub product_id : Text
  pub quantity : ℤ
  pub unit : Text

pub record Database : Type 0 where
  pub catalog_products : List ProductRow
  pub inventory_stock : List StockRow

-- A Python value that is passed as a quantity: an `int`, or a value of another type.
pub data Quantity : Type 0 where
  integer : ℤ → Quantity
  not_integer : Quantity

pub data StockError : Type 0 where
  invalid_quantity unknown_product retired_product stock_record_exists overflow : StockError

pub data Result (A : Type 0) : Type 0 where
  ok : A → Result A
  err : StockError → Result A

-- `check_quantity`: the integer, if there is no exception.
unfoldable pub check_quantity : Quantity → Result ℤ
check_quantity not_integer = err invalid_quantity
check_quantity (integer z) = if is_negative z then err invalid_quantity else ok z

-- `SELECT … FROM catalog_products WHERE product_id = ?`
unfoldable pub find_product : Text → List ProductRow → Option ProductRow
find_product i [] = none
find_product i (p ∷ rest) = if text_eq p.product_id i then some p else find_product i rest

unfoldable pub find_stock : Text → List StockRow → Option StockRow
find_stock i [] = none
find_stock i (s ∷ rest) = if text_eq s.product_id i then some s else find_stock i rest

-- `sqlite3` raises `OverflowError` for an integer that does not fit 64 bits.
abbrev pub is_too_large : ℤ → Bool
is_too_large (pos n) = leb 9_223_372_036_854_775_808 n
is_too_large (negsuc n) = leb 9_223_372_036_854_775_808 n

-- The `INSERT … SELECT` of one product: the primary key of `inventory_stock` is the product's id, and
-- the checks of the row are those of `check_quantity`. A conflict is an `IntegrityError`.
unfoldable pub insert_stock : ℤ → ProductRow → Database → Result Database
unfolding find_stock
insert_stock quantity p db =
    if is_too_large quantity
    then err overflow
    else if not (is_none (find_stock p.product_id db.inventory_stock))
    then err stock_record_exists
    else ok (record db {
      inventory_stock =
          record { product_id = p.product_id; quantity = quantity; unit = p.stock_unit }
          ∷ db.inventory_stock;
    })

unfoldable pub create_for : ℤ → Option ProductRow → Database → Result Database
unfolding insert_stock
create_for quantity none db = err unknown_product
create_for quantity (some p) db =
    if p.retired then err retired_product else insert_stock quantity p db

unfoldable pub create_checked : Text → Result ℤ → Database → Result Database
unfolding create_for find_product
create_checked i (err e) db = err e
create_checked i (ok z) db = create_for z (find_product i db.catalog_products) db

unfoldable pub create_stock_record : Text → Quantity → Database → Result Database
unfolding create_checked check_quantity
create_stock_record i quantity db = create_checked i (check_quantity quantity) db

-- `find_active_products_without_stock`, up to the order of the rows.
abbrev pub lacks_stock : List StockRow → ProductRow → Bool
lacks_stock stock p = not p.retired && is_none (find_stock p.product_id stock)

unfoldable pub find_active_products_without_stock : Database → List Text
find_active_products_without_stock db =
    map (λ p. p.product_id) (keep (lacks_stock db.inventory_stock) db.catalog_products)
