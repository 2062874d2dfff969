-- ===== src/Tests/Stock.antt =====
-- Stock records on concrete inputs.
use mathlib.Core.List.{Memᴰ}
use g3_voicestock.Base.{◌≡◌, refl, ◌≢◌, ◌↔◌, false, [], ◌∷◌, str, text_eq, pos}
use g3_voicestock.Store.Stock.{
  ProductRow, Database, integer, ok, create_stock_record, find_active_products_without_stock,
}
use g3_voicestock.Store.Stock.Records.{
  Created, create_stock_record-Created, create_stock_record-missing,
}

abbrev rice : ProductRow
rice = record { product_id = str "p1"; stock_unit = str "unit"; retired = false }

abbrev before : Database
before = record { catalog_products = rice ∷ []; inventory_stock = [] }

abbrev after : Database
after = record before {
  inventory_stock = record { product_id = str "p1"; quantity = pos 3; unit = str "unit" } ∷ [];
}

created : create_stock_record (str "p1") (integer (pos 3)) before ≡ ok after
unfolding create_stock_record text_eq
created = refl

create_stock_record-Created_example : Created (str "p1") (integer (pos 3)) before after
create_stock_record-Created_example =
    create_stock_record-Created (str "p1") before after (integer (pos 3)) created

create_stock_record-missing_example :
    Memᴰ (str "p1") (find_active_products_without_stock after)
    ↔ (Memᴰ (str "p1") (find_active_products_without_stock before) × (str "p1" ≢ str "p1"))
create_stock_record-missing_example =
    create_stock_record-missing (str "p1") (str "p1") before after (integer (pos 3)) created
