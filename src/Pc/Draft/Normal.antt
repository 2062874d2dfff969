-- ===== src/Pc/Draft/Normal.antt =====
-- The mapper neither invents nor loses anything (src/pc/operation_contract/mapper.py).
use g3_voicestock.Base.{
  ◌≡◌, refl, ◌∙◌, ap, sym, false, Option, none, some, List, [], ◌∷◌, Text, str, text_eq, is_blank,
  ℤ, All, returned, arith, raise_if-returned, bind-returned, Outcome-injective,
}
use g3_voicestock.Json.{Value, Items, Fields, null, text, int, arr, obj, nil, cons, end, field, get}
use g3_voicestock.Contract.Payload.{
  Operation, add_stock, remove_stock, StockUnit, unit, ProductDescription, OperationItem,
  ContractPayload,
}
use g3_voicestock.Pc.Draft.{
  draft_operation, draft_quantity, name_text, optional_text, map_attributes, map_product,
  map_operation, map_operations, payload_of, map_list, map_draft,
}

-- The draft of a payload, with the attributes of each product.
abbrev pub optional_value : Option Text → Value
optional_value none = null
optional_value (some t) = text t

abbrev pub draft_word : Operation → Text
draft_word add_stock = str "agregar_stock"
draft_word remove_stock = str "restar_stock"

abbrev pub product_value : ProductDescription → Value
product_value d = obj (
    field (str "nombre") (text d.name) (
      field (str "marca") (optional_value d.brand) (
        field (str "variante") (optional_value d.variant)
          (field (str "presentacion") (optional_value d.presentation) end))))

abbrev pub item_value : OperationItem → Value
item_value i = obj (
    field (str "operacion") (text (draft_word i.operation)) (
      field (str "producto") (product_value i.product)
        (field (str "cantidad") (int i.quantity) end)))

abbrev pub items_value : List OperationItem → Items
items_value [] = nil
items_value (i ∷ rest) = cons (item_value i) (items_value rest)

abbrev pub draft_of : ContractPayload → Value
draft_of p = obj (field (str "operaciones") (arr (items_value p.operations)) end)

-- Every text of a description is used, and not blank.
abbrev IsGiven : Option Text → Type 0
IsGiven none = Unit
IsGiven (some t) = is_blank t ≡ false

abbrev IsDescribed : ProductDescription → Type 0
IsDescribed d =
    (is_blank d.name ≡ false) × IsGiven d.brand × IsGiven d.variant × IsGiven d.presentation

optional_text-optional_value :
    (o : Option Text) → IsGiven o → optional_text (some (optional_value o)) ≡ returned o
optional_text-optional_value none h = refl
optional_text-optional_value (some t) h = rw h

map_product-IsDescribed :
    (d : ProductDescription) → IsDescribed d → map_product (some (product_value d)) ≡ returned d
unfolding map_product text_eq
map_product-IsDescribed d (n, b, v, p) = rw (
  n,
  optional_text-optional_value d.brand b,
  optional_text-optional_value d.variant v,
  optional_text-optional_value d.presentation p,
)

item_value_parts :
    (o : Operation) (d : ProductDescription) (q : ℤ) (u : StockUnit)
    → IsDescribed d
    → map_operation (item_value (record { operation = o; product = d; quantity = q; unit = u }))
      ≡ returned (record { operation = o; product = d; quantity = q; unit = u })
unfolding map_operation text_eq
item_value_parts add_stock d q unit h = rw (map_product-IsDescribed d h)
item_value_parts remove_stock d q unit h = rw (map_product-IsDescribed d h)

map_operation-item_value :
    (i : OperationItem) → IsDescribed i.product → map_operation (item_value i) ≡ returned i
map_operation-item_value i h = item_value_parts i.operation i.product i.quantity i.unit h

map_operations-items_value :
    (l : List OperationItem)
    → All (λ (i : OperationItem). IsDescribed i.product) l
    → map_operations (items_value l) ≡ returned l
unfolding map_operations
map_operations-items_value [] h = refl
map_operations-items_value (i ∷ l) (h, k) =
    rw (map_operation-item_value i h, map_operations-items_value l k)

map_draft-draft_of :
    (l : List OperationItem)
    → All (λ (i : OperationItem). IsDescribed i.product) l
    → map_draft (draft_of (payload_of l)) ≡ returned (payload_of l)
unfolding map_draft text_eq
map_draft-draft_of l h = rw (map_operations-items_value l h)

name_text-given : (v : Option Value) (t : Text) → name_text v ≡ returned t → is_blank t ≡ false
name_text-given none t h = cc
name_text-given (some (text s)) t h = ground arith
name_text-given (some null) t h = cc
name_text-given (some (Value.bool b)) t h = cc
name_text-given (some (int z)) t h = cc
name_text-given (some (Value.float f)) t h = cc
name_text-given (some (arr xs)) t h = cc
name_text-given (some (obj fs)) t h = cc

optional_text-IsGiven :
    (v : Option Value) (o : Option Text) → optional_text v ≡ returned o → IsGiven o
optional_text-IsGiven v none h = tt
optional_text-IsGiven none (some t) h = cc
optional_text-IsGiven (some (text s)) (some t) h = ground arith
optional_text-IsGiven (some null) (some t) h = cc
optional_text-IsGiven (some (Value.bool b)) (some t) h = cc
optional_text-IsGiven (some (int z)) (some t) h = cc
optional_text-IsGiven (some (Value.float f)) (some t) h = cc
optional_text-IsGiven (some (arr xs)) (some t) h = cc
optional_text-IsGiven (some (obj fs)) (some t) h = cc

map_attributes-IsDescribed :
    (fs : Fields) (d : ProductDescription) → map_attributes fs ≡ returned d → IsDescribed d
unfolding map_attributes
map_attributes-IsDescribed fs d h =
    let (n, en, h1) = bind-returned (name_text (get (str "nombre") fs)) _ d h in
    let (b, eb, h2) = bind-returned (optional_text (get (str "marca") fs)) _ d h1 in
    let (v, ev, h3) = bind-returned (optional_text (get (str "variante") fs)) _ d h2 in
    let (p, ep, h4) = bind-returned (optional_text (get (str "presentacion") fs)) _ d h3 in
    rw (← Outcome-injective h4) (
      name_text-given _ n en,
      optional_text-IsGiven _ b eb,
      optional_text-IsGiven _ v ev,
      optional_text-IsGiven _ p ep,
    )

map_product-given :
    (v : Option Value) (d : ProductDescription) → map_product v ≡ returned d → IsDescribed d
unfolding map_product
map_product-given none d h = cc
map_product-given (some (text s)) d h = ground arith
map_product-given (some (obj fs)) d h =
    map_attributes-IsDescribed fs d (raise_if-returned _ _ _ d h)
map_product-given (some null) d h = cc
map_product-given (some (Value.bool b)) d h = cc
map_product-given (some (int z)) d h = cc
map_product-given (some (Value.float f)) d h = cc
map_product-given (some (arr xs)) d h = cc

map_operation-given :
    (v : Value) (i : OperationItem) → map_operation v ≡ returned i → IsDescribed i.product
unfolding map_operation
map_operation-given (obj fs) i h =
    let (o, eo, h1) =
      bind-returned (draft_operation (get (str "operacion") fs)) _ i
        (raise_if-returned _ _ _ i h) in
    let (q, eq, h2) = bind-returned (draft_quantity (get (str "cantidad") fs)) _ i h1 in
    let (d, ed, h3) = bind-returned (map_product (get (str "producto") fs)) _ i h2 in
    let e : record { operation = o; product = d; quantity = q; unit = unit } ≡ i =
      Outcome-injective h3 in
    rw (← e) (map_product-given _ d ed)
map_operation-given null i h = cc
map_operation-given (text t) i h = cc
map_operation-given (Value.bool b) i h = cc
map_operation-given (int z) i h = cc
map_operation-given (Value.float f) i h = cc
map_operation-given (arr xs) i h = cc

map_operations-given :
    (vs : Items) (l : List OperationItem)
    → map_operations vs ≡ returned l
    → All (λ (i : OperationItem). IsDescribed i.product) l
unfolding map_operations
map_operations-given nil l h = rw (← Outcome-injective h) tt
map_operations-given (cons v vs) l h =
    let (i, ei, h1) = bind-returned (map_operation v) _ l h in
    let (is, es, h2) = bind-returned (map_operations vs) _ l h1 in
    rw (← Outcome-injective h2) (map_operation-given v i ei, map_operations-given vs is es)

map_list-given :
    (v : Option Value) (p : ContractPayload)
    → map_list v ≡ returned p
    → (p ≡ payload_of p.operations)
      × All (λ (i : OperationItem). IsDescribed i.product) p.operations
unfolding map_list
map_list-given (some (arr vs)) p h =
    let (l, el, h1) = bind-returned (map_operations vs) _ p h in
    rw (← Outcome-injective h1) (refl, map_operations-given vs l el)
map_list-given none p h = cc
map_list-given (some null) p h = cc
map_list-given (some (text t)) p h = cc
map_list-given (some (Value.bool b)) p h = cc
map_list-given (some (int z)) p h = cc
map_list-given (some (Value.float f)) p h = cc
map_list-given (some (obj fs)) p h = cc

pub map_draft-given :
    (v : Value) (p : ContractPayload)
    → map_draft v ≡ returned p
    → (p ≡ payload_of p.operations)
      × All (λ (i : OperationItem). IsDescribed i.product) p.operations
unfolding map_draft
map_draft-given (obj fs) p h = map_list-given _ p (raise_if-returned _ _ _ p h)
map_draft-given null p h = cc
map_draft-given (text t) p h = cc
map_draft-given (Value.bool b) p h = cc
map_draft-given (int z) p h = cc
map_draft-given (Value.float f) p h = cc
map_draft-given (arr xs) p h = cc

-- Whatever draft a payload was mapped from, it is mapped again, unchanged, from its own draft in
-- attribute form.
pub map_draft-normal :
    (v : Value) (p : ContractPayload)
    → map_draft v ≡ returned p
    → map_draft (draft_of p) ≡ returned p
map_draft-normal v p h =
    let (e, d) = map_draft-given v p h in map_draft-draft_of p.operations d ∙ ap returned (sym e)
