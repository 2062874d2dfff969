-- ===== src/Pc/Draft.antt =====
-- From the interpreter's draft to the contract: src/pc/operation_contract/mapper.py. A
-- `DraftMappingError` is a `ValueError`; its text is left out. A key that `_require_keys` has found is
-- read again, and its absence would be a `KeyError`, here `other`.
pub mod Normal
use g3_voicestock.Base.{
  Bool, true, false, ◌&&◌, not, Option, none, some, is_none, List, [], ◌∷◌, Text, str, text_eq,
  is_blank, ℤ, every, some_of, Outcome, returned, raised, value_error, other, bind, raise_if,
  if◌then◌else◌,
}
use g3_voicestock.Json.{
  Value, Items, Fields, null, text, int, arr, obj, nil, cons, end, field, get, is_text,
}
use g3_voicestock.Contract.Payload.{
  Operation, add_stock, remove_stock, StockUnit, unit, version_1, ProductDescription, OperationItem,
  ContractPayload,
}

abbrev pub draft_keys : List Text
draft_keys = str "operaciones" ∷ []

abbrev pub draft_operation_keys : List Text
draft_operation_keys = str "operacion" ∷ str "producto" ∷ str "cantidad" ∷ []

abbrev pub product_attribute_keys : List Text
product_attribute_keys = str "nombre" ∷ str "marca" ∷ str "variante" ∷ str "presentacion" ∷ []

-- `not (keys - expected)`
unfoldable pub only_keys : List Text → Fields → Bool
only_keys expected end = true
only_keys expected (field k v rest) = some_of (text_eq k) expected && only_keys expected rest

-- `_require_keys`: does it return?
unfoldable pub require_keys : Fields → List Text → Bool
unfolding only_keys get
require_keys fields expected =
    every (λ k. not (is_none (get k fields))) expected && only_keys expected fields

unfoldable pub draft_operation : Option Value → Outcome Operation
draft_operation v =
    if is_text (str "agregar_stock") v
    then returned add_stock
    else if is_text (str "restar_stock") v
    then returned remove_stock
    else raised value_error

-- A JSON integer: a Boolean is another constructor.
abbrev pub draft_quantity : Option Value → Outcome ℤ
draft_quantity (some (int z)) = returned z
draft_quantity (some _) = raised value_error
draft_quantity none = raised other

abbrev pub non_blank : Text → Outcome Text
non_blank t = raise_if (is_blank t) value_error (returned t)

abbrev pub name_text : Option Value → Outcome Text
name_text (some (text t)) = non_blank t
name_text (some _) = raised value_error
name_text none = raised other

-- `_optional_text`
abbrev pub optional_text : Option Value → Outcome (Option Text)
optional_text (some null) = returned none
optional_text (some (text t)) = bind (non_blank t) (λ s. returned (some s))
optional_text (some _) = raised value_error
optional_text none = raised other

unfoldable pub map_attributes : Fields → Outcome ProductDescription
unfolding get
map_attributes fields = bind (name_text (get (str "nombre") fields)) (λ n.
    bind (optional_text (get (str "marca") fields)) (λ b.
      bind (optional_text (get (str "variante") fields)) (λ v.
        bind (optional_text (get (str "presentacion") fields))
          (λ p. returned (record { name = n; brand = b; variant = v; presentation = p })))))

unfoldable pub map_product : Option Value → Outcome ProductDescription
unfolding map_attributes require_keys
map_product (some (text t)) =
    bind (non_blank t)
      (λ n. returned (record { name = n; brand = none; variant = none; presentation = none }))
map_product (some (obj fields)) =
    raise_if (not (require_keys fields product_attribute_keys)) value_error (map_attributes fields)
map_product (some _) = raised value_error
map_product none = raised other

unfoldable pub map_operation : Value → Outcome OperationItem
unfolding map_product require_keys draft_operation
map_operation (obj fields) = raise_if (not (require_keys fields draft_operation_keys)) value_error (
    bind (draft_operation (get (str "operacion") fields)) (λ o.
      bind (draft_quantity (get (str "cantidad") fields)) (λ q.
        bind (map_product (get (str "producto") fields))
          (λ p. returned (record { operation = o; product = p; quantity = q; unit = unit })))))
map_operation _ = raised value_error

unfoldable pub map_operations : Items → Outcome (List OperationItem)
unfolding map_operation
map_operations nil = returned []
map_operations (cons v rest) =
    bind (map_operation v) (λ i. bind (map_operations rest) (λ is. returned (i ∷ is)))

abbrev pub payload_of : List OperationItem → ContractPayload
payload_of items = record { contract_version = version_1; operations = items }

unfoldable pub map_list : Option Value → Outcome ContractPayload
unfolding map_operations
map_list (some (arr items)) = bind (map_operations items) (λ l. returned (payload_of l))
map_list (some _) = raised value_error
map_list none = raised other

unfoldable pub map_draft : Value → Outcome ContractPayload
unfolding map_list require_keys
map_draft (obj fields) =
    raise_if (not (require_keys fields draft_keys)) value_error
      (map_list (get (str "operaciones") fields))
map_draft _ = raised value_error
