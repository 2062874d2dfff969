-- ===== src/Tests/Pipeline.antt =====
-- The PC's mapper and pipeline on concrete inputs, with a schema package for them.
use g3_voicestock.Base.{
  ◌≡◌, refl, Option, none, some, List, [], ◌∷◌, map, Text, str, is_blank, text_eq, ℤ, pos, returned,
  if◌then◌else◌,
}
use g3_voicestock.Json.{
  Value, Items, Fields, null, text, int, arr, obj, nil, cons, end, field, without, get, put,
}
use g3_voicestock.Envelope.{success}
use g3_voicestock.Contract.Payload.{
  Operation, add_stock, remove_stock, StockUnit, unit, ContractPayload, OperationItem,
  ContractVersion, version_1, version_text, ProductDescription, operation_text,
}
use g3_voicestock.Contract.Normalize.{normalize_attribute}
use g3_voicestock.Contract.Structure.{Validation, valid, invalid}
use g3_voicestock.Tests.Catalog.{plain, products}
use g3_voicestock.Pc.Match.{match_description}
use g3_voicestock.Pc.Match.Agreement.{entry_of}
use g3_voicestock.Pc.Draft.{map_draft}
use g3_voicestock.Pc.Draft.Normal.{draft_of, map_draft-normal}
use g3_voicestock.Pc.Service.{Provider, ServiceResult, interpret_text}
use g3_voicestock.Pc.Pipeline.{
  Transcription, TranscriptionFailure, recognized, not_accepted, handle,
}
use g3_voicestock.Pc.Pipeline.Answer.{IsAnswer, handle-IsAnswer}
use g3_voicestock.Pc.Pipeline.Delivery.{IsDump}

-- A dump with the layout of the schema package, and its reader.
abbrev pub optional_value : Option Text → Value
optional_value none = null
optional_value (some t) = text t

abbrev dump_item : OperationItem → Value
dump_item i = obj (
    field (str "operation") (text (operation_text i.operation)) (
      field (str "product")
        (obj (
          field (str "name") (text i.product.name) (
            field (str "brand") (optional_value i.product.brand) (
              field (str "variant") (optional_value i.product.variant)
                (field (str "presentation") (optional_value i.product.presentation) end)))))
        (field (str "quantity") (int i.quantity) (field (str "unit") (text (str "unit")) end))))

abbrev dump_items : List OperationItem → Items
dump_items [] = nil
dump_items (i ∷ rest) = cons (dump_item i) (dump_items rest)

abbrev pub dump : ContractPayload → Fields
dump c =
    field (str "contract_version") (text (version_text c.contract_version))
      (field (str "operations") (arr (dump_items c.operations)) end)

abbrev pub read_optional : Value → Option Text
read_optional (text t) = some t
read_optional _ = none

abbrev read_operation : Text → Operation
read_operation t = if text_eq t (str "add_stock") then add_stock else remove_stock

abbrev described : ProductDescription
described = record { name = str "arroz"; brand = none; variant = none; presentation = none }

abbrev read_product : Value → ProductDescription
read_product (obj (field _ (text n) (field _ b (field _ v (field _ p end))))) = record {
  name = n;
  brand = read_optional b;
  variant = read_optional v;
  presentation = read_optional p;
}
read_product _ = described

abbrev item : OperationItem
item = record { operation = add_stock; product = described; quantity = pos 12; unit = unit }

abbrev read_item : Value → OperationItem
read_item (obj (field _ (text o) (field _ p (field _ (int q) rest)))) = record {
  operation = read_operation o;
  product = read_product p;
  quantity = q;
  unit = unit;
}
read_item _ = item

abbrev read_items : Items → List OperationItem
read_items nil = []
read_items (cons v rest) = read_item v ∷ read_items rest

abbrev pub schema : Value → Validation
schema (obj (field _ (text v) (field _ (arr items) end))) =
    if text_eq v (version_text version_1)
    then valid (record { contract_version = version_1; operations = read_items items })
    else invalid []
schema _ = invalid []

pub read_optional-optional_value : (o : Option Text) → read_optional (optional_value o) ≡ o
read_optional-optional_value none = refl
read_optional-optional_value (some t) = refl

read_operation-operation_text : (o : Operation) → read_operation (operation_text o) ≡ o
unfolding text_eq
read_operation-operation_text add_stock = refl
read_operation-operation_text remove_stock = refl

read_item_parts :
    (o : Operation) (d : ProductDescription) (q : ℤ) (u : StockUnit)
    → read_item (dump_item (record { operation = o; product = d; quantity = q; unit = u }))
      ≡ record { operation = o; product = d; quantity = q; unit = u }
read_item_parts o d q unit = rw (
  read_operation-operation_text o,
  read_optional-optional_value d.brand,
  read_optional-optional_value d.variant,
  read_optional-optional_value d.presentation,
)

read_item-dump_item : (i : OperationItem) → read_item (dump_item i) ≡ i
read_item-dump_item i = read_item_parts i.operation i.product i.quantity i.unit

read_items-dump_items : (l : List OperationItem) → read_items (dump_items l) ≡ l
read_items-dump_items [] = refl
read_items-dump_items (i ∷ l) = rw (read_item-dump_item i, read_items-dump_items l)

schema-dump_parts :
    (v : ContractVersion) (l : List OperationItem)
    → schema (obj (dump (record { contract_version = v; operations = l })))
      ≡ valid (record { contract_version = v; operations = l })
unfolding text_eq
schema-dump_parts version_1 l = rw (read_items-dump_items l)

schema-dump : (c : ContractPayload) → schema (obj (dump c)) ≡ valid c
schema-dump c = schema-dump_parts c.contract_version c.operations

pub schema-IsDump : IsDump schema dump
unfolding without get text_eq
schema-IsDump = record { no_text = λ c. refl; version = λ c. refl; read_back = schema-dump }

-- The draft of "agregar 12 arroz", with the product as a display string.
abbrev draft : Value
draft = obj (
    field (str "operaciones")
      (arr (
        cons
          (obj (
            field (str "operacion") (text (str "agregar_stock")) (
              field (str "producto") (text (str "arroz"))
                (field (str "cantidad") (int (pos 12)) end))))
          nil))
      end)

abbrev contract : ContractPayload
contract = record { contract_version = version_1; operations = item ∷ [] }

draft_mapped : map_draft draft ≡ returned contract
unfolding map_draft text_eq is_blank
draft_mapped = refl

map_draft-normal_example : map_draft (draft_of contract) ≡ returned contract
map_draft-normal_example = map_draft-normal draft contract draft_mapped

abbrev pub provider : Provider
provider t = returned draft

abbrev pub heard : Transcription
heard = recognized (str "agregar 12 arroz")

abbrev pub result : ServiceResult
result = record {
  status = success;
  payload = obj (put (str "recognized_text") (text (str "agregar 12 arroz")) (dump contract));
  error = none;
}

pub handled : handle plain (map entry_of products) dump (some provider) heard ≡ returned result
unfolding handle text_eq is_blank interpret_text match_description normalize_attribute
handled = refl

handle-IsAnswer_example :
    IsAnswer
      (handle plain (map entry_of products) dump none (not_accepted TranscriptionFailure.timeout))
handle-IsAnswer_example =
    handle-IsAnswer plain (map entry_of products) dump none
      (not_accepted TranscriptionFailure.timeout)
