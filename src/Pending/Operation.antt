-- ===== src/Pending/Operation.antt =====
-- One validated operation that waits for its confirmation:
-- src/pi/pending_operation/operation.py.
use Prim.Native.Nat.{◌/◌, ◌%◌}
use g3_voicestock.Base.{
  ℕ, zero, suc, ◌+◌, not, ◌&&◌, [], ◌∷◌, ◌++◌, Text, str, text_eq, is_empty, is_blank, ℤ, pos,
  negsuc, eq_ℤ, Outcome, returned, value_error, raise_if, ltb, if◌then◌else◌, Option, none, some,
}
use g3_voicestock.Contract.Validator.{ValidatedOperation}
use g3_voicestock.Pending.View.{View, new_view}

pub record PendingOperation : Type 0 where
  pub operation_id : Text
  pub recognized_text : Text
  pub validated_operation : ValidatedOperation

-- The constructor with its `__post_init__`.
unfoldable pub new_pending : PendingOperation → Outcome PendingOperation
new_pending p = raise_if (is_blank p.operation_id) value_error (returned p)

-- `operation_id or str(uuid.uuid4())`
abbrev pub id_or_fresh : Option Text → Text → Text
id_or_fresh none fresh = fresh
id_or_fresh (some i) fresh = if is_empty i then fresh else i

unfoldable pub from_validated :
    ValidatedOperation → Text → Option Text → Text → Outcome PendingOperation
unfolding new_pending
from_validated v t operation_id fresh = new_pending (record {
  operation_id = id_or_fresh operation_id fresh;
  recognized_text = t;
  validated_operation = v;
})

-- `str(n)`, on fuel above the number.
unfoldable pub digits : ℕ → ℕ → Text
digits zero n = []
digits (suc fuel) n =
    let higher = digits fuel (n / 10) in
    if ltb n 10 then (48 + n) ∷ [] else higher ++ ((48 + n % 10) ∷ [])

unfoldable pub str_of : ℤ → Text
unfolding digits
str_of (pos n) = digits (suc n) n
str_of (negsuc n) = b'-' ∷ digits (suc (suc n)) (suc n)

-- `_OPERATION_LABELS.get(operation, operation)` and `_CONFIRMATION_VERBS.get(operation, operation)`
unfoldable pub operation_label : Text → Text
operation_label o =
    if text_eq o (str "add_stock")
    then str "agregar"
    else if text_eq o (str "remove_stock")
    then str "quitar"
    else o

unfoldable pub confirmation_verb : Text → Text
confirmation_verb o =
    if text_eq o (str "add_stock")
    then str "Agregar"
    else if text_eq o (str "remove_stock")
    then str "Quitar"
    else o

unfoldable pub confirmation_message : ValidatedOperation → Text → Text
unfolding confirmation_verb str_of
confirmation_message v unit =
    let shown =
      if text_eq v.unit (str "unit") && not (eq_ℤ v.quantity (pos 1))
      then str "unidades"
      else unit in
    confirmation_verb v.operation
    ++ (str " " ++ (str_of v.quantity ++ (str " " ++ (shown ++ (str " de " ++ v.product_name)))))

unfoldable pub to_view : PendingOperation → Outcome View
unfolding operation_label confirmation_message new_view
to_view p =
    let v = p.validated_operation in
    let unit = if text_eq v.unit (str "unit") then str "unidad" else v.unit in
    new_view (record {
      operation_id = p.operation_id;
      recognized_text = p.recognized_text;
      product = v.product_name;
      operation = operation_label v.operation;
      quantity = v.quantity;
      unit = unit;
      confirmation_message = confirmation_message v unit;
    })
