-- ===== src/Pending/View.antt =====
-- The public snapshot of a pending operation: src/pi/pending_operation/view.py.
use g3_voicestock.Base.{
  ◌≡◌, false, Text, is_blank, ℤ, Outcome, returned, value_error, raise_if, arith,
}

pub record View : Type 0 where
  pub operation_id : Text
  pub recognized_text : Text
  pub product : Text
  pub operation : Text
  pub quantity : ℤ
  pub unit : Text
  pub confirmation_message : Text

-- The constructor with its `__post_init__`.
unfoldable pub new_view : View → Outcome View
new_view v = raise_if (is_blank v.operation_id) value_error (returned v)

unfoldable pub copy_view : View → Outcome View
unfolding new_view
copy_view source = new_view (record {
  operation_id = source.operation_id;
  recognized_text = source.recognized_text;
  product = source.product;
  operation = source.operation;
  quantity = source.quantity;
  unit = source.unit;
  confirmation_message = source.confirmation_message;
})

-- A copy of a snapshot with an id is the snapshot.
pub copy_view_lem : (v : View) → is_blank v.operation_id ≡ false → copy_view v ≡ returned v
unfolding copy_view
copy_view_lem v h = ground arith
