-- ===== src/Contract/Rejection.antt =====
-- Typed rejections: src/pi/operation_contract/rejection.py. The diagnostic `detail`, which no caller
-- branches on, is left out.
use g3_voicestock.Base.{List, Text}

pub data RejectionReason : Type 0 where
  invalid_json invalid_structure unsupported_version unknown_operation unknown_unit :
      RejectionReason
  no_operations too_many_operations insufficient_product_attributes : RejectionReason
  unknown_product ambiguous_product invalid_quantity incompatible_unit : RejectionReason

pub record ValidationRejection : Type 0 where
  pub reason : RejectionReason
  pub candidate_ids : List Text

-- A stage returns a value or a rejection.
pub data Verdict (A : Type 0) : Type 0 where
  accepted : A → Verdict A
  rejected : ValidationRejection → Verdict A
