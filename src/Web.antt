-- ===== src/Web.antt =====
-- The HTTP adapter of the Raspberry Pi: src/pi/web/api.py with dependencies.py and schemas.py. The
-- framework, which dumps the models and renders the replies, is outside.
pub mod Requests
pub mod Reads
use g3_voicestock.Base.{
  ℕ, Bool, true, false, List, [], Option, none, some, Text, str, is_blank, ℤ, Outcome, returned,
  raised, Exc, bind, if◌then◌else◌,
}
use g3_voicestock.Pending.View.{View}
use g3_voicestock.Pending.Resolution.{
  ResolutionStatus, ResolvedAction, ResolutionResult, success, no_pending, stale_operation,
  already_resolved, conflict, execution_failed,
}
use g3_voicestock.Pending.Flow.{
  OperationPhase, idle, recording, processing, wait_confirmation, OperatorMessage,
  OperationCycleStatus,
}

pub record PendingOperationResponse : Type 0 where
  pub operation_id : Text
  pub recognized_text : Text
  pub product : Text
  pub operation : Text
  pub quantity : ℤ
  pub unit : Text
  pub confirmation_message : Text

pub record ResolutionResponse : Type 0 where
  pub status : ResolutionStatus
  pub operation_id : Option Text
  pub resolved_action : Option ResolvedAction

pub record SystemStatusResponse : Type 0 where
  pub phase : OperationPhase
  pub headline : Text
  pub detail : Text
  pub operator_message : Option OperatorMessage
  pub pending_operation : Option PendingOperationResponse

pub record ErrorResponse : Type 0 where
  pub code : Text
  pub detail : Text

-- `from_view`, `from_result` and `from_status`.
unfoldable pub from_view : View → PendingOperationResponse
from_view view = record {
  operation_id = view.operation_id;
  recognized_text = view.recognized_text;
  product = view.product;
  operation = view.operation;
  quantity = view.quantity;
  unit = view.unit;
  confirmation_message = view.confirmation_message;
}

abbrev pub from_result : ResolutionResult → ResolutionResponse
from_result r = record {
  status = r.status;
  operation_id = r.operation_id;
  resolved_action = r.resolved_action;
}

-- `describe_phase`
abbrev pub describe_phase : OperationPhase → Text × Text
describe_phase idle = (str "Listo para escuchar", str "Presioná el botón para hablar")
describe_phase recording = (str "Escuchando...", str "Soltá el botón para terminar")
describe_phase processing = (str "Procesando solicitud...", [])
describe_phase wait_confirmation = (str "Operación pendiente de confirmación", [])

abbrev pub optional_view : Option View → Option PendingOperationResponse
optional_view none = none
optional_view (some v) = some (from_view v)

unfoldable pub from_status : OperationCycleStatus → SystemStatusResponse
from_status s = record {
  phase = s.phase;
  headline = (describe_phase s.phase).0;
  detail = (describe_phase s.phase).1;
  operator_message = s.operator_message;
  pending_operation = optional_view s.pending_operation;
}

pub data Body : Type 0 where
  empty : Body
  pending_operation : PendingOperationResponse → Body
  resolution : ResolutionResponse → Body
  system_status : SystemStatusResponse → Body
  api_error : ErrorResponse → Body

-- A reply: its status, its body, and whether it carries `Cache-Control: no-store`.
pub record Reply : Type 0 where
  pub status_code : ℕ
  pub body : Body
  pub no_store : Bool

-- What a route ends with: a reply, the one of an `APIError` included, or another exception.
abbrev pub Answer : Type 0
Answer = Outcome Reply

-- `_HTTP_STATUS`
abbrev pub http_status : ResolutionStatus → ℕ
http_status success = 200
http_status already_resolved = 200
http_status no_pending = 404
http_status stale_operation = 409
http_status conflict = 409
http_status execution_failed = 503

-- An `APIError`, as `handle_api_error` renders it.
abbrev pub api_failure : ℕ → Text → Text → Answer
api_failure status code detail = returned (record {
  status_code = status;
  body = api_error (record { code = code; detail = detail });
  no_store = false;
})

abbrev pub not_ready : Answer
not_ready =
    api_failure 503 (str "application_not_ready")
      (str "pending-operation application ports are not configured")

abbrev pub invalid_id : Answer
invalid_id =
    api_failure 422 (str "invalid_operation_id") (str "operation_id must be a non-blank string")

unfoldable pub resolution_http_response : ResolutionResult → Answer
resolution_http_response r = returned (record {
  status_code = http_status r.status;
  body = resolution (from_result r);
  no_store = false;
})

-- A 200 with the header `NO_STORE`.
abbrev pub snapshot : Body → Answer
snapshot body = returned (record { status_code = 200; body = body; no_store = true })

abbrev pub current_reply : Option View → Answer
current_reply none = returned (record { status_code = 204; body = empty; no_store = true })
current_reply (some v) = snapshot (pending_operation (from_view v))

-- `GET /system-status`: the port, if there is one, and what `get_status` returns or raises.
unfoldable pub read_system_status : Option (Outcome OperationCycleStatus) → Answer
unfolding from_status
read_system_status none = not_ready
read_system_status (some s) = bind s (λ status. snapshot (system_status (from_status status)))

-- `GET /pending-operation`
unfoldable pub read_pending_operation : Option (Outcome (Option View)) → Answer
unfolding from_view
read_pending_operation none = not_ready
read_pending_operation (some c) = bind c current_reply

-- `S` is the state behind the resolution port. `is_blank_id` tells whether an exception is the
-- `ValueError` with the text of a blank id.
module _ {S : Type 0} (is_blank_id : Exc → Bool) where
  -- `call_resolution`, on what the action did, and the reply.
  unfoldable pub call_resolution : Outcome ResolutionResult × S → Answer × S
  unfolding resolution_http_response
  call_resolution (returned r, s) = (resolution_http_response r, s)
  call_resolution (raised e, s) = (if is_blank_id e then invalid_id else raised e, s)

  -- `confirm_pending_operation` and `cancel_pending_operation`, with the method of the port that each
  -- calls.
  unfoldable pub post : Option (Text → S → Outcome ResolutionResult × S) → Text → S → Answer × S
  unfolding call_resolution
  post none i s = (not_ready, s)
  post (some action) i s = if is_blank i then (invalid_id, s) else call_resolution (action i s)
