-- ===== src/Pending/Flow.antt =====
-- The operation cycle: src/pi/pending_operation/flow.py, with the phases of status.py. A method that
-- holds the lock is one step. The texts shown to the operator are a data type. What the worker
-- thread, the client and the files do is in Pending/Worker.
pub mod Ends
pub mod Named
pub mod Cycle
pub mod Kept
use g3_voicestock.Base.{
  ℕ, ◌+◌, ◌-◌, Bool, true, false, ◌||◌, not, Option, none, some, is_none, Text, text_eq, Exc,
  value_error, type_error, Outcome, returned, raised, bind, if◌then◌else◌,
}
use g3_voicestock.Pending.View.{View}
use g3_voicestock.Pending.Operation.{PendingOperation, to_view, from_validated}
use g3_voicestock.Pending.Response.{
  InterpretationOutcome, OutcomeKind, accepted_kind, transport_error, service_error,
  contract_rejection, is_accepted,
}
use g3_voicestock.Contract.Validator.{ValidatedOperation}

pub data OperationPhase : Type 0 where
  idle recording processing wait_confirmation : OperationPhase

-- `CAPTURE_FAILED`, the values of `_OPERATOR_MESSAGES`, and `UNEXPECTED`.
pub data OperatorMessage : Type 0 where
  capture_failed transport_failed service_failed not_valid unexpected : OperatorMessage

pub record Flow : Type 0 where
  pub phase : OperationPhase
  pub pending : Option PendingOperation
  pub operator_message : Option OperatorMessage
  pub jobs : ℕ
  pub closed : Bool

-- `phase is OperationPhase.…`
abbrev pub is_idle : OperationPhase → Bool
is_idle idle = true
is_idle _ = false

abbrev pub is_recording : OperationPhase → Bool
is_recording recording = true
is_recording _ = false

abbrev pub is_processing : OperationPhase → Bool
is_processing processing = true
is_processing _ = false

abbrev pub is_waiting : OperationPhase → Bool
is_waiting wait_confirmation = true
is_waiting _ = false

-- The fields that `__init__` sets.
unfoldable pub new_flow : Flow
new_flow = record {
  phase = idle;
  pending = none;
  operator_message = none;
  jobs = 0;
  closed = false;
}

unfoldable pub try_begin_recording : Flow → Bool × Flow
try_begin_recording f =
    if f.closed || (not (is_idle f.phase) || not (is_none f.pending))
    then (false, f)
    else (true, record f { phase = recording; operator_message = none })

unfoldable pub accept_recording : Flow → Bool × Flow
accept_recording f =
    if f.closed || not (is_recording f.phase)
    then (false, f)
    else if not (is_none f.pending)
    then (false, f)
    else (true, record f { phase = processing; operator_message = none })

-- The first locked block of `on_capture_completed`.
unfoldable pub admit_recording : Flow → Bool × Flow
unfolding accept_recording
admit_recording f =
    let (accepted, f') = accept_recording f in
    if accepted then (true, record f' { jobs = f'.jobs + 1 }) else (false, f')

unfoldable pub on_capture_error : Flow → Flow
on_capture_error f =
    if not (is_recording f.phase)
    then f
    else record f { phase = idle; operator_message = some capture_failed }

unfoldable pub abandon : OperatorMessage → Flow → Flow
abandon m f =
    if not (is_processing f.phase) || not (is_none f.pending)
    then f
    else record f { phase = idle; operator_message = some m }

-- The `finally` block of `_process`, and the same lines of `on_capture_completed`.
unfoldable pub job_done : Flow → Flow
job_done f = record f { jobs = f.jobs - 1 }

-- `_OPERATOR_MESSAGES.get(kind, UNEXPECTED)`
abbrev pub message_of : OutcomeKind → OperatorMessage
message_of transport_error = transport_failed
message_of service_error = service_failed
message_of contract_rejection = not_valid
message_of accepted_kind = unexpected

-- The last locked block of `_on_sent`.
unfoldable pub publish : PendingOperation → Flow → Flow
publish p f =
    if not (is_processing f.phase) || not (is_none f.pending)
    then f
    else if f.closed
    then record f { phase = idle; operator_message = none }
    else record f { pending = some p; phase = wait_confirmation; operator_message = none }

-- `except (TypeError, ValueError)`; another exception goes on to the caller.
unfoldable pub publish_built : Outcome PendingOperation → Flow → Outcome (Unit {0}) × Flow
unfolding publish abandon
publish_built (returned p) f = (returned tt, publish p f)
publish_built (raised value_error) f = (returned tt, abandon unexpected f)
publish_built (raised type_error) f = (returned tt, abandon unexpected f)
publish_built (raised e) f = (raised e, f)

-- `new_id` is the call of the id factory, and `fresh` the uuid that replaces an empty id.
unfoldable pub conclude_with :
    Option ValidatedOperation
    → Text
    → OutcomeKind
    → Outcome Text
    → Text
    → Flow
    → Outcome (Unit {0}) × Flow
unfolding publish_built from_validated
conclude_with none t k new_id fresh f = (returned tt, abandon (message_of k) f)
conclude_with (some v) t k new_id fresh f =
    if not (is_accepted k)
    then (returned tt, abandon (message_of k) f)
    else publish_built (bind new_id (λ i. from_validated v t (some i) fresh)) f

-- `_on_sent`, on what the interpreter made of the envelope.
unfoldable pub on_sent :
    Outcome InterpretationOutcome → Outcome Text → Text → Flow → Outcome (Unit {0}) × Flow
unfolding conclude_with
on_sent (raised e) new_id fresh f = (returned tt, abandon unexpected f)
on_sent (returned o) new_id fresh f =
    conclude_with o.validated_operation o.recognized_text o.kind new_id fresh f

unfoldable pub current : Flow → Outcome (Option View)
unfolding to_view
current f = elim f.pending [
  | none ↦ returned none
  | some p ↦ bind (to_view p) (λ v. returned (some v))
]

unfoldable pub clear_pending : Text → Option PendingOperation → Flow → Bool × Flow
clear_pending i none f = (false, f)
clear_pending i (some p) f =
    if not (text_eq p.operation_id i)
    then (false, f)
    else if not (is_waiting f.phase)
    then (false, f)
    else (true, record f { pending = none; phase = idle; operator_message = none })

unfoldable pub clear : Text → Flow → Bool × Flow
unfolding clear_pending
clear i f = clear_pending i f.pending f

unfoldable pub close : Flow → Flow
close f = if f.closed then f else record f { closed = true }

-- `get_status`: the phase, the message and the snapshot of one moment.
pub record OperationCycleStatus : Type 0 where
  pub phase : OperationPhase
  pub operator_message : Option OperatorMessage
  pub pending_operation : Option View

unfoldable pub get_status : Flow → Outcome OperationCycleStatus
unfolding current
get_status f = bind (current f) (λ v.
    returned
      (record { phase = f.phase; operator_message = f.operator_message; pending_operation = v }))
