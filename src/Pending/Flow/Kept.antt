-- ===== src/Pending/Flow/Kept.antt =====
-- What other threads can do to a pending operation: nothing, until the gateway clears it
-- (src/pi/pending_operation/flow.py).
use g3_voicestock.Base.{
  ◌≡◌, refl, true, false, Option, none, some, Text, text_eq_refl, Outcome, returned, raised, Exc,
  value_error, type_error, arith,
}
use g3_voicestock.Pending.View.{View}
use g3_voicestock.Pending.Operation.{PendingOperation, to_view}
use g3_voicestock.Pending.Response.{
  InterpretationOutcome, OutcomeKind, accepted_kind, transport_error, service_error,
  contract_rejection,
}
use g3_voicestock.Contract.Validator.{ValidatedOperation}
use g3_voicestock.Pending.Flow.{
  Flow, wait_confirmation, idle, is_processing, OperatorMessage, unexpected, try_begin_recording,
  admit_recording, on_capture_error, abandon, job_done, publish, publish_built, conclude_with,
  on_sent, clear, close, current,
}

-- The steps of the other threads: every method of the flow but `clear`.
pub data Others (f : Flow) : Flow → Type 0 where
  rest : Others f f
  begin : {g : Flow} → Others f g → Others f (try_begin_recording g).1
  admit : {g : Flow} → Others f g → Others f (admit_recording g).1
  capture_error : {g : Flow} → Others f g → Others f (on_capture_error g)
  abandoned : {g : Flow} → (m : OperatorMessage) → Others f g → Others f (abandon m g)
  sent :
      {g : Flow}
      → (o : Outcome InterpretationOutcome) (new_id : Outcome Text) (fresh : Text) → Others f g
      → Others f (on_sent o new_id fresh g).1
  done : {g : Flow} → Others f g → Others f (job_done g)
  shut : {g : Flow} → Others f g → Others f (close g)

-- A flow outside `processing` is not changed by the end of a job.
module _ (f : Flow) (h : is_processing f.phase ≡ false) where
  abandon_idle : (m : OperatorMessage) → abandon m f ≡ f
  unfolding abandon
  abandon_idle m = ground arith

  publish_idle : (p : PendingOperation) → publish p f ≡ f
  unfolding publish
  publish_idle p = ground arith

  publish_built_idle : (o : Outcome PendingOperation) → (publish_built o f).1 ≡ f
  unfolding publish_built
  publish_built_idle (returned p) = publish_idle p
  publish_built_idle (raised value_error) = abandon_idle unexpected
  publish_built_idle (raised type_error) = abandon_idle unexpected
  publish_built_idle (raised Exc.runtime_error) = refl
  publish_built_idle (raised Exc.audio) = refl
  publish_built_idle (raised Exc.other) = refl

  conclude_with_idle :
      (v : Option ValidatedOperation) (t : Text) (k : OutcomeKind) (new_id : Outcome Text)
      (fresh : Text)
      → (conclude_with v t k new_id fresh f).1 ≡ f
  unfolding conclude_with
  conclude_with_idle none t k new_id fresh = abandon_idle _
  conclude_with_idle (some v) t accepted_kind new_id fresh = publish_built_idle _
  conclude_with_idle (some v) t transport_error new_id fresh = abandon_idle _
  conclude_with_idle (some v) t service_error new_id fresh = abandon_idle _
  conclude_with_idle (some v) t contract_rejection new_id fresh = abandon_idle _

  pub on_sent_idle :
      (o : Outcome InterpretationOutcome) (new_id : Outcome Text) (fresh : Text)
      → (on_sent o new_id fresh f).1 ≡ f
  unfolding on_sent
  on_sent_idle (raised e) new_id fresh = abandon_idle unexpected
  on_sent_idle (returned o) new_id fresh =
      conclude_with_idle o.validated_operation o.recognized_text o.kind new_id fresh

abbrev pub Waits : PendingOperation → Flow → Type 0
Waits p f = (f.phase ≡ wait_confirmation) × (f.pending ≡ some p)

Waits-not_processing : (p : PendingOperation) (f : Flow) → Waits p f → is_processing f.phase ≡ false
Waits-not_processing p f h = ground arith

-- An operation that waits for its confirmation stays pending, and the same, over any steps of the
-- other threads.
pub Others-Waits : (p : PendingOperation) {f g : Flow} → Waits p f → Others f g → Waits p g
unfolding try_begin_recording admit_recording on_capture_error abandon job_done close
Others-Waits p h rest = h
Others-Waits p h (begin o) = let k = Others-Waits p h o in ground arith
Others-Waits p h (admit o) = let k = Others-Waits p h o in ground arith
Others-Waits p h (capture_error o) = let k = Others-Waits p h o in ground arith
Others-Waits p h (abandoned m o) = let k = Others-Waits p h o in ground arith
Others-Waits p h (sent {g = g} o n i r) =
    let k = Others-Waits p h r in rw (on_sent_idle g (Waits-not_processing p g k) o n i) k
Others-Waits p h (done o) = let k = Others-Waits p h o in ground arith
Others-Waits p h (shut o) = let k = Others-Waits p h o in ground arith

-- The flow after its pending operation was cleared.
abbrev pub cleared : Flow → Flow
cleared f = record f { pending = none; phase = idle; operator_message = none }

pub clear-Waits :
    (p : PendingOperation) (f : Flow) → Waits p f → clear p.operation_id f ≡ (true, cleared f)
unfolding clear
clear-Waits p f h = ground (arith, text_eq_refl p.operation_id)

pub to_view-operation_id :
    (p : PendingOperation) (v : View) → to_view p ≡ returned v → v.operation_id ≡ p.operation_id
unfolding to_view
to_view-operation_id p v h = ground arith

pub current-Waits :
    (p : PendingOperation) (v : View) (f : Flow)
    → Waits p f
    → to_view p ≡ returned v
    → current f ≡ returned (some v)
unfolding current
current-Waits p v f h e = ground arith
