-- ===== src/Pending/Flow/Named.antt =====
-- The operation that the end of a job publishes has an id: `_on_sent` of
-- src/pi/pending_operation/flow.py with `from_validated` of src/pi/pending_operation/operation.py.
use g3_voicestock.Base.{
  ◌≡◌, refl, Bool, true, not, Option, none, some, Text, is_blank, Outcome, returned, raised, bind,
  Exc, value_error, type_error, arith,
}
use g3_voicestock.Pending.Operation.{PendingOperation, from_validated}
use g3_voicestock.Pending.Response.{
  InterpretationOutcome, OutcomeKind, accepted_kind, transport_error, service_error,
  contract_rejection,
}
use g3_voicestock.Contract.Validator.{ValidatedOperation}
use g3_voicestock.Pending.Flow.{
  Flow, OperatorMessage, unexpected, publish, publish_built, conclude_with, abandon, on_sent,
}

abbrev pub is_named : Option PendingOperation → Bool
is_named none = true
is_named (some p) = not (is_blank p.operation_id)

-- What a constructor returns, if it returns, has an id.
abbrev all_named : Outcome PendingOperation → Bool
all_named (returned p) = is_named (some p)
all_named (raised _) = true

all_named-from_validated :
    (v : ValidatedOperation) (t : Text) (i : Option Text) (fresh : Text)
    → all_named (from_validated v t i fresh) ≡ true
unfolding from_validated
all_named-from_validated v t i fresh = ground arith

module _ (f : Flow) (h : is_named f.pending ≡ true) where
  abandon-named : (m : OperatorMessage) → is_named (abandon m f).pending ≡ true
  unfolding abandon
  abandon-named m = ground arith

  publish_built-named :
      (o : Outcome PendingOperation)
      → all_named o ≡ true
      → is_named (publish_built o f).1.pending ≡ true
  unfolding publish_built publish
  publish_built-named (returned p) n = ground arith
  publish_built-named (raised value_error) n = abandon-named unexpected
  publish_built-named (raised type_error) n = abandon-named unexpected
  publish_built-named (raised Exc.runtime_error) n = h
  publish_built-named (raised Exc.audio) n = h
  publish_built-named (raised Exc.other) n = h

  built-named :
      (v : ValidatedOperation) (t : Text) (new_id : Outcome Text) (fresh : Text)
      → is_named (publish_built (bind new_id (λ i. from_validated v t (some i) fresh)) f).1.pending
        ≡ true
  built-named v t (returned i) fresh =
      publish_built-named (from_validated v t (some i) fresh)
        (all_named-from_validated v t (some i) fresh)
  built-named v t (raised e) fresh = publish_built-named (raised e) refl

  conclude_with-named :
      (v : Option ValidatedOperation) (t : Text) (k : OutcomeKind) (new_id : Outcome Text)
      (fresh : Text)
      → is_named (conclude_with v t k new_id fresh f).1.pending ≡ true
  unfolding conclude_with
  conclude_with-named none t k new_id fresh = abandon-named _
  conclude_with-named (some v) t accepted_kind new_id fresh = built-named v t new_id fresh
  conclude_with-named (some v) t transport_error new_id fresh = abandon-named _
  conclude_with-named (some v) t service_error new_id fresh = abandon-named _
  conclude_with-named (some v) t contract_rejection new_id fresh = abandon-named _

  pub on_sent-named :
      (o : Outcome InterpretationOutcome) (new_id : Outcome Text) (fresh : Text)
      → is_named (on_sent o new_id fresh f).1.pending ≡ true
  unfolding on_sent
  on_sent-named (raised e) new_id fresh = abandon-named unexpected
  on_sent-named (returned o) new_id fresh =
      conclude_with-named o.validated_operation o.recognized_text o.kind new_id fresh
