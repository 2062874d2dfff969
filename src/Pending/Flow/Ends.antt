-- ===== src/Pending/Flow/Ends.antt =====
-- What the end of a job does to the cycle: `_on_sent` and `_abandon` of
-- src/pi/pending_operation/flow.py, in `processing` and outside it.
use g3_voicestock.Base.{
  ◌≡◌, refl, ◌⊎◌, true, false, Option, none, some, is_none, Text, Outcome, returned, raised, Exc,
  value_error, type_error, arith,
}
use g3_voicestock.Pending.Operation.{PendingOperation}
use g3_voicestock.Pending.Response.{
  InterpretationOutcome, OutcomeKind, accepted_kind, transport_error, service_error,
  contract_rejection,
}
use g3_voicestock.Contract.Validator.{ValidatedOperation}
use g3_voicestock.Pending.Flow.{
  Flow, idle, processing, wait_confirmation, is_processing, OperatorMessage, unexpected, publish,
  publish_built, conclude_with, message_of, abandon, on_sent,
}

-- What the end of a job leaves: idle with nothing pending, or an operation to confirm.
abbrev pub Concluded : Flow → Flow → Type 0
Concluded f f' =
    (f'.jobs ≡ f.jobs)
    × (((f'.phase ≡ idle) × (f'.pending ≡ none))
        ⊎ ((f'.phase ≡ wait_confirmation)
            × (is_none f'.pending ≡ false)
            × (f'.operator_message ≡ none)))

module _ (f : Flow) (at : f.phase ≡ processing) (free : is_none f.pending ≡ true) where
  pub abandon-Concluded : (m : OperatorMessage) → Concluded f (abandon m f)
  unfolding abandon
  abandon-Concluded m = ground arith

  publish-Concluded : (p : PendingOperation) → Concluded f (publish p f)
  unfolding publish
  publish-Concluded p = ground arith

  publish_built-Concluded :
      (o : Outcome PendingOperation)
      → (publish_built o f).0 ≡ returned tt
      → Concluded f (publish_built o f).1
  unfolding publish_built
  publish_built-Concluded (returned p) r = publish-Concluded p
  publish_built-Concluded (raised value_error) r = abandon-Concluded unexpected
  publish_built-Concluded (raised type_error) r = abandon-Concluded unexpected
  publish_built-Concluded (raised Exc.runtime_error) r = cc
  publish_built-Concluded (raised Exc.audio) r = cc
  publish_built-Concluded (raised Exc.other) r = cc

  conclude_with-Concluded :
      (v : Option ValidatedOperation) (t : Text) (k : OutcomeKind) (new_id : Outcome Text)
      (fresh : Text)
      → (conclude_with v t k new_id fresh f).0 ≡ returned tt
      → Concluded f (conclude_with v t k new_id fresh f).1
  unfolding conclude_with
  conclude_with-Concluded none t k new_id fresh r = abandon-Concluded (message_of k)
  conclude_with-Concluded (some v) t accepted_kind new_id fresh r = publish_built-Concluded _ r
  conclude_with-Concluded (some v) t transport_error new_id fresh r = abandon-Concluded _
  conclude_with-Concluded (some v) t service_error new_id fresh r = abandon-Concluded _
  conclude_with-Concluded (some v) t contract_rejection new_id fresh r = abandon-Concluded _

  -- In `processing` with nothing pending, the end of a job that raises nothing leaves `processing`,
  -- whatever the PC answered: to idle with nothing pending, or to `wait_confirmation` with an
  -- operation and no message.
  pub on_sent-Concluded :
      (o : Outcome InterpretationOutcome) (new_id : Outcome Text) (fresh : Text)
      → (on_sent o new_id fresh f).0 ≡ returned tt
      → Concluded f (on_sent o new_id fresh f).1
  unfolding on_sent
  on_sent-Concluded (raised e) new_id fresh r = abandon-Concluded unexpected
  on_sent-Concluded (returned o) new_id fresh r =
      conclude_with-Concluded o.validated_operation o.recognized_text o.kind new_id fresh r

-- Outside `processing` the end of a job changes nothing.
module _ (f : Flow) (off : is_processing f.phase ≡ false) where
  abandon-off : (m : OperatorMessage) → abandon m f ≡ f
  unfolding abandon
  abandon-off m = ground arith

  publish_built-off : (o : Outcome PendingOperation) → (publish_built o f).1 ≡ f
  unfolding publish_built publish
  publish_built-off (returned p) = ground arith
  publish_built-off (raised value_error) = abandon-off unexpected
  publish_built-off (raised type_error) = abandon-off unexpected
  publish_built-off (raised Exc.runtime_error) = refl
  publish_built-off (raised Exc.audio) = refl
  publish_built-off (raised Exc.other) = refl

  conclude_with-off :
      (v : Option ValidatedOperation) (t : Text) (k : OutcomeKind) (new_id : Outcome Text)
      (fresh : Text)
      → (conclude_with v t k new_id fresh f).1 ≡ f
  unfolding conclude_with
  conclude_with-off none t k new_id fresh = abandon-off _
  conclude_with-off (some v) t accepted_kind new_id fresh = publish_built-off _
  conclude_with-off (some v) t transport_error new_id fresh = abandon-off _
  conclude_with-off (some v) t service_error new_id fresh = abandon-off _
  conclude_with-off (some v) t contract_rejection new_id fresh = abandon-off _

  pub on_sent-off :
      (o : Outcome InterpretationOutcome) (new_id : Outcome Text) (fresh : Text)
      → (on_sent o new_id fresh f).1 ≡ f
  unfolding on_sent
  on_sent-off (raised e) new_id fresh = abandon-off unexpected
  on_sent-off (returned o) new_id fresh =
      conclude_with-off o.validated_operation o.recognized_text o.kind new_id fresh
