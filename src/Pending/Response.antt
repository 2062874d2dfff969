-- ===== src/Pending/Response.antt =====
-- Reading the answer of the PC: src/pi/pending_operation/response.py. The diagnostic `detail`, which
-- is only logged, is left out.
use g3_voicestock.Base.{
  Bool, true, false, ◌||◌, not, Option, none, some, is_none, Text, str, strip, Outcome, returned,
  value_error, bind, raise_if, if◌then◌else◌,
}
use g3_voicestock.Json.{Value, obj, text, get, without, is_null, is_text}
use g3_voicestock.Envelope.{TransportEnvelope, EnvelopeStatus, has_value}
use g3_voicestock.Contract.Rejection.{Verdict, accepted, rejected}
use g3_voicestock.Contract.Validator.{ValidatedOperation}

pub data OutcomeKind : Type 0 where
  accepted_kind transport_error service_error contract_rejection : OutcomeKind

pub record InterpretationOutcome : Type 0 where
  pub kind : OutcomeKind
  pub recognized_text : Text
  pub validated_operation : Option ValidatedOperation

abbrev pub is_accepted : OutcomeKind → Bool
is_accepted accepted_kind = true
is_accepted _ = false

-- The constructor with its `__post_init__`.
unfoldable pub new_outcome :
    OutcomeKind → Text → Option ValidatedOperation → Outcome InterpretationOutcome
new_outcome k t v =
    raise_if (if is_accepted k then is_none v else not (is_none v)) value_error
      (returned (record { kind = k; recognized_text = t; validated_operation = v }))

-- `_service`, and the two other failures.
abbrev pub failure : OutcomeKind → Outcome InterpretationOutcome
failure k = new_outcome k (str "") none

abbrev pub recognized_key : Text
recognized_key = str "recognized_text"

-- `_without_recognized_text`
unfoldable pub without_recognized_text : Value → Value × Text
without_recognized_text (obj fields) = elim (get recognized_key fields) [
  | some (text t) ↦ (obj (without recognized_key fields), strip t)
  | _ ↦ (obj fields, str "")
]
without_recognized_text payload = (payload, str "")

module _ (validate : Value → Outcome (Verdict ValidatedOperation)) where
  unfoldable pub classify : Text → Verdict ValidatedOperation → Outcome InterpretationOutcome
  unfolding new_outcome
  classify t (rejected r) = failure contract_rejection
  classify t (accepted v) = new_outcome accepted_kind t (some v)

  -- The payload of a service result that is complete.
  unfoldable pub interpret_payload : Value → Outcome InterpretationOutcome
  unfolding classify without_recognized_text
  interpret_payload payload =
      let (contract, t) = without_recognized_text payload in bind (validate contract) (classify t)

  unfoldable pub interpret_present : Option Value → Outcome InterpretationOutcome
  unfolding interpret_payload
  interpret_present none = failure service_error
  interpret_present (some payload) =
      if has_value payload then interpret_payload payload else failure service_error

  unfoldable pub interpret_service : Value → Outcome InterpretationOutcome
  unfolding interpret_present get
  interpret_service (obj service) =
      if is_text (str "error") (get (str "status") service)
      then failure service_error
      else if not (is_text (str "success") (get (str "status") service))
          || not (is_null (get (str "error") service))
      then failure service_error
      else interpret_present (get (str "payload") service)
  interpret_service _ = failure service_error

  unfoldable pub interpret : TransportEnvelope → Outcome InterpretationOutcome
  unfolding interpret_service
  interpret envelope = elim envelope.status [
    | EnvelopeStatus.error ↦ failure transport_error
    | EnvelopeStatus.success ↦ interpret_service envelope.payload
  ]
