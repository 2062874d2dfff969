-- ===== src/Envelope.antt =====
-- The transport envelope that both machines share: src/shared/communication/contracts.py. A payload
-- of `None` is `null`. The text request and the limits of the HTTP routes are not modelled here.
use g3_voicestock.Base.{
  ◌≡◌, refl, Bool, true, false, ◌||◌, not, Option, none, some, is_none, Text, Outcome, returned,
  value_error, raise_if,
}
use g3_voicestock.Json.{Value, null}

pub data EnvelopeStatus : Type 0 where
  success error : EnvelopeStatus

pub record TransportError : Type 0 where
  pub code : Text
  pub detail : Option Text

pub record TransportEnvelope : Type 0 where
  pub status : EnvelopeStatus
  pub payload : Value
  pub error : Option TransportError

-- `payload is not None`
abbrev pub has_value : Value → Bool
has_value null = false
has_value _ = true

-- `status_must_match_content`
abbrev is_contradiction : EnvelopeStatus → Value → Option TransportError → Bool
is_contradiction success p e = not (is_none e)
is_contradiction error p e = is_none e || has_value p

unfoldable pub new_envelope :
    EnvelopeStatus → Value → Option TransportError → Outcome TransportEnvelope
new_envelope s p e =
    raise_if (is_contradiction s p e) value_error
      (returned (record { status = s; payload = p; error = e }))

-- `TransportEnvelope.success` and `TransportEnvelope.failure`.
unfoldable pub success_of : Value → Outcome TransportEnvelope
unfolding new_envelope
success_of payload = new_envelope success payload none

unfoldable pub failure_of : Text → Option Text → Outcome TransportEnvelope
unfolding new_envelope
failure_of code detail = new_envelope error null (some (record { code = code; detail = detail }))

-- The two class methods never raise.
pub envelopes_of_methods :
    (p : Value) (c : Text) (d : Option Text)
    → (success_of p ≡ returned (record { status = success; payload = p; error = none }))
      × (failure_of c d
          ≡ returned (record {
            status = error;
            payload = null;
            error = some (record { code = c; detail = d });
          }))
unfolding success_of failure_of
envelopes_of_methods p c d = (refl, refl)
