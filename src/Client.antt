-- ===== src/Client.antt =====
-- The Raspberry Pi's client of the PC: src/pi/communication/client.py. What the HTTP library and the
-- file system answer are arguments; the JSON parser and the schema of the envelope are parameters.
pub mod Transport
pub mod Chain
use g3_voicestock.Base.{
  ℕ, ◌==◌, Bool, true, false, not, Option, none, some, Text, str, Outcome, returned, raised, Exc,
  if◌then◌else◌, List,
}
use g3_voicestock.Json.{Value}
use g3_voicestock.Envelope.{
  TransportEnvelope, EnvelopeStatus, success, error, new_envelope, failure_of,
}
use g3_voicestock.Pc.Server.{Bytes, Response}

pub data ClientErrorCode : Type 0 where
  request_encoding_failure audio_read_failure timeout connection_failed : ClientErrorCode
  unexpected_status invalid_response_encoding invalid_envelope : ClientErrorCode

-- The value of the `StrEnum`.
abbrev pub code_text : ClientErrorCode → Text
code_text request_encoding_failure = str "request_encoding_failure"
code_text audio_read_failure = str "audio_read_failure"
code_text timeout = str "timeout"
code_text connection_failed = str "connection_failed"
code_text unexpected_status = str "unexpected_status"
code_text invalid_response_encoding = str "invalid_response_encoding"
code_text invalid_envelope = str "invalid_envelope"

-- The detail is diagnostic and left out.
unfoldable pub failure : ClientErrorCode → Outcome TransportEnvelope
failure code = failure_of (code_text code) none

-- What `httpx` makes of one request: `TimeoutException` and `TransportError` are
-- caught, and any other exception is not.
pub data Exchange : Type 0 where
  response : Response → Exchange
  timed_out : Exchange
  not_transported : Exchange
  refused : Exc → Exchange

-- `response.content.decode("utf-8")` with `json.loads`, and what the schema package reads as the fields
-- of the envelope, before `status_must_match_content`.
pub record Reader : Type 0 where
  pub loads : Bytes → Option Value
  pub envelope_fields : Value → Option TransportEnvelope

abbrev pub is_success : EnvelopeStatus → Bool
is_success success = true
is_success error = false

-- `a == b` on Booleans.
abbrev pub same : Bool → Bool → Bool
same true b = b
same false b = not b

-- The rest of `TransportEnvelope.model_validate`: the validator of the class raises a `ValueError`.
abbrev pub built_or_none : Outcome TransportEnvelope → Option TransportEnvelope
built_or_none (returned e) = some e
built_or_none (raised _) = none

unfoldable pub model_validate : Option TransportEnvelope → Option TransportEnvelope
unfolding new_envelope
model_validate none = none
model_validate (some e) = built_or_none (new_envelope e.status e.payload e.error)

-- `_failure_for`
unfoldable pub failure_for : Response → ClientErrorCode → Outcome TransportEnvelope
unfolding failure
failure_for r code = if not (r.status_code == 200) then failure unexpected_status else failure code

module _ (reader : Reader) where
  unfoldable pub read_valid : Response → Option TransportEnvelope → Outcome TransportEnvelope
  unfolding failure_for
  read_valid r none = failure_for r invalid_envelope
  read_valid r (some envelope) =
      if not (same (is_success envelope.status) (r.status_code == 200))
      then failure unexpected_status
      else returned envelope

  unfoldable pub read_body : Response → Option Value → Outcome TransportEnvelope
  unfolding read_valid model_validate
  read_body r none = failure_for r invalid_response_encoding
  read_body r (some body) = read_valid r (model_validate (reader.envelope_fields body))

  -- `_read_envelope`
  unfoldable pub read_envelope : Response → Outcome TransportEnvelope
  unfolding read_body
  read_envelope r = read_body r (reader.loads r.content)

  -- `_post`
  unfoldable pub post : Exchange → Outcome TransportEnvelope
  unfolding read_envelope
  post timed_out = failure timeout
  post not_transported = failure connection_failed
  post (refused e) = raised e
  post (response r) = read_envelope r

  -- `interpret_audio`: `none` is a file that cannot be read.
  unfoldable pub interpret_audio : Option Bytes → (Bytes → Exchange) → Outcome TransportEnvelope
  unfolding post
  interpret_audio none send = failure audio_read_failure
  interpret_audio (some body) send = post (send body)

  -- `interpret`: `none` is a text that cannot be encoded.
  unfoldable pub interpret : Option Bytes → (Bytes → Exchange) → Outcome TransportEnvelope
  unfolding post
  interpret none send = failure request_encoding_failure
  interpret (some body) send = post (send body)
