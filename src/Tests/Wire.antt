-- ===== src/Tests/Wire.antt =====
-- The two machines' exchange on concrete inputs, with a codec and a schema package for it.
use g3_voicestock.Base.{
  ◌≡◌, refl, ◌∙◌, inr, Option, none, some, [], ◌∷◌, map, str, text_eq, strip, pos, Outcome,
  returned, bind, Outcome-injective, if◌then◌else◌,
}
use g3_voicestock.Json.{Value, Fields, null, text, obj, end, field, get}
use g3_voicestock.Envelope.{
  failure_of, success_of, new_envelope, TransportEnvelope, TransportError, EnvelopeStatus, success,
  error,
}
use g3_voicestock.Contract.Catalog.{match_products}
use g3_voicestock.Contract.Validator.{validate}
use g3_voicestock.Pc.Match.Agreement.{entry_of}
use g3_voicestock.Pc.Service.{ServiceResult, ServiceErrorCode}
use g3_voicestock.Pc.Pipeline.{handle}
use g3_voicestock.Pc.Pipeline.Delivery.{Understood}
use g3_voicestock.Pc.Server as Server
use g3_voicestock.Pc.Server.{
  error_response, json_response, handle_body, handle_audio, respond, Bytes, Request, Response,
  ReceivedAudio, WavRead, header, Library, before_semicolon, declares_more, read_limited_body,
  media_type, read_wav, whole, interpret_audio, run_handler,
}
use g3_voicestock.Pc.Server.Limits.{within, read_limited_body_lem}
use g3_voicestock.Client as Client
use g3_voicestock.Client.{Reader, Exchange, response, read_envelope}
use g3_voicestock.Client.Transport.{IsWire, Carries, responses_read}
use g3_voicestock.Client.Chain.{IsServiceDump, Received, recording-Understood}
use g3_voicestock.Pending.Response.{interpret_payload, interpret}
use g3_voicestock.Tests.Catalog.{plain, products}
use g3_voicestock.Tests.Codec.{encode, decode, decode-encode}
use g3_voicestock.Tests.Pipeline.{
  dump, schema, schema-IsDump, provider, heard, result, handled, optional_value, read_optional,
  read_optional-optional_value,
}

abbrev status_value : EnvelopeStatus → Value
status_value success = text (str "success")
status_value error = text (str "error")

abbrev read_status : Value → Option EnvelopeStatus
read_status (text t) =
    if text_eq t (str "success")
    then some success
    else if text_eq t (str "error")
    then some error
    else none
read_status _ = none

abbrev error_value : Option TransportError → Value
error_value none = null
error_value (some e) =
    obj (field (str "code") (text e.code) (field (str "detail") (optional_value e.detail) end))

abbrev read_error : Value → Option TransportError
read_error (obj (field _ (text c) (field _ d end))) =
    some (record { code = c; detail = read_optional d })
read_error _ = none

abbrev dump_envelope : TransportEnvelope → Value
dump_envelope e = obj (
    field (str "status") (status_value e.status)
      (field (str "payload") e.payload (field (str "error") (error_value e.error) end)))

abbrev read_as : Value → Value → Option EnvelopeStatus → Option TransportEnvelope
read_as p e none = none
read_as p e (some s) = some (record { status = s; payload = p; error = read_error e })

abbrev read_dumped : Value → Option TransportEnvelope
read_dumped (obj (field _ s (field _ p (field _ e end)))) = read_as p e (read_status s)
read_dumped _ = none

read_status-status_value : (s : EnvelopeStatus) → read_status (status_value s) ≡ some s
unfolding text_eq
read_status-status_value success = refl
read_status-status_value error = refl

read_error-error_value : (e : Option TransportError) → read_error (error_value e) ≡ e
read_error-error_value none = refl
read_error-error_value (some e) = rw (read_optional-optional_value e.detail)

read_dumped-dump_envelope : (e : TransportEnvelope) → read_dumped (dump_envelope e) ≡ some e
read_dumped-dump_envelope e = rw (read_status-status_value e.status, read_error-error_value e.error)

abbrev code_value : Option ServiceErrorCode → Value
code_value none = null
code_value (some c) = text (str "provider_failure")

abbrev result_fields : ServiceResult → Fields
result_fields r =
    field (str "status") (status_value r.status)
      (field (str "payload") r.payload (field (str "error") (code_value r.error) end))

abbrev library : Library ServiceResult
library = record {
  lower = λ t. t;
  open_wav = λ b.
      header (record {
        frames = 16000;
        sample_rate_hz = pos 16000;
        channels = 1;
        sample_width_bytes = 2;
      });
  loads = decode;
  text_schema = λ v. none;
  dump_result = λ r. some (obj (result_fields r));
  dump_envelope = dump_envelope;
  render = λ v. returned (encode v);
}

abbrev reader : Reader
reader = record { loads = decode; envelope_fields = read_dumped }

encode-returned : (v : Value) (b : Bytes) → returned (encode v) ≡ returned b → decode b ≡ some v
encode-returned v b h = let e : encode v ≡ b = Outcome-injective h in rw (← e) (decode-encode v)

wire : IsWire library reader
wire = record { parsed = encode-returned; read_back = λ e b. read_dumped-dump_envelope e }

result-is_success :
    (r : ServiceResult)
    → r.status ≡ success
    → get (str "status") (result_fields r) ≡ some (text (str "success"))
unfolding get text_eq
result-is_success r h = rw h

service : IsServiceDump library
unfolding get text_eq
service = record {
  fields_of = result_fields;
  dumped = λ r. refl;
  status = result-is_success;
  no_error = λ r h. rw h;
  payload = λ r. refl;
}

abbrev request : Request
request = record {
  content_type = str "audio/wav; x";
  content_length = str "3";
  chunks = (1 ∷ 2 ∷ []) ∷ (3 ∷ []) ∷ [];
}

abbrev audio : ReceivedAudio
audio = record {
  wav = 1 ∷ 2 ∷ 3 ∷ [];
  frames = 16000;
  sample_rate_hz = pos 16000;
  channels = 1;
  sample_width_bytes = 2;
}

received : Received library request audio
unfolding before_semicolon strip text_eq read_limited_body media_type read_wav
received = record { typed = refl; first = 1; rest = 2 ∷ 3 ∷ []; read = refl; opened = refl }

read_limited_body_lem_example :
    read_limited_body 2 request
    ≡ bind
        (declares_more 2 request.content_length)
        (λ more. returned (if more then none else within 2 (whole request.chunks)))
read_limited_body_lem_example = read_limited_body_lem 2 request

abbrev bad_request : Request
bad_request = record { content_type = str "text/plain"; content_length = []; chunks = [] }

abbrev refused_envelope : TransportEnvelope
refused_envelope = record {
  status = error;
  payload = null;
  error = some (record {
    code = str "unsupported_media_type";
    detail = some (str "Content-Type must be application/json");
  });
}

abbrev refused_response : Response
refused_response = record { status_code = 415; content = encode (dump_envelope refused_envelope) }

refused : Server.interpret library (λ t. returned result) bad_request ≡ returned refused_response
unfolding Server.interpret error_response json_response media_type before_semicolon strip text_eq
    failure_of new_envelope
refused = refl

responses_read_example :
    (e : TransportEnvelope) × Carries library e refused_response
    × (read_envelope reader refused_response ≡ returned e)
responses_read_example =
    responses_read library reader wire (λ a. returned result) (λ t. returned result) bad_request
      refused_response (inr refused)

abbrev response_of : Response
response_of = record {
  status_code = 200;
  content = encode (
      dump_envelope
        (record { status = success; payload = obj (result_fields result); error = none }));
}

abbrev answering : ReceivedAudio → Outcome ServiceResult
answering a = handle plain (map entry_of products) dump (some provider) heard

handed : interpret_audio library answering request ≡ run_handler library (answering audio)
unfolding interpret_audio media_type before_semicolon strip text_eq read_limited_body handle_body
    read_wav handle_audio
handed = refl

answered : run_handler library (answering audio) ≡ returned response_of
unfolding run_handler respond json_response success_of new_envelope
answered = rw handled refl

recording-Understood_example :
    (e : TransportEnvelope) × (Client.interpret_audio reader (some []) (λ b. response response_of)
      ≡ returned e)
    × (interpret (validate schema (λ q. match_products plain q products)) e
        ≡ interpret_payload (validate schema (λ q. match_products plain q products)) result.payload)
    × Understood plain products schema dump schema-IsDump heard result.payload
recording-Understood_example =
    recording-Understood library reader wire service plain products schema dump schema-IsDump
      (some provider) (λ a. heard) [] (λ b. response response_of) request audio result response_of
      received handled refl (handed ∙ answered) refl
