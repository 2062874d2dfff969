-- ===== src/Client/Chain.antt =====
-- From a recording on the Raspberry Pi to its validated operation: the client of
-- src/pi/communication/client.py, the audio route of src/pc/communication/server.py, the pipeline of
-- src/pc/audio/pipeline.py and the interpreter of src/pi/pending_operation/response.py.
use mathlib.Core.Path.{subst}
use g3_voicestock.Base.{
  ℕ, ◌≡◌, refl, sym, ◌∙◌, ap, inl, inr, true, Option, none, some, List, ◌∷◌, map, str, text_eq,
  Outcome, returned,
}
use g3_voicestock.Json.{Value, Fields, text, obj, get, is_null}
use g3_voicestock.Envelope.{TransportEnvelope, success, error, has_value, new_envelope, success_of}
use g3_voicestock.Contract.Payload.{ContractPayload}
use g3_voicestock.Contract.Normalize.{Unicode}
use g3_voicestock.Contract.Catalog.{CatalogProduct, match_products}
use g3_voicestock.Contract.Structure.{Validation}
use g3_voicestock.Contract.Rejection.{Verdict}
use g3_voicestock.Contract.Validator.{ValidatedOperation, validate}
use g3_voicestock.Pc.Match.Agreement.{entry_of}
use g3_voicestock.Pc.Service.{Provider, ServiceResult}
use g3_voicestock.Pc.Pipeline.{Transcription, handle}
use g3_voicestock.Pc.Pipeline.Result.{handle-Delivered}
use g3_voicestock.Pc.Pipeline.Answer.{IsAnswer, handle-IsAnswer}
use g3_voicestock.Pc.Pipeline.Delivery.{IsDump, Understood, handle-Understood}
use g3_voicestock.Pc.Server.{
  Bytes, Request, Response, ReceivedAudio, Library, media_type, wav_media_type, read_limited_body,
  max_audio_bytes, read_wav, respond, run_handler, handle_audio, handle_body, interpret_audio,
}
use g3_voicestock.Client as Client
use g3_voicestock.Client.{Reader, Exchange, response, read_envelope}
use g3_voicestock.Client.Transport.{IsWire, json_response-Carries, read_envelope-Carries}
use g3_voicestock.Pending.Response.{
  interpret_payload, interpret_present, interpret_service, interpret,
}

-- What `model_dump` of a service result promises: a success is an object with its status, its payload
-- and no error.
pub record IsServiceDump (lib : Library ServiceResult) : Type 0 where
  pub fields_of : ServiceResult → Fields
  pub dumped : (r : ServiceResult) → lib.dump_result r ≡ some (obj (fields_of r))
  pub status :
      (r : ServiceResult)
      → r.status ≡ success
      → get (str "status") (fields_of r) ≡ some (text (str "success"))
  pub no_error :
      (r : ServiceResult) → r.error ≡ none → is_null (get (str "error") (fields_of r)) ≡ true
  pub payload : (r : ServiceResult) → get (str "payload") (fields_of r) ≡ some r.payload

-- What the audio route has read before it calls its handler.
pub record Received {R : Type 0} (lib : Library R) (q : Request) (audio : ReceivedAudio)
    : Type 0 where
  pub typed : text_eq (media_type lib q) wav_media_type ≡ true
  pub first : ℕ
  pub rest : Bytes
  pub read : read_limited_body max_audio_bytes q ≡ returned (some (first ∷ rest))
  pub opened : read_wav (first ∷ rest) (lib.open_wav (first ∷ rest)) ≡ returned (some audio)

abbrev pub envelope_of : Value → TransportEnvelope
envelope_of v = record { status = success; payload = v; error = none }

module _ (lib : Library ServiceResult) (reader : Reader) (wire : IsWire lib reader)
    (service : IsServiceDump lib) where
  -- The route runs its handler on what it has received.
  interpret_audio-Received :
      (f : ReceivedAudio → Outcome ServiceResult) (q : Request) (audio : ReceivedAudio)
      → Received lib q audio
      → interpret_audio lib f q ≡ run_handler lib (f audio)
  unfolding interpret_audio handle_body handle_audio
  interpret_audio-Received f q audio c = rw (c.typed, c.read, c.opened)

  -- The client reads a result of the handler as a success that carries its dump.
  read-result :
      (r : ServiceResult) (w : Response)
      → run_handler lib (returned r) ≡ returned w
      → read_envelope reader w ≡ returned (envelope_of (obj (service.fields_of r)))
  unfolding run_handler respond success_of new_envelope
  read-result r w h = read_envelope-Carries lib reader wire _ w (
      json_response-Carries lib 200 (envelope_of (obj (service.fields_of r))) w refl refl
        (rw (service.dumped r) at h))

  module _ (validator : Value → Outcome (Verdict ValidatedOperation)) where
    -- The interpreter takes the payload of the result out of the envelope.
    interpret-result :
        (r : ServiceResult)
        → r.status ≡ success
        → r.error ≡ none
        → has_value r.payload ≡ true
        → interpret validator (envelope_of (obj (service.fields_of r)))
          ≡ interpret_payload validator r.payload
    unfolding interpret interpret_service interpret_present text_eq
    interpret-result r s n v =
        rw (service.status r s, service.no_error r n, service.payload r, v) refl

  error-free : (r : ServiceResult) → IsAnswer (returned r) → r.status ≡ success → r.error ≡ none
  error-free r (inl (s, n)) e = n
  error-free r (inr (s, n, v)) e = absurd (differ (sym e ∙ s))
    where
      differ : ¬ (success ≡ error)
      differ h = cc

  module _ (u : Unicode) (products : List CatalogProduct) (mv : Value → Validation)
      (dump : ContractPayload → Fields) (is_dump : IsDump mv dump) (provider : Option Provider)
      (transcribe : ReceivedAudio → Transcription) where
    abbrev pub validator : Value → Outcome (Verdict ValidatedOperation)
    validator = validate mv (λ q. match_products u q products)

    abbrev pub pipeline : ReceivedAudio → Outcome ServiceResult
    pipeline audio = handle u (map entry_of products) dump provider (transcribe audio)

    success-result :
        (audio : ReceivedAudio) (r : ServiceResult)
        → pipeline audio ≡ returned r
        → r.status ≡ success
        → (r.error ≡ none) × (has_value r.payload ≡ true)
    success-result audio r h s =
        let d = handle-Delivered u (map entry_of products) dump provider (transcribe audio) r h s in
        (
          error-free r
              (subst IsAnswer h
                (handle-IsAnswer u (map entry_of products) dump provider (transcribe audio)))
              s,
          rw (d.written) refl,
        )

    -- From the recording to the operation, for a catalog that the two machines share and libraries that
    -- read back what they write: when the exchange carries the request to the audio route and its
    -- response back, and the pipeline succeeds on what the route received, the client returns an
    -- envelope on which the interpreter of the Raspberry Pi answers as for the delivered payload: it has
    -- found the product of the one item heard, and only its rules on quantity and unit are left.
    pub recording-Understood :
        (file : Bytes) (send : Bytes → Exchange) (q : Request) (audio : ReceivedAudio)
        (r : ServiceResult) (w : Response)
        → Received lib q audio
        → pipeline audio ≡ returned r
        → r.status ≡ success
        → interpret_audio lib pipeline q ≡ returned w
        → send file ≡ response w
        → (e : TransportEnvelope) × (Client.interpret_audio reader (some file) send ≡ returned e)
          × (interpret validator e ≡ interpret_payload validator r.payload)
          × Understood u products mv dump is_dump (transcribe audio) r.payload
    unfolding Client.interpret_audio Client.post
    recording-Understood file send q audio r w c h s a k =
        let b : run_handler lib (returned r) ≡ returned w =
          ap (run_handler lib) (sym h) ∙ sym (interpret_audio-Received pipeline q audio c) ∙ a in
        let (n, v) = success-result audio r h s in
        (
          envelope_of (obj (service.fields_of r)),
          rw k (read-result r w b),
          interpret-result validator r s n v,
          handle-Understood u products mv dump is_dump provider (transcribe audio) r h s,
        )
