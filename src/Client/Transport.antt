-- ===== src/Client/Transport.antt =====
-- Every response of the PC is read as the envelope that it was made of (`_read_envelope` of
-- src/pi/communication/client.py against the routes of src/pc/communication/server.py).
use g3_voicestock.Base.{
  ℕ, ◌==◌, ◌⊎◌, ◌≡◌, refl, sym, ◌∙◌, ap, Bool, true, false, Option, none, some, [], ◌∷◌, Text, str,
  text_eq, Outcome, returned, raised, Bool-cases, inl, inr, bind-returned, Outcome-injective,
}
use g3_voicestock.Json.{Value}
use g3_voicestock.Envelope.{TransportEnvelope, new_envelope, success_of, failure_of}
use g3_voicestock.Pc.Server.{
  Bytes, Request, Response, ReceivedAudio, Library, media_type, wav_media_type, read_limited_body,
  max_audio_bytes, read_wav, json_response, error_response, respond, run_handler, handle_audio,
  handle_body, interpret_audio, handle_request, parsed_text, handle_json, interpret, whole,
}
use g3_voicestock.Client.{
  Reader, is_success, same, read_valid, model_validate, read_body, read_envelope,
}

-- The envelope does not contradict itself: its constructor returns it.
abbrev pub IsBuilt : TransportEnvelope → Type 0
IsBuilt e = new_envelope e.status e.payload e.error ≡ returned e

-- What the JSON library and the schema package promise the two machines: a rendered body is parsed as
-- the value that it was rendered from, and the fields of a dumped envelope, of one that can be built,
-- are read back.
pub record IsWire {R : Type 0} (lib : Library R) (reader : Reader) : Type 0 where
  pub parsed : (v : Value) (b : Bytes) → lib.render v ≡ returned b → reader.loads b ≡ some v
  pub read_back :
      (e : TransportEnvelope) → IsBuilt e → reader.envelope_fields (lib.dump_envelope e) ≡ some e

same_self : (b : Bool) → same b b ≡ true
same_self true = refl
same_self false = refl

module _ {R : Type 0} (lib : Library R) where
  -- The response carries the envelope, with the status 200 exactly for a success.
  pub record Carries (e : TransportEnvelope) (r : Response) : Type 0 where
    pub rendered : lib.render (lib.dump_envelope e) ≡ returned r.content
    pub built : IsBuilt e
    pub status : (r.status_code == 200) ≡ is_success e.status

  abbrev pub IsCarried : Response → Type 0
  IsCarried r = (e : TransportEnvelope) × Carries e r

  pub json_response-Carries :
      (n : ℕ) (e : TransportEnvelope) (r : Response)
      → IsBuilt e
      → (n == 200) ≡ is_success e.status
      → json_response lib n (returned e) ≡ returned r
      → Carries e r
  unfolding json_response
  json_response-Carries n e r t s h =
      let (c, k, q) = bind-returned (lib.render (lib.dump_envelope e)) _ r h in
      let w : record { status_code = n; content = c } ≡ r = Outcome-injective q in
      record {
        built = t;
        rendered = k ∙ ap (λ (x : Response). returned (x.content)) w;
        status = ap (λ (x : Response). x.status_code == 200) (sym w) ∙ s;
      }

  error_response-IsCarried :
      (n : ℕ) (code detail : Text) (r : Response)
      → (n == 200) ≡ false
      → error_response lib n code detail ≡ returned r
      → IsCarried r
  unfolding error_response failure_of new_envelope
  error_response-IsCarried n code detail r s h = (_, json_response-Carries n _ r refl s h)

  respond-IsCarried : (o : Option Value) (r : Response) → respond lib o ≡ returned r → IsCarried r
  unfolding respond success_of new_envelope
  respond-IsCarried none r h = error_response-IsCarried 500 _ _ r refl h
  respond-IsCarried (some v) r h = (_, json_response-Carries 200 _ r refl refl h)

  run_handler-IsCarried :
      (o : Outcome R) (r : Response) → run_handler lib o ≡ returned r → IsCarried r
  unfolding run_handler
  run_handler-IsCarried (raised e) r h = error_response-IsCarried 500 _ _ r refl h
  run_handler-IsCarried (returned x) r h = respond-IsCarried (lib.dump_result x) r h

  handle_audio-IsCarried :
      (f : ReceivedAudio → Outcome R) (o : Option ReceivedAudio) (r : Response)
      → handle_audio lib f o ≡ returned r
      → IsCarried r
  unfolding handle_audio
  handle_audio-IsCarried f none r h = error_response-IsCarried 422 _ _ r refl h
  handle_audio-IsCarried f (some a) r h = run_handler-IsCarried (f a) r h

  handle_body-IsCarried :
      (f : ReceivedAudio → Outcome R) (o : Option Bytes) (r : Response)
      → handle_body lib f o ≡ returned r
      → IsCarried r
  unfolding handle_body
  handle_body-IsCarried f none r h = error_response-IsCarried 413 _ _ r refl h
  handle_body-IsCarried f (some []) r h = error_response-IsCarried 422 _ _ r refl h
  handle_body-IsCarried f (some (b ∷ c)) r h =
      let (o, k, q) = bind-returned (read_wav (b ∷ c) (lib.open_wav (b ∷ c))) _ r h in
      handle_audio-IsCarried f o r q

  interpret_audio-IsCarried :
      (f : ReceivedAudio → Outcome R) (q : Request) (r : Response)
      → interpret_audio lib f q ≡ returned r
      → IsCarried r
  unfolding interpret_audio
  interpret_audio-IsCarried f q r h =
      elim (Bool-cases (text_eq (media_type lib q) wav_media_type)) [
        | inl e ↦
            let (o, k, w) =
              bind-returned (read_limited_body max_audio_bytes q) (handle_body lib f) r
                (rw e at h) in
            handle_body-IsCarried f o r w
        | inr e ↦ error_response-IsCarried 415 _ _ r refl (rw e at h)
      ]

  handle_request-IsCarried :
      (f : Text → Outcome R) (o : Option Text) (r : Response)
      → handle_request lib f o ≡ returned r
      → IsCarried r
  unfolding handle_request
  handle_request-IsCarried f none r h = error_response-IsCarried 422 _ _ r refl h
  handle_request-IsCarried f (some t) r h = run_handler-IsCarried (f t) r h

  handle_json-IsCarried :
      (f : Text → Outcome R) (o : Option Value) (r : Response)
      → handle_json lib f o ≡ returned r
      → IsCarried r
  unfolding handle_json
  handle_json-IsCarried f none r h = error_response-IsCarried 400 _ _ r refl h
  handle_json-IsCarried f (some v) r h =
      handle_request-IsCarried f (parsed_text (lib.text_schema v)) r h

  interpret-IsCarried :
      (f : Text → Outcome R) (q : Request) (r : Response)
      → interpret lib f q ≡ returned r
      → IsCarried r
  unfolding interpret
  interpret-IsCarried f q r h =
      elim (Bool-cases (text_eq (media_type lib q) (str "application/json"))) [
        | inl e ↦ handle_json-IsCarried f (lib.loads (whole q.chunks)) r (rw e at h)
        | inr e ↦ error_response-IsCarried 415 _ _ r refl (rw e at h)
      ]

  module _ (reader : Reader) (wire : IsWire lib reader) where
    pub read_envelope-Carries :
        (e : TransportEnvelope) (r : Response) → Carries e r → read_envelope reader r ≡ returned e
    unfolding read_envelope read_body read_valid model_validate
    read_envelope-Carries e r c = rw (
      wire.parsed (lib.dump_envelope e) r.content c.rendered,
      wire.read_back e c.built,
      c.built,
      c.status,
      same_self (is_success e.status),
    )

    -- With these promises, every response of the two routes, on each of their branches, is read by the client as the envelope
    -- that the route made, success or error with its code: no answer of the PC is lost or misread.
    pub responses_read :
        (f : ReceivedAudio → Outcome R) (g : Text → Outcome R) (q : Request) (r : Response)
        → (interpret_audio lib f q ≡ returned r) ⊎ (interpret lib g q ≡ returned r)
        → (e : TransportEnvelope) × Carries e r × (read_envelope reader r ≡ returned e)
    responses_read f g q r (inl h) =
        let (e, c) = interpret_audio-IsCarried f q r h in (e, c, read_envelope-Carries e r c)
    responses_read f g q r (inr h) =
        let (e, c) = interpret-IsCarried g q r h in (e, c, read_envelope-Carries e r c)
