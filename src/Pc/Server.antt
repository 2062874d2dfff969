-- ===== src/Pc/Server.antt =====
-- The routes of the PC: src/pc/communication/server.py with audio.py. The framework is outside: a
-- request is its two headers and the chunks of its body. What `str.lower`, `wave.open`, the schema of
-- the text request, `model_dump` of a handler's result and the rendering of a response do are
-- parameters, the fields of `Library`.
pub mod Limits
use g3_voicestock.Base.{
  ℕ, suc, ◌+◌, ◌*◌, ◌-◌, ◌==◌, Bool, true, false, ◌&&◌, ◌||◌, not, Option, none, some, is_none,
  List, [], ◌∷◌, ◌++◌, length, is_nil, every, Text, str, text_eq, strip, is_blank, ltb, leb, ℤ,
  is_nonpositive, Outcome, returned, raised, Exc, value_error, bind, raise_if, if◌then◌else◌,
}
use g3_voicestock.Json.{Value}
use g3_voicestock.Envelope.{TransportEnvelope, success_of, failure_of}

abbrev pub Bytes : Type 0
Bytes = List ℕ

pub record Request : Type 0 where
  pub content_type : Text
  pub content_length : Text
  pub chunks : List Bytes

-- `ReceivedAudio`: the duration is `frames / sample_rate_hz`.
pub record ReceivedAudio : Type 0 where
  pub wav : Bytes
  pub frames : ℕ
  pub sample_rate_hz : ℤ
  pub channels : ℕ
  pub sample_width_bytes : ℕ

-- What reading a WAV header does: `wave.Error` and `EOFError` are `unreadable`.
pub record WavHeader : Type 0 where
  pub frames : ℕ
  pub sample_rate_hz : ℤ
  pub channels : ℕ
  pub sample_width_bytes : ℕ

pub data WavRead : Type 0 where
  header : WavHeader → WavRead
  unreadable : WavRead
  crashed : Exc → WavRead

pub record Response : Type 0 where
  pub status_code : ℕ
  pub content : Bytes

-- `R` is what a handler returns.
pub record Library (R : Type 0) : Type 0 where
  pub lower : Text → Text
  pub open_wav : Bytes → WavRead
  pub loads : Bytes → Option Value
  pub text_schema : Value → Option Text
  pub dump_result : R → Option Value
  pub dump_envelope : TransportEnvelope → Value
  pub render : Value → Outcome Bytes

-- `text.split(";", maxsplit=1)[0]`
unfoldable pub before_semicolon : Text → Text
before_semicolon [] = []
before_semicolon (c ∷ s) = let rest = before_semicolon s in if c == 59 then [] else c ∷ rest

-- `str.isdigit` of one character of a header, which is Latin-1: the superscripts are digits too.
unfoldable pub is_digit : ℕ → Bool
is_digit c = (leb 48 c && leb c 57) || (c == 178 || (c == 179 || c == 185))

-- `int(text)` of digits: a superscript is a `ValueError`. Python's own limit on the number of digits is
-- left out.
unfoldable pub int_from : ℕ → Text → Outcome ℕ
int_from n [] = returned n
int_from n (c ∷ s) =
    let rest = int_from (10 * n + (c - 48)) s in if leb c 57 then rest else raised value_error

-- `declared_length.isdigit() and int(declared_length) > limit`
unfoldable pub declares_more : ℕ → Text → Outcome Bool
unfolding int_from is_digit
declares_more limit t =
    if is_nil t || not (every is_digit t)
    then returned false
    else bind (int_from 0 t) (λ n. returned (ltb limit n))

-- The loop over the chunks: `none` as soon as the body exceeds the limit.
unfoldable pub read_chunks : ℕ → Bytes → List Bytes → Option Bytes
read_chunks limit body [] = some body
read_chunks limit body (c ∷ rest) =
    let more = read_chunks limit (body ++ c) rest in
    if ltb limit (length (body ++ c)) then none else more

-- `_read_limited_body`
unfoldable pub read_limited_body : ℕ → Request → Outcome (Option Bytes)
unfolding read_chunks declares_more
read_limited_body limit request =
    bind (declares_more limit request.content_length)
      (λ more. returned (if more then none else read_chunks limit [] request.chunks))

abbrev pub max_audio_bytes : ℕ
max_audio_bytes = 4_194_304

abbrev pub wav_media_type : Text
wav_media_type = str "audio/wav"

-- `read_wav`: `none` is an `InvalidAudioError`.
unfoldable pub read_wav : Bytes → WavRead → Outcome (Option ReceivedAudio)
read_wav content unreadable = returned none
read_wav content (crashed e) = raised e
read_wav content (header h) = returned (
    if is_nonpositive h.sample_rate_hz
    then none
    else some (record {
      wav = content;
      frames = h.frames;
      sample_rate_hz = h.sample_rate_hz;
      channels = h.channels;
      sample_width_bytes = h.sample_width_bytes;
    }))

-- `InterpretationRequest`: its schema, and the validator of the text.
unfoldable pub parsed_text : Option Text → Option Text
parsed_text none = none
parsed_text (some t) = if is_blank t then none else some t

-- `await request.body()`: all chunks.
abbrev pub whole : List Bytes → Bytes
whole [] = []
whole (c ∷ rest) = c ++ whole rest

module _ {R : Type 0} (lib : Library R) where
  -- `_media_type`
  unfoldable pub media_type : Request → Text
  unfolding before_semicolon
  media_type request = lib.lower (strip (before_semicolon request.content_type))

  -- A `JSONResponse` of an envelope.
  unfoldable pub json_response : ℕ → Outcome TransportEnvelope → Outcome Response
  json_response status envelope = bind envelope (λ e.
      bind (lib.render (lib.dump_envelope e))
        (λ content. returned (record { status_code = status; content = content })))

  -- `_error_response`
  unfoldable pub error_response : ℕ → Text → Text → Outcome Response
  unfolding json_response
  error_response status code detail = json_response status (failure_of code (some detail))

  -- The envelope of a result that is serialized.
  unfoldable pub respond : Option Value → Outcome Response
  unfolding error_response
  respond none =
      error_response 500 (str "serialization_failure")
        (str "the handler result is not JSON serializable")
  respond (some payload) = json_response 200 (success_of payload)

  -- `_run_handler`, on what the handler returned or raised.
  unfoldable pub run_handler : Outcome R → Outcome Response
  unfolding respond
  run_handler (raised _) =
      error_response 500 (str "handler_failure") (str "the interpretation handler failed")
  run_handler (returned r) = respond (lib.dump_result r)

  unfoldable pub handle_audio :
      (ReceivedAudio → Outcome R) → Option ReceivedAudio → Outcome Response
  unfolding run_handler
  handle_audio handler none =
      error_response 422 (str "invalid_audio") (str "audio body is not a readable WAV file")
  handle_audio handler (some audio) = run_handler (handler audio)

  unfoldable pub handle_body : (ReceivedAudio → Outcome R) → Option Bytes → Outcome Response
  unfolding handle_audio read_wav
  handle_body handler none =
      error_response 413 (str "audio_too_large") (str "audio body exceeds 4194304 bytes")
  handle_body handler (some []) = error_response 422 (str "empty_audio") (str "audio body is empty")
  handle_body handler (some (b ∷ content)) =
      bind (read_wav (b ∷ content) (lib.open_wav (b ∷ content))) (handle_audio handler)

  -- `POST /api/v1/interpret-audio`
  unfoldable pub interpret_audio : (ReceivedAudio → Outcome R) → Request → Outcome Response
  unfolding handle_body media_type read_limited_body
  interpret_audio handler request =
      if not (text_eq (media_type request) wav_media_type)
      then error_response 415 (str "unsupported_media_type") (str "Content-Type must be audio/wav")
      else bind (read_limited_body max_audio_bytes request) (handle_body handler)

  unfoldable pub handle_request : (Text → Outcome R) → Option Text → Outcome Response
  unfolding run_handler
  handle_request handler none =
      error_response 422 (str "invalid_request") (str "request body is not valid")
  handle_request handler (some t) = run_handler (handler t)

  unfoldable pub handle_json : (Text → Outcome R) → Option Value → Outcome Response
  unfolding handle_request parsed_text
  handle_json handler none =
      error_response 400 (str "invalid_json") (str "request body is not valid JSON")
  handle_json handler (some v) = handle_request handler (parsed_text (lib.text_schema v))

  -- `POST /api/v1/interpret`
  unfoldable pub interpret : (Text → Outcome R) → Request → Outcome Response
  unfolding handle_json media_type
  interpret handler request =
      if not (text_eq (media_type request) (str "application/json"))
      then error_response 415 (str "unsupported_media_type")
          (str "Content-Type must be application/json")
      else handle_json handler (lib.loads (whole request.chunks))
