-- ===== src/Audio/Backend.antt =====
-- The stream of the sound device: `SoundDeviceBackend` of src/pi/audio/sounddevice_backend.py, over its
-- buffer and the choice of its device. The sound library is outside: what its calls do is an argument,
-- and its callbacks come as steps, each with the generation that it was made for.
pub mod Lifecycle
use g3_voicestock.Base.{
  ℕ, suc, ◌==◌, Bool, true, false, ◌&&◌, ◌||◌, not, Option, none, some, List, [], ◌∷◌, Outcome,
  returned, raised, Exc, audio, if◌then◌else◌,
}
use g3_voicestock.Audio.Buffer as Buffer
use g3_voicestock.Audio.Buffer.{Buffer, bytes, new_buffer}
use g3_voicestock.Audio.Devices.{
  Resolution, index, not_found, ambiguous, unsupported, query_failed, failed, Queried, listed,
  portaudio, crashed,
}

-- `stream` tells whether `_stream` is set.
pub record Backend : Type 0 where
  pub queue_capacity : ℕ
  pub generation : ℕ
  pub stop_requested : Bool
  pub aborted : Bool
  pub stream : Bool
  pub pcm : Option Buffer

abbrev pub Done : Type 0
Done = Outcome {0} Unit × Backend

abbrev pub and_then : Done → (Backend → Done) → Done
and_then (returned _, b) next = next b
and_then (raised e, b) next = (raised e, b)

abbrev pub with_pcm : Outcome {0} Unit × Buffer → Backend → Done
with_pcm (o, p) b = (o, record b { pcm = some p })

-- A method of the buffer, if there is one.
abbrev pub on_buffer : (Buffer → Outcome {0} Unit × Buffer) → Option Buffer → Backend → Done
on_buffer f none b = (returned tt, b)
on_buffer f (some p) b = with_pcm (f p) b

-- `abort` of a stream: it may be missing, and its `PortAudioError` is ignored.
pub data Abort : Type 0 where
  no_abort aborts abort_failed : Abort
  abort_raised : Exc → Abort

abbrev pub aborted_with : Abort → Backend → Done
aborted_with (abort_raised e) b = (raised e, b)
aborted_with _ b = (returned tt, b)

-- The part of `stop` after the buffer: a stream is aborted once.
abbrev pub abort_stream : Abort → Backend → Done
abort_stream a c =
    if not c.stream || c.aborted
    then (returned tt, c)
    else aborted_with a (record c { aborted = true })

-- `stop`
unfoldable pub stop : Abort → Backend → Done
unfolding Buffer.close
stop a b =
    let b' = record b { stop_requested = true } in
    and_then (on_buffer Buffer.close b'.pcm b') (abort_stream a)

abbrev pub or_raise : Option Exc → Backend → Done
or_raise none b = (returned tt, b)
or_raise (some e) b = (raised e, b)

abbrev pub release : Option Exc → Backend → Done
release closer c =
    let d = record c { stream = false } in if c.stream then or_raise closer d else (returned tt, d)

-- `close`, with the error of the stream's own `close`.
unfoldable pub close : Abort → Option Exc → Backend → Done
unfolding stop
close a closer b = and_then (stop a (record b { generation = suc b.generation })) (release closer)

abbrev pub after_end : Option Exc → Outcome {0} Unit → Backend → Done
after_end closer (returned _) b = or_raise closer b
after_end closer (raised e) b = (raised e, b)

abbrev pub forget : Option Exc → Option Buffer → Backend → Done
forget closer none b = or_raise closer (record b { stream = false })
forget closer (some p) b =
    after_end closer (Buffer.close p).0 (record b { pcm = none; stream = false })

-- `_abandon`: a reader that still holds the buffer is woken, and the backend forgets it.
unfoldable pub abandon : Option Exc → Backend → Done
unfolding Buffer.close
abandon closer b = forget closer b.pcm b

-- What `start` meets: the close of the stream before, the device, its format, and the new stream.
pub record Starting : Type 0 where
  pub abort : Abort
  pub closer : Option Exc
  pub device : Resolution
  pub format : Queried (Unit {0})
  pub opened : Queried (Unit {0})
  pub started : Queried (Unit {0})
  pub abandoned : Option Exc

abbrev pub not_open : Backend → Done
not_open b = (raised audio, b)

-- The last block of `start`.
abbrev pub after_stream : Starting → Queried (Unit {0}) → Backend → Done
after_stream e (listed _) b = (returned tt, b)
after_stream e portaudio b = and_then (abandon e.abandoned b) not_open
after_stream e (crashed x) b = (raised x, b)

abbrev pub open_stream : Starting → Queried (Unit {0}) → Backend → Done
open_stream e (listed _) b = after_stream e e.started (record b { stream = true })
open_stream e portaudio b = (raised audio, record b { pcm = none })
open_stream e (crashed x) b = (raised x, b)

abbrev pub with_buffer : Starting → Outcome Buffer → Backend → Done
with_buffer e (raised x) b = (raised x, b)
with_buffer e (returned p) b = open_stream e e.opened (record b { pcm = some p })

-- `_require_contract_format`
abbrev pub check_format : Starting → Queried (Unit {0}) → Backend → Done
check_format e (listed _) b = with_buffer e (new_buffer b.queue_capacity) b
check_format e portaudio b = (raised audio, b)
check_format e (crashed x) b = (raised x, b)

abbrev pub with_device : Starting → Resolution → Backend → Done
with_device e (index _) b = check_format e e.format b
with_device e (failed x) b = (raised x, b)
with_device e _ b = (raised audio, b)

abbrev pub begin : Starting → Backend → Done
begin e c = with_device e e.device (record c { aborted = false; stop_requested = false })

-- `start`
unfoldable pub start : Starting → Backend → Done
unfolding close abandon new_buffer
start e b = and_then (close e.abort e.closer b) (begin e)

-- A callback: PCM with its status, and the copy of the block, or the end of the stream.
pub data Callback : Type 0 where
  pcm_arrives : (generation : ℕ) → (status : Bool) → Outcome (List ℕ) → Callback
  finished : (generation : ℕ) → Callback

abbrev pub put_copied : Outcome (List ℕ) → Buffer → Outcome {0} Unit × Buffer
put_copied (raised e) p = Buffer.fail audio p
put_copied (returned []) p = (returned tt, p)
put_copied (returned (x ∷ block)) p = Buffer.put (bytes (x ∷ block)) p

-- `_on_pcm` and `_on_finished`
unfoldable pub on_callback : Callback → Backend → Done
unfolding Buffer.close Buffer.fail Buffer.put
on_callback (pcm_arrives g status copied) b =
    if not (g == b.generation) || b.stop_requested
    then (returned tt, b)
    else if status
    then on_buffer (Buffer.fail audio) b.pcm b
    else on_buffer (put_copied copied) b.pcm b
on_callback (finished g) b =
    if not (g == b.generation)
    then (returned tt, b)
    else if b.stop_requested
    then on_buffer Buffer.close b.pcm b
    else on_buffer (Buffer.fail audio) b.pcm b

abbrev pub after_callbacks : List Callback → Backend → Backend
after_callbacks [] b = b
after_callbacks (c ∷ rest) b = after_callbacks rest (on_callback c b).1
