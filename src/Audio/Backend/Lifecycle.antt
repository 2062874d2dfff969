-- ===== src/Audio/Backend/Lifecycle.antt =====
-- What `start` and `close` of `SoundDeviceBackend` leave (src/pi/audio/sounddevice_backend.py).
use g3_voicestock.Base.{
  ℕ, suc, ◌≤◌, ◌<◌, ◌==◌, ◌≡◌, refl, true, false, ◌||◌, not, Option, none, some, List, [], ◌∷◌,
  Outcome, returned, raised, Exc, if-elim, arith, All,
}
use g3_voicestock.Audio.Buffer as Buffer
use g3_voicestock.Audio.Buffer.{Buffer, new_buffer}
use g3_voicestock.Audio.Devices.{
  Resolution, index, not_found, ambiguous, unsupported, query_failed, failed, Queried, listed,
  portaudio, crashed,
}
use g3_voicestock.Audio.Backend.{
  Backend, abort_stream, release, begin, after_end, forget, not_open, Done, and_then, on_buffer,
  Abort, no_abort, aborts, abort_failed, abort_raised, aborted_with, stop, or_raise, close, abandon,
  Starting, after_stream, open_stream, with_buffer, check_format, with_device, start, Callback,
  pcm_arrives, finished, on_callback, after_callbacks,
}

abbrev pub generation_of : Callback → ℕ
generation_of (pcm_arrives g _ _) = g
generation_of (finished g) = g

-- A callback of another generation does nothing.
stale_lem : (c : Callback) (b : Backend) → generation_of c < b.generation → (on_callback c b).1 ≡ b
unfolding on_callback
stale_lem (pcm_arrives g status copied) b h =
    let e : g == b.generation ≡ false = ground (arith, h) in rw e refl
stale_lem (finished g) b h = let e : g == b.generation ≡ false = ground (arith, h) in rw e refl

stale-All :
    (l : List Callback) (b : Backend)
    → All (λ c. generation_of c < b.generation) l
    → after_callbacks l b ≡ b
stale-All [] b h = refl
stale-All (c ∷ rest) b h = rw (stale_lem c b h.0) (stale-All rest b h.1)

-- A step that keeps the generation.
abbrev Same : ℕ → Done → Type 0
Same n w = w.1.generation ≡ n

and_then-Same :
    (n : ℕ) (w : Done) (next : Backend → Done)
    → Same n w
    → ((b : Backend) → b.generation ≡ n → Same n (next b))
    → Same n (and_then w next)
and_then-Same n (returned _, b) next h f = f b h
and_then-Same n (raised e, b) next h f = h

on_buffer-Same :
    (n : ℕ) (f : Buffer → Outcome {0} Unit × Buffer) (p : Option Buffer) (b : Backend)
    → b.generation ≡ n
    → Same n (on_buffer f p b)
on_buffer-Same n f none b h = h
on_buffer-Same n f (some p) b h = h

aborted_with-Same : (n : ℕ) (a : Abort) (b : Backend) → b.generation ≡ n → Same n (aborted_with a b)
aborted_with-Same n no_abort b h = h
aborted_with-Same n aborts b h = h
aborted_with-Same n abort_failed b h = h
aborted_with-Same n (abort_raised e) b h = h

or_raise-Same : (n : ℕ) (x : Option Exc) (b : Backend) → b.generation ≡ n → Same n (or_raise x b)
or_raise-Same n none b h = h
or_raise-Same n (some e) b h = h

stop-Same : (n : ℕ) (a : Abort) (b : Backend) → b.generation ≡ n → Same n (stop a b)
unfolding stop
stop-Same n a b h =
    let d = record b { stop_requested = true } in
    and_then-Same n (on_buffer Buffer.close b.pcm d) (abort_stream a)
      (on_buffer-Same n Buffer.close b.pcm d h)
      (λ c k.
        if-elim (Same n) (not c.stream || c.aborted) {x = (returned tt, c)}
          {y = aborted_with a (record c { aborted = true })} (λ _. k)
          (λ _. aborted_with-Same n a (record c { aborted = true }) k))

close-Same :
    (a : Abort) (closer : Option Exc) (b : Backend) → Same (suc b.generation) (close a closer b)
unfolding close
close-Same a closer b =
    let n = suc b.generation in
    let d = record b { generation = n } in
    and_then-Same n (stop a d) (release closer) (stop-Same n a d refl) (λ c k.
      if-elim (Same n) c.stream {x = or_raise closer (record c { stream = false })}
        {y = (returned tt, record c { stream = false })}
        (λ _. or_raise-Same n closer (record c { stream = false }) k) (λ _. k))

after_end-Same :
    (n : ℕ) (x : Option Exc) (o : Outcome {0} Unit) (b : Backend)
    → b.generation ≡ n
    → Same n (after_end x o b)
after_end-Same n x (returned _) b h = or_raise-Same n x b h
after_end-Same n x (raised e) b h = h

forget-Same :
    (n : ℕ) (x : Option Exc) (p : Option Buffer) (b : Backend)
    → b.generation ≡ n
    → Same n (forget x p b)
forget-Same n x none b h = or_raise-Same n x (record b { stream = false }) h
forget-Same n x (some p) b h =
    after_end-Same n x (Buffer.close p).0 (record b { pcm = none; stream = false }) h

abandon-Same : (n : ℕ) (x : Option Exc) (b : Backend) → b.generation ≡ n → Same n (abandon x b)
unfolding abandon
abandon-Same n x b h = forget-Same n x b.pcm b h

after_stream-Same :
    (n : ℕ) (e : Starting) (q : Queried (Unit {0})) (b : Backend)
    → b.generation ≡ n
    → Same n (after_stream e q b)
after_stream-Same n e (listed _) b h = h
after_stream-Same n e (crashed x) b h = h
after_stream-Same n e portaudio b h =
    and_then-Same n (abandon e.abandoned b) not_open (abandon-Same n e.abandoned b h) (λ c k. k)

open_stream-Same :
    (n : ℕ) (e : Starting) (q : Queried (Unit {0})) (b : Backend)
    → b.generation ≡ n
    → Same n (open_stream e q b)
open_stream-Same n e (listed _) b h = after_stream-Same n e e.started (record b { stream = true }) h
open_stream-Same n e (crashed x) b h = h
open_stream-Same n e portaudio b h = h

check_format-Same :
    (n : ℕ) (e : Starting) (q : Queried (Unit {0})) (b : Backend)
    → b.generation ≡ n
    → Same n (check_format e q b)
check_format-Same n e portaudio b h = h
check_format-Same n e (crashed x) b h = h
check_format-Same n e (listed _) b h = with_buffer-Same (new_buffer b.queue_capacity)
  where
    with_buffer-Same : (o : Outcome Buffer) → Same n (with_buffer e o b)
    with_buffer-Same (raised x) = h
    with_buffer-Same (returned p) = open_stream-Same n e e.opened (record b { pcm = some p }) h

with_device-Same :
    (n : ℕ) (e : Starting) (r : Resolution) (b : Backend)
    → b.generation ≡ n
    → Same n (with_device e r b)
with_device-Same n e (index i) b h = check_format-Same n e e.format b h
with_device-Same n e (failed x) b h = h
with_device-Same n e not_found b h = h
with_device-Same n e (ambiguous l) b h = h
with_device-Same n e unsupported b h = h
with_device-Same n e query_failed b h = h

start-Same : (e : Starting) (b : Backend) → Same (suc b.generation) (start e b)
unfolding start
start-Same e b =
    and_then-Same (suc b.generation) (close e.abort e.closer b) (begin e)
      (close-Same e.abort e.closer b)
      (λ c k.
        with_device-Same (suc b.generation) e e.device
          (record c { aborted = false; stop_requested = false }) k)

-- Once a stream was closed, or a new one was started over it, whether that succeeds or raises, no
-- callback of any earlier stream changes the backend or its buffer, however late they come.
pub stale_callbacks :
    (l : List Callback) (e : Starting) (a : Abort) (closer : Option Exc) (b : Backend)
    → All (λ c. generation_of c ≤ b.generation) l
    → (after_callbacks l (start e b).1 ≡ (start e b).1)
      × (after_callbacks l (close a closer b).1 ≡ (close a closer b).1)
stale_callbacks l e a closer b h = (
  stale-All l _ (later (start e b).1 l (start-Same e b) h),
  stale-All l _ (later (close a closer b).1 l (close-Same a closer b) h),
)
  where
    later :
        (c : Backend) (m : List Callback)
        → c.generation ≡ suc b.generation
        → All (λ c. generation_of c ≤ b.generation) m
        → All (λ x. generation_of x < c.generation) m
    later c [] g k = tt
    later c (x ∷ m) g k = (omega (arith, g, k.0), later c m g k.1)
