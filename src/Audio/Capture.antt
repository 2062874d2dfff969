-- ===== src/Audio/Capture.antt =====
-- One recording at a time: src/pi/audio/capture.py. The threads take turns: what the worker does is a
-- list of its actions, given where the caller waits. `_stop_event` is left out, since nothing reads it.
-- Outside are the backend, the thread library and the files' errors: what they answer is an argument.
-- A file is its name and the PCM written to it. A thread that is made starts, and one lives at a time:
-- `start` refuses while an orphan does.
pub mod Worker
pub mod Control
pub mod Rest
pub mod Begin
pub mod Finish
pub mod Stuck
pub mod Published
pub mod Calls
use g3_voicestock.Base.{
  ℕ, suc, ◌+◌, ◌==◌, Bool, true, false, ◌&&◌, ◌||◌, not, Option, none, some, is_none, List, [], ◌∷◌,
  ◌++◌, keep, Text, text_eq, Outcome, returned, raised, Exc, audio, if◌then◌else◌,
}

pub data State : Type 0 where
  idle recording : State

-- The thread that was made last: before `backend.start()` returns, reading, or finished.
pub data ThreadPhase : Type 0 where
  starting reading ended : ThreadPhase

pub record Thread : Type 0 where
  pub session : ℕ
  pub phase : ThreadPhase

pub record File : Type 0 where
  pub artifact_id : Text
  pub pcm : List ℕ

-- The output directory: the `.recording` files and the `.wav` files.
pub record Directory : Type 0 where
  pub recordings : List File
  pub finals : List File

-- `artifact_id` stands for itself and the two paths, which are set and reset together; `worker` and
-- `orphaned` tell whether the attribute refers to the thread; `wav` is the file that is open.
pub record Capture : Type 0 where
  pub state : State
  pub stop_in_progress : Bool
  pub worker : Bool
  pub orphaned : Bool
  pub thread : Thread
  pub started : Bool
  pub startup_error : Option Exc
  pub worker_error : Option Exc
  pub cleanup_error : Option Exc
  pub wav : Option Text
  pub active_session : ℕ
  pub recording_closed : Bool
  pub artifact_id : Option Text
  pub directory : Directory

abbrev pub Done : Type 0
Done = Outcome {0} Unit × Capture

abbrev pub is_recording : State → Bool
is_recording idle = false
is_recording recording = true

-- `worker.is_alive()`
abbrev pub is_alive : Thread → Bool
is_alive t = elim t.phase [ ended ↦ false | _ ↦ true ]

-- `path.unlink(missing_ok=True)`, and the write to the file that is open.
abbrev pub remove : Text → List File → List File
remove i files = keep (λ f. not (text_eq f.artifact_id i)) files

abbrev pub append : Text → List ℕ → List File → List File
append i pcm [] = []
append i pcm (f ∷ files) =
    (if text_eq f.artifact_id i then record f { pcm = f.pcm ++ pcm } else f) ∷ append i pcm files

-- `len(chunk) % frame_bytes == 0`, for frames of two bytes.
abbrev pub is_aligned : List ℕ → Bool
is_aligned [] = true
is_aligned (_ ∷ []) = false
is_aligned (_ ∷ _ ∷ rest) = is_aligned rest

abbrev pub is_active : Capture → Bool
is_active c = c.thread.session == c.active_session

abbrev pub end_thread : Capture → Capture
end_thread c = record c { thread = record { session = c.thread.session; phase = ended } }

-- The two handlers of `_run`: the error is kept only for the session in progress.
unfoldable pub worker_fails : Exc → Capture → Capture
worker_fails e c = end_thread (if is_active c then record c { worker_error = some e } else c)

unfoldable pub startup_fails : Exc → Capture → Capture
startup_fails e c =
    let kept = if is_active c then record c { startup_error = some e } else c in
    end_thread (record kept { started = true })

-- `writeframes` of the open file; an error of the file leaves it as it was.
abbrev pub write_frames : List ℕ → Option Exc → Option Text → Capture → Done
write_frames pcm (some e) i c = (raised e, c)
write_frames pcm none none c = (raised audio, c)
write_frames pcm none (some i) c = (
  returned tt,
  record c {
    directory = record {
      recordings = append i pcm c.directory.recordings;
      finals = c.directory.finals;
    };
  },
)

-- `_write_chunk`
unfoldable pub write_chunk : List ℕ → Option Exc → Capture → Done
write_chunk pcm error c =
    if not (is_aligned pcm)
    then (raised audio, c)
    else if not (is_active c) || is_none c.wav
    then ((if c.recording_closed || not (is_active c) then returned tt else raised audio), c)
    else write_frames pcm error c.wav c

-- One action of the worker: what `backend.start()` did, or what `backend.read()` did, with the error
-- of the file if the chunk is written.
pub data Action : Type 0 where
  start_returned : Action
  start_raised : Exc → Action
  read_returned : List ℕ → Option Exc → Action
  read_raised : Exc → Action

abbrev pub after_write : Done → Capture
after_write (returned _, c) = c
after_write (raised e, c) = worker_fails e c

-- `_run`, one action at a time; a thread in another phase does not take it.
unfoldable pub act : Action → ThreadPhase → Capture → Capture
unfolding worker_fails startup_fails write_chunk
act start_returned starting c = record c {
  thread = record { session = c.thread.session; phase = reading };
  started = true;
}
act (start_raised e) starting c = startup_fails e c
act (read_returned [] error) reading c = end_thread c
act (read_returned (b ∷ chunk) error) reading c = after_write (write_chunk (b ∷ chunk) error c)
act (read_raised e) reading c = worker_fails e c
act _ _ c = c

unfoldable pub run : List Action → Capture → Capture
unfolding act
run [] c = c
run (a ∷ rest) c = run rest (act a c.thread.phase c)

-- `_stop_backend` and `_close_from_controller`, by the error of the backend.
unfoldable pub keep_cleanup_error : Option Exc → Capture → Capture
keep_cleanup_error none c = c
keep_cleanup_error (some e) c =
    if is_none c.cleanup_error then record c { cleanup_error = some e } else c

-- What the end of a recording meets: the ending of closing the WAV and of removing its two files, and
-- what a worker that still lives does between the two.
pub record Ending : Type 0 where
  pub close : Option Exc
  pub during : List Action
  pub unlink_recording : Option Exc
  pub unlink_final : Option Exc

abbrev pub or_raise : Option Exc → Capture → Done
or_raise none c = (returned tt, c)
or_raise (some e) c = (raised e, c)

abbrev pub and_then :
    {A B : Type 0} → Outcome A × Capture → (A → Capture → Outcome B × Capture) → Outcome B × Capture
and_then (returned a, c) next = next a c
and_then (raised e, c) next = (raised e, c)

-- `_close_wav`
unfoldable pub close_wav : Option Exc → Capture → Done
close_wav error c =
    or_raise (if is_none c.wav then none else error)
      (record c { wav = none; recording_closed = true })

abbrev pub without_recording : Text → Capture → Capture
without_recording i c = record c {
  directory = record { recordings = remove i c.directory.recordings; finals = c.directory.finals };
}

abbrev pub without_final : Text → Capture → Capture
without_final i c = record c {
  directory = record { recordings = c.directory.recordings; finals = remove i c.directory.finals };
}

-- `path.unlink(missing_ok=True)`: a file that is not removed raises.
abbrev pub unlink : (Capture → Capture) → Option Exc → Capture → Done
unlink remove_file none c = (returned tt, remove_file c)
unlink remove_file (some e) c = (raised e, c)

-- `_discard_temp`
abbrev pub discard_files : Ending → Option Text → Capture → Done
discard_files ending none c = (returned tt, c)
discard_files ending (some i) c =
    and_then (unlink (without_recording i) ending.unlink_recording c)
      (λ u. unlink (without_final i) ending.unlink_final)

unfoldable pub discard_temp : Ending → Capture → Done
unfolding close_wav run
discard_temp ending c = and_then (close_wav ending.close c) (λ u d.
    let d' = run ending.during d in
    discard_files ending d'.artifact_id (record d' { artifact_id = none }))

-- The locked block of `_fail`.
abbrev pub reset : Capture → Capture
reset c = record c {
  state = idle;
  stop_in_progress = false;
  worker = false;
  orphaned = c.orphaned || (c.worker && is_alive c.thread);
  startup_error = none;
  worker_error = none;
  cleanup_error = none;
}

-- `_fail`: it raises an `AudioCaptureError`, unless a file does. `A` is what the caller returns.
unfoldable pub fail : {A : Type 0} → Ending → Capture → Outcome A × Capture
unfolding discard_temp
fail ending c = and_then (discard_temp ending c) (λ u d. (raised audio, reset d))

-- `_require_idle_locked`, with `_reap_orphaned_worker`.
unfoldable pub require_idle : Capture → Done
require_idle c =
    if is_recording c.state
    then (raised audio, c)
    else if c.orphaned && is_alive c.thread
    then (raised audio, c)
    else (returned tt, record c { orphaned = false })
