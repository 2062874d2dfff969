-- ===== src/Audio/Capture/Control.antt =====
-- `start` and `stop` of src/pi/audio/capture.py, as the caller's thread runs them. A wait is where
-- the worker acts, and its result is read from the state after the actions.
use g3_voicestock.Base.{
  suc, true, false, ◌&&◌, ◌||◌, not, Option, none, some, is_none, List, [], ◌∷◌, Text, text_eq,
  Outcome, returned, raised, Exc, audio, if◌then◌else◌,
}
use g3_voicestock.Audio.Capture.{
  idle, recording, starting, File, Directory, Capture, Done, is_recording, is_alive, remove, Action,
  run, keep_cleanup_error, Ending, or_raise, and_then, close_wav, without_recording, without_final,
  unlink, discard_temp, fail, require_idle,
}

-- What `start` meets, in the order of the calls: the first `backend.close()`, the directory, the new
-- id, the new file, the worker until the first wait ends, and what follows a start that failed.
pub record Starting : Type 0 where
  pub close_before : Option Exc
  pub mkdir : Option Exc
  pub artifact_id : Text
  pub opened : Option Exc
  pub waited : List Action
  pub joined : List Action
  pub stop_backend : Option Exc
  pub joined_again : List Action
  pub close_backend : Option Exc
  pub ending : Ending

-- `_open_temp_file`: `wave.open` makes the file anew.
unfoldable pub open_file : Option Exc → Text → Capture → Done
open_file (some e) i c = (raised e, c)
open_file none i c = (
  returned tt,
  record c {
    wav = some i;
    directory = record {
      recordings = record { artifact_id = i; pcm = [] } ∷ remove i c.directory.recordings;
      finals = c.directory.finals;
    };
  },
)

unfoldable pub open_temp_file : Starting → Capture → Done
unfolding open_file
open_temp_file e c = and_then (or_raise e.mkdir c) (λ u d.
    open_file e.opened e.artifact_id (record d {
      active_session = suc d.active_session;
      recording_closed = false;
      artifact_id = some e.artifact_id;
    }))

-- `start` of a worker that has failed: closed if it is gone, and given up.
abbrev pub close_if_gone : Option Exc → Capture → Capture
close_if_gone error c = if is_alive c.thread then c else keep_cleanup_error error c

-- The branch of a worker that did not start in time.
unfoldable pub not_started : Starting → Capture → Done
unfolding fail
not_started e c =
    let c₁ = run e.joined c in
    let c₂ =
      if is_alive c₁.thread && c₁.started
      then run e.joined_again (keep_cleanup_error e.stop_backend c₁)
      else c₁ in
    fail e.ending (close_if_gone e.close_backend c₂)

-- The branch of a worker whose `backend.start()` raised.
unfoldable pub startup_failed : Starting → Capture → Done
unfolding fail
startup_failed e c = fail e.ending (close_if_gone e.close_backend (run e.joined c))

-- The state that a new worker starts in.
abbrev pub begin_session : Capture → Capture
begin_session c = record c {
  started = false;
  startup_error = none;
  worker_error = none;
  cleanup_error = none;
  state = recording;
  worker = true;
  thread = record { session = c.active_session; phase = starting };
}

unfoldable pub await_started : Starting → Capture → Done
unfolding not_started startup_failed
await_started e c =
    if not c.started
    then not_started e c
    else if not (is_none c.startup_error)
    then startup_failed e c
    else (returned tt, c)

-- The locked block of `start` after its check: a file that cannot be opened is discarded.
abbrev pub after_open : Starting → Done → Done
after_open e (returned u, c) = await_started e (run e.waited (begin_session c))
after_open e (raised x, c) = and_then (discard_temp e.ending c) (λ u d. (raised x, d))

unfoldable pub open_session : Starting → Capture → Done
unfolding open_temp_file await_started
open_session e c = after_open e (open_temp_file e c)

-- `start`
unfoldable pub start : Starting → Capture → Done
unfolding open_session require_idle
start e c = and_then (require_idle c) (λ u c₁.
    let c₂ = keep_cleanup_error e.close_before c₁ in
    if not (is_none c₂.cleanup_error)
    then fail e.ending c₂
    else and_then (require_idle c₂) (λ v. open_session e))

-- What `stop` meets: the worker before and after `backend.stop()`, the backend, the two checks of the
-- file and its move between them, and the files.
pub record Stopping : Type 0 where
  pub before : List Action
  pub stop_backend : Option Exc
  pub joined : List Action
  pub close_backend : Option Exc
  pub close_wav : Option Exc
  pub valid : Option Exc
  pub replace : Option Exc
  pub valid_final : Option Exc
  pub unlink_final : Option Exc
  pub unlink_recording : Option Exc
  pub ending : Ending

unfoldable pub find_file : Text → List File → Option File
find_file i [] = none
find_file i (f ∷ files) = if text_eq f.artifact_id i then some f else find_file i files

-- `os.replace(recording, final)`
unfoldable pub move_file : Text → Directory → Directory
unfolding find_file
move_file i d = elim (find_file i d.recordings) [
  | none ↦ d
  | some f ↦ record { recordings = remove i d.recordings; finals = f ∷ remove i d.finals }
]

-- The handlers of `_publish`: both files are removed, and the error is an `AudioCaptureError`.
abbrev pub unpublish : Stopping → Text → Capture → Outcome Text × Capture
unpublish e i c = and_then (unlink (without_final i) e.unlink_final c) (λ u d.
    and_then (unlink (without_recording i) e.unlink_recording d) (λ v d'. (raised audio, d')))

unfoldable pub check_and_move : Stopping → Text → Capture → Outcome Text × Capture
unfolding move_file
check_and_move e i c =
    let moved = record c { directory = move_file i c.directory } in
    if not (is_none e.valid)
    then unpublish e i c
    else if not (is_none e.replace)
    then unpublish e i c
    else if not (is_none e.valid_final)
    then unpublish e i moved
    else (returned i, record moved { artifact_id = none })

abbrev pub publish_named : Stopping → Option Text → Capture → Outcome Text × Capture
publish_named e none c = (raised audio, c)
publish_named e (some i) c = check_and_move e i c

-- `_publish`
unfoldable pub publish : Stopping → Capture → Outcome Text × Capture
unfolding check_and_move close_wav
publish e c = and_then (close_wav e.close_wav c) (λ u d. publish_named e d.artifact_id d)

-- The end of `stop`: only an `AudioCaptureError` is handled.
abbrev pub finish : Stopping → Outcome Text × Capture → Outcome Text × Capture
finish e (returned i, c) =
    (returned i, record c { state = idle; stop_in_progress = false; worker = false })
finish e (raised audio, c) = fail e.ending c
finish e (raised x, c) = (raised x, c)

unfoldable pub close_and_publish : Stopping → Capture → Outcome Text × Capture
unfolding publish fail
close_and_publish e c =
    if not (is_none c.worker_error)
    then fail e.ending c
    else if not (is_none c.cleanup_error)
    then fail e.ending c
    else finish e (publish e c)

-- `stop`
unfoldable pub stop : Stopping → Capture → Outcome Text × Capture
unfolding close_and_publish
stop e c =
    if not (is_recording c.state) || c.stop_in_progress
    then (raised audio, c)
    else (let c₁ = run e.before (record c { stop_in_progress = true }) in
        let c₂ = run e.joined (keep_cleanup_error e.stop_backend c₁) in
        if c₂.worker && is_alive c₂.thread
        then fail e.ending c₂
        else close_and_publish e (keep_cleanup_error e.close_backend c₂))
