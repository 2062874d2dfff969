-- ===== src/Audio/Capture/Calls.antt =====
-- Any calls of `AudioCapture` (src/pi/audio/capture.py), one after the other.
use mathlib.Core.Path.{subst}
use g3_voicestock.Base.{
  ◌≡◌, refl, sym, ◌⊎◌, inl, inr, false, none, List, [], ◌∷◌, Text, Outcome, returned, raised, All,
}
use g3_voicestock.Audio.Capture.{idle, ended, Directory, Capture, Done, Action, run, require_idle}
use g3_voicestock.Audio.Capture.Worker.{run-Kept}
use g3_voicestock.Audio.Capture.Control.{Starting, Stopping, start, stop}
use g3_voicestock.Audio.Capture.Rest.{IsRest, IsRecording, IsCalm}
use g3_voicestock.Audio.Capture.Begin.{Started, start-Started, IsRest-Kept, IsRecording-Kept}
use g3_voicestock.Audio.Capture.Finish.{IsCalmStop, Stopped, stop-Stopped}

-- `AudioCapture.__init__`, on a directory.
unfoldable pub new_capture : Directory → Capture
new_capture d = record {
  state = idle;
  stop_in_progress = false;
  worker = false;
  orphaned = false;
  thread = record { session = 0; phase = ended };
  started = false;
  startup_error = none;
  worker_error = none;
  cleanup_error = none;
  wav = none;
  active_session = 0;
  recording_closed = false;
  artifact_id = none;
  directory = d;
}

-- A call, or actions of the worker between two calls.
pub data Call : Type 0 where
  starts : Starting → Call
  stops : Stopping → Call
  acts : List Action → Call

abbrev pub IsCalmCall : Call → Type 0
IsCalmCall (starts e) = IsCalm e.ending
IsCalmCall (stops e) = IsCalmStop e
IsCalmCall (acts l) = Unit

abbrev pub after_call : Call → Capture → Capture
after_call (starts e) c = (start e c).1
after_call (stops e) c = (stop e c).1
after_call (acts l) c = run l c

abbrev pub after_calls : List Call → Capture → Capture
after_calls [] c = c
after_calls (x ∷ rest) c = after_calls rest (after_call x c)

abbrev pub IsWellFormed : Capture → Type 0
IsWellFormed c = IsRest c ⊎ ((i : Text) × IsRecording c i)

Started-IsWellFormed : (w : Done) → Started w → IsWellFormed w.1
Started-IsWellFormed (returned _, c) h = inr h
Started-IsWellFormed (raised _, c) h = inl h

Stopped-IsRest : (i : Text) (w : Outcome Text × Capture) → Stopped i w → IsRest w.1
Stopped-IsRest i (returned j, c) (_, h) = h
Stopped-IsRest i (raised e, c) (_, h, _) = h

-- A call in the wrong state is refused.
start_recording : (e : Starting) (c : Capture) (i : Text) → IsRecording c i → (start e c).1 ≡ c
unfolding start require_idle
start_recording e c i r = rw (r.state) refl

stop_rest : (e : Stopping) (c : Capture) → IsRest c → (stop e c).1 ≡ c
unfolding stop
stop_rest e c r = rw (r.state) refl

after_call-IsWellFormed :
    (x : Call) (c : Capture) → IsCalmCall x → IsWellFormed c → IsWellFormed (after_call x c)
after_call-IsWellFormed (starts e) c h (inl r) =
    Started-IsWellFormed (start e c) (start-Started e c h r)
after_call-IsWellFormed (starts e) c h (inr (i, r)) =
    subst IsWellFormed (sym (start_recording e c i r)) (inr (i, r))
after_call-IsWellFormed (stops e) c h (inl r) = subst IsWellFormed (sym (stop_rest e c r)) (inl r)
after_call-IsWellFormed (stops e) c h (inr (i, r)) =
    inl (Stopped-IsRest i (stop e c) (stop-Stopped e c i h r))
after_call-IsWellFormed (acts l) c h (inl r) = inl (IsRest-Kept c (run l c) (run-Kept l c) r)
after_call-IsWellFormed (acts l) c h (inr (i, r)) =
    inr (i, IsRecording-Kept c (run l c) i (run-Kept l c) r)

new_capture-IsRest : (d : Directory) → IsRest (new_capture d)
unfolding new_capture
new_capture-IsRest d = record {
  state = refl;
  stop_in_progress = refl;
  worker = refl;
  cleanup_error = refl;
  wav = refl;
  artifact_id = refl;
}

after_calls-IsWellFormed :
    (calls : List Call) (c : Capture)
    → All IsCalmCall calls
    → IsWellFormed c
    → IsWellFormed (after_calls calls c)
after_calls-IsWellFormed [] c h w = w
after_calls-IsWellFormed (x ∷ rest) c h w =
    after_calls-IsWellFormed rest (after_call x c) h.1 (after_call-IsWellFormed x c h.0 w)

-- After any calls of `start` and `stop` in any order, with any actions of the worker between and within
-- them, and any errors but those of closing and removing files, the capture is at rest, with no file
-- open, or in a recording whose file is open for the session in progress.
pub capture-IsWellFormed :
    (calls : List Call) (d : Directory)
    → All IsCalmCall calls
    → IsWellFormed (after_calls calls (new_capture d))
capture-IsWellFormed calls d h =
    after_calls-IsWellFormed calls (new_capture d) h (inl (new_capture-IsRest d))
