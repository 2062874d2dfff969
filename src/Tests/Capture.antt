-- ===== src/Tests/Capture.antt =====
-- A recording from `start` to `stop` on concrete inputs.
use g3_voicestock.Base.{
  ℕ, ◌≡◌, refl, true, false, none, some, List, [], ◌∷◌, ◌++◌, str, text_eq, returned, raised, audio,
  other,
}
use g3_voicestock.Audio.Capture.{
  recording, reading, File, Directory, Capture, Ending, start_returned, read_returned, run,
  keep_cleanup_error, close_wav,
}
use g3_voicestock.Audio.Capture.Worker.{concat}
use g3_voicestock.Audio.Capture.Control.{Starting, Stopping, start, stop, find_file, publish}
use g3_voicestock.Audio.Capture.Rest.{IsCalm, IsRecording}
use g3_voicestock.Audio.Capture.Finish.{IsCalmStop, Stopped, stop-Stopped}
use g3_voicestock.Audio.Capture.Stuck.{unhandled_stop}
use g3_voicestock.Audio.Capture.Published.{quiet_stop, IsReading, published, stop_publishes}
use g3_voicestock.Audio.Capture.Calls.{
  Call, starts, stops, acts, IsWellFormed, after_calls, new_capture, capture-IsWellFormed,
}

abbrev calm : Ending
calm = record { close = none; during = []; unlink_recording = none; unlink_final = none }

calm-IsCalm : IsCalm calm
calm-IsCalm = record { close = refl; unlink_recording = refl; unlink_final = refl }

abbrev empty : Directory
empty = record { recordings = []; finals = [] }

abbrev starting : Starting
starting = record {
  close_before = none;
  mkdir = none;
  artifact_id = str "a";
  opened = none;
  waited = start_returned ∷ read_returned (1 ∷ 2 ∷ []) none ∷ [];
  joined = [];
  stop_backend = none;
  joined_again = [];
  close_backend = none;
  ending = calm;
}

abbrev file : File
file = record { artifact_id = str "a"; pcm = 1 ∷ 2 ∷ [] }

-- The capture in its recording, with one chunk written.
abbrev in_recording : Capture
in_recording = record {
  state = recording;
  stop_in_progress = false;
  worker = true;
  orphaned = false;
  thread = record { session = 1; phase = reading };
  started = true;
  startup_error = none;
  worker_error = none;
  cleanup_error = none;
  wav = some (str "a");
  active_session = 1;
  recording_closed = false;
  artifact_id = some (str "a");
  directory = record { recordings = file ∷ []; finals = [] };
}

recorded : start starting (new_capture empty) ≡ (returned tt, in_recording)
unfolding start new_capture run text_eq keep_cleanup_error
recorded = refl

in_recording-IsRecording : IsRecording in_recording (str "a")
in_recording-IsRecording = record {
  state = refl;
  stop_in_progress = refl;
  worker = refl;
  cleanup_error = refl;
  active = refl;
  wav = refl;
  artifact_id = refl;
}

in_recording-IsReading : IsReading in_recording (str "a") file
unfolding find_file text_eq
in_recording-IsReading = record {
  session = in_recording-IsRecording;
  phase = refl;
  no_error = refl;
  file = refl;
}

abbrev before_stop : List (List ℕ)
before_stop = (3 ∷ 4 ∷ []) ∷ []

abbrev still_queued : List (List ℕ)
still_queued = (5 ∷ 6 ∷ []) ∷ (7 ∷ 8 ∷ []) ∷ []

stop_publishes_example :
    ((stop (quiet_stop before_stop still_queued calm) in_recording).0 ≡ returned (str "a"))
    × ((stop (quiet_stop before_stop still_queued calm) in_recording).1.directory
        ≡ published
            (str "a")
            file
            (concat before_stop ++ concat still_queued)
            in_recording.directory)
stop_publishes_example =
    stop_publishes in_recording (str "a") file before_stop still_queued calm in_recording-IsReading
      ((refl, λ e. cc), tt) ((refl, λ e. cc), ((refl, λ e. cc), tt))

quiet-IsCalmStop : IsCalmStop (quiet_stop before_stop still_queued calm)
quiet-IsCalmStop = record {
  ending = calm-IsCalm;
  close_wav = refl;
  unlink_final = refl;
  unlink_recording = refl;
}

stop-Stopped_example :
    Stopped (str "a") (stop (quiet_stop before_stop still_queued calm) in_recording)
stop-Stopped_example =
    stop-Stopped (quiet_stop before_stop still_queued calm) in_recording (str "a") quiet-IsCalmStop
      in_recording-IsRecording

abbrev two_calls : List Call
two_calls =
    starts starting
    ∷ stops (quiet_stop before_stop still_queued calm)
    ∷ starts starting
    ∷ acts []
    ∷ []

capture-IsWellFormed_example : IsWellFormed (after_calls two_calls (new_capture empty))
capture-IsWellFormed_example =
    capture-IsWellFormed two_calls empty (calm-IsCalm, (quiet-IsCalmStop, (calm-IsCalm, (tt, tt))))

-- The disk is full when the WAV is closed.
abbrev full_disk : Stopping
full_disk = record (quiet_stop before_stop [] calm) { close_wav = some other }

abbrev left : Capture
left = (stop full_disk in_recording).1

fails : stop full_disk in_recording ≡ (raised other, left)
unfolding stop run text_eq keep_cleanup_error publish close_wav
fails = refl

unhandled_stop_example :
    (start starting left ≡ (raised audio, left)) × (stop full_disk left ≡ (raised audio, left))
unhandled_stop_example =
    unhandled_stop full_disk in_recording left (str "a") other in_recording-IsRecording fails
      (λ e. cc) starting full_disk
