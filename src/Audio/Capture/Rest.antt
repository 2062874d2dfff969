-- ===== src/Audio/Capture/Rest.antt =====
-- What a recording that is given up leaves (`_fail` and `_discard_temp` of
-- src/pi/audio/capture.py).
use mathlib.Core.Path.{subst}
use g3_voicestock.Base.{
  ◌≡◌, refl, ◌∙◌, inl, inr, true, false, not, Option, none, some, is_none, Text, text_eq, Outcome,
  returned, raised, audio, Bool-cases, All, All-keep,
}
use g3_voicestock.Audio.Capture.{
  idle, recording, File, Directory, Capture, run, Ending, close_wav, without_recording,
  without_final, discard_files, discard_temp, fail,
}
use g3_voicestock.Audio.Capture.Worker.{run-Kept}

-- Between two recordings.
pub record IsRest (c : Capture) : Type 0 where
  pub state : c.state ≡ idle
  pub stop_in_progress : c.stop_in_progress ≡ false
  pub worker : c.worker ≡ false
  pub cleanup_error : c.cleanup_error ≡ none
  pub wav : c.wav ≡ none
  pub artifact_id : c.artifact_id ≡ none

-- In a recording, whose file is open for the worker.
pub record IsRecording (c : Capture) (i : Text) : Type 0 where
  pub state : c.state ≡ recording
  pub stop_in_progress : c.stop_in_progress ≡ false
  pub worker : c.worker ≡ true
  pub cleanup_error : c.cleanup_error ≡ none
  pub active : c.thread.session ≡ c.active_session
  pub wav : c.wav ≡ some i
  pub artifact_id : c.artifact_id ≡ some i

-- The files of a recording are gone from the directory.
abbrev pub IsOther : Text → File → Type 0
IsOther i f = not (text_eq f.artifact_id i) ≡ true

abbrev pub Gone : Option Text → Directory → Type 0
Gone none d = Unit
Gone (some i) d = All (IsOther i) d.recordings × All (IsOther i) d.finals

-- No file raises.
pub record IsCalm (e : Ending) : Type 0 where
  pub close : e.close ≡ none
  pub unlink_recording : e.unlink_recording ≡ none
  pub unlink_final : e.unlink_final ≡ none

pub close_wav-calm :
    (c : Capture)
    → close_wav none c ≡ (returned tt, record c { wav = none; recording_closed = true })
unfolding close_wav
close_wav-calm c = elim (Bool-cases (is_none c.wav)) [ inl b ↦ rw b refl | inr b ↦ rw b refl ]

abbrev pub cleared : Option Text → Capture → Capture
cleared none c = c
cleared (some i) c = without_final i (without_recording i c)

discard_files-calm :
    (e : Ending) (i : Option Text) (c : Capture)
    → IsCalm e
    → discard_files e i c ≡ (returned tt, cleared i c)
discard_files-calm e none c h = refl
discard_files-calm e (some i) c h = rw (h.unlink_recording, h.unlink_final) refl

-- The state when the file is closed and the worker has acted once more.
abbrev pub closed : Ending → Capture → Capture
closed e c = run e.during (record c { wav = none; recording_closed = true })

abbrev pub discarded : Ending → Capture → Capture
discarded e c = cleared (closed e c).artifact_id (record (closed e c) { artifact_id = none })

pub discard_temp-calm :
    (e : Ending) (c : Capture) → IsCalm e → discard_temp e c ≡ (returned tt, discarded e c)
unfolding discard_temp
discard_temp-calm e c h = rw (h.close, close_wav-calm c) (discard_files-calm e _ _ h)

pub cleared-keeps :
    (i : Option Text) (c : Capture)
    → ((cleared i c).state ≡ c.state)
      × ((cleared i c).stop_in_progress ≡ c.stop_in_progress)
      × ((cleared i c).worker ≡ c.worker)
      × ((cleared i c).cleanup_error ≡ c.cleanup_error)
      × ((cleared i c).wav ≡ c.wav)
      × ((cleared i c).artifact_id ≡ c.artifact_id)
      × Gone i (cleared i c).directory
cleared-keeps none c = (refl, refl, refl, refl, refl, refl, tt)
cleared-keeps (some i) c = (
  refl,
  refl,
  refl,
  refl,
  refl,
  refl,
  (All-keep _ c.directory.recordings, All-keep _ c.directory.finals),
)

-- What a recording that is given up leaves.
abbrev pub Failed : {A : Type 0} → Option Text → Outcome A × Capture → Type 0
Failed i (returned _, c) = ⊥
Failed i (raised e, c) = (e ≡ audio) × IsRest c × Gone i c.directory

pub fail-Failed :
    (A : Type 0) (e : Ending) (c : Capture) → IsCalm e → Failed {A = A} c.artifact_id (fail e c)
unfolding fail
fail-Failed A e c h =
    let k = run-Kept e.during (record c { wav = none; recording_closed = true }) in
    let (_, _, _, _, w, i, g) =
      cleared-keeps (closed e c).artifact_id (record (closed e c) { artifact_id = none }) in
    rw (discard_temp-calm e c h) (
      refl,
      record {
        state = refl;
        stop_in_progress = refl;
        worker = refl;
        cleanup_error = refl;
        wav = w ∙ k.wav;
        artifact_id = i;
      },
      subst (λ x. Gone x (discarded e c).directory) k.artifact_id g,
    )
