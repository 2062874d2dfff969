-- ===== src/Audio/Capture/Finish.antt =====
-- How `stop` of src/pi/audio/capture.py ends.
use mathlib.Core.Path.{subst}
use g3_voicestock.Base.{
  ◌≡◌, refl, sym, ◌∙◌, true, false, ◌&&◌, ◌||◌, not, Option, none, some, is_none, Text, Outcome,
  returned, raised, Exc, audio, arith, false≢true, if-elim,
}
use g3_voicestock.Audio.Capture.{
  Capture, is_recording, is_alive, run, keep_cleanup_error, Ending, without_recording,
  without_final, fail,
}
use g3_voicestock.Audio.Capture.Worker.{run-Kept}
use g3_voicestock.Audio.Capture.Control.{
  Stopping, move_file, unpublish, check_and_move, publish_named, publish, finish, close_and_publish,
  stop,
}
use g3_voicestock.Audio.Capture.Rest.{
  IsRest, IsRecording, IsCalm, close_wav-calm, Failed, fail-Failed,
}

-- How `stop` ends: with the artifact of the recording, or an `AudioCaptureError` with its files gone; at
-- rest in both cases.
abbrev pub Stopped : Text → Outcome Text × Capture → Type 0
Stopped i (returned j, c) = (j ≡ i) × IsRest c
Stopped i (raised e, c) = Failed {A = Text} (some i) (raised e, c)

-- No file raises when the recording is published or given up.
pub record IsCalmStop (e : Stopping) : Type 0 where
  pub ending : IsCalm e.ending
  pub close_wav : e.close_wav ≡ none
  pub unlink_final : e.unlink_final ≡ none
  pub unlink_recording : e.unlink_recording ≡ none

Failed-Stopped : (i : Text) (w : Outcome Text × Capture) → Failed (some i) w → Stopped i w
Failed-Stopped i (raised e, c) h = h
Failed-Stopped i (returned j, c) h = elim h [ ]

fail-Stopped :
    (e : Ending) (i : Text) (c : Capture) → IsCalm e → c.artifact_id ≡ some i → Stopped i (fail e c)
fail-Stopped e i c h a =
    Failed-Stopped i (fail e c)
      (subst (λ x. Failed {A = Text} x (fail e c)) a (fail-Failed Text e c h))

unpublish-Stopped :
    (e : Stopping) (i : Text) (c : Capture)
    → IsCalmStop e
    → c.artifact_id ≡ some i
    → Stopped i (finish e (unpublish e i c))
unpublish-Stopped e i c h a =
    let d = without_recording i (without_final i c) in
    let q : unpublish e i c ≡ (raised audio, d) = rw (h.unlink_final, h.unlink_recording) refl in
    subst (λ x. Stopped i (finish e x)) (sym q) (fail-Stopped e.ending i d h.ending a)

check_and_move-Stopped :
    (e : Stopping) (i : Text) (c : Capture)
    → IsCalmStop e
    → c.cleanup_error ≡ none
    → c.wav ≡ none
    → c.artifact_id ≡ some i
    → Stopped i (finish e (check_and_move e i c))
unfolding check_and_move
check_and_move-Stopped e i c h u w a =
    let moved = record c { directory = move_file i c.directory } in
    if-elim (λ x. Stopped i (finish e x)) (not (is_none e.valid)) (λ _. unpublish-Stopped e i c h a)
      (λ _.
        if-elim (λ x. Stopped i (finish e x)) (not (is_none e.replace))
          (λ _. unpublish-Stopped e i c h a)
          (λ _.
            if-elim (λ x. Stopped i (finish e x)) (not (is_none e.valid_final))
              (λ _. unpublish-Stopped e i moved h a)
              (λ _. (
                refl,
                record {
                  state = refl;
                  stop_in_progress = refl;
                  worker = refl;
                  cleanup_error = u;
                  wav = w;
                  artifact_id = refl;
                },
              ))))

pub publish-calm :
    (e : Stopping) (i : Text) (c : Capture)
    → e.close_wav ≡ none
    → c.artifact_id ≡ some i
    → publish e c ≡ check_and_move e i (record c { wav = none; recording_closed = true })
unfolding publish
publish-calm e i c h a =
    rw (h, close_wav-calm c)
      (subst
        (λ x.
          publish_named e x (record c { wav = none; recording_closed = true })
          ≡ check_and_move e i (record c { wav = none; recording_closed = true }))
        (sym a) refl)

close_and_publish-Stopped :
    (e : Stopping) (i : Text) (c : Capture)
    → IsCalmStop e
    → c.artifact_id ≡ some i
    → Stopped i (close_and_publish e c)
unfolding close_and_publish publish
close_and_publish-Stopped e i c h a =
    if-elim (Stopped i) (not (is_none c.worker_error)) (λ _. fail-Stopped e.ending i c h.ending a)
      (λ _.
        if-elim (Stopped i) (not (is_none c.cleanup_error))
          (λ _. fail-Stopped e.ending i c h.ending a)
          (λ q.
            subst (λ x. Stopped i (finish e x)) (sym (publish-calm e i c h.close_wav a))
              (check_and_move-Stopped e i (record c { wav = none; recording_closed = true }) h
                (ground (arith, q)) refl a)))

keep-artifact_id :
    (b : Option Exc) (c : Capture) → (keep_cleanup_error b c).artifact_id ≡ c.artifact_id
unfolding keep_cleanup_error
keep-artifact_id none c = refl
keep-artifact_id (some x) c = ground arith

-- If closing and removing the files raises nothing, a recording that is stopped ends, whatever the
-- backend and the worker do: with its artifact, or with an `AudioCaptureError` and neither of its files left. Either way the capture is at rest.
pub stop-Stopped :
    (e : Stopping) (c : Capture) (i : Text) → IsCalmStop e → IsRecording c i → Stopped i (stop e c)
unfolding stop
stop-Stopped e c i h r =
    let c₁ = run e.before (record c { stop_in_progress = true }) in
    let c₂ = run e.joined (keep_cleanup_error e.stop_backend c₁) in
    let a : c₂.artifact_id ≡ some i =
      (run-Kept e.joined (keep_cleanup_error e.stop_backend c₁)).artifact_id
      ∙ keep-artifact_id e.stop_backend c₁
      ∙ (run-Kept e.before (record c { stop_in_progress = true })).artifact_id
      ∙ r.artifact_id in
    let n : not (is_recording c.state) || c.stop_in_progress ≡ false =
      rw (r.state, r.stop_in_progress) refl in
    if-elim (Stopped i) (not (is_recording c.state) || c.stop_in_progress)
      (λ q. absurd (false≢true (sym n ∙ q)))
      (λ _.
        if-elim (Stopped i) (c₂.worker && is_alive c₂.thread)
          (λ _. fail-Stopped e.ending i c₂ h.ending a)
          (λ _.
            close_and_publish-Stopped e i (keep_cleanup_error e.close_backend c₂) h
              (keep-artifact_id e.close_backend c₂ ∙ a)))
