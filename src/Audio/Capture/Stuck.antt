-- ===== src/Audio/Capture/Stuck.antt =====
-- What an error of the file system does to `stop` of src/pi/audio/capture.py.
use g3_voicestock.Base.{
  ◌≡◌, ◌≢◌, refl, ◌∙◌, true, ◌&&◌, ◌||◌, not, Option, none, some, is_none, List, Text, Outcome,
  returned, raised, Exc, audio, if-elim,
}
use g3_voicestock.Audio.Capture.{
  Action, recording, Capture, Done, is_recording, is_alive, run, keep_cleanup_error, Ending,
  or_raise, and_then, close_wav, without_recording, without_final, unlink, discard_files,
  discard_temp, reset, fail, require_idle,
}
use g3_voicestock.Audio.Capture.Worker.{run-Kept}
use g3_voicestock.Audio.Capture.Control.{
  Starting, start, Stopping, move_file, unpublish, check_and_move, publish_named, publish, finish,
  close_and_publish, stop,
}
use g3_voicestock.Audio.Capture.Rest.{IsRecording}

-- A capture that is stuck: recording, with a `stop` that did not end.
abbrev pub IsStuck : Capture → Type 0
IsStuck c = (c.state ≡ recording) × (c.stop_in_progress ≡ true)

-- An exception that is no `AudioCaptureError` has left the capture stuck.
abbrev pub Unhandled : {A : Type 0} → Outcome A × Capture → Type 0
Unhandled (returned _, c) = Unit
Unhandled (raised x, c) = x ≢ audio → IsStuck c

-- A step that keeps what is stuck, whether it returns or raises.
abbrev Keeps : {A : Type 0} → Outcome A × Capture → Type 0
Keeps (_, c) = IsStuck c

or_raise-Keeps : (x : Option Exc) (c : Capture) → IsStuck c → Keeps (or_raise x c)
or_raise-Keeps none c h = h
or_raise-Keeps (some e) c h = h

and_then-Keeps :
    (A B : Type 0) (w : Outcome A × Capture) (next : A → Capture → Outcome B × Capture)
    → Keeps w
    → ((a : A) (c : Capture) → IsStuck c → Keeps (next a c))
    → Keeps (and_then w next)
and_then-Keeps A B (returned a, c) next h f = f a c h
and_then-Keeps A B (raised e, c) next h f = h

unlink-Keeps :
    (f : Capture → Capture) (x : Option Exc) (c : Capture)
    → ((d : Capture) → IsStuck d → IsStuck (f d))
    → IsStuck c
    → Keeps (unlink f x c)
unlink-Keeps f none c k h = k c h
unlink-Keeps f (some e) c k h = h

close_wav-Keeps : (x : Option Exc) (c : Capture) → IsStuck c → Keeps (close_wav x c)
unfolding close_wav
close_wav-Keeps x c h = or_raise-Keeps _ (record c { wav = none; recording_closed = true }) h

run-IsStuck : (l : List Action) (c : Capture) → IsStuck c → IsStuck (run l c)
run-IsStuck l c (s, p) = let k = run-Kept l c in (k.state ∙ s, k.stop_in_progress ∙ p)

discard_files-Keeps :
    (e : Ending) (i : Option Text) (c : Capture) → IsStuck c → Keeps (discard_files e i c)
discard_files-Keeps e none c h = h
discard_files-Keeps e (some i) c h =
    and_then-Keeps Unit Unit (unlink (without_recording i) e.unlink_recording c)
      (λ u. unlink (without_final i) e.unlink_final)
      (unlink-Keeps (without_recording i) e.unlink_recording c (λ d k. k) h)
      (λ u d k. unlink-Keeps (without_final i) e.unlink_final d (λ d' k'. k') k)

discard_temp-Keeps : (e : Ending) (c : Capture) → IsStuck c → Keeps (discard_temp e c)
unfolding discard_temp
discard_temp-Keeps e c h =
    and_then-Keeps Unit Unit (close_wav e.close c) _ (close_wav-Keeps e.close c h)
      (λ u d k. discard_files-Keeps e _ _ (run-IsStuck e.during d k))

-- `_fail` resets the state only when it has discarded the files.
fail-Unhandled : (A : Type 0) (e : Ending) (c : Capture) → IsStuck c → Unhandled (fail {A = A} e c)
unfolding fail
fail-Unhandled A e c h = after (discard_temp e c) (discard_temp-Keeps e c h)
  where
    after : (w : Done) → Keeps w → Unhandled (and_then {B = A} w (λ u d. (raised audio, reset d)))
    after (returned u, d) k = λ n. absurd (n refl)
    after (raised x, d) k = λ n. k

finish-Unhandled : (e : Stopping) (w : Outcome Text × Capture) → Keeps w → Unhandled (finish e w)
finish-Unhandled e (returned i, c) h = tt
finish-Unhandled e (raised audio, c) h = fail-Unhandled Text e.ending c h
finish-Unhandled e (raised Exc.value_error, c) h = λ n. h
finish-Unhandled e (raised Exc.type_error, c) h = λ n. h
finish-Unhandled e (raised Exc.runtime_error, c) h = λ n. h
finish-Unhandled e (raised Exc.other, c) h = λ n. h

unpublish-Keeps : (e : Stopping) (i : Text) (c : Capture) → IsStuck c → Keeps (unpublish e i c)
unpublish-Keeps e i c h =
    and_then-Keeps Unit Text (unlink (without_final i) e.unlink_final c) _
      (unlink-Keeps (without_final i) e.unlink_final c (λ d k. k) h)
      (λ u d k.
        and_then-Keeps Unit Text (unlink (without_recording i) e.unlink_recording d) _
          (unlink-Keeps (without_recording i) e.unlink_recording d (λ d' k'. k') k) (λ v d' k'. k'))

publish_named-Keeps :
    (e : Stopping) (i : Option Text) (c : Capture) → IsStuck c → Keeps (publish_named e i c)
unfolding check_and_move
publish_named-Keeps e none c h = h
publish_named-Keeps e (some i) c h =
    if-elim Keeps (not (is_none e.valid)) (λ _. unpublish-Keeps e i c h)
      (λ _.
        if-elim Keeps (not (is_none e.replace)) (λ _. unpublish-Keeps e i c h)
          (λ _.
            if-elim Keeps (not (is_none e.valid_final))
              (λ _. unpublish-Keeps e i (record c { directory = move_file i c.directory }) h)
              (λ _. h)))

publish-Keeps : (e : Stopping) (c : Capture) → IsStuck c → Keeps (publish e c)
unfolding publish
publish-Keeps e c h =
    and_then-Keeps Unit Text (close_wav e.close_wav c) _ (close_wav-Keeps e.close_wav c h)
      (λ u d k. publish_named-Keeps e d.artifact_id d k)

keep-IsStuck : (b : Option Exc) (c : Capture) → IsStuck c → IsStuck (keep_cleanup_error b c)
unfolding keep_cleanup_error
keep-IsStuck none c h = h
keep-IsStuck (some x) c h = if-elim IsStuck (is_none c.cleanup_error) (λ _. h) (λ _. h)

close_and_publish-Unhandled :
    (e : Stopping) (c : Capture) → IsStuck c → Unhandled (close_and_publish e c)
unfolding close_and_publish
close_and_publish-Unhandled e c h =
    if-elim Unhandled (not (is_none c.worker_error)) (λ _. fail-Unhandled Text e.ending c h)
      (λ _.
        if-elim Unhandled (not (is_none c.cleanup_error)) (λ _. fail-Unhandled Text e.ending c h)
          (λ _. finish-Unhandled e (publish e c) (publish-Keeps e c h)))

stop-Unhandled : (e : Stopping) (c : Capture) (i : Text) → IsRecording c i → Unhandled (stop e c)
unfolding stop
stop-Unhandled e c i r =
    let c₁ = run e.before (record c { stop_in_progress = true }) in
    let c₂ = run e.joined (keep_cleanup_error e.stop_backend c₁) in
    let h : IsStuck c₂ =
      run-IsStuck e.joined _
        (keep-IsStuck e.stop_backend c₁ (run-IsStuck e.before _ (r.state, refl))) in
    if-elim Unhandled (not (is_recording c.state) || c.stop_in_progress) (λ _ n. absurd (n refl))
      (λ _.
        if-elim Unhandled (c₂.worker && is_alive c₂.thread) (λ _. fail-Unhandled Text e.ending c₂ h)
          (λ _.
            close_and_publish-Unhandled e (keep_cleanup_error e.close_backend c₂)
              (keep-IsStuck e.close_backend c₂ h)))

-- When `stop` ends a recording with an exception that is no `AudioCaptureError`, as one that the file
-- system raises while the WAV is closed or removed, every later `start` and `stop` is refused and
-- changes nothing: the capture never records again.
pub unhandled_stop :
    (e : Stopping) (c d : Capture) (i : Text) (x : Exc)
    → IsRecording c i
    → stop e c ≡ (raised x, d)
    → x ≢ audio
    → (e₁ : Starting) (e₂ : Stopping)
    → (start e₁ d ≡ (raised audio, d)) × (stop e₂ d ≡ (raised audio, d))
unfolding start stop require_idle
unhandled_stop e c d i x r h n e₁ e₂ =
    let (s, p) = (rw h at (stop-Unhandled e c i r)) n in (rw s refl, rw (s, p) refl)
