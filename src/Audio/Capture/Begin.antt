-- ===== src/Audio/Capture/Begin.antt =====
-- How `start` of src/pi/audio/capture.py ends: in a recording, or at rest, whatever the backend and the
-- worker do, if the files can be closed and removed.
use g3_voicestock.Base.{
  suc, ◌≡◌, refl, sym, ◌∙◌, ◌⊎◌, inl, inr, true, false, ◌&&◌, not, Option, none, some, is_none,
  Text, returned, raised, Exc, audio, arith, Bool-cases, if-elim, if◌then◌else◌,
}
use g3_voicestock.Audio.Capture.{
  idle, Capture, Done, is_alive, run, keep_cleanup_error, Ending, or_raise, and_then, fail,
  require_idle,
}
use g3_voicestock.Audio.Capture.Worker.{Kept, run-Kept}
use g3_voicestock.Audio.Capture.Control.{
  Starting, open_file, open_temp_file, close_if_gone, not_started, startup_failed, begin_session,
  await_started, after_open, open_session, start,
}
use g3_voicestock.Audio.Capture.Rest.{
  IsRest, IsRecording, IsCalm, closed, discard_temp-calm, cleared-keeps, Failed, fail-Failed,
}

-- How `start` ends: in a recording, or at rest.
abbrev pub Started : Done → Type 0
Started (returned _, c) = (i : Text) × IsRecording c i
Started (raised _, c) = IsRest c

Failed-Started : (i : Option Text) (w : Done) → Failed i w → Started w
Failed-Started i (raised x, c) (_, h, _) = h
Failed-Started i (returned _, c) h = elim h [ ]

fail-Started : (e : Ending) (c : Capture) → IsCalm e → Started (fail e c)
fail-Started e c h = Failed-Started c.artifact_id (fail e c) (fail-Failed Unit e c h)

-- What `begin_session` is given, and the worker's first actions keep.
await_started-Started :
    (e : Starting) (c : Capture) (i : Text)
    → IsCalm e.ending
    → IsRecording c i
    → Started (await_started e c)
unfolding await_started not_started startup_failed
await_started-Started e c i h r =
    if-elim Started (not c.started)
      (λ _.
        fail-Started e.ending
          (close_if_gone e.close_backend (
            if is_alive (run e.joined c).thread && (run e.joined c).started
            then run e.joined_again (keep_cleanup_error e.stop_backend (run e.joined c))
            else run e.joined c))
          h)
      (λ _.
        if-elim Started (not (is_none c.startup_error))
          (λ _. fail-Started e.ending (close_if_gone e.close_backend (run e.joined c)) h)
          (λ _. (i, r)))

pub IsRecording-Kept : (c d : Capture) (i : Text) → Kept c d → IsRecording c i → IsRecording d i
IsRecording-Kept c d i k r = record {
  state = k.state ∙ r.state;
  stop_in_progress = k.stop_in_progress ∙ r.stop_in_progress;
  worker = k.worker ∙ r.worker;
  cleanup_error = k.cleanup_error ∙ r.cleanup_error;
  active = k.session ∙ r.active ∙ sym k.active_session;
  wav = k.wav ∙ r.wav;
  artifact_id = k.artifact_id ∙ r.artifact_id;
}

pub IsRest-Kept : (c d : Capture) → Kept c d → IsRest c → IsRest d
IsRest-Kept c d k r = record {
  state = k.state ∙ r.state;
  stop_in_progress = k.stop_in_progress ∙ r.stop_in_progress;
  worker = k.worker ∙ r.worker;
  cleanup_error = k.cleanup_error ∙ r.cleanup_error;
  wav = k.wav ∙ r.wav;
  artifact_id = k.artifact_id ∙ r.artifact_id;
}

open_failed-Started :
    (e : Starting) (x : Exc) (c : Capture)
    → IsCalm e.ending
    → c.state ≡ idle
    → c.stop_in_progress ≡ false
    → c.worker ≡ false
    → c.cleanup_error ≡ none
    → Started (after_open e (raised x, c))
open_failed-Started e x c h s p w u =
    let k = run-Kept e.ending.during (record c { wav = none; recording_closed = true }) in
    let (q₀, q₁, q₂, q₃, q₄, q₅, _) =
      cleared-keeps (closed e.ending c).artifact_id
        (record (closed e.ending c) { artifact_id = none }) in
    rw (discard_temp-calm e.ending c h) (record {
      state = q₀ ∙ k.state ∙ s;
      stop_in_progress = q₁ ∙ k.stop_in_progress ∙ p;
      worker = q₂ ∙ k.worker ∙ w;
      cleanup_error = q₃ ∙ k.cleanup_error ∙ u;
      wav = q₄ ∙ k.wav;
      artifact_id = q₅;
    })

-- The state with the attributes of a new session.
abbrev named : Starting → Capture → Capture
named e c = record c {
  active_session = suc c.active_session;
  recording_closed = false;
  artifact_id = some e.artifact_id;
}

opened-Started :
    (e : Starting) (o : Option Exc) (c : Capture)
    → IsCalm e.ending
    → IsRest c
    → Started (after_open e (open_file o e.artifact_id (named e c)))
unfolding open_file
opened-Started e (some x) c h r =
    open_failed-Started e x (named e c) h r.state r.stop_in_progress r.worker r.cleanup_error
opened-Started e none c h r =
    let d = begin_session (open_file none e.artifact_id (named e c)).1 in
    await_started-Started e (run e.waited d) e.artifact_id h (
      IsRecording-Kept d (run e.waited d) e.artifact_id (run-Kept e.waited d) (record {
        state = refl;
        stop_in_progress = r.stop_in_progress;
        worker = refl;
        cleanup_error = refl;
        active = refl;
        wav = refl;
        artifact_id = refl;
      }))

open_session-Started :
    (e : Starting) (m : Option Exc) (c : Capture)
    → IsCalm e.ending
    → IsRest c
    → Started (
        after_open e
          (and_then (or_raise m c) (λ u d. open_file e.opened e.artifact_id (named e d))))
open_session-Started e (some x) c h r =
    open_failed-Started e x c h r.state r.stop_in_progress r.worker r.cleanup_error
open_session-Started e none c h r = opened-Started e e.opened c h r

-- `require_idle` at rest: an orphan that lives is refused, and one that is gone is forgotten.
require_idle-rest :
    (c : Capture)
    → IsRest c
    → (require_idle c ≡ (raised audio, c))
      ⊎ (require_idle c ≡ (returned tt, record c { orphaned = false }))
unfolding require_idle
require_idle-rest c r = elim (Bool-cases (c.orphaned && is_alive c.thread)) [
  | inl b ↦ inl (rw (r.state, b) refl)
  | inr b ↦ inr (rw (r.state, b) refl)
]

IsRest-orphan : (c : Capture) → IsRest c → IsRest (record c { orphaned = false })
IsRest-orphan c r = record {
  state = r.state;
  stop_in_progress = r.stop_in_progress;
  worker = r.worker;
  cleanup_error = r.cleanup_error;
  wav = r.wav;
  artifact_id = r.artifact_id;
}

kept-IsRest :
    (b : Option Exc) (c : Capture)
    → IsRest c
    → not (is_none (keep_cleanup_error b c).cleanup_error) ≡ false
    → IsRest (keep_cleanup_error b c)
unfolding keep_cleanup_error
kept-IsRest none c r q = r
kept-IsRest (some x) c r q = ground (arith, r, q)

idle-Started :
    (e : Starting) (c : Capture)
    → IsCalm e.ending
    → IsRest c
    → Started (and_then (require_idle c) (λ v. open_session e))
unfolding open_session open_temp_file
idle-Started e c h r = elim (require_idle-rest c r) [
  | inl q ↦ rw q r
  | inr q ↦
      rw q (open_session-Started e e.mkdir (record c { orphaned = false }) h (IsRest-orphan c r))
]

reopened-Started :
    (e : Starting) (c : Capture)
    → IsCalm e.ending
    → IsRest c
    → Started (
        let d = keep_cleanup_error e.close_before c in
        if not (is_none d.cleanup_error)
        then fail e.ending d
        else and_then (require_idle d) (λ v. open_session e))
reopened-Started e c h r =
    let d = keep_cleanup_error e.close_before c in
    if-elim Started (not (is_none d.cleanup_error)) (λ _. fail-Started e.ending d h)
      (λ q. idle-Started e d h (kept-IsRest e.close_before c r q))

-- From rest, `start` ends in a recording, or raises and is at rest again, on each of its paths.
pub start-Started : (e : Starting) (c : Capture) → IsCalm e.ending → IsRest c → Started (start e c)
unfolding start
start-Started e c h r = elim (require_idle-rest c r) [
  | inl q ↦ rw q r
  | inr q ↦ rw q (reopened-Started e (record c { orphaned = false }) h (IsRest-orphan c r))
]
