-- ===== src/Talk.antt =====
-- Push-to-talk: src/pi/push_to_talk/controller.py. One worker takes the queued events in turn. The
-- audio capture and the application are outside: what `AudioCapture.start` and `stop` do at an event
-- is in its `Env`, and the callbacks act on a state `A`. The duration and format of a result, which
-- no code here reads, are left out, and with them `duration_of`, whose failure counts as one of `stop`.
pub mod Timer
pub mod Balance
use g3_voicestock.Base.{
  ℕ, ◌+◌, ◌==◌, Bool, true, false, not, Option, none, some, List, [], ◌∷◌, Text, Exc, audio,
  Outcome, returned, raised, if◌then◌else◌,
}

pub data PushToTalkState : Type 0 where
  idle recording waiting_for_release : PushToTalkState

-- `_Event`: the generation is only read on a timeout.
pub data Event : Type 0 where
  pressed released shutdown : Event
  max_duration : ℕ → Event

pub data TerminationReason : Type 0 where
  by_release by_max_duration : TerminationReason

-- `AudioCaptureResult`: the published file and why it ended.
pub record CaptureResult : Type 0 where
  pub artifact : Text
  pub reason : TerminationReason

-- What the audio capture does at one event: `audio` is an `AudioCaptureError`.
pub record Env : Type 0 where
  pub start : Outcome (Unit {0})
  pub stop : Outcome Text

-- `armed` is the generation that a running timer carries.
pub record Controller : Type 0 where
  pub state : PushToTalkState
  pub generation : ℕ
  pub armed : Option ℕ

-- The callbacks. `can_start_capture` may be `None`.
pub record App (A : Type 0) : Type 0 where
  pub can_start : Option (A → Bool × A)
  pub on_completed : CaptureResult → A → Outcome (Unit {0}) × A
  pub on_error : A → Outcome (Unit {0}) × A

abbrev pub is_idle : PushToTalkState → Bool
is_idle idle = true
is_idle _ = false

abbrev pub is_recording : PushToTalkState → Bool
is_recording recording = true
is_recording _ = false

-- `_state_after_successful_stop` and `_state_after_failed_stop`
abbrev pub state_after_successful_stop : TerminationReason → PushToTalkState
state_after_successful_stop by_max_duration = waiting_for_release
state_after_successful_stop by_release = idle

abbrev pub state_after_failed_stop : TerminationReason → PushToTalkState
state_after_failed_stop by_max_duration = waiting_for_release
state_after_failed_stop by_release = idle

-- The controller and the application after an event, or the exception that ends the worker.
abbrev pub Handled : Type 0 → Type 0
Handled A = Outcome (Unit {0}) × Controller × A

unfoldable pub new_controller : Controller
new_controller = record { state = idle; generation = 0; armed = none }

module _ {A : Type 0} (app : App A) where
  -- `_emit_completed` and `_emit_error`: an exception of the consumer is logged.
  abbrev pub emit_completed : CaptureResult → A → A
  emit_completed r a = (app.on_completed r a).1

  abbrev pub emit_error : A → A
  emit_error a = (app.on_error a).1

  unfoldable pub finish : TerminationReason → Outcome Text → Controller → A → Handled A
  finish r (returned path) c a = (
    returned tt,
    record c { state = state_after_successful_stop r },
    emit_completed (record { artifact = path; reason = r }) a,
  )
  finish r (raised audio) c a =
      (returned tt, record c { state = state_after_failed_stop r }, emit_error a)
  finish r (raised e) c a = (raised e, c, a)

  -- The part of `_handle_pressed` behind the application's check.
  unfoldable pub start_capture : Outcome (Unit {0}) → Controller → A → Handled A
  start_capture (returned _) c a = (
    returned tt,
    record c { state = recording; generation = c.generation + 1; armed = some (c.generation + 1) },
    a,
  )
  start_capture (raised e) c a = (returned tt, record c { state = idle }, emit_error a)

  unfoldable pub ask : Option (A → Bool × A) → A → Bool × A
  ask none a = (true, a)
  ask (some check) a = check a

  unfoldable pub handle_pressed : Env → Controller → A → Handled A
  unfolding start_capture ask
  handle_pressed env c a =
      if not (is_idle c.state)
      then (returned tt, c, a)
      else (let (allowed, a') = ask app.can_start a in
          if not allowed then (returned tt, c, a') else start_capture env.start c a')

  -- `self._timer.cancel()`, then `_finish`.
  abbrev pub cancel_and_finish : TerminationReason → Env → Controller → A → Handled A
  cancel_and_finish r env c a = finish r env.stop (record c { armed = none }) a

  unfoldable pub handle_released : Env → PushToTalkState → Controller → A → Handled A
  unfolding finish
  handle_released env waiting_for_release c a = (returned tt, record c { state = idle }, a)
  handle_released env idle c a = (returned tt, c, a)
  handle_released env recording c a = cancel_and_finish by_release env c a

  unfoldable pub handle_max_duration : Env → ℕ → Controller → A → Handled A
  unfolding finish
  handle_max_duration env generation c a =
      if not (is_recording c.state)
      then (returned tt, c, a)
      else if not (generation == c.generation)
      then (returned tt, c, a)
      else cancel_and_finish by_max_duration env c a

  unfoldable pub shutdown_capture : Env → Controller → A → Handled A
  unfolding finish
  shutdown_capture env c a =
      if is_recording c.state
      then cancel_and_finish by_release env c a
      else (returned tt, record c { armed = none }, a)

  unfoldable pub dispatch : Env → Event → Controller → A → Handled A
  unfolding handle_pressed handle_released handle_max_duration shutdown_capture
  dispatch env pressed c a = handle_pressed env c a
  dispatch env released c a = handle_released env c.state c a
  dispatch env (max_duration g) c a = handle_max_duration env g c a
  dispatch env shutdown c a = shutdown_capture env c a

  -- `_run`: the events up to a shutdown, or up to an exception that no handler catches.
  unfoldable pub run : List (Event × Env) → Controller → A → Handled A
  run [] c a = (returned tt, c, a)
  run ((shutdown, env) ∷ rest) c a = dispatch env shutdown c a
  run ((e, env) ∷ rest) c a =
      let (o, c', a') = dispatch env e c a in
      elim o [ returned _ ↦ run rest c' a' | raised x ↦ (raised x, c', a') ]
