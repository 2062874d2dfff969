-- ===== src/Talk/Timer.antt =====
-- The state of the controller and its timer (src/pi/push_to_talk/controller.py).
use g3_voicestock.Base.{ℕ, ◌≡◌, ◌≢◌, none, some, returned, arith, if◌then◌else◌}
use g3_voicestock.Talk.{
  waiting_for_release, Event, pressed, released, shutdown, max_duration, Env, Controller, App,
  is_recording, dispatch,
}

-- The timer runs for the current recording while there is one, and never otherwise.
abbrev pub IsArmed : Controller → Type 0
IsArmed c = c.armed ≡ (if is_recording c.state then some c.generation else none)

module _ {A : Type 0} (app : App A) where
  -- Every event that no exception ends keeps the timer armed exactly while the controller records, and
  -- for the generation of that recording.
  pub dispatch-IsArmed :
      (env : Env) (e : Event) (c : Controller) (a : A)
      → IsArmed c
      → (dispatch app env e c a).0 ≡ returned tt
      → IsArmed (dispatch app env e c a).1
  unfolding dispatch
  dispatch-IsArmed env pressed c a h r = ground arith
  dispatch-IsArmed env released c a h r = ground arith
  dispatch-IsArmed env shutdown c a h r = ground arith
  dispatch-IsArmed env (max_duration g) c a h r = ground arith

  -- A timeout that was armed for an earlier recording stops nothing and tells nobody.
  pub stale_timeout :
      (env : Env) (g : ℕ) (c : Controller) (a : A)
      → g ≢ c.generation
      → dispatch app env (max_duration g) c a ≡ (returned tt, c, a)
  unfolding dispatch
  stale_timeout env g c a h = ground arith

  -- After a recording was cut by the timeout, no press starts another until the button is released:
  -- any other event leaves the state and the application as they are.
  pub press_needs_release :
      (env : Env) (e : Event) (c : Controller) (a : A)
      → c.state ≡ waiting_for_release
      → e ≢ released
      → ((dispatch app env e c a).1.state ≡ waiting_for_release)
        × ((dispatch app env e c a).1.generation ≡ c.generation)
        × ((dispatch app env e c a).2 ≡ a)
  unfolding dispatch
  press_needs_release env pressed c a w n = ground arith
  press_needs_release env released c a w n = ground arith
  press_needs_release env shutdown c a w n = ground arith
  press_needs_release env (max_duration g) c a w n = ground arith
