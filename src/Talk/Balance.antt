-- ===== src/Talk/Balance.antt =====
-- Every capture that the application granted ends in one callback (src/pi/push_to_talk/controller.py).
use g3_voicestock.Base.{
  ℕ, ◌+◌, ◌≡◌, refl, some, List, [], ◌∷◌, Outcome, returned, raised, arith, if◌then◌else◌,
}
use g3_voicestock.Talk.{
  Event, pressed, released, shutdown, max_duration, Env, Controller, App, Handled, is_recording,
  new_controller, ask, dispatch, run,
}

-- How many captures were granted, and how many results and errors were delivered.
pub record Log : Type 0 where
  pub granted : ℕ
  pub completed : ℕ
  pub failed : ℕ

abbrev pub no_log : Log
no_log = record { granted = 0; completed = 0; failed = 0 }

-- The application with a log of what the controller asks and tells it.
abbrev pub logged : {A : Type 0} → App A → App (A × Log)
logged app = record {
  can_start = some (λ s.
      let (b, a) = ask app app.can_start s.0 in
      (b, (a, if b then record s.1 { granted = s.1.granted + 1 } else s.1)));
  on_completed = λ r s.
      let (o, a) = app.on_completed r s.0 in (o, (a, record s.1 { completed = s.1.completed + 1 }));
  on_error = λ s. let (o, a) = app.on_error s.0 in (o, (a, record s.1 { failed = s.1.failed + 1 }));
}

abbrev live : Controller → ℕ
live c = if is_recording c.state then 1 else 0

abbrev pub IsBalanced : Controller → Log → Type 0
IsBalanced c l = l.granted ≡ l.completed + l.failed + live c

new-IsBalanced : IsBalanced new_controller no_log
unfolding new_controller
new-IsBalanced = refl

module _ {A : Type 0} (app : App A) where
  dispatch-IsBalanced :
      (env : Env) (e : Event) (c : Controller) (s : A × Log)
      → IsBalanced c s.1
      → (dispatch (logged app) env e c s).0 ≡ returned tt
      → IsBalanced (dispatch (logged app) env e c s).1 (dispatch (logged app) env e c s).2.1
  unfolding dispatch
  dispatch-IsBalanced env pressed c s h r = ground arith
  dispatch-IsBalanced env released c s h r = ground arith
  dispatch-IsBalanced env shutdown c s h r = ground arith
  dispatch-IsBalanced env (max_duration g) c s h r = ground arith

  -- One turn of `run` on an event that is not a shutdown.
  turn :
      (o : Outcome (Unit {0})) (c : Controller) (s : A × Log) (l : List (Event × Env))
      → (o ≡ returned tt → IsBalanced c s.1)
      → (IsBalanced c s.1
          → (run (logged app) l c s).0 ≡ returned tt
          → IsBalanced (run (logged app) l c s).1 (run (logged app) l c s).2.1)
      → let r : Handled (A × Log) = elim o [
        | returned _ ↦ run (logged app) l c s
        | raised x ↦ (raised x, c, s)
      ] in
        r.0 ≡ returned tt → IsBalanced r.1 r.2.1
  turn (returned _) c s l h ih r = ih (h refl) r
  turn (raised x) c s l h ih r = cc

  run-IsBalanced :
      (l : List (Event × Env)) (c : Controller) (s : A × Log)
      → IsBalanced c s.1
      → (run (logged app) l c s).0 ≡ returned tt
      → IsBalanced (run (logged app) l c s).1 (run (logged app) l c s).2.1
  unfolding run
  run-IsBalanced [] c s h r = h
  run-IsBalanced ((shutdown, env) ∷ l) c s h r = dispatch-IsBalanced env shutdown c s h r
  run-IsBalanced ((pressed, env) ∷ l) c s h r =
      turn _ _ _ l (dispatch-IsBalanced env pressed c s h) (run-IsBalanced l _ _) r
  run-IsBalanced ((released, env) ∷ l) c s h r =
      turn _ _ _ l (dispatch-IsBalanced env released c s h) (run-IsBalanced l _ _) r
  run-IsBalanced ((max_duration g, env) ∷ l) c s h r =
      turn _ _ _ l (dispatch-IsBalanced env (max_duration g) c s h) (run-IsBalanced l _ _) r

  -- Over any run of events that no exception ends, the captures that the application granted are the
  -- results and errors that it was told of, and one more while a recording is going on.
  pub captures_answered :
      (l : List (Event × Env)) (a : A)
      → (run (logged app) l new_controller (a, no_log)).0 ≡ returned tt
      → let (o, c, s) = run (logged app) l new_controller (a, no_log) in
        s.1.granted ≡ s.1.completed + s.1.failed + live c
  captures_answered l a r = run-IsBalanced l new_controller (a, no_log) new-IsBalanced r
