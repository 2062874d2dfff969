-- ===== src/Tests/Talk.antt =====
-- The push-to-talk controller and the composed process on concrete inputs.
use g3_voicestock.Base.{
  ◌≡◌, refl, ℕ, ◌+◌, true, false, none, some, List, [], ◌∷◌, str, Exc, returned, raised, arith,
}
use g3_voicestock.Talk as Talk
use g3_voicestock.Talk.{
  PushToTalkState, Controller, Event, Env, App, waiting_for_release, pressed, released,
  max_duration, new_controller, dispatch, run,
}
use g3_voicestock.Talk.Timer.{IsArmed, dispatch-IsArmed}
use g3_voicestock.Talk.Balance.{logged, no_log, captures_answered}
use g3_voicestock.Pending.Flow as Flow
use g3_voicestock.Pending.Flow.{try_begin_recording, new_flow, close}
use g3_voicestock.Pending.Worker.{Device}
use g3_voicestock.Runtime.{Runtime, runtime_app}
use g3_voicestock.Runtime.Sync.{IsInSync, Step, Reach, start, runtime-IsInSync}
use g3_voicestock.Runtime.Stuck.{Rest, uncaught_exception_wedges}

abbrev works : Env
works = record { start = returned tt; stop = returned (str "a.wav") }

-- `stop` raises an exception that is no `AudioCaptureError`.
abbrev breaks : Env
breaks = record { start = returned tt; stop = raised Exc.other }

-- An application that counts its results.
abbrev counter : App ℕ
counter = record {
  can_start = none;
  on_completed = λ r n. (returned tt, n + 1);
  on_error = λ n. (returned tt, n);
}

abbrev recording : Controller
recording = record { state = Talk.recording; generation = 2; armed = some 2 }

abbrev cut : Controller
cut = record { state = waiting_for_release; generation = 2; armed = none }

dispatch-IsArmed_example : IsArmed (dispatch counter works released recording 5).1
unfolding dispatch
dispatch-IsArmed_example = dispatch-IsArmed counter works released recording 5 refl refl

abbrev session : List (Event × Env)
session = (pressed, works) ∷ (released, works) ∷ (pressed, works) ∷ []

captures_answered_example :
    let (o, c, s) = run (logged counter) session new_controller (0, no_log) in
    s.1.granted ≡ s.1.completed + s.1.failed + 1
unfolding run new_controller dispatch
captures_answered_example = captures_answered counter session 0 refl

abbrev app : App Device
app = runtime_app true true (returned tt)

reached : Runtime
reached = record {
  controller = (dispatch app works pressed new_controller (start []).device).1;
  device = (dispatch app works pressed new_controller (start []).device).2;
}

Reach-recording : Reach (start []) reached
unfolding dispatch runtime_app reached try_begin_recording new_controller new_flow
Reach-recording = Reach.next Reach.here (Step.event true true (returned tt) works pressed refl refl)

runtime-IsInSync_example : IsInSync reached
runtime-IsInSync_example = runtime-IsInSync Reach-recording

abbrev during : Runtime
during = record {
  controller = recording;
  device = record {
    flow = record {
      phase = Flow.recording;
      pending = none;
      operator_message = none;
      jobs = 0;
      closed = false;
    };
    files = [];
  };
}

during-IsInSync : IsInSync during
during-IsInSync = ground arith

-- The worker ends on the release; then the shutdown of the cycle.
abbrev later : Device
later =
    let d = (dispatch app breaks released recording during.device).2 in
    record d { flow = close d.flow }

uncaught_exception_wedges_example :
    (Flow.is_recording later.flow.phase ≡ true) × ((try_begin_recording later.flow).0 ≡ false)
unfolding dispatch
uncaught_exception_wedges_example =
    uncaught_exception_wedges true true (returned tt) breaks released Exc.other during later
      during-IsInSync refl (Rest.shut Rest.stop)
