-- ===== src/Runtime/Sync.antt =====
-- The controller and the cycle stay in step (`build_runtime` of src/pi/runtime.py).
use g3_voicestock.Base.{◌≡◌, Bool, true, false, none, is_none, List, Text, Outcome, returned, arith}
use g3_voicestock.Envelope.{TransportEnvelope}
use g3_voicestock.Talk as Talk
use g3_voicestock.Talk.{
  Controller, Event, Env, pressed, released, shutdown, max_duration, dispatch, new_controller,
}
use g3_voicestock.Pending.Flow as Flow
use g3_voicestock.Pending.Flow.{wait_confirmation, try_begin_recording, clear, close, new_flow}
use g3_voicestock.Pending.Response.{InterpretationOutcome}
use g3_voicestock.Pending.Worker.{process}
use g3_voicestock.Runtime.Quiet.{process-Quiet}
use g3_voicestock.Runtime.{Runtime, runtime_app}

-- What holds between two steps: the controller records exactly while the phase is `recording`, and
-- the phase is `recording` only with nothing pending and before the cycle is closed.
pub record IsInSync (r : Runtime) : Type 0 where
  pub same : Talk.is_recording r.controller.state ≡ Flow.is_recording r.device.flow.phase
  pub free : Flow.is_recording r.device.flow.phase ≡ true → r.device.flow.pending ≡ none
  pub running : Flow.is_recording r.device.flow.phase ≡ true → r.device.flow.closed ≡ false
  pub waits : is_none r.device.flow.pending ≡ false → r.device.flow.phase ≡ wait_confirmation

dispatch-IsInSync :
    (scheduled delete : Bool) (unlink : Outcome (Unit {0})) (env : Env) (e : Event) (r : Runtime)
    → IsInSync r
    → let h = dispatch (runtime_app scheduled delete unlink) env e r.controller r.device in
      h.0 ≡ returned tt → IsInSync (record { controller = h.1; device = h.2 })
unfolding dispatch runtime_app
dispatch-IsInSync scheduled delete unlink env pressed r i k = ground arith
dispatch-IsInSync scheduled delete unlink env released r i k = ground arith
dispatch-IsInSync scheduled delete unlink env shutdown r i k = ground arith
dispatch-IsInSync scheduled delete unlink env (max_duration g) r i k = ground arith

-- The steps of the process: an event at the button or the timer, the end of a job, a resolution by
-- the gateway, and the shutdown of the cycle, which `PiRuntime.close` makes after the controller's.
pub data Step (r s : Runtime) : Type 0 where
  event :
      (scheduled delete : Bool) (unlink : Outcome (Unit {0})) (env : Env) (e : Event)
      → (dispatch (runtime_app scheduled delete unlink) env e r.controller r.device).0 ≡ returned tt
      → s ≡ record {
        controller = (dispatch (runtime_app scheduled delete unlink) env e r.controller r.device).1;
        device = (dispatch (runtime_app scheduled delete unlink) env e r.controller r.device).2;
      }
      → Step r s
  work :
      (delete : Bool) (unlink : Outcome (Unit {0})) (path : Text)
      (answer : Outcome TransportEnvelope)
      → (interpret : TransportEnvelope → Outcome InterpretationOutcome)
      → (new_id : Outcome Text) (fresh : Text)
      → s ≡ record r { device = process delete unlink path answer interpret new_id fresh r.device }
      → Step r s
  resolve :
      (i : Text)
      → s ≡ record r { device = record r.device { flow = (clear i r.device.flow).1 } }
      → Step r s
  shut :
      Talk.is_recording r.controller.state ≡ false
      → s ≡ record r { device = record r.device { flow = close r.device.flow } }
      → Step r s

pub data Reach (r : Runtime) : Runtime → Type 0 where
  here : Reach r r
  next : {s t : Runtime} → Reach r s → Step s t → Reach r t

abbrev pub start : List Text → Runtime
start files = record {
  controller = new_controller;
  device = record { flow = new_flow; files = files };
}

work-IsInSync :
    (delete : Bool) (unlink : Outcome (Unit {0})) (path : Text) (answer : Outcome TransportEnvelope)
    (interpret : TransportEnvelope → Outcome InterpretationOutcome) (new_id : Outcome Text)
    (fresh : Text) (r : Runtime)
    → IsInSync r
    → IsInSync
        (record r { device = process delete unlink path answer interpret new_id fresh r.device })
work-IsInSync delete unlink path answer interpret new_id fresh r i =
    let q = process-Quiet delete unlink path answer interpret new_id fresh r.device in ground arith

pub Step-IsInSync : {r s : Runtime} → Step r s → IsInSync r → IsInSync s
unfolding clear close
Step-IsInSync {r} (event sc de un env e k q) i = rw q (dispatch-IsInSync sc de un env e r i k)
Step-IsInSync {r} (work de un p a int n f q) i = rw q (work-IsInSync de un p a int n f r i)
Step-IsInSync (resolve n q) i = ground arith
Step-IsInSync (shut h q) i = ground arith

start-IsInSync : (files : List Text) → IsInSync (start files)
unfolding new_controller new_flow
start-IsInSync files = ground arith

-- From the start of the process, over any interleaving of button and timer events, ends of jobs,
-- resolutions and the shutdown, in which no capture raises an exception that nothing catches: the
-- controller is recording exactly while the phase of the cycle is `recording`, nothing is pending
-- then, and a pending operation is always waiting for its confirmation.
pub runtime-IsInSync : {files : List Text} {r : Runtime} → Reach (start files) r → IsInSync r
runtime-IsInSync here = start-IsInSync _
runtime-IsInSync (next p s) = Step-IsInSync s (runtime-IsInSync p)
