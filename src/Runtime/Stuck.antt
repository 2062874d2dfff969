-- ===== src/Runtime/Stuck.antt =====
-- The cycle after the worker of the controller has ended on an exception that no handler catches
-- (`_run` of src/pi/push_to_talk/controller.py beside src/pi/pending_operation/flow.py).
use g3_voicestock.Base.{◌≡◌, ◌∙◌, Bool, true, false, Text, Outcome, raised, Exc, arith}
use g3_voicestock.Envelope.{TransportEnvelope}
use g3_voicestock.Talk.{Event, Env, pressed, released, shutdown, max_duration, dispatch}
use g3_voicestock.Pending.Flow.{Flow, is_recording, try_begin_recording, clear, close}
use g3_voicestock.Pending.Response.{InterpretationOutcome}
use g3_voicestock.Pending.Worker.{Device, process}
use g3_voicestock.Runtime.Quiet.{process-Quiet}
use g3_voicestock.Runtime.{Runtime, runtime_app}
use g3_voicestock.Runtime.Sync.{IsInSync}

-- What the rest of the process still does: the ends of earlier jobs, resolutions by the gateway, and
-- the shutdown of the cycle.
pub data Rest (d : Device) : Device → Type 0 where
  stop : Rest d d
  work :
      {e : Device} (delete : Bool) (unlink : Outcome (Unit {0})) (path : Text)
      (answer : Outcome TransportEnvelope)
      (interpret : TransportEnvelope → Outcome InterpretationOutcome) (new_id : Outcome Text)
      (fresh : Text)
      → Rest d e
      → Rest d (process delete unlink path answer interpret new_id fresh e)
  resolve : {e : Device} (i : Text) → Rest d e → Rest d (record e { flow = (clear i e.flow).1 })
  shut : {e : Device} → Rest d e → Rest d (record e { flow = close e.flow })

clear-is_recording : (i : Text) (f : Flow) → is_recording (clear i f).1.phase ≡ is_recording f.phase
unfolding clear
clear-is_recording i f = ground arith

close-is_recording : (f : Flow) → is_recording (close f).phase ≡ is_recording f.phase
unfolding close
close-is_recording f = ground arith

Rest-is_recording :
    {d e : Device} → Rest d e → is_recording d.flow.phase ≡ true → is_recording e.flow.phase ≡ true
Rest-is_recording stop h = h
Rest-is_recording (work {e} de un p a int n f r) h =
    (process-Quiet de un p a int n f e).0 ∙ Rest-is_recording r h
Rest-is_recording (resolve {e} i r) h = clear-is_recording i e.flow ∙ Rest-is_recording r h
Rest-is_recording (shut {e} r) h = close-is_recording e.flow ∙ Rest-is_recording r h

refuses : (f : Flow) → is_recording f.phase ≡ true → (try_begin_recording f).0 ≡ false
unfolding try_begin_recording
refuses f h = ground arith

-- An event whose handling raises met a recording, and leaves the cycle in `recording`.
raised-is_recording :
    (scheduled delete : Bool) (unlink : Outcome (Unit {0})) (env : Env) (e : Event) (x : Exc)
    (r : Runtime)
    → IsInSync r
    → let h = dispatch (runtime_app scheduled delete unlink) env e r.controller r.device in
      h.0 ≡ raised x → is_recording h.2.flow.phase ≡ true
unfolding dispatch runtime_app
raised-is_recording scheduled delete unlink env pressed x r i k = ground arith
raised-is_recording scheduled delete unlink env released x r i k = ground arith
raised-is_recording scheduled delete unlink env shutdown x r i k = ground arith
raised-is_recording scheduled delete unlink env (max_duration g) x r i k = ground arith

-- From a controller and a cycle in step, an event whose handling raises, which ends the worker of the
-- controller: whatever earlier jobs, resolutions and the shutdown of the cycle then do, in any order
-- and number, the phase of the cycle stays `recording` and every later request to record is refused.
pub uncaught_exception_wedges :
    (scheduled delete : Bool) (unlink : Outcome (Unit {0})) (env : Env) (e : Event) (x : Exc)
    (r : Runtime) (d : Device)
    → IsInSync r
    → (dispatch (runtime_app scheduled delete unlink) env e r.controller r.device).0 ≡ raised x
    → Rest (dispatch (runtime_app scheduled delete unlink) env e r.controller r.device).2 d
    → (is_recording d.flow.phase ≡ true) × ((try_begin_recording d.flow).0 ≡ false)
uncaught_exception_wedges scheduled delete unlink env e x r d i k later =
    let h = Rest-is_recording later (raised-is_recording scheduled delete unlink env e x r i k) in
    (h, refuses d.flow h)
