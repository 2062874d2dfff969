-- ===== src/Pending/Worker.antt =====
-- The worker of the cycle and the recordings on disk: `on_capture_completed`, `_process` and `_discard`
-- of src/pi/pending_operation/flow.py, with `RecordingSender` of src/pi/push_to_talk/sender.py and
-- `cleanup` of src/pi/audio/artifact.py. What the client answers, the id factory, whether the pool takes
-- a job and what the removal of a file answers are arguments.
pub mod Files
pub mod Steps
use g3_voicestock.Base.{
  Bool, true, false, not, List, [], ◌∷◌, keep, Text, text_eq, Outcome, returned, raised,
  if◌then◌else◌,
}
use g3_voicestock.Envelope.{TransportEnvelope}
use g3_voicestock.Pending.Response.{InterpretationOutcome}
use g3_voicestock.Pending.Flow.{Flow, unexpected, admit_recording, abandon, job_done, on_sent}

pub record Device : Type 0 where
  pub flow : Flow
  pub files : List Text

-- `path.unlink(missing_ok=True)`: what it answers is an argument. One that raises leaves the file.
unfoldable pub cleanup : Outcome (Unit {0}) → Text → List Text → Outcome (Unit {0}) × List Text
cleanup (raised e) path files = (raised e, files)
cleanup (returned _) path files = (returned tt, keep (λ f. not (text_eq f path)) files)

-- `_discard`, and the `finally` block of the sender: `delete` is `delete_after_send`.
unfoldable pub discard : Bool → Outcome (Unit {0}) → Text → Device → Outcome (Unit {0}) × Device
unfolding cleanup
discard delete unlink path d =
    if delete
    then (let (o, files) = cleanup unlink path d.files in (o, record d { files = files }))
    else (returned tt, d)

-- Leaving a `finally` block: its own exception takes the place of what the `try` block ended with.
unfoldable pub leave :
    Outcome (Unit {0}) → Outcome (Unit {0}) × Device → Outcome (Unit {0}) × Device
leave o (returned _, d) = (o, d)
leave o (raised e, d) = (raised e, d)

-- `RecordingSender.__call__`
unfoldable pub send :
    Bool
    → Outcome (Unit {0})
    → Text
    → Outcome TransportEnvelope
    → (TransportEnvelope → Flow → Outcome (Unit {0}) × Flow)
    → Device
    → Outcome (Unit {0}) × Device
unfolding discard leave
send delete unlink path (raised e) handler d = leave (raised e) (discard delete unlink path d)
send delete unlink path (returned envelope) handler d =
    let (o, f) = handler envelope d.flow in
    leave o (discard delete unlink path (record d { flow = f }))

-- The inner `try` of `_process`.
unfoldable pub recover : Outcome (Unit {0}) × Device → Device
recover (returned _, d) = d
recover (raised e, d) = record d { flow = abandon unexpected d.flow }

unfoldable pub process :
    Bool
    → Outcome (Unit {0})
    → Text
    → Outcome TransportEnvelope
    → (TransportEnvelope → Outcome InterpretationOutcome)
    → Outcome Text
    → Text
    → Device
    → Device
unfolding send recover job_done
process delete unlink path answer interpret new_id fresh d =
    let d' = recover (
      send delete unlink path answer (λ envelope f. on_sent (interpret envelope) new_id fresh f)
        d) in
    record d' { flow = job_done d'.flow }

-- `on_capture_completed`: is the job left to the pool, what the call answers, and what has changed.
-- `scheduled` tells whether the pool takes the job.
unfoldable pub on_capture_completed :
    Bool → Bool → Outcome (Unit {0}) → Text → Device → Bool × Outcome (Unit {0}) × Device
unfolding discard admit_recording abandon job_done
on_capture_completed scheduled delete unlink path d =
    let (accepted, f) = admit_recording d.flow in
    if not accepted
    then (let r = discard delete unlink path (record d { flow = f }) in (false, r.0, r.1))
    else if scheduled
    then (true, returned tt, record d { flow = f })
    else (let r =
          discard delete unlink path (record d { flow = job_done (abandon unexpected f) }) in
        (false, r.0, r.1))
