-- ===== src/Pending/Worker/Files.antt =====
-- No recording is left behind, and what a recording leads to (`_process` and `on_capture_completed`
-- of src/pi/pending_operation/flow.py).
use mathlib.Core.List.{Memᴰ}
use g3_voicestock.Base.{
  ◌≡◌, refl, ◌∙◌, Bool, true, false, not, ◌-◌, ◌&&◌, is_none, Exc, none, some, List, keep-mem, Text,
  text_eq, text_eq_refl, is_blank, Outcome, returned, raised, arith, not_blank_not_empty,
}
use g3_voicestock.Envelope.{TransportEnvelope}
use g3_voicestock.Contract.Validator.{ValidatedOperation}
use g3_voicestock.Pending.Response.{InterpretationOutcome, OutcomeKind, accepted_kind, is_accepted}
use g3_voicestock.Pending.Flow.{
  Flow, idle, is_processing, abandon, job_done, processing, wait_confirmation, unexpected,
  message_of, admit_recording, on_sent,
}
use g3_voicestock.Pending.Worker.{Device, cleanup, send, recover, process, on_capture_completed}

not-mem-cleanup :
    (path : Text) (files : List Text) → ¬ Memᴰ path (cleanup (returned tt) path files).1
unfolding cleanup
not-mem-cleanup path files m =
    let (k, h) = keep-mem (λ f. not (text_eq f path)) files m in
    ground (arith, text_eq_refl path, h)

files-recover : (r : Outcome (Unit {0}) × Device) → (recover r).files ≡ r.1.files
unfolding recover
files-recover (returned _, d) = refl
files-recover (raised e, d) = refl

send-returned :
    (unlink : Outcome (Unit {0})) (path : Text) (answer : Outcome TransportEnvelope)
    (handler : TransportEnvelope → Flow → Outcome (Unit {0}) × Flow) (d : Device)
    → (send true unlink path answer handler d).1.files ≡ (cleanup unlink path d.files).1
unfolding send cleanup
send-returned (returned _) path (raised e) handler d = refl
send-returned (returned _) path (returned envelope) handler d = refl
send-returned (raised x) path (raised e) handler d = refl
send-returned (raised x) path (returned envelope) handler d = refl

-- A sender whose removal raises, raises.
send-raised :
    (x : Exc) (path : Text) (answer : Outcome TransportEnvelope)
    (handler : TransportEnvelope → Flow → Outcome (Unit {0}) × Flow) (d : Device)
    → (send true (raised x) path answer handler d).0 ≡ raised x
unfolding send cleanup
send-raised x path (raised e) handler d = refl
send-raised x path (returned envelope) handler d = refl

-- In `processing` with nothing pending and no job left to end it.
abbrev pub is_stuck : Flow → Bool
is_stuck f = is_processing f.phase && is_none f.pending

is_stuck-abandon : (f : Flow) → is_stuck (abandon unexpected f) ≡ false
unfolding abandon
is_stuck-abandon f = ground arith

is_stuck-recover :
    (r : Outcome (Unit {0}) × Device) (x : Exc) → r.0 ≡ raised x → is_stuck (recover r).flow ≡ false
unfolding recover
is_stuck-recover (returned _, d) x e = cc
is_stuck-recover (raised y, d) x e = is_stuck-abandon d.flow

-- How a job with `delete_after_send` ends: what the removal answers, and what it leaves behind.
pub data JobEnd (path : Text) (d : Device) (unlink : Outcome (Unit {0})) (d' : Device)
    : Type 0 where
  removed :
      unlink ≡ returned tt
      → ¬ Memᴰ path d'.files
      → d'.files ≡ (cleanup (returned tt) path d.files).1
      → JobEnd path d unlink d'
  left :
      (x : Exc)
      → unlink ≡ raised x
      → d'.files ≡ d.files
      → is_stuck d'.flow ≡ false
      → JobEnd path d unlink d'

-- With `delete_after_send`, whatever the client, the interpreter and the id factory returned or
-- raised: a job whose removal of the recording raises nothing leaves every file but the recording;
-- one whose removal raises leaves the files as they were, and the cycle is not left in `processing`
-- with nothing pending.
pub process_deletes :
    (unlink : Outcome (Unit {0})) (path : Text) (answer : Outcome TransportEnvelope)
    (interpret : TransportEnvelope → Outcome InterpretationOutcome) (new_id : Outcome Text)
    (fresh : Text) (d : Device)
    → JobEnd path d unlink (process true unlink path answer interpret new_id fresh d)
unfolding process job_done cleanup
process_deletes (returned _) path answer interpret new_id fresh d =
    let e = files-recover _ ∙ send-returned (returned tt) path answer _ d in
    removed refl (rw e (not-mem-cleanup path d.files)) e
process_deletes (raised x) path answer interpret new_id fresh d =
    let e = files-recover _ ∙ send-returned (raised x) path answer _ d in
    left x refl e (is_stuck-recover _ x (send-raised x path answer _ d))

-- With `delete_after_send`, a recording that the cycle does not take is removed, with what the removal
-- raises raised and the file then left, the pool gets no job and the flow is as it was.
pub on_capture_completed_refused :
    (scheduled : Bool) (unlink : Outcome (Unit {0})) (path : Text) (d : Device)
    → (admit_recording d.flow).0 ≡ false
    → on_capture_completed scheduled true unlink path d ≡ (
      false,
      (cleanup unlink path d.files).0,
      record { flow = d.flow; files = (cleanup unlink path d.files).1 },
    )
unfolding on_capture_completed
on_capture_completed_refused scheduled unlink path d h = ground arith

unscheduled :
    (unlink : Outcome (Unit {0})) (path : Text) (d : Device)
    → (admit_recording d.flow).0 ≡ true
    → on_capture_completed false true unlink path d ≡ (
      false,
      (cleanup unlink path d.files).0,
      record {
        flow = record d.flow { phase = idle; operator_message = some unexpected };
        files = (cleanup unlink path d.files).1;
      },
    )
unfolding on_capture_completed
unscheduled unlink path d h = ground arith

-- With `delete_after_send`, after a recording that the cycle takes and the pool refuses, the cycle is
-- idle again with a message and its count of jobs unchanged, whatever the removal of the recording
-- answers. The recording is gone if the removal raises nothing; otherwise its exception is raised and
-- the files are as they were.
pub on_capture_completed_unscheduled :
    (unlink : Outcome (Unit {0})) (path : Text) (d : Device)
    → (admit_recording d.flow).0 ≡ true
    → let (queued, o, d') = on_capture_completed false true unlink path d in
      (queued ≡ false)
      × (o ≡ unlink)
      × (d'.flow ≡ record d.flow { phase = idle; operator_message = some unexpected })
      × JobEnd path d unlink d'
unfolding cleanup
on_capture_completed_unscheduled (returned _) path d h =
    rw (unscheduled (returned tt) path d h)
      (refl, refl, refl, removed refl (not-mem-cleanup path d.files) refl)
on_capture_completed_unscheduled (raised x) path d h =
    rw (unscheduled (raised x) path d h) (refl, refl, refl, left x refl refl refl)

module _ (delete : Bool) (unlink : Outcome (Unit {0})) (path : Text) (envelope : TransportEnvelope)
    (interpret : TransportEnvelope → Outcome InterpretationOutcome) (fresh : Text) (d : Device)
    (at : d.flow.phase ≡ processing) (free : d.flow.pending ≡ none) where
  -- In an open cycle that is processing with nothing pending, an accepted answer becomes the pending
  -- operation under the id of the factory, if that is not blank, and the cycle waits for its
  -- confirmation.
  pub process_accepted :
      (i t : Text) (v : ValidatedOperation)
      → d.flow.closed ≡ false
      → is_blank i ≡ false
      → interpret envelope
        ≡ returned
            (record { kind = accepted_kind; recognized_text = t; validated_operation = some v })
      → (process delete unlink path (returned envelope) interpret (returned i) fresh d).flow
        ≡ record d.flow {
          phase = wait_confirmation;
          pending =
              some (record { operation_id = i; recognized_text = t; validated_operation = v });
          operator_message = none;
          jobs = d.flow.jobs - 1;
        }
  unfolding process on_sent
  process_accepted i t v running named answer = ground (arith, not_blank_not_empty i named)

  -- In such a cycle, any other answer leads back to idle with the message of its kind, and nothing pending.
  pub process_rejected :
      (new_id : Outcome Text) (k : OutcomeKind) (t : Text)
      → is_accepted k ≡ false
      → interpret envelope
        ≡ returned (record { kind = k; recognized_text = t; validated_operation = none })
      → (process delete unlink path (returned envelope) interpret new_id fresh d).flow
        ≡ record d.flow {
          phase = idle;
          operator_message = some (message_of k);
          jobs = d.flow.jobs - 1;
        }
  unfolding process on_sent
  process_rejected new_id k t refused answer = ground arith
