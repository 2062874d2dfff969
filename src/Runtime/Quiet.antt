-- ===== src/Runtime/Quiet.antt =====
-- The end of a job does not touch a recording (`_process` of src/pi/pending_operation/flow.py).
use g3_voicestock.Base.{
  ◌≡◌, refl, ◌∙◌, Bool, true, false, Option, none, some, is_none, Text, Outcome, returned, raised,
  Exc, value_error, type_error, arith,
}
use g3_voicestock.Envelope.{TransportEnvelope}
use g3_voicestock.Contract.Validator.{ValidatedOperation}
use g3_voicestock.Pending.Operation.{PendingOperation}
use g3_voicestock.Pending.Response.{
  InterpretationOutcome, OutcomeKind, accepted_kind, transport_error, service_error,
  contract_rejection,
}
use g3_voicestock.Pending.Flow.{
  Flow, OperatorMessage, wait_confirmation, is_recording, unexpected, abandon, job_done, publish,
  publish_built, conclude_with, on_sent,
}
use g3_voicestock.Pending.Worker.Steps.{discard-flow}
use g3_voicestock.Pending.Worker.{Device, discard, leave, send, recover, process}

-- Beyond what a recording reads, only a cycle in `processing` may have changed.
abbrev pub Quiet : Flow → Flow → Type 0
Quiet f g =
    (is_recording g.phase ≡ is_recording f.phase)
    × (g.closed ≡ f.closed)
    × (is_recording f.phase ≡ true → g.pending ≡ f.pending)
    × ((is_none f.pending ≡ false → f.phase ≡ wait_confirmation)
        → is_none g.pending ≡ false
        → g.phase ≡ wait_confirmation)

Quiet-refl : (f : Flow) → Quiet f f
Quiet-refl f = (refl, refl, λ h. refl, λ h. h)

Quiet-trans : (f g h : Flow) → Quiet f g → Quiet g h → Quiet f h
Quiet-trans f g h (a, b, c, d) (a', b', c', d') =
    (a' ∙ a, b' ∙ b, λ r. c' (a ∙ r) ∙ c r, λ w. d' (d w))

abandon-Quiet : (m : OperatorMessage) (f : Flow) → Quiet f (abandon m f)
unfolding abandon
abandon-Quiet m f = ground arith

publish-Quiet : (p : PendingOperation) (f : Flow) → Quiet f (publish p f)
unfolding publish
publish-Quiet p f = ground arith

job_done-Quiet : (f : Flow) → Quiet f (job_done f)
unfolding job_done
job_done-Quiet f = (refl, refl, λ h. refl, λ h. h)

publish_built-Quiet : (o : Outcome PendingOperation) (f : Flow) → Quiet f (publish_built o f).1
unfolding publish_built
publish_built-Quiet (returned p) f = publish-Quiet p f
publish_built-Quiet (raised value_error) f = abandon-Quiet unexpected f
publish_built-Quiet (raised type_error) f = abandon-Quiet unexpected f
publish_built-Quiet (raised Exc.runtime_error) f = Quiet-refl f
publish_built-Quiet (raised Exc.audio) f = Quiet-refl f
publish_built-Quiet (raised Exc.other) f = Quiet-refl f

conclude_with-Quiet :
    (v : Option ValidatedOperation) (t : Text) (k : OutcomeKind) (new_id : Outcome Text)
    (fresh : Text) (f : Flow)
    → Quiet f (conclude_with v t k new_id fresh f).1
unfolding conclude_with
conclude_with-Quiet none t k new_id fresh f = abandon-Quiet _ f
conclude_with-Quiet (some v) t accepted_kind new_id fresh f = publish_built-Quiet _ f
conclude_with-Quiet (some v) t transport_error new_id fresh f = abandon-Quiet _ f
conclude_with-Quiet (some v) t service_error new_id fresh f = abandon-Quiet _ f
conclude_with-Quiet (some v) t contract_rejection new_id fresh f = abandon-Quiet _ f

on_sent-Quiet :
    (o : Outcome InterpretationOutcome) (new_id : Outcome Text) (fresh : Text) (f : Flow)
    → Quiet f (on_sent o new_id fresh f).1
unfolding on_sent
on_sent-Quiet (raised e) new_id fresh f = abandon-Quiet unexpected f
on_sent-Quiet (returned o) new_id fresh f =
    conclude_with-Quiet o.validated_operation o.recognized_text o.kind new_id fresh f

leave-snd : (o : Outcome (Unit {0})) (r : Outcome (Unit {0}) × Device) → (leave o r).1 ≡ r.1
unfolding leave
leave-snd o (returned _, d) = refl
leave-snd o (raised e, d) = refl

send-Quiet :
    (delete : Bool) (unlink : Outcome (Unit {0})) (path : Text) (answer : Outcome TransportEnvelope)
    (interpret : TransportEnvelope → Outcome InterpretationOutcome) (new_id : Outcome Text)
    (fresh : Text) (d : Device)
    → Quiet d.flow
        (send delete unlink path answer (λ e f. on_sent (interpret e) new_id fresh f) d).1.flow
unfolding send
send-Quiet delete unlink path (raised e) interpret new_id fresh d =
    rw (leave-snd (raised e) (discard delete unlink path d), discard-flow delete unlink path d)
      (Quiet-refl d.flow)
send-Quiet delete unlink path (returned e) interpret new_id fresh d =
    let r = on_sent (interpret e) new_id fresh d.flow in
    rw
      (
        leave-snd r.0 (discard delete unlink path (record d { flow = r.1 })),
        discard-flow delete unlink path (record d { flow = r.1 }),
      )
      (on_sent-Quiet (interpret e) new_id fresh d.flow)

recover-Quiet : (r : Outcome (Unit {0}) × Device) → Quiet r.1.flow (recover r).flow
unfolding recover
recover-Quiet (returned _, d) = Quiet-refl d.flow
recover-Quiet (raised e, d) = abandon-Quiet unexpected d.flow

pub process-Quiet :
    (delete : Bool) (unlink : Outcome (Unit {0})) (path : Text) (answer : Outcome TransportEnvelope)
    (interpret : TransportEnvelope → Outcome InterpretationOutcome) (new_id : Outcome Text)
    (fresh : Text) (d : Device)
    → Quiet d.flow (process delete unlink path answer interpret new_id fresh d).flow
unfolding process
process-Quiet delete unlink path answer interpret new_id fresh d =
    let r = send delete unlink path answer (λ e f. on_sent (interpret e) new_id fresh f) d in
    let g = job_done (recover r).flow in
    Quiet-trans d.flow r.1.flow g (send-Quiet delete unlink path answer interpret new_id fresh d)
      (Quiet-trans r.1.flow (recover r).flow g (recover-Quiet r) (job_done-Quiet (recover r).flow))
