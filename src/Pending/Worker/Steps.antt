-- ===== src/Pending/Worker/Steps.antt =====
-- The worker of the cycle as steps of the cycle: `_process` and `on_capture_completed` of
-- src/pi/pending_operation/flow.py against the relation of Flow.Cycle.
use g3_voicestock.Base.{
  ℕ, ◌+◌, ◌-◌, ◌<◌, ◌≡◌, ◌⊎◌, inl, inr, Outcome-cases, refl, ◌∙◌, ap, Bool, Option, none, some,
  List, Text, Outcome, returned, raised, Exc, value_error, type_error, arith,
}
use g3_voicestock.Envelope.{TransportEnvelope}
use g3_voicestock.Contract.Validator.{ValidatedOperation}
use g3_voicestock.Pending.Operation.{PendingOperation}
use g3_voicestock.Pending.Response.{
  InterpretationOutcome, OutcomeKind, accepted_kind, transport_error, service_error,
  contract_rejection,
}
use g3_voicestock.Pending.Flow.{
  Flow, unexpected, publish_built, conclude_with, abandon, job_done, on_sent,
}
use g3_voicestock.Pending.Flow.Cycle.{Cycle, conclude, Step, Reach}
use g3_voicestock.Pending.Worker.{Device, discard, leave, send, recover, process}

-- An exception that `_on_sent` does not catch leaves the flow as it was.
publish_built-raised :
    (o : Outcome PendingOperation) (x : Exc) (f : Flow)
    → (publish_built o f).0 ≡ raised x
    → (publish_built o f).1 ≡ f
unfolding publish_built
publish_built-raised (returned p) x f h = cc
publish_built-raised (raised value_error) x f h = cc
publish_built-raised (raised type_error) x f h = cc
publish_built-raised (raised Exc.runtime_error) x f h = refl
publish_built-raised (raised Exc.audio) x f h = refl
publish_built-raised (raised Exc.other) x f h = refl

conclude_with-raised :
    (v : Option ValidatedOperation) (t : Text) (k : OutcomeKind) (new_id : Outcome Text)
    (fresh : Text) (x : Exc) (f : Flow)
    → (conclude_with v t k new_id fresh f).0 ≡ raised x
    → (conclude_with v t k new_id fresh f).1 ≡ f
unfolding conclude_with
conclude_with-raised none t k new_id fresh x f h = cc
conclude_with-raised (some v) t accepted_kind new_id fresh x f h = publish_built-raised _ x f h
conclude_with-raised (some v) t transport_error new_id fresh x f h = cc
conclude_with-raised (some v) t service_error new_id fresh x f h = cc
conclude_with-raised (some v) t contract_rejection new_id fresh x f h = cc

on_sent-raised :
    (o : Outcome InterpretationOutcome) (new_id : Outcome Text) (fresh : Text) (x : Exc) (f : Flow)
    → (on_sent o new_id fresh f).0 ≡ raised x
    → (on_sent o new_id fresh f).1 ≡ f
unfolding on_sent
on_sent-raised (raised e) new_id fresh x f h = cc
on_sent-raised (returned o) new_id fresh x f h =
    conclude_with-raised o.validated_operation o.recognized_text o.kind new_id fresh x f h

-- The cycle once a job has ended with the flow `f`.
abbrev pub ended : Flow → ℕ → Cycle → Cycle
ended f n c = record {
  flow = f;
  open_jobs = c.open_jobs - 1;
  closing_jobs = c.closing_jobs;
  late_abandons = n;
}

-- What the steps of one job lead to.
abbrev pub Ends : Cycle → Flow → Type 0
Ends c f = (n : ℕ) × Reach c (ended f n c)

abandoned-Ends : (c : Cycle) → 0 < c.open_jobs → Ends c (job_done (abandon unexpected c.flow))
abandoned-Ends c p = (
  c.late_abandons,
  Reach.next (Reach.next Reach.here (Step.abandoned unexpected p refl))
      (Step.done (omega arith) (ground arith)),
)

pub discard-flow :
    (delete : Bool) (unlink : Outcome (Unit {0})) (path : Text) (d : Device)
    → (discard delete unlink path d).1.flow ≡ d.flow
unfolding discard
discard-flow delete unlink path d = ground arith

-- After the `finally` block the flow is as the `try` block left it, or is abandoned once more.
recover-leave :
    (r : Outcome (Unit {0}) × Device)
    → ((recover (leave (returned tt) r)).flow ≡ r.1.flow)
      ⊎ ((recover (leave (returned tt) r)).flow ≡ abandon unexpected r.1.flow)
unfolding recover leave
recover-leave (returned _, d) = inl refl
recover-leave (raised x, d) = inr refl

recover-leave_raised :
    (x : Exc) (r : Outcome (Unit {0}) × Device)
    → (recover (leave (raised x) r)).flow ≡ abandon unexpected r.1.flow
unfolding recover leave
recover-leave_raised x (returned _, d) = refl
recover-leave_raised x (raised y, d) = refl

module _ (c : Cycle) (p : 0 < c.open_jobs) (delete : Bool) (unlink : Outcome (Unit {0}))
    (path : Text) (files : List Text) where
  -- The device with the flow that the handler left.
  abbrev left : Flow → Outcome (Unit {0}) × Device
  left f = discard delete unlink path (record { flow = f; files = files })

  sent-Ends :
      (o : Outcome InterpretationOutcome) (new_id : Outcome Text) (fresh : Text)
      → (on_sent o new_id fresh c.flow).0 ≡ returned tt
      → Ends c
          (job_done (recover (leave (returned tt) (left (on_sent o new_id fresh c.flow).1))).flow)
  sent-Ends o n i h =
      let f = (on_sent o n i c.flow).1 in
      let s : Reach c (conclude f c) = Reach.next Reach.here (Step.sent o n i p h refl) in
      let q = discard-flow delete unlink path (record { flow = f; files = files }) in
      elim (recover-leave (left f)) [
        | inl e ↦
            (c.late_abandons, Reach.next s (Step.done (omega arith) (rw (e ∙ q) (ground arith))))
        | inr e ↦ (
          c.late_abandons + 1,
          Reach.next (Reach.next s (Step.late (omega arith) refl))
              (Step.done (omega arith) (rw (e ∙ ap (abandon unexpected) q) (ground arith))),
        )
      ]

  raised-Ends :
      (x : Exc) (f : Flow)
      → f ≡ c.flow
      → Ends c (job_done (recover (leave (raised x) (left f))).flow)
  raised-Ends x f h =
      let q = discard-flow delete unlink path (record { flow = f; files = files }) in
      rw (recover-leave_raised x (left f) ∙ ap (abandon unexpected) (q ∙ h)) (abandoned-Ends c p)

  -- Every job that the pool runs, whatever the client, the interpreter, the id factory and the removal
  -- of its recording answer, is a sequence of steps of the cycle that ends one open job.
  pub process-Ends :
      (answer : Outcome TransportEnvelope)
      (interpret : TransportEnvelope → Outcome InterpretationOutcome) (new_id : Outcome Text)
      (fresh : Text)
      → Ends c
          (process delete unlink path answer interpret new_id fresh
            (record { flow = c.flow; files = files })).flow
  unfolding process send
  process-Ends (raised x) interpret n i = raised-Ends x c.flow refl
  process-Ends (returned envelope) interpret n i =
      elim (Outcome-cases (on_sent (interpret envelope) n i c.flow).0) [
        | inl (u, h) ↦ rw h (sent-Ends (interpret envelope) n i h)
        | inr (x, h) ↦ rw h (
            raised-Ends x (on_sent (interpret envelope) n i c.flow).1
              (on_sent-raised (interpret envelope) n i x c.flow h))
      ]
