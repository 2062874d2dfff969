-- ===== src/Pending/Flow/Cycle.antt =====
-- The cycle as interleaved steps: the button, the worker, the gateway and the shutdown, each taking
-- the lock of src/pi/pending_operation/flow.py in turn. An open job is one that was admitted and has
-- not been concluded; a closing one has been, and its `jobs -= 1` is due. When the removal of a
-- recording raises, `_process` abandons once more after the job was concluded: a late abandon, which
-- may meet the cycle of a later recording.
use g3_voicestock.Base.{
  ℕ, ◌+◌, ◌-◌, ◌<◌, ◌≤◌, ◌≡◌, inl, inr, Bool-cases, true, false, is_none, Text, Outcome, returned,
  arith, if◌then◌else◌,
}
use g3_voicestock.Pending.Response.{InterpretationOutcome}
use g3_voicestock.Pending.Flow.Ends.{on_sent-Concluded, on_sent-off}
use g3_voicestock.Pending.Flow.Named.{is_named, on_sent-named}
use g3_voicestock.Pending.Flow.{
  Flow, idle, processing, wait_confirmation, is_processing, OperatorMessage, unexpected, new_flow,
  try_begin_recording, admit_recording, on_capture_error, abandon, job_done, on_sent, clear, close,
}

pub record Cycle : Type 0 where
  pub flow : Flow
  pub open_jobs : ℕ
  pub closing_jobs : ℕ
  -- How many late abandons there have been.
  pub late_abandons : ℕ

abbrev pub conclude : Flow → Cycle → Cycle
conclude f c = record c { flow = f; open_jobs = c.open_jobs - 1; closing_jobs = c.closing_jobs + 1 }

pub data Step (c d : Cycle) : Type 0 where
  begin : d ≡ record c { flow = (try_begin_recording c.flow).1 } → Step c d
  admit :
      (admit_recording c.flow).0 ≡ true
      → d ≡ record c { flow = (admit_recording c.flow).1; open_jobs = c.open_jobs + 1 }
      → Step c d
  refuse :
      (admit_recording c.flow).0 ≡ false
      → d ≡ record c { flow = (admit_recording c.flow).1 }
      → Step c d
  capture_error : d ≡ record c { flow = on_capture_error c.flow } → Step c d
  abandoned : (m : OperatorMessage) → 0 < c.open_jobs → d ≡ conclude (abandon m c.flow) c → Step c d
  sent :
      (o : Outcome InterpretationOutcome) (new_id : Outcome Text) (fresh : Text)
      → 0 < c.open_jobs
      → (on_sent o new_id fresh c.flow).0 ≡ Outcome.returned tt
      → d ≡ conclude (on_sent o new_id fresh c.flow).1 c
      → Step c d
  late :
      0 < c.closing_jobs
      → d ≡ record c { flow = abandon unexpected c.flow; late_abandons = c.late_abandons + 1 }
      → Step c d
  done :
      0 < c.closing_jobs
      → d ≡ record c { flow = job_done c.flow; closing_jobs = c.closing_jobs - 1 }
      → Step c d
  clear_id : (i : Text) → d ≡ record c { flow = (clear i c.flow).1 } → Step c d
  shut : d ≡ record c { flow = close c.flow } → Step c d

pub data Reach (c : Cycle) : Cycle → Type 0 where
  here : Reach c c
  next : {d e : Cycle} → Reach c d → Step d e → Reach c e

abbrev pub start : Cycle
start = record { flow = new_flow; open_jobs = 0; closing_jobs = 0; late_abandons = 0 }

-- The invariant of the cycle.
pub record IsConsistent (c : Cycle) : Type 0 where
  pub waits_pending : c.flow.phase ≡ wait_confirmation → is_none c.flow.pending ≡ false
  pub pending_waits : is_none c.flow.pending ≡ false → c.flow.phase ≡ wait_confirmation
  pub named : is_named c.flow.pending ≡ true
  pub message_idle : is_none c.flow.operator_message ≡ false → c.flow.phase ≡ idle
  pub jobs_counted : c.flow.jobs ≡ c.open_jobs + c.closing_jobs
  pub some_open : is_processing c.flow.phase ≡ true → 0 < c.open_jobs
  pub few_open : c.open_jobs ≤ (if is_processing c.flow.phase then 1 else 0) + c.late_abandons

-- While the cycle is processing, nothing is pending.
in_processing :
    (c : Cycle)
    → IsConsistent c
    → is_processing c.flow.phase ≡ true
    → (c.flow.phase ≡ processing) × (is_none c.flow.pending ≡ true)
in_processing c h p = ground arith

sent-IsConsistent :
    (c : Cycle) (o : Outcome InterpretationOutcome) (new_id : Outcome Text) (fresh : Text)
    → 0 < c.open_jobs
    → (on_sent o new_id fresh c.flow).0 ≡ returned tt
    → IsConsistent c
    → IsConsistent (conclude (on_sent o new_id fresh c.flow).1 c)
sent-IsConsistent c o n i p r h = elim (Bool-cases (is_processing c.flow.phase)) [
  | inl k ↦
      let q = in_processing c h k in
      ground (arith, on_sent-Concluded c.flow q.0 q.1 o n i r, on_sent-named c.flow h.named o n i)
  | inr k ↦ ground (arith, on_sent-off c.flow k o n i)
]

pub Step-IsConsistent : {c d : Cycle} → Step c d → IsConsistent c → IsConsistent d
unfolding try_begin_recording admit_recording on_capture_error abandon job_done clear close
Step-IsConsistent (begin e) h = ground arith
Step-IsConsistent (admit a e) h = ground arith
Step-IsConsistent (refuse a e) h = ground arith
Step-IsConsistent (capture_error e) h = ground arith
Step-IsConsistent (abandoned m p e) h = ground arith
Step-IsConsistent {c} (sent o n i p r e) h = rw e (sent-IsConsistent c o n i p r h)
Step-IsConsistent (late p e) h = ground arith
Step-IsConsistent (done p e) h = ground arith
Step-IsConsistent (clear_id i e) h = ground arith
Step-IsConsistent (shut e) h = ground arith

pub Reach-IsConsistent : {c d : Cycle} → IsConsistent c → Reach c d → IsConsistent d
Reach-IsConsistent h here = h
Reach-IsConsistent h (next r s) = Step-IsConsistent s (Reach-IsConsistent h r)

start-IsConsistent : IsConsistent start
unfolding new_flow
start-IsConsistent = ground arith

-- In every state of the cycle that can be reached, whatever the interleaving of the button, the
-- worker, the gateway and the shutdown, and with any number of late abandons: an operation is pending
-- exactly while the phase is `wait_confirmation`, its id is not blank, a message is shown only in `idle`, `jobs` counts the
-- jobs whose end is due, a job is open while the phase is `processing`, and there are at most as many
-- open jobs as late abandons, and one more in `processing`: without late abandons exactly one job is
-- open in `processing` and none otherwise.
pub cycle-IsConsistent : {c : Cycle} → Reach start c → IsConsistent c
cycle-IsConsistent r = Reach-IsConsistent start-IsConsistent r
