-- ===== src/Web/Reads.antt =====
-- The two reads of the page show one state (`GET /pending-operation` and `GET /system-status` of
-- src/pi/web/api.py, over the flow and its gateway).
use g3_voicestock.Base.{
  ◌≡◌, ◌≢◌, refl, sym, ap, ◌∙◌, inl, inr, true, false, Option, none, some, is_blank, Outcome,
  returned, raised, Exc, arith, Outcome-cases, Option-cases,
}
use g3_voicestock.Pending.View.{View, copy_view_lem}
use g3_voicestock.Pending.Operation.{PendingOperation, to_view}
use g3_voicestock.Pending.Gateway.{Gateway, ExecutionStatus, get_current}
use g3_voicestock.Pending.Slot.{flow_ports}
use g3_voicestock.Pending.Flow.{
  Flow, OperationPhase, wait_confirmation, OperatorMessage, current, get_status,
}
use g3_voicestock.Pending.Flow.Named.{is_named}
use g3_voicestock.Pending.Flow.Cycle.{Cycle, IsConsistent}
use g3_voicestock.Web.{
  Answer, pending_operation, system_status, empty, from_view, from_status, snapshot,
  read_system_status, read_pending_operation,
}

-- The reply of `GET /system-status` for a state of the cycle.
abbrev pub status_reply : OperationPhase → Option OperatorMessage → Option View → Answer
status_reply phase m v = snapshot (
    system_status
      (from_status (record { phase = phase; operator_message = m; pending_operation = v })))

-- What the two reads, one after the other, tell of the flow.
pub data Agree (f : Flow) (pending status : Answer) : Type 0 where
  nothing_waits :
      f.phase ≢ wait_confirmation
      → pending ≡ returned (record { status_code = 204; body = empty; no_store = true })
      → status ≡ status_reply f.phase f.operator_message none
      → Agree f pending status
  waits :
      (p : PendingOperation) (v : View)
      → f.phase ≡ wait_confirmation
      → f.pending ≡ some p
      → to_view p ≡ returned v
      → pending ≡ snapshot (pending_operation (from_view v))
      → status ≡ status_reply wait_confirmation none (some v)
      → Agree f pending status

named : (p : PendingOperation) (v : View) → to_view p ≡ returned v → is_blank v.operation_id ≡ false
unfolding to_view
named p v h = ground arith

-- The snapshot of an operation with an id can be built.
to_view-named : (p : PendingOperation) (x : Exc) → is_named (some p) ≡ true → to_view p ≢ raised x
unfolding to_view
to_view-named p x h e = ground arith

module _ {W : Type 0} (execute : View → Flow × W → Outcome ExecutionStatus × (Flow × W)) where
  abbrev pub pending_read : Gateway (Flow × W) → Answer
  pending_read g = read_pending_operation (some (get_current (flow_ports execute) g))

  abbrev pub status_read : Gateway (Flow × W) → Answer
  status_read g = read_system_status (some (get_status g.slot.0))

  -- In a cycle with the invariant of its reachable states the two reads agree, and neither fails: in
  -- `wait_confirmation` both replies show the snapshot of the pending operation, with no message of an
  -- earlier attempt beside it; in every other phase the page is offered no operation, and the status
  -- shows the phase and its message.
  pub reads-Agree :
      (c : Cycle) (g : Gateway (Flow × W))
      → IsConsistent c
      → g.slot.0 ≡ c.flow
      → Agree g.slot.0 (pending_read g) (status_read g)
  unfolding read_pending_operation read_system_status get_current get_status current
  reads-Agree c g h e = elim (Option-cases g.slot.0.pending) [
    | inl n ↦ nothing_waits (ground (arith, h)) (rw n refl) (rw n refl)
    | inr (p, n) ↦ elim (Outcome-cases (to_view p)) [
      | inl (v, t) ↦
          let b : is_blank v.operation_id ≡ false = named p v t in
          let ph : g.slot.0.phase ≡ wait_confirmation = ground (arith, h) in
          let m : g.slot.0.operator_message ≡ none = ground (arith, h) in
          waits p v ph n t (rw (n, t, copy_view_lem v b) refl) (rw (n, t, ph, m) refl)
      | inr (x, t) ↦ absurd (
          to_view-named p x
            (sym (ap is_named n) ∙ ap (λ (f : Flow). is_named f.pending) e ∙ h.named) t)
    ]
  ]
