-- ===== src/Pending/Slot.antt =====
-- The flow as the slot of its gateway: the wiring of `PendingOperationFlow.__init__` in
-- src/pi/pending_operation/flow.py. `W` is what the executor changes. While the executor runs, the
-- other threads may run too, so it is given the whole state.
use g3_voicestock.Base.{
  ◌≡◌, refl, false, Option, none, some, Text, text_eq, is_blank, Outcome, returned, arith,
  text_eq_refl,
}
use g3_voicestock.Pending.View.{View, copy_view_lem}
use g3_voicestock.Pending.Resolution.{ResolutionResult, ResolvedAction, success, result_facts}
use g3_voicestock.Pending.Operation.{PendingOperation, to_view}
use g3_voicestock.Pending.Gateway.{
  Ports, Gateway, LastResolution, ExecutionStatus, done, remembered, confirm, cancel,
}
use g3_voicestock.Pending.Flow.{Flow, current, clear}
use g3_voicestock.Pending.Flow.Kept.{
  Others, Waits, Others-Waits, cleared, clear-Waits, to_view-operation_id, current-Waits,
}

-- The id is not the one that was resolved last.
abbrev pub IsNew : Text → Option LastResolution → Type 0
IsNew i none = Unit
IsNew i (some last) = text_eq last.operation_id i ≡ false

remembered-IsNew :
    (i : Text) (a : ResolvedAction) (last : Option LastResolution)
    → IsNew i last
    → remembered i a last ≡ none
unfolding remembered
remembered-IsNew i a none h = refl
remembered-IsNew i a (some last) h = rw h

module _ {W : Type 0} (execute : View → Flow × W → Outcome ExecutionStatus × (Flow × W)) where
  abbrev pub flow_ports : Ports (Flow × W)
  flow_ports = record {
    current = λ s. current s.0;
    clear = λ i s. let (b, f) = clear i s.0 in (b, (f, s.1));
    execute = execute;
  }

  abbrev pub answers : Text → ResolvedAction → Outcome ResolutionResult
  answers i a =
      returned (record { status = success; operation_id = some i; resolved_action = some a })

  module _ (p : PendingOperation) (v : View) (g : Gateway (Flow × W)) (waits : Waits p g.slot.0)
      (shown : to_view p ≡ returned v) (named : is_blank p.operation_id ≡ false)
      (new : IsNew p.operation_id g.last_resolution) where
    -- The confirm of the waiting operation, whose id is named and was not resolved last and whose
    -- executor succeeds, is never lost: whatever the other threads do while the executor runs, the
    -- operation is then cleared, the cycle is idle, and the id is remembered.
    pub confirm_resolves :
        (execute v g.slot).0 ≡ returned done
        → Others g.slot.0 (execute v g.slot).1.0
        → confirm flow_ports p.operation_id g ≡ (
          answers p.operation_id ResolvedAction.confirm,
          record {
            slot = (cleared (execute v g.slot).1.0, (execute v g.slot).1.1);
            last_resolution =
                some (record { operation_id = p.operation_id; action = ResolvedAction.confirm });
          },
        )
    unfolding confirm
    confirm_resolves ran others = ground (
      arith,
      remembered-IsNew p.operation_id ResolvedAction.confirm g.last_resolution new,
      current-Waits p v g.slot.0 waits shown,
      to_view-operation_id p v shown,
      text_eq_refl p.operation_id,
      copy_view_lem v,
      clear-Waits p (execute v g.slot).1.0 (Others-Waits p waits others),
      result_facts p.operation_id named,
    )

    -- The cancel of the waiting operation, whose id is named and was not resolved last, clears it and
    -- remembers the id; the executor does not run.
    pub cancel_resolves : cancel flow_ports p.operation_id g ≡ (
      answers p.operation_id ResolvedAction.cancel,
      record {
        slot = (cleared g.slot.0, g.slot.1);
        last_resolution =
            some (record { operation_id = p.operation_id; action = ResolvedAction.cancel });
      },
    )
    unfolding cancel
    cancel_resolves = ground (
      arith,
      remembered-IsNew p.operation_id ResolvedAction.cancel g.last_resolution new,
      current-Waits p v g.slot.0 waits shown,
      to_view-operation_id p v shown,
      text_eq_refl p.operation_id,
      clear-Waits p g.slot.0 waits,
      result_facts p.operation_id named,
    )
