-- ===== src/Tests/Cycle.antt =====
-- The pending operation, its gateway and the operation cycle on concrete inputs.
use g3_voicestock.Base.{
  ℕ, ◌+◌, ◌≡◌, refl, arith, true, false, none, some, [], ◌∷◌, map, str, is_blank, text_eq, pos,
  Outcome, returned, raised, Exc,
}
use g3_voicestock.Json.{Value}
use g3_voicestock.Envelope.{TransportEnvelope, EnvelopeStatus}
use g3_voicestock.Contract.Validator.{ValidatedOperation}
use g3_voicestock.Pending.View.{View}
use g3_voicestock.Pending.Operation.{PendingOperation, to_view}
use g3_voicestock.Pending.Resolution.{ResolvedAction, confirm, cancel, new_result}
use g3_voicestock.Pending.Response.{InterpretationOutcome, accepted_kind, service_error}
use g3_voicestock.Pending.Gateway as Gateway
use g3_voicestock.Pending.Gateway.{ExecutionStatus, done, failed, resolve, resolve_all}
use g3_voicestock.Pending.Gateway.Memory.{retry_answer, resolved_once}
use g3_voicestock.Pending.Gateway.Effects.{Confirmed, confirm-Confirmed}
use g3_voicestock.Pending.Flow.{
  Flow, processing, wait_confirmation, recording, new_flow, admit_recording, unexpected,
  try_begin_recording, close, current, clear, abandon,
}
use g3_voicestock.Pending.Flow.Kept.{Others, cleared}
use g3_voicestock.Pending.Flow.Cycle.{Cycle, start, Reach, Step, IsConsistent, cycle-IsConsistent}
use g3_voicestock.Pending.Slot.{flow_ports, answers, confirm_resolves, cancel_resolves}
use g3_voicestock.Pending.Worker.{Device, process, on_capture_completed}
use g3_voicestock.Pending.Worker.Files.{
  JobEnd, process_deletes, process_accepted, on_capture_completed_unscheduled,
}

abbrev op : ValidatedOperation
op = record {
  operation = str "add_stock";
  product_id = str "p1";
  product_name = str "Arroz 1 kg";
  quantity = pos 12;
  unit = str "unit";
}

abbrev waiting_op : PendingOperation
waiting_op = record {
  operation_id = str "op-1";
  recognized_text = str "suma arroz";
  validated_operation = op;
}

abbrev shown : View
shown = record {
  operation_id = str "op-1";
  recognized_text = str "suma arroz";
  product = str "Arroz 1 kg";
  operation = str "agregar";
  quantity = pos 12;
  unit = str "unidad";
  confirmation_message = str "Agregar 12 unidades de Arroz 1 kg";
}

to_view-waiting_op : to_view waiting_op ≡ returned shown
unfolding to_view text_eq is_blank
to_view-waiting_op = refl

abbrev pub waiting : Flow
waiting = record {
  phase = wait_confirmation;
  pending = some waiting_op;
  operator_message = none;
  jobs = 0;
  closed = false;
}

-- An executor that counts its calls, and one that fails.
abbrev pub counting : View → Flow × ℕ → Outcome ExecutionStatus × (Flow × ℕ)
counting v s = (returned done, (s.0, s.1 + 1))

abbrev failing : View → Flow × ℕ → Outcome ExecutionStatus × (Flow × ℕ)
failing v s = (raised Exc.other, s)

abbrev pub gateway : Gateway.Gateway (Flow × ℕ)
gateway = record { slot = (waiting, 0); last_resolution = none }

abbrev resolved : ResolvedAction → ℕ → Gateway.Gateway (Flow × ℕ)
resolved a n = record {
  slot = (cleared waiting, n);
  last_resolution = some (record { operation_id = str "op-1"; action = a });
}

confirm_resolves_example :
    Gateway.confirm (flow_ports counting) (str "op-1") gateway
    ≡ (answers counting (str "op-1") confirm, resolved confirm 1)
unfolding is_blank
confirm_resolves_example =
    confirm_resolves counting waiting_op shown gateway (refl, refl) to_view-waiting_op refl tt refl
      Others.rest

cancel_resolves_example :
    Gateway.cancel (flow_ports counting) (str "op-1") gateway
    ≡ (answers counting (str "op-1") cancel, resolved cancel 0)
unfolding is_blank
cancel_resolves_example =
    cancel_resolves counting waiting_op shown gateway (refl, refl) to_view-waiting_op refl tt

resolved_once_example :
    resolve_all
      (flow_ports counting)
      (confirm ∷ cancel ∷ [])
      (str "op-1")
      (resolve (flow_ports counting) confirm (str "op-1") gateway).1
    ≡ (
      map (retry_answer (str "op-1") confirm) (confirm ∷ cancel ∷ []),
      (resolve (flow_ports counting) confirm (str "op-1") gateway).1,
    )
unfolding resolve Gateway.confirm is_blank text_eq to_view current clear new_result
resolved_once_example =
    resolved_once (flow_ports counting) (str "op-1") confirm (confirm ∷ cancel ∷ []) gateway refl

confirm-Confirmed_example :
    Confirmed
      (flow_ports counting)
      (str "op-1")
      (waiting, 0)
      (Gateway.confirm (flow_ports counting) (str "op-1") gateway).1.slot
unfolding Gateway.confirm is_blank text_eq to_view current clear new_result
confirm-Confirmed_example = confirm-Confirmed (flow_ports counting) (str "op-1") gateway refl

abbrev processing_flow : Flow
processing_flow = record {
  phase = processing;
  pending = none;
  operator_message = none;
  jobs = 1;
  closed = false;
}

-- A press and a release, whose job concludes while the removal of its recording is due; a second
-- press and release; the removal raises, and the late abandon meets the second recording.
abbrev pressed_again : Cycle
pressed_again = record {
  flow = (admit_recording (try_begin_recording (abandon unexpected processing_flow)).1).1;
  open_jobs = 1;
  closing_jobs = 1;
  late_abandons = 0;
}

abbrev abandoned_late : Cycle
abandoned_late = record {
  flow = abandon unexpected pressed_again.flow;
  open_jobs = 1;
  closing_jobs = 1;
  late_abandons = 1;
}

Reach-abandoned_late : Reach start abandoned_late
unfolding try_begin_recording admit_recording new_flow abandon
Reach-abandoned_late =
    Reach.next
      (Reach.next
        (Reach.next
          (Reach.next (Reach.next (Reach.next Reach.here (Step.begin refl)) (Step.admit refl refl))
            (Step.abandoned unexpected (omega arith) refl))
          (Step.begin refl))
        (Step.admit refl refl))
      (Step.late (omega arith) refl)

cycle-IsConsistent_example : IsConsistent abandoned_late
cycle-IsConsistent_example = cycle-IsConsistent Reach-abandoned_late

-- The cycle that waits for the confirmation of its operation.
abbrev pub waiting_cycle : Cycle
waiting_cycle = record { flow = waiting; open_jobs = 0; closing_jobs = 0; late_abandons = 0 }

pub waiting_cycle-IsConsistent : IsConsistent waiting_cycle
unfolding is_blank
waiting_cycle-IsConsistent = ground arith

abbrev accepted_answer : InterpretationOutcome
accepted_answer = record {
  kind = accepted_kind;
  recognized_text = str "suma arroz";
  validated_operation = some op;
}

-- While the executor runs, a press is refused and the shutdown begins.
abbrev busy : Flow
busy = close (try_begin_recording waiting).1

abbrev device : Device
device = record { flow = processing_flow; files = str "a.wav" ∷ str "b.wav" ∷ [] }

abbrev envelope : TransportEnvelope
envelope = record { status = EnvelopeStatus.success; payload = Value.null; error = none }

abbrev refused_answer : InterpretationOutcome
refused_answer = record {
  kind = service_error;
  recognized_text = str "";
  validated_operation = none;
}

process_deletes_example : JobEnd (str "a.wav") device (raised Exc.other) (
    process true
      (raised Exc.other)
      (str "a.wav")
      (raised Exc.other)
      (λ e. returned accepted_answer)
      (returned (str "op-1"))
      (str "u")
      device)
process_deletes_example =
    process_deletes (raised Exc.other) (str "a.wav") (raised Exc.other)
      (λ e. returned accepted_answer) (returned (str "op-1")) (str "u") device

process_accepted_example :
    (process true
      (raised Exc.other)
      (str "a.wav")
      (returned envelope)
      (λ e. returned accepted_answer)
      (returned (str "op-1"))
      (str "u")
      device).flow
    ≡ waiting
unfolding is_blank
process_accepted_example =
    process_accepted true (raised Exc.other) (str "a.wav") envelope (λ e. returned accepted_answer)
      (str "u") device refl refl (str "op-1") (str "suma arroz") op refl refl refl

abbrev recording_device : Device
recording_device = record {
  flow = record processing_flow { phase = recording; jobs = 0 };
  files = str "a.wav" ∷ str "b.wav" ∷ [];
}

on_capture_completed_unscheduled_example :
    let (queued, o, d) =
      on_capture_completed false true (returned tt) (str "a.wav") recording_device in
    (queued ≡ false)
    × (o ≡ returned tt)
    × (d.flow ≡ record new_flow { operator_message = some unexpected })
    × JobEnd (str "a.wav") recording_device (returned tt) d
unfolding admit_recording new_flow
on_capture_completed_unscheduled_example =
    on_capture_completed_unscheduled (returned tt) (str "a.wav") recording_device refl
