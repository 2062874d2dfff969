-- ===== src/Runtime.antt =====
-- The composition of one Raspberry Pi process: `build_runtime` of src/pi/runtime.py wires the
-- push-to-talk controller to the operation cycle.
pub mod Quiet
pub mod Sync
pub mod Stuck
use g3_voicestock.Base.{Bool, true, false, some, Text, Outcome, returned}
use g3_voicestock.Talk.{App, Controller}
use g3_voicestock.Pending.Flow.{try_begin_recording, on_capture_error}
use g3_voicestock.Pending.Worker.{Device, on_capture_completed}

-- `can_start_capture=flow.try_begin_recording` and the two callbacks of the flow.
unfoldable pub runtime_app : Bool → Bool → Outcome (Unit {0}) → App Device
unfolding try_begin_recording on_capture_error on_capture_completed
runtime_app scheduled delete unlink = record {
  can_start = some (λ d. let (b, f) = try_begin_recording d.flow in (b, record d { flow = f }));
  on_completed =
      λ r d. (let q = on_capture_completed scheduled delete unlink r.artifact d in (q.1, q.2));
  on_error = λ d. (returned tt, record d { flow = on_capture_error d.flow });
}

pub record Runtime : Type 0 where
  pub controller : Controller
  pub device : Device
