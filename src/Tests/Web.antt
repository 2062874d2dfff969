-- ===== src/Tests/Web.antt =====
-- The HTTP adapter on concrete inputs.
use g3_voicestock.Base.{
  ℕ, ◌≡◌, refl, true, false, [], ◌∷◌, map, str, is_blank, text_eq, Exc, value_error, Bool,
}
use g3_voicestock.Pending.Resolution.{confirm, cancel, new_result}
use g3_voicestock.Pending.Gateway as Gateway
use g3_voicestock.Pending.Gateway.{resolve}
use g3_voicestock.Pending.Gateway.Memory.{Remembers}
use g3_voicestock.Pending.Operation.{to_view}
use g3_voicestock.Pending.Flow.{Flow, current, clear}
use g3_voicestock.Pending.Slot.{flow_ports}
use g3_voicestock.Web.{post}
use g3_voicestock.Web.Requests.{request, requests, retry_reply, ok-Remembers, requests_again}
use g3_voicestock.Web.Reads.{Agree, pending_read, status_read, reads-Agree}
use g3_voicestock.Tests.Cycle.{
  waiting, waiting_cycle, waiting_cycle-IsConsistent, counting, gateway,
}

abbrev is_value_error : Exc → Bool
is_value_error value_error = true
is_value_error _ = false

abbrev ports : Gateway.Ports (Flow × ℕ)
ports = flow_ports counting

ok-Remembers_example :
    (is_blank (str "op-1") ≡ false)
    × Remembers (str "op-1") confirm (request ports is_value_error confirm (str "op-1") gateway).1
unfolding post resolve Gateway.confirm is_blank text_eq to_view current clear new_result
ok-Remembers_example = ok-Remembers ports is_value_error confirm (str "op-1") gateway refl

requests_again_example :
    requests ports is_value_error
      (confirm ∷ cancel ∷ [])
      (str "op-1")
      (request ports is_value_error confirm (str "op-1") gateway).1
    ≡ (
      map (retry_reply (str "op-1") confirm) (confirm ∷ cancel ∷ []),
      (request ports is_value_error confirm (str "op-1") gateway).1,
    )
unfolding post resolve Gateway.confirm is_blank text_eq to_view current clear new_result
requests_again_example =
    requests_again ports is_value_error (str "op-1") confirm (confirm ∷ cancel ∷ []) gateway refl

reads-Agree_example : Agree waiting (pending_read counting gateway) (status_read counting gateway)
reads-Agree_example = reads-Agree counting waiting_cycle gateway waiting_cycle-IsConsistent refl
