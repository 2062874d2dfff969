-- ===== src/Pending/Gateway.antt =====
-- The resolution policy: src/pi/pending_operation/gateway.py, over the slot of slot.py and the
-- executor of executor.py. `S` is the state of all that is outside the gateway: the slot, and what
-- the executor changes. One lock covers each request, so requests are atomic steps here.
pub mod Memory
pub mod Effects
use g3_voicestock.Base.{
  Bool, Option, none, some, Text, text_eq, is_blank, Outcome, returned, raised, value_error, bind,
  if◌then◌else◌, List, [], ◌∷◌,
}
use g3_voicestock.Pending.View.{View, copy_view}
use g3_voicestock.Pending.Resolution.{
  ResolutionResult, ResolvedAction, success, no_pending, stale_operation, already_resolved,
  conflict, execution_failed, same_action, new_result,
}

pub data ExecutionStatus : Type 0 where
  done failed : ExecutionStatus

-- `PendingOperationSlot` and `OperationExecutor`. An executor may raise.
pub record Ports (S : Type 0) : Type 0 where
  pub current : S → Outcome (Option View)
  pub clear : Text → S → Bool × S
  pub execute : View → S → Outcome ExecutionStatus × S

pub record LastResolution : Type 0 where
  pub operation_id : Text
  pub action : ResolvedAction

pub record Gateway (S : Type 0) : Type 0 where
  pub slot : S
  pub last_resolution : Option LastResolution

-- `_success`, `_stale` and `_execution_failed`.
abbrev pub succeeded : Text → ResolvedAction → Outcome ResolutionResult
succeeded i a = new_result success (some i) (some a)

abbrev pub stale : Text → Outcome ResolutionResult
stale i = new_result stale_operation (some i) none

abbrev pub execution_did_fail : Text → Outcome ResolutionResult
execution_did_fail i = new_result execution_failed (some i) none

-- `_remembered`: `none` when the id is not the one that was resolved last.
unfoldable pub remembered :
    Text → ResolvedAction → Option LastResolution → Option (Outcome ResolutionResult)
remembered i requested none = none
remembered i requested (some last) =
    if text_eq last.operation_id i
    then some (
        if same_action last.action requested
        then new_result already_resolved (some i) (some last.action)
        else new_result conflict (some i) (some last.action))
    else none

-- `_current_if_matches`, on what the slot holds: the snapshot, or the result to return.
pub data Match : Type 0 where
  matched : View → Match
  answer : Outcome ResolutionResult → Match

unfoldable pub current_if_matches : Text → Option View → Match
current_if_matches i none = answer (new_result no_pending none none)
current_if_matches i (some v) = if text_eq v.operation_id i then matched v else answer (stale i)

-- `_remember`
abbrev pub remember : {S : Type 0} → Text → ResolvedAction → Gateway S → Gateway S
remember i a g = record g { last_resolution = some (record { operation_id = i; action = a }) }

module _ {S : Type 0} (ports : Ports S) where
  -- `get_current`
  unfoldable pub get_current : Gateway S → Outcome (Option View)
  get_current g =
      bind (ports.current g.slot)
        (elim [ none ↦ returned none | some v ↦ bind (copy_view v) (λ c. returned (some c)) ])

  -- `clear`, and then `_remember`, or a stale answer when the slot refused.
  unfoldable pub settle : Text → ResolvedAction → Gateway S → Outcome ResolutionResult × Gateway S
  settle i a g =
      let (cleared, s) = ports.clear i g.slot in
      if cleared
      then (succeeded i a, remember i a (record g { slot = s }))
      else (stale i, record g { slot = s })

  unfoldable pub after_execution :
      Text → Outcome ExecutionStatus → Gateway S → Outcome ResolutionResult × Gateway S
  unfolding settle
  after_execution i (raised _) g = (execution_did_fail i, g)
  after_execution i (returned failed) g = (execution_did_fail i, g)
  after_execution i (returned done) g = settle i ResolvedAction.confirm g

  unfoldable pub confirm_matched :
      Text → Outcome View → Gateway S → Outcome ResolutionResult × Gateway S
  unfolding after_execution
  confirm_matched i (raised e) g = (raised e, g)
  confirm_matched i (returned snapshot) g =
      let (r, s) = ports.execute snapshot g.slot in after_execution i r (record g { slot = s })

  unfoldable pub confirm_current :
      Text → Outcome (Option View) → Gateway S → Outcome ResolutionResult × Gateway S
  unfolding confirm_matched current_if_matches copy_view
  confirm_current i (raised e) g = (raised e, g)
  confirm_current i (returned c) g = elim (current_if_matches i c) [
    | answer r ↦ (r, g)
    | matched v ↦ confirm_matched i (copy_view v) g
  ]

  unfoldable pub confirm : Text → Gateway S → Outcome ResolutionResult × Gateway S
  unfolding confirm_current remembered
  confirm i g =
      if is_blank i
      then (raised value_error, g)
      else (elim (remembered i ResolvedAction.confirm g.last_resolution) [
        | some r ↦ (r, g)
        | none ↦ confirm_current i (ports.current g.slot) g
      ])

  unfoldable pub cancel_current :
      Text → Outcome (Option View) → Gateway S → Outcome ResolutionResult × Gateway S
  unfolding settle current_if_matches
  cancel_current i (raised e) g = (raised e, g)
  cancel_current i (returned c) g = elim (current_if_matches i c) [
    | answer r ↦ (r, g)
    | matched v ↦ settle i ResolvedAction.cancel g
  ]

  unfoldable pub cancel : Text → Gateway S → Outcome ResolutionResult × Gateway S
  unfolding cancel_current remembered
  cancel i g =
      if is_blank i
      then (raised value_error, g)
      else (elim (remembered i ResolvedAction.cancel g.last_resolution) [
        | some r ↦ (r, g)
        | none ↦ cancel_current i (ports.current g.slot) g
      ])

  -- The two methods of the resolution port, by the action that is asked for.
  unfoldable pub resolve : ResolvedAction → Text → Gateway S → Outcome ResolutionResult × Gateway S
  unfolding confirm cancel
  resolve ResolvedAction.confirm i g = confirm i g
  resolve ResolvedAction.cancel i g = cancel i g

  -- Requests for one id, one after the other.
  unfoldable pub resolve_all :
      List ResolvedAction → Text → Gateway S → List (Outcome ResolutionResult) × Gateway S
  resolve_all [] i g = ([], g)
  resolve_all (a ∷ rest) i g =
      let (r, g') = resolve a i g in let (rs, g'') = resolve_all rest i g' in (r ∷ rs, g'')
