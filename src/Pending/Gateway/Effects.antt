-- ===== src/Pending/Gateway/Effects.antt =====
-- What a request does to the slot and through the executor (`confirm` and `cancel` of
-- src/pi/pending_operation/gateway.py).
use g3_voicestock.Base.{
  ◌≡◌, refl, ◌⊎◌, inl, inr, true, Option, none, some, Text, arith, Outcome, returned, raised,
  text_eq→eq, Exc,
}
use g3_voicestock.Pending.View.{View, copy_view_lem}
use g3_voicestock.Pending.Resolution.{
  ResolutionResult, ResolutionStatus, ResolvedAction, conflict, already_resolved, execution_failed,
  no_pending, result_facts,
}
use g3_voicestock.Pending.Gateway.{Ports, Gateway, done, confirm, resolve}
use g3_voicestock.Pending.Gateway.Memory.{IsSuccess}

abbrev pub HasStatus : ResolutionStatus → Outcome ResolutionResult → Type 0
HasStatus s (returned r) = r.status ≡ s
HasStatus s (raised _) = ⊥

-- What a confirm that succeeds on the id `i` has found and done, from the state `s` of the slot to
-- the state `s'`.
pub record Confirmed {S : Type 0} (ports : Ports S) (i : Text) (s s' : S) : Type 0 where
  pub view : View
  pub was_current : ports.current s ≡ returned (some view)
  pub named : view.operation_id ≡ i
  pub executed : (ports.execute view s).0 ≡ returned done
  pub cleared : ports.clear i (ports.execute view s).1 ≡ (true, s')

module _ {S : Type 0} (ports : Ports S) where
  -- The two cases of `current` in which nothing can be resolved.
  confirm_nothing :
      (i : Text) (g : Gateway S) (e : Exc)
      → (ports.current g.slot ≡ returned none) ⊎ (ports.current g.slot ≡ raised e)
      → ¬ IsSuccess (confirm ports i g).0
  unfolding confirm
  confirm_nothing i g e c s = ground (arith, result_facts i)

  confirm_view :
      (i : Text) (g : Gateway S) (v : View)
      → ports.current g.slot ≡ returned (some v)
      → IsSuccess (confirm ports i g).0
      → Confirmed ports i g.slot (confirm ports i g).1.slot
  unfolding confirm
  confirm_view i g v c s = record {
    view = v;
    was_current = c;
    named = ground (arith, result_facts i, text_eq→eq v.operation_id i);
    executed = ground (arith, result_facts i, text_eq→eq v.operation_id i, copy_view_lem v);
    cleared = ground (arith, result_facts i, text_eq→eq v.operation_id i, copy_view_lem v);
  }

  -- A confirm reports success only when the named operation was current, the executor was given
  -- exactly that snapshot and reported success, and the slot then dropped that id.
  pub confirm-Confirmed :
      (i : Text) (g : Gateway S)
      → IsSuccess (confirm ports i g).0
      → Confirmed ports i g.slot (confirm ports i g).1.slot
  confirm-Confirmed i g s = by_current (ports.current g.slot) refl
    where
      by_current :
          (c : Outcome (Option View))
          → ports.current g.slot ≡ c
          → Confirmed ports i g.slot (confirm ports i g).1.slot
      by_current (raised e) p = absurd (confirm_nothing i g e (inr p) s)
      by_current (returned none) p = absurd (confirm_nothing i g Exc.other (inl p) s)
      by_current (returned (some v)) p = confirm_view i g v p s

  -- A confirm that reports a failed execution has run the executor on the current operation, and
  -- beyond what the executor did it has changed nothing: no clear, no memory.
  pub confirm_failed_keeps :
      (i : Text) (g : Gateway S) (v : View)
      → ports.current g.slot ≡ returned (some v)
      → HasStatus execution_failed (confirm ports i g).0
      → (confirm ports i g).1 ≡ record g { slot = (ports.execute v g.slot).1 }
  unfolding confirm
  confirm_failed_keeps i g v c s =
      ground (arith, result_facts i, text_eq→eq v.operation_id i, copy_view_lem v)

  -- The answers that name no applied resolution leave the gateway and the slot as they were.
  pub refusal_changes_nothing :
      (a : ResolvedAction) (i : Text) (g : Gateway S) (st : ResolutionStatus)
      → (st ≡ no_pending) ⊎ ((st ≡ already_resolved) ⊎ (st ≡ conflict))
      → HasStatus st (resolve ports a i g).0
      → (resolve ports a i g).1 ≡ g
  unfolding resolve
  refusal_changes_nothing ResolvedAction.confirm i g st c s = ground (arith, result_facts i)
  refusal_changes_nothing ResolvedAction.cancel i g st c s = ground (arith, result_facts i)
