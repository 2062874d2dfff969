-- ===== src/Pending/Gateway/Memory.antt =====
-- What the gateway remembers (`_remembered` and `_remember` of
-- src/pi/pending_operation/gateway.py): the last id that was resolved is not
-- resolved again.
use g3_voicestock.Base.{
  ◌≡◌, refl, false, some, List, [], ◌∷◌, map, Text, is_blank, arith, Outcome, returned, raised,
  text_eq_refl, if◌then◌else◌,
}
use g3_voicestock.Pending.Resolution.{
  ResolutionResult, ResolutionStatus, ResolvedAction, same_action, success, conflict, result_facts,
  already_resolved,
}
use g3_voicestock.Pending.Gateway.{Ports, Gateway, remembered, settle, resolve, resolve_all}

-- What a request for the id `i` is told once the action `a` stands for it.
abbrev pub retry_status : ResolvedAction → ResolvedAction → ResolutionStatus
retry_status a b = if same_action a b then already_resolved else conflict

abbrev pub retry_answer : Text → ResolvedAction → ResolvedAction → Outcome ResolutionResult
retry_answer i a b =
    returned (record { status = retry_status a b; operation_id = some i; resolved_action = some a })

abbrev pub Remembers : {S : Type 0} → Text → ResolvedAction → Gateway S → Type 0
Remembers i a g = g.last_resolution ≡ some (record { operation_id = i; action = a })

abbrev pub IsSuccess : Outcome ResolutionResult → Type 0
IsSuccess (returned r) = r.status ≡ success
IsSuccess (raised _) = ⊥

remembered_self :
    (i : Text) (a b : ResolvedAction)
    → is_blank i ≡ false
    → remembered i b (some (record { operation_id = i; action = a })) ≡ some (retry_answer i a b)
unfolding remembered
remembered_self i a b h = ground (arith, text_eq_refl i, result_facts i)

module _ {S : Type 0} (ports : Ports S) where
  pub resolve_again :
      (i : Text) (a b : ResolvedAction) (g : Gateway S)
      → is_blank i ≡ false
      → Remembers i a g
      → resolve ports b i g ≡ (retry_answer i a b, g)
  unfolding resolve
  resolve_again i a ResolvedAction.confirm g h m =
      ground (arith, remembered_self i a ResolvedAction.confirm h)
  resolve_again i a ResolvedAction.cancel g h m =
      ground (arith, remembered_self i a ResolvedAction.cancel h)

  resolve_all_again :
      (i : Text) (a : ResolvedAction) (rest : List ResolvedAction) (g : Gateway S)
      → is_blank i ≡ false
      → Remembers i a g
      → resolve_all ports rest i g ≡ (map (retry_answer i a) rest, g)
  unfolding resolve_all
  resolve_all_again i a [] g h m = refl
  resolve_all_again i a (b ∷ rest) g h m =
      rw (resolve_again i a b g h m) (rw (resolve_all_again i a rest g h m))

  settle_success :
      (i : Text) (a : ResolvedAction) (g : Gateway S)
      → is_blank i ≡ false
      → IsSuccess (settle ports i a g).0
      → Remembers i a (settle ports i a g).1
  unfolding settle
  settle_success i a g h s = ground (arith, result_facts i h)

  -- A request that reports success has left its id and action as the last resolution.
  pub resolve-Remembers :
      (i : Text) (a : ResolvedAction) (g : Gateway S)
      → IsSuccess (resolve ports a i g).0
      → (is_blank i ≡ false) × Remembers i a (resolve ports a i g).1
  unfolding resolve
  resolve-Remembers i ResolvedAction.confirm g s = ground (arith, result_facts i)
  resolve-Remembers i ResolvedAction.cancel g s = ground (arith, result_facts i)

  -- Once a confirm or cancel of an id has succeeded, the requests for that id that follow directly, in
  -- any order and number and with no request for another id among them, change nothing: no executor
  -- runs, the slot is not touched, and each is told `already_resolved` if it asks for the same action
  -- and `conflict` if it asks for the other.
  pub resolved_once :
      (i : Text) (a : ResolvedAction) (rest : List ResolvedAction) (g : Gateway S)
      → IsSuccess (resolve ports a i g).0
      → resolve_all ports rest i (resolve ports a i g).1
        ≡ (map (retry_answer i a) rest, (resolve ports a i g).1)
  resolved_once i a rest g s =
      let (h, m) = resolve-Remembers i a g s in
      resolve_all_again i a rest (resolve ports a i g).1 h m
