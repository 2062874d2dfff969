-- ===== src/Pending/Resolution.antt =====
-- Typed outcomes of a confirm or cancel request: src/pi/pending_operation/resolution.py.
use g3_voicestock.Base.{
  ◌≡◌, refl, false, Bool, true, not, ◌||◌, Option, none, some, is_none, Text, is_empty, is_blank,
  arith, Outcome, returned, value_error, raise_if, not_blank_not_empty,
}

pub data ResolutionStatus : Type 0 where
  success no_pending stale_operation already_resolved conflict execution_failed : ResolutionStatus

pub data ResolvedAction : Type 0 where
  confirm cancel : ResolvedAction

-- `last.action is requested`
abbrev pub same_action : ResolvedAction → ResolvedAction → Bool
same_action confirm confirm = true
same_action confirm cancel = false
same_action cancel confirm = false
same_action cancel cancel = true

pub record ResolutionResult : Type 0 where
  pub status : ResolutionStatus
  pub operation_id : Option Text
  pub resolved_action : Option ResolvedAction

-- `not self.operation_id`
abbrev lacks_id : Option Text → Bool
lacks_id none = true
lacks_id (some s) = is_empty s

abbrev is_wrong : ResolutionStatus → Option Text → Option ResolvedAction → Bool
is_wrong success i a = lacks_id i || is_none a
is_wrong already_resolved i a = lacks_id i || is_none a
is_wrong conflict i a = lacks_id i || is_none a
is_wrong stale_operation i a = lacks_id i || not (is_none a)
is_wrong execution_failed i a = lacks_id i || not (is_none a)
is_wrong no_pending i a = not (is_none i) || not (is_none a)

-- The constructor with its `__post_init__`.
unfoldable pub new_result :
    ResolutionStatus → Option Text → Option ResolvedAction → Outcome ResolutionResult
new_result s i a =
    raise_if (is_wrong s i a) value_error
      (returned (record { status = s; operation_id = i; resolved_action = a }))

-- The statuses that name the action that stands for the id, and those that name only the id.
abbrev pub names_action : ResolutionStatus → Bool
names_action success = true
names_action already_resolved = true
names_action conflict = true
names_action _ = false

abbrev pub names_only_id : ResolutionStatus → Bool
names_only_id stale_operation = true
names_only_id execution_failed = true
names_only_id _ = false

new_result-action :
    (s : ResolutionStatus) (i : Text) (a : ResolvedAction)
    → is_blank i ≡ false
    → names_action s ≡ true
    → new_result s (some i) (some a)
      ≡ returned (record { status = s; operation_id = some i; resolved_action = some a })
unfolding new_result
new_result-action s i a h n = ground (arith, not_blank_not_empty i h)

new_result-id :
    (s : ResolutionStatus) (i : Text)
    → is_blank i ≡ false
    → names_only_id s ≡ true
    → new_result s (some i) none
      ≡ returned (record { status = s; operation_id = some i; resolved_action = none })
unfolding new_result
new_result-id s i h n = ground (arith, not_blank_not_empty i h)

new_result_no_pending :
    new_result no_pending none none
    ≡ returned (record { status = no_pending; operation_id = none; resolved_action = none })
unfolding new_result
new_result_no_pending = refl

-- The results that the gateway builds for an id that is not blank pass their own check.
abbrev pub ResultAt : Text → ResolutionStatus → ResolvedAction → Type 0
ResultAt i s a =
    new_result s (some i) (some a)
    ≡ returned (record { status = s; operation_id = some i; resolved_action = some a })

abbrev pub ResultIdAt : Text → ResolutionStatus → Type 0
ResultIdAt i s =
    new_result s (some i) none
    ≡ returned (record { status = s; operation_id = some i; resolved_action = none })

pub result_facts :
    (i : Text)
    → is_blank i ≡ false
    → ResultAt i already_resolved confirm
      × ResultAt i already_resolved cancel
      × ResultAt i conflict confirm
      × ResultAt i conflict cancel
      × ResultAt i success confirm
      × ResultAt i success cancel
      × ResultIdAt i stale_operation
      × ResultIdAt i execution_failed
      × (new_result no_pending none none
          ≡ returned (record { status = no_pending; operation_id = none; resolved_action = none }))
result_facts i h = (
  new_result-action already_resolved i confirm h refl,
  new_result-action already_resolved i cancel h refl,
  new_result-action conflict i confirm h refl,
  new_result-action conflict i cancel h refl,
  new_result-action success i confirm h refl,
  new_result-action success i cancel h refl,
  new_result-id stale_operation i h refl,
  new_result-id execution_failed i h refl,
  new_result_no_pending,
)
