-- ===== src/Web/Requests.antt =====
-- The requests that confirm and cancel, over the gateway (src/pi/web/api.py against
-- src/pi/pending_operation/gateway.py).
use mathlib.Core.Path.{subst}
use g3_voicestock.Base.{
  ℕ, ◌≡◌, refl, sym, ◌⊎◌, inl, inr, Bool, false, Option, none, some, List, [], ◌∷◌, map, Text,
  is_blank, text_eq→eq, Outcome, returned, raised, Exc, arith, Bool-cases, Option-cases,
  if◌then◌else◌,
}
use g3_voicestock.Pending.Resolution.{
  ResolutionStatus, ResolvedAction, ResolutionResult, same_action, success, no_pending,
  stale_operation, already_resolved, conflict, execution_failed, result_facts,
}
use g3_voicestock.Pending.Gateway.{Ports, Gateway, LastResolution, remembered, resolve}
use g3_voicestock.Pending.Gateway.Memory.{
  IsSuccess, Remembers, retry_status, resolve-Remembers, resolve_again,
}
use g3_voicestock.Pending.Gateway.Effects.{HasStatus}
use g3_voicestock.Web.{
  Answer, http_status, resolution, resolution_http_response, call_resolution, post,
}

-- The status of a reply, where there is one.
abbrev pub HasCode : ℕ → Answer → Type 0
HasCode n (returned r) = r.status_code ≡ n
HasCode n (raised _) = ⊥

-- What a repeated request is told: 200 for the action that stands, 409 for the other.
abbrev pub retry_code : ResolvedAction → ResolvedAction → ℕ
retry_code a b = if same_action a b then 200 else 409

remembered_standing :
    (i : Text) (a : ResolvedAction) (l : Option LastResolution) (r : Outcome ResolutionResult)
    → is_blank i ≡ false
    → remembered i a l ≡ some r
    → HasStatus already_resolved r
    → l ≡ some (record { operation_id = i; action = a })
unfolding remembered
remembered_standing i a none r b e h = cc
remembered_standing i ResolvedAction.confirm (some last) r b e h =
    ground (arith, result_facts i b, text_eq→eq last.operation_id i)
remembered_standing i ResolvedAction.cancel (some last) r b e h =
    ground (arith, result_facts i b, text_eq→eq last.operation_id i)

codes : (a b : ResolvedAction) → http_status (retry_status a b) ≡ retry_code a b
codes ResolvedAction.confirm ResolvedAction.confirm = refl
codes ResolvedAction.confirm ResolvedAction.cancel = refl
codes ResolvedAction.cancel ResolvedAction.confirm = refl
codes ResolvedAction.cancel ResolvedAction.cancel = refl

refused_code : ¬ (Path ℕ 422 200)
refused_code h = omega (arith, h)

http_ok : (s : ResolutionStatus) → http_status s ≡ 200 → (s ≡ success) ⊎ (s ≡ already_resolved)
http_ok success h = inl refl
http_ok already_resolved h = inr refl
http_ok no_pending h = absurd (omega (arith, h))
http_ok stale_operation h = absurd (omega (arith, h))
http_ok conflict h = absurd (omega (arith, h))
http_ok execution_failed h = absurd (omega (arith, h))

abbrev pub retry_reply : Text → ResolvedAction → ResolvedAction → Answer
retry_reply i a b = returned (record {
  status_code = retry_code a b;
  body =
      resolution
        (record { status = retry_status a b; operation_id = some i; resolved_action = some a });
  no_store = false;
})

module _ {S : Type 0} (ports : Ports S) (is_blank_id : Exc → Bool) where
  abbrev pub request : ResolvedAction → Text → Gateway S → Answer × Gateway S
  request a = post is_blank_id (some (resolve ports a))

  -- Requests for one id, one after the other, with the replies' order.
  unfoldable pub requests : List ResolvedAction → Text → Gateway S → List Answer × Gateway S
  unfolding post
  requests [] i g = ([], g)
  requests (a ∷ rest) i g =
      let (r, g') = request a i g in let (rs, g'') = requests rest i g' in (r ∷ rs, g'')

  -- An id that is not remembered is not answered `already_resolved`.
  resolve_fresh :
      (a : ResolvedAction) (i : Text) (g : Gateway S)
      → is_blank i ≡ false
      → remembered i a g.last_resolution ≡ none
      → ¬ HasStatus already_resolved (resolve ports a i g).0
  unfolding resolve
  resolve_fresh ResolvedAction.confirm i g b e h = ground (arith, result_facts i b)
  resolve_fresh ResolvedAction.cancel i g b e h = ground (arith, result_facts i b)

  resolve-remembered :
      (a : ResolvedAction) (i : Text) (g : Gateway S) (r : Outcome ResolutionResult)
      → is_blank i ≡ false
      → remembered i a g.last_resolution ≡ some r
      → resolve ports a i g ≡ (r, g)
  unfolding resolve
  resolve-remembered ResolvedAction.confirm i g r b e = ground arith
  resolve-remembered ResolvedAction.cancel i g r b e = ground arith

  resolve_standing :
      (a : ResolvedAction) (i : Text) (g : Gateway S)
      → is_blank i ≡ false
      → HasStatus already_resolved (resolve ports a i g).0
      → Remembers i a (resolve ports a i g).1
  resolve_standing a i g b h = elim (Option-cases (remembered i a g.last_resolution)) [
    | inl e ↦ absurd (resolve_fresh a i g b e h)
    | inr (r, e) ↦
        let q = resolve-remembered a i g r b e in
        rw q (remembered_standing i a g.last_resolution r b e (rw q at h))
  ]

  call_ok :
      (a : ResolvedAction) (i : Text) (g : Gateway S) (w : Outcome ResolutionResult × Gateway S)
      → is_blank i ≡ false
      → w ≡ resolve ports a i g
      → HasCode 200 (call_resolution is_blank_id w).0
      → Remembers i a (call_resolution is_blank_id w).1
  unfolding call_resolution
  call_ok a i g (returned r, g') b e h =
      subst (λ w. Remembers i a w.1) (sym e)
        (elim (http_ok r.status h) [
          | inl s ↦ (resolve-Remembers ports i a g (subst (λ w. IsSuccess w.0) e s)).1
          | inr s ↦ resolve_standing a i g b (subst (λ w. HasStatus already_resolved w.0) e s)
        ])
  call_ok a i g (raised x, g') b e h = ground (arith, h)

  -- A reply 200 to a request means that the id is not blank and that the requested action is the one
  -- that stands for it: the gateway has applied it now, or had applied it before.
  pub ok-Remembers :
      (a : ResolvedAction) (i : Text) (g : Gateway S)
      → HasCode 200 (request a i g).0
      → (is_blank i ≡ false) × Remembers i a (request a i g).1
  unfolding post
  ok-Remembers a i g h = elim (Bool-cases (is_blank i)) [
    | inl b ↦ absurd (refused_code (rw b at h))
    | inr b ↦ (b, rw b (call_ok a i g (resolve ports a i g) b refl (rw b at h)))
  ]

  request_again :
      (i : Text) (a b : ResolvedAction) (g : Gateway S)
      → is_blank i ≡ false
      → Remembers i a g
      → request b i g ≡ (retry_reply i a b, g)
  unfolding post resolution_http_response
  request_again i a b g h m = rw (h, resolve_again ports i a b g h m, codes a b) refl

  requests_standing :
      (i : Text) (a : ResolvedAction) (rest : List ResolvedAction) (g : Gateway S)
      → is_blank i ≡ false
      → Remembers i a g
      → requests rest i g ≡ (map (retry_reply i a) rest, g)
  unfolding requests
  requests_standing i a [] g b m = refl
  requests_standing i a (c ∷ rest) g b m =
      rw (request_again i a c g b m) (rw (requests_standing i a rest g b m))

  -- Once a request was answered 200, the requests for the same id that follow directly, in any order
  -- and number and with no request for another id among them, change nothing: each is answered 200
  -- for the action that stands and 409 for the other.
  pub requests_again :
      (i : Text) (a : ResolvedAction) (rest : List ResolvedAction) (g : Gateway S)
      → HasCode 200 (request a i g).0
      → requests rest i (request a i g).1 ≡ (map (retry_reply i a) rest, (request a i g).1)
  requests_again i a rest g h =
      let (b, m) = ok-Remembers a i g h in requests_standing i a rest (request a i g).1 b m
