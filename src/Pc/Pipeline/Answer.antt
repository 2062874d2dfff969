-- ===== src/Pc/Pipeline/Answer.antt =====
-- The pipeline always answers (`handle` of src/pc/audio/pipeline.py).
use g3_voicestock.Base.{
  ◌≡◌, refl, ◌⊎◌, Bool, true, false, Option, none, some, is_none, List, Text, is_blank, Outcome,
  returned, raised, bind, Bool-cases, inl, inr, if◌then◌else◌,
}
use g3_voicestock.Json.{Value, Fields}
use g3_voicestock.Envelope.{success, error, has_value}
use g3_voicestock.Contract.Payload.{ContractPayload}
use g3_voicestock.Contract.Normalize.{Unicode}
use g3_voicestock.Pc.Match.{
  CatalogEntry, ProductMatch, identified, unknown, ambiguous, insufficient,
}
use g3_voicestock.Pc.Service.{
  ServiceResult, Provider, new_result, interpret_text, answer_of, failure_of, invalid_input,
  provider_not_configured,
}
use g3_voicestock.Pc.Pipeline.{
  Transcription, recognized, not_accepted, crashed, operation_count, is_one, after_match,
  after_mapping, map_and_match, after_service, contract_for, or_failure, handle,
}

-- A success without an error, or an error with a code and no payload.
abbrev pub IsAnswer : Outcome ServiceResult → Type 0
IsAnswer (returned r) =
    ((r.status ≡ success) × (r.error ≡ none))
    ⊎ ((r.status ≡ error) × (is_none r.error ≡ false) × (has_value r.payload ≡ false))
IsAnswer (raised _) = ⊥

if-IsAnswer :
    (b : Bool) (o p : Outcome ServiceResult)
    → IsAnswer o
    → IsAnswer p
    → IsAnswer (if b then o else p)
if-IsAnswer true o p h k = h
if-IsAnswer false o p h k = k

answer_of-IsAnswer : (o : Outcome Value) → IsAnswer (answer_of o)
unfolding answer_of new_result
answer_of-IsAnswer (returned v) = inl (refl, refl)
answer_of-IsAnswer (raised e) = inr (refl, refl, refl)

interpret_text-IsAnswer :
    (provider : Option Provider) (t : Text) → IsAnswer (interpret_text provider t)
unfolding interpret_text new_result
interpret_text-IsAnswer none t =
    if-IsAnswer (is_blank t) (failure_of invalid_input) (failure_of provider_not_configured)
      (inr (refl, refl, refl)) (inr (refl, refl, refl))
interpret_text-IsAnswer (some answers) t =
    if-IsAnswer (is_blank t) (failure_of invalid_input) (answer_of (answers t))
      (inr (refl, refl, refl)) (answer_of-IsAnswer (answers t))

module _ (u : Unicode) (catalog : List CatalogEntry) (dump : ContractPayload → Fields) where
  after_match-IsAnswer :
      (t : Text) (c : ContractPayload) (m : ProductMatch)
      → IsAnswer (after_match u catalog dump t c m)
  unfolding after_match
  after_match-IsAnswer t c identified = inl (refl, refl)
  after_match-IsAnswer t c ambiguous = inr (refl, refl, refl)
  after_match-IsAnswer t c unknown = inr (refl, refl, refl)
  after_match-IsAnswer t c insufficient = inr (refl, refl, refl)

  after_mapping-IsAnswer :
      (t : Text) (o : Outcome (ContractPayload × ProductMatch))
      → IsAnswer (after_mapping u catalog dump t o)
  unfolding after_mapping
  after_mapping-IsAnswer t (raised e) = inr (refl, refl, refl)
  after_mapping-IsAnswer t (returned (c, m)) = after_match-IsAnswer t c m

  after_service-IsAnswer :
      (t : Text) (a : ServiceResult)
      → IsAnswer (returned a)
      → IsAnswer (after_service u catalog dump t a)
  unfolding after_service new_result
  after_service-IsAnswer t a (inr (e, n, v)) =
      let k : after_service u catalog dump t a ≡ returned a = rw e in rw k (inr (e, n, v))
  after_service-IsAnswer t a (inl (e, n)) = elim (Bool-cases (is_one (operation_count a.payload))) [
    | inl o ↦ rw (e, o) (after_mapping-IsAnswer t (map_and_match u catalog dump a.payload))
    | inr o ↦ rw (e, o) (inr (refl, refl, refl))
  ]

  bind-IsAnswer :
      (t : Text) (o : Outcome ServiceResult)
      → IsAnswer o
      → IsAnswer (or_failure u catalog dump (bind o (after_service u catalog dump t)))
  bind-IsAnswer t (raised e) h = absurd h
  bind-IsAnswer t (returned a) h = or_failure-IsAnswer _ (after_service-IsAnswer t a h)
    where
      or_failure-IsAnswer :
          (o : Outcome ServiceResult) → IsAnswer o → IsAnswer (or_failure u catalog dump o)
      or_failure-IsAnswer (returned r) h = h
      or_failure-IsAnswer (raised e) h = absurd h

  -- The pipeline never raises: whatever the transcriber and the provider did, it returns a success
  -- without an error, or an error with its code and no payload.
  pub handle-IsAnswer :
      (provider : Option Provider) (heard : Transcription)
      → IsAnswer (handle u catalog dump provider heard)
  unfolding handle contract_for new_result
  handle-IsAnswer provider (recognized t) = bind-IsAnswer t _ (interpret_text-IsAnswer provider t)
  handle-IsAnswer provider (not_accepted k) = inr (refl, refl, refl)
  handle-IsAnswer provider crashed = inr (refl, refl, refl)
