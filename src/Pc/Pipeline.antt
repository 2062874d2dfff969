-- ===== src/Pc/Pipeline.antt =====
-- From a recording to a contract: src/pc/audio/pipeline.py. What the transcriber makes of the
-- recording is an argument, and pydantic's `model_dump` of a payload a parameter. Log lines and the
-- diagnostic details are left out.
pub mod Result
pub mod Answer
pub mod Delivery
use g3_voicestock.Base.{
  ℕ, suc, Bool, true, false, not, ◌==◌, Option, none, some, List, [], ◌∷◌, Text, str, Outcome,
  returned, raised, other, bind, if◌then◌else◌,
}
use g3_voicestock.Json.{Value, Items, Fields, text, arr, obj, nil, cons, get, put}
use g3_voicestock.Envelope.{EnvelopeStatus, success, error}
use g3_voicestock.Contract.Payload.{OperationItem, ContractPayload}
use g3_voicestock.Contract.Normalize.{Unicode}
use g3_voicestock.Pc.Match.{
  CatalogEntry, ProductMatch, identified, unknown, ambiguous, insufficient, match_description,
}
use g3_voicestock.Pc.Draft.{map_draft}
use g3_voicestock.Pc.Service.{
  ServiceErrorCode, ServiceResult, Provider, success_of, failure_of, new_result, interpret_text,
  provider_failure, empty_transcription, transcription_failure, transcription_timeout,
  unsupported_command, ambiguous_product, unknown_product, insufficient_product,
  contract_mapping_failure,
}

pub data TranscriptionFailure : Type 0 where
  empty timeout failed not_configured : TranscriptionFailure

-- What the transcriber returns, or raises: a `TranscriptionError`, or another exception.
pub data Transcription : Type 0 where
  recognized : Text → Transcription
  not_accepted : TranscriptionFailure → Transcription
  crashed : Transcription

-- `_TRANSCRIPTION_CODES[kind]`
abbrev pub transcription_code : TranscriptionFailure → ServiceErrorCode
transcription_code empty = empty_transcription
transcription_code timeout = transcription_timeout
transcription_code failed = transcription_failure
transcription_code not_configured = transcription_failure

unfoldable pub count_items : Items → ℕ
count_items nil = 0
count_items (cons v rest) = suc (count_items rest)

abbrev pub count_of : Option Value → Option ℕ
count_of (some (arr items)) = some (count_items items)
count_of _ = none

-- `_operation_count`
unfoldable pub operation_count : Value → Option ℕ
unfolding count_items
operation_count (obj fields) = count_of (get (str "operaciones") fields)
operation_count _ = none

-- `count != 1`, negated.
abbrev pub is_one : Option ℕ → Bool
is_one none = false
is_one (some n) = n == 1

abbrev pub recognized_key : Text
recognized_key = str "recognized_text"

-- `match_description(contract.operations[0].product, catalog)`
unfoldable pub match_first : Unicode → List CatalogEntry → List OperationItem → Outcome ProductMatch
match_first u catalog [] = raised other
match_first u catalog (i ∷ rest) = returned (match_description u i.product catalog)

-- `AudioInterpretationPipeline.__init__` refuses an empty catalog. The rest is `handle`.
module _ (u : Unicode) (catalog : List CatalogEntry) (dump : ContractPayload → Fields) where
  unfoldable pub after_match : Text → ContractPayload → ProductMatch → Outcome ServiceResult
  unfolding put new_result
  after_match t c identified = success_of (obj (put recognized_key (text t) (dump c)))
  after_match t c ambiguous = failure_of ambiguous_product
  after_match t c unknown = failure_of unknown_product
  after_match t c insufficient = failure_of insufficient_product

  -- Each `except` of the mapping leads to the same code.
  unfoldable pub after_mapping :
      Text → Outcome (ContractPayload × ProductMatch) → Outcome ServiceResult
  unfolding after_match
  after_mapping t (raised _) = failure_of contract_mapping_failure
  after_mapping t (returned (c, m)) = after_match t c m

  unfoldable pub map_and_match : Value → Outcome (ContractPayload × ProductMatch)
  unfolding map_draft match_first
  map_and_match draft =
      bind (map_draft draft) (λ c. bind (match_first u catalog c.operations) (λ m. returned (c, m)))

  unfoldable pub after_service : Text → ServiceResult → Outcome ServiceResult
  unfolding after_mapping map_and_match operation_count
  after_service t r = elim r.status [
    | error ↦ returned r
    | success ↦
        if not (is_one (operation_count r.payload))
        then failure_of unsupported_command
        else after_mapping t (map_and_match r.payload)
  ]

  -- `_contract_for`
  unfoldable pub contract_for : Option Provider → Text → Outcome ServiceResult
  unfolding after_service
  contract_for provider t = bind (interpret_text provider t) (after_service t)

  abbrev pub or_failure : Outcome ServiceResult → Outcome ServiceResult
  or_failure (returned r) = returned r
  or_failure (raised _) = failure_of provider_failure

  unfoldable pub handle : Option Provider → Transcription → Outcome ServiceResult
  unfolding contract_for
  handle provider (not_accepted k) = failure_of (transcription_code k)
  handle provider crashed = failure_of transcription_failure
  handle provider (recognized t) = or_failure (contract_for provider t)
