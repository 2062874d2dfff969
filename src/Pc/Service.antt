-- ===== src/Pc/Service.antt =====
-- Interpretation on the PC: src/pc/interpretation/service.py with the results of results.py and the
-- registry of providers.py. What a provider returns or raises for a text is a parameter; the
-- diagnostic `detail` is left out.
use g3_voicestock.Base.{
  Bool, ◌||◌, not, Option, none, some, is_none, List, [], ◌∷◌, Text, text_eq, is_empty, is_blank,
  some_of, Outcome, returned, raised, value_error, raise_if, if◌then◌else◌,
}
use g3_voicestock.Json.{Value, null}
use g3_voicestock.Envelope.{EnvelopeStatus, success, error, has_value}

pub data ServiceErrorCode : Type 0 where
  invalid_input provider_not_configured provider_failure empty_transcription : ServiceErrorCode
  transcription_failure transcription_timeout unsupported_command : ServiceErrorCode
  ambiguous_product unknown_product insufficient_product : ServiceErrorCode
  contract_mapping_failure : ServiceErrorCode

pub record ServiceResult : Type 0 where
  pub status : EnvelopeStatus
  pub payload : Value
  pub error : Option ServiceErrorCode

-- `status_must_match_content`
abbrev is_contradiction : EnvelopeStatus → Value → Option ServiceErrorCode → Bool
is_contradiction success p e = not (is_none e)
is_contradiction error p e = is_none e || has_value p

unfoldable pub new_result : EnvelopeStatus → Value → Option ServiceErrorCode → Outcome ServiceResult
new_result s p e =
    raise_if (is_contradiction s p e) value_error
      (returned (record { status = s; payload = p; error = e }))

abbrev pub success_of : Value → Outcome ServiceResult
success_of payload = new_result success payload none

abbrev pub failure_of : ServiceErrorCode → Outcome ServiceResult
failure_of code = new_result error null (some code)

-- A provider, by what it returns or raises, and the registry of factories.
abbrev pub Provider : Type 0
Provider = Text → Outcome Value

abbrev pub Registry : Type 0
Registry = List (Text × Provider)

unfoldable pub create : Text → Registry → Option Provider
create n [] = none
create n ((m, p) ∷ rest) = if text_eq m n then some p else create n rest

unfoldable pub register : Text → Provider → Registry → Outcome Registry
register n p r = raise_if (some_of (λ (m, q). text_eq m n) r) value_error (returned ((n, p) ∷ r))

-- `InterpretationService.__init__`: an empty name configures no provider.
unfoldable pub provider_of : Registry → Option Text → Option Provider
unfolding create
provider_of r none = none
provider_of r (some n) = if is_empty n then none else create n r

-- Both `except` clauses lead to the same code.
unfoldable pub answer_of : Outcome Value → Outcome ServiceResult
unfolding new_result
answer_of (returned payload) = success_of payload
answer_of (raised _) = failure_of provider_failure

unfoldable pub interpret_text : Option Provider → Text → Outcome ServiceResult
unfolding answer_of
interpret_text none t =
    if is_blank t then failure_of invalid_input else failure_of provider_not_configured
interpret_text (some provider) t =
    if is_blank t then failure_of invalid_input else answer_of (provider t)
