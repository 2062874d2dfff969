-- ===== src/Pc/Pipeline/Result.antt =====
-- What a result of the pipeline rests on (`handle` of src/pc/audio/pipeline.py).
use g3_voicestock.Base.{
  ◌≡◌, refl, ◌≢◌, sym, ◌∙◌, ap, true, false, Option, none, some, List, Text, is_blank, Outcome,
  returned, raised, arith, bind-returned, Outcome-injective, Bool-cases, inl, inr, if◌then◌else◌,
}
use g3_voicestock.Json.{Value, Fields, text, obj, put}
use g3_voicestock.Envelope.{EnvelopeStatus, success, error}
use g3_voicestock.Contract.Payload.{ContractPayload}
use g3_voicestock.Contract.Normalize.{Unicode}
use g3_voicestock.Pc.Match.{
  CatalogEntry, ProductMatch, identified, unknown, ambiguous, insufficient,
}
use g3_voicestock.Pc.Draft.{map_draft}
use g3_voicestock.Pc.Service.{
  ServiceErrorCode, ServiceResult, Provider, new_result, interpret_text, answer_of,
}
use g3_voicestock.Pc.Pipeline.{
  Transcription, recognized, not_accepted, crashed, recognized_key, operation_count, is_one,
  match_first, after_match, after_mapping, map_and_match, after_service, contract_for, or_failure,
  handle,
}

EnvelopeStatus-differ : ¬ (success ≡ error)
EnvelopeStatus-differ h = cc

module _ (u : Unicode) (catalog : List CatalogEntry) (dump : ContractPayload → Fields) where
  -- A contract was delivered: the recording was recognized, the provider's draft maps to it, and the
  -- catalog identifies its first product.
  pub record Delivered (provider : Option Provider) (heard : Transcription) (payload : Value)
      : Type 0 where
    pub t : Text
    pub was_heard : heard ≡ recognized t
    pub spoken : is_blank t ≡ false
    pub answers : Provider
    pub configured : provider ≡ some answers
    pub draft : Value
    pub answered : answers t ≡ returned draft
    pub one_operation : is_one (operation_count draft) ≡ true
    pub contract : ContractPayload
    pub mapped : map_draft draft ≡ returned contract
    pub matched : match_first u catalog contract.operations ≡ returned identified
    pub written : payload ≡ obj (put recognized_key (text t) (dump contract))

  after_match-success :
      (t : Text) (c : ContractPayload) (m : ProductMatch) (r : ServiceResult)
      → after_match u catalog dump t c m ≡ returned r
      → r.status ≡ success
      → (m ≡ identified) × (r.payload ≡ obj (put recognized_key (text t) (dump c)))
  unfolding after_match
  after_match-success t c identified r h s = (refl, ground arith)
  after_match-success t c ambiguous r h s = ground arith
  after_match-success t c unknown r h s = ground arith
  after_match-success t c insufficient r h s = ground arith

  -- What stands behind a delivered draft.
  abbrev Drafted : Text → Value → Value → Type 0
  Drafted t draft payload =
      (c : ContractPayload) × (map_draft draft ≡ returned c)
      × (match_first u catalog c.operations ≡ returned identified)
      × (payload ≡ obj (put recognized_key (text t) (dump c)))

  after_mapping-success :
      (t : Text) (draft : Value) (o : Outcome (ContractPayload × ProductMatch)) (r : ServiceResult)
      → map_and_match u catalog dump draft ≡ o
      → after_mapping u catalog dump t o ≡ returned r
      → r.status ≡ success
      → Drafted t draft r.payload
  unfolding after_mapping map_and_match
  after_mapping-success t draft (raised e) r k h s = ground arith
  after_mapping-success t draft (returned (c, m)) r k h s =
      let (c', ec, h1) = bind-returned (map_draft draft) _ (c, m) k in
      let (m', em, h2) = bind-returned (match_first u catalog c'.operations) _ (c, m) h1 in
      let e : (c', m') ≡ (c, m) = Outcome-injective h2 in
      let (i, w) = after_match-success t c m r h s in
      (
        c,
        ec ∙ ap (λ x. returned (x.0)) e,
        ap (λ (x : ContractPayload × ProductMatch). match_first u catalog x.0.operations) (sym e)
            ∙ em
            ∙ ap (λ (x : ContractPayload × ProductMatch). returned (x.1)) e
            ∙ ap returned i,
        w,
      )

  after_service-success :
      (t : Text) (a r : ServiceResult)
      → a.status ≡ success
      → after_service u catalog dump t a ≡ returned r
      → r.status ≡ success
      → (is_one (operation_count a.payload) ≡ true) × Drafted t a.payload r.payload
  unfolding after_service
  after_service-success t a r e h s = elim (Bool-cases (is_one (operation_count a.payload))) [
    | inl o ↦ (o, after_mapping-success t a.payload _ r refl (rw (e, o) at h) s)
    | inr o ↦ absurd (ground arith)
  ]

  after_service-error :
      (t : Text) (a r : ServiceResult)
      → a.status ≡ error
      → after_service u catalog dump t a ≡ returned r
      → r.status ≢ success
  unfolding after_service
  after_service-error t a r e h s =
      let k : after_service u catalog dump t a ≡ returned a = rw e in
      let q : a ≡ r = Outcome-injective (sym k ∙ h) in
      EnvelopeStatus-differ (sym s ∙ sym (ap (λ (x : ServiceResult). x.status) q) ∙ e)

-- An answer of the service with a success is the draft that the provider returned.
interpret_text-success :
    (provider : Option Provider) (t : Text) (a : ServiceResult)
    → interpret_text provider t ≡ returned a
    → a.status ≡ success
    → (is_blank t ≡ false)
      × (answers : Provider) × (provider ≡ some answers)
      × (answers t ≡ returned a.payload)
unfolding interpret_text new_result answer_of
interpret_text-success none t a h s = absurd (ground arith)
interpret_text-success (some answers) t a h s = by_answer (answers t) refl h
  where
    by_answer :
        (o : Outcome Value)
        → answers t ≡ o
        → (if is_blank t
            then new_result error Value.null (some ServiceErrorCode.invalid_input)
            else answer_of o)
          ≡ returned a
        → (is_blank t ≡ false)
          × (f : Provider) × (some answers ≡ some f)
          × (f t ≡ returned a.payload)
    by_answer (raised e) k h = absurd (ground arith)
    by_answer (returned v) k h = (ground arith, answers, refl, k ∙ ground arith)

module _ (u : Unicode) (catalog : List CatalogEntry) (dump : ContractPayload → Fields) where
  contract_for-Delivered :
      (provider : Option Provider) (t : Text) (a : ServiceResult) (r : ServiceResult)
      → interpret_text provider t ≡ returned a
      → after_service u catalog dump t a ≡ returned r
      → r.status ≡ success
      → Delivered u catalog dump provider (recognized t) r.payload
  contract_for-Delivered provider t a r k h s = by_status a.status refl
    where
      by_status :
          (st : EnvelopeStatus)
          → a.status ≡ st
          → Delivered u catalog dump provider (recognized t) r.payload
      by_status success e =
          let (b, f, p, q) = interpret_text-success provider t a k e in
          let (o, (c, mc, mf, w)) = after_service-success u catalog dump t a r e h s in
          record {
            t = t;
            was_heard = refl;
            spoken = b;
            answers = f;
            configured = p;
            draft = a.payload;
            answered = q;
            one_operation = o;
            contract = c;
            mapped = mc;
            matched = mf;
            written = w;
          }
      by_status error e = absurd (after_service-error u catalog dump t a r e h s)

  or_failure-success :
      (o : Outcome ServiceResult) (r : ServiceResult)
      → or_failure u catalog dump o ≡ returned r
      → r.status ≡ success
      → o ≡ returned r
  unfolding new_result
  or_failure-success (returned a) r h s = h
  or_failure-success (raised e) r h s = absurd (ground arith)

  -- A success of the pipeline delivers a contract: the transcriber recognized a text that is not blank,
  -- the configured provider answered it with a draft of one operation, the mapper maps that draft to the
  -- contract that the payload is dumped from, with the recognized text added, and the catalog
  -- identifies its product.
  pub handle-Delivered :
      (provider : Option Provider) (heard : Transcription) (r : ServiceResult)
      → handle u catalog dump provider heard ≡ returned r
      → r.status ≡ success
      → Delivered u catalog dump provider heard r.payload
  unfolding handle contract_for
  handle-Delivered provider (recognized t) r h s =
      let (a, ea, k) = bind-returned (interpret_text provider t) _ r (or_failure-success _ r h s) in
      contract_for-Delivered provider t a r ea k s
  handle-Delivered provider (not_accepted k) r h s = absurd (ground arith)
  handle-Delivered provider crashed r h s = absurd (ground arith)
