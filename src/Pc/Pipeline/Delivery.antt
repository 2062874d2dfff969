-- ===== src/Pc/Pipeline/Delivery.antt =====
-- What the PC delivers, the Raspberry Pi can only refuse for its quantity or unit: `handle` of
-- src/pc/audio/pipeline.py against `PcResponseInterpreter` of src/pi/pending_operation/response.py.
use g3_voicestock.Base.{
  suc, ◌≡◌, refl, sym, ◌∙◌, ap, true, Option, none, some, List, [], ◌∷◌, length, map, Text, str,
  strip, text_eq_refl, ==→eq, returned, bind, arith, raise_if-returned, bind-returned,
  Outcome-injective,
}
use g3_voicestock.Json.{
  Value, Items, Fields, null, text, int, arr, obj, nil, cons, get, put, without, get-put,
  without-put,
}
use g3_voicestock.Contract.Payload.{
  OperationItem, ContractPayload, version_text, contract_version_1,
}
use g3_voicestock.Contract.Normalize.{Unicode}
use g3_voicestock.Contract.Catalog as Catalog
use g3_voicestock.Contract.Catalog.{
  CatalogProduct, ProductQuery, ProductResolution, ResolutionStatus, match_products,
  insufficient_attributes,
}
use g3_voicestock.Contract.Structure.{
  Validation, valid, validate_structure, validate_fields, after_schema, check_count,
}
use g3_voicestock.Contract.Rejection.{accepted}
use g3_voicestock.Contract.Validator.{
  query_of_description, check_identified, check_product, check_resolution, validate_first,
  validate_structured, validate,
}
use g3_voicestock.Contract.Validator.Total.{match_products-Carries}
use g3_voicestock.Envelope.{success}
use g3_voicestock.Pc.Match.{identified}
use g3_voicestock.Pc.Match.Agreement.{entry_of, match_of_status, match_description-match_products}
use g3_voicestock.Pc.Draft.{map_operation, map_operations, payload_of, map_list, map_draft}
use g3_voicestock.Pc.Draft.Normal.{map_draft-given}
use g3_voicestock.Pc.Service.{Provider, ServiceResult}
use g3_voicestock.Pc.Pipeline.{
  Transcription, recognized, handle, recognized_key, count_items, count_of, operation_count, is_one,
  match_first,
}
use g3_voicestock.Pc.Pipeline.Result.{handle-Delivered}
use g3_voicestock.Pending.Response.{classify, interpret_payload, without_recognized_text}

-- What `model_dump` and `model_validate` of the schema package promise for a payload: the dump has the
-- version under its key and no key of another name, and it is read back as the payload.
pub record IsDump (mv : Value → Validation) (dump : ContractPayload → Fields) : Type 0 where
  pub no_text : (c : ContractPayload) → without recognized_key (dump c) ≡ dump c
  pub version :
      (c : ContractPayload)
      → get (str "contract_version") (dump c) ≡ some (text (version_text c.contract_version))
  pub read_back : (c : ContractPayload) → mv (obj (dump c)) ≡ valid c

count_items-map_operations :
    (vs : Items) (l : List OperationItem)
    → map_operations vs ≡ returned l
    → count_items vs ≡ length l
unfolding map_operations count_items
count_items-map_operations nil l h = rw (← Outcome-injective h)
count_items-map_operations (cons v vs) l h =
    let (i, ei, h1) = bind-returned (map_operation v) _ l h in
    let (is, es, h2) = bind-returned (map_operations vs) _ l h1 in
    let e : i ∷ is ≡ l = Outcome-injective h2 in
    rw (← e) (ap suc (count_items-map_operations vs is es))

count_of-map_list :
    (v : Option Value) (p : ContractPayload)
    → map_list v ≡ returned p
    → count_of v ≡ some (length p.operations)
unfolding map_list
count_of-map_list (some (arr vs)) p h =
    let (l, el, h1) = bind-returned (map_operations vs) _ p h in
    let e : payload_of l ≡ p = Outcome-injective h1 in
    rw (← e) (ap some (count_items-map_operations vs l el))
count_of-map_list none p h = cc
count_of-map_list (some null) p h = cc
count_of-map_list (some (text t)) p h = cc
count_of-map_list (some (Value.bool b)) p h = cc
count_of-map_list (some (int z)) p h = cc
count_of-map_list (some (Value.float f)) p h = cc
count_of-map_list (some (obj fs)) p h = cc

operation_count-map_draft :
    (v : Value) (p : ContractPayload)
    → map_draft v ≡ returned p
    → operation_count v ≡ some (length p.operations)
unfolding map_draft operation_count
operation_count-map_draft (obj fs) p h = count_of-map_list _ p (raise_if-returned _ _ _ p h)
operation_count-map_draft null p h = cc
operation_count-map_draft (text t) p h = cc
operation_count-map_draft (Value.bool b) p h = cc
operation_count-map_draft (int z) p h = cc
operation_count-map_draft (Value.float f) p h = cc
operation_count-map_draft (arr xs) p h = cc

one_item :
    (l : List OperationItem) → is_one (some (length l)) ≡ true → (i : OperationItem) × (l ≡ i ∷ [])
one_item [] h = absurd (ground (arith, ==→eq 0 1 h))
one_item (i ∷ []) h = (i, refl)
one_item (i ∷ j ∷ l) h = absurd (ground (arith, ==→eq (suc (suc (length l))) 1 h))

status_identified : (s : ResolutionStatus) → match_of_status s ≡ identified → s ≡ Catalog.identified
status_identified Catalog.identified h = refl
status_identified Catalog.unknown h = cc
status_identified Catalog.ambiguous h = cc
status_identified insufficient_attributes h = cc

module _ (u : Unicode) (products : List CatalogProduct) (mv : Value → Validation)
    (dump : ContractPayload → Fields) (is_dump : IsDump mv dump) where
  abbrev resolve : ProductQuery → ProductResolution
  resolve q = match_products u q products

  without_recognized_text-put :
      (t : Text) (c : ContractPayload)
      → without_recognized_text (obj (put recognized_key (text t) (dump c)))
        ≡ (obj (dump c), strip t)
  unfolding without_recognized_text
  without_recognized_text-put t c = rw (
    without_recognized_text,
    get-put recognized_key (text t) (dump c),
    without-put recognized_key (text t) (dump c),
    is_dump.no_text c,
  )

  -- The interpreter takes the recognized text off and validates the dump.
  interpret_payload-put :
      (t : Text) (c : ContractPayload)
      → interpret_payload (validate mv resolve) (obj (put recognized_key (text t) (dump c)))
        ≡ bind (validate mv resolve (obj (dump c))) (classify (validate mv resolve) (strip t))
  unfolding interpret_payload
  interpret_payload-put t c = rw (without_recognized_text-put t c)

  validate_structure-dump :
      (i : OperationItem)
      → validate_structure mv (obj (dump (payload_of (i ∷ []))))
        ≡ returned (accepted (payload_of (i ∷ [])))
  unfolding validate_structure validate_fields after_schema check_count
  validate_structure-dump i = rw (
    is_dump.version (payload_of (i ∷ [])),
    text_eq_refl contract_version_1,
    is_dump.read_back (payload_of (i ∷ [])),
  )

  validate-dump :
      (i : OperationItem) (p : CatalogProduct)
      → (resolve (query_of_description i.product)).status ≡ Catalog.identified
      → (resolve (query_of_description i.product)).product ≡ some p
      → validate mv resolve (obj (dump (payload_of (i ∷ [])))) ≡ returned (check_identified i p)
  unfolding validate validate_structured validate_first check_resolution check_product
  validate-dump i p e k = rw (validate_structure-dump i) (rw (e, k))

  -- The Raspberry Pi has found one product for the one item that the PC heard, and has only its
  -- quantity and unit left to check.
  pub record Understood (heard : Transcription) (payload : Value) : Type 0 where
    pub t : Text
    pub was_heard : heard ≡ recognized t
    pub item : OperationItem
    pub product : CatalogProduct
    pub found : (resolve (query_of_description item.product)).product ≡ some product
    pub answer :
        interpret_payload (validate mv resolve) payload
        ≡ classify (validate mv resolve) (strip t) (check_identified item product)

  matched-identified :
      (i : OperationItem)
      → match_first u (map entry_of products) (i ∷ []) ≡ returned identified
      → (resolve (query_of_description i.product)).status ≡ Catalog.identified
  unfolding match_first
  matched-identified i h =
      status_identified _
        (sym (match_description-match_products u i.product products) ∙ Outcome-injective h)

  carried :
      (q : ProductQuery)
      → (resolve q).status ≡ Catalog.identified
      → (p : CatalogProduct) × ((resolve q).product ≡ some p)
  carried q h = by_product (resolve q).product refl
    where
      by_product :
          (o : Option CatalogProduct)
          → (resolve q).product ≡ o
          → (p : CatalogProduct) × ((resolve q).product ≡ some p)
      by_product none e = absurd (match_products-Carries u products q h e)
      by_product (some p) e = (p, e)

  understood :
      (heard : Transcription) (payload : Value) (t : Text) (c : ContractPayload) (i : OperationItem)
      → heard ≡ recognized t
      → c ≡ payload_of (i ∷ [])
      → match_first u (map entry_of products) c.operations ≡ returned identified
      → payload ≡ obj (put recognized_key (text t) (dump c))
      → Understood heard payload
  understood heard payload t c i h e m w =
      let m' : match_first u (map entry_of products) (i ∷ []) ≡ returned identified = rw e at m in
      let s = matched-identified i m' in
      let (p, k) = carried (query_of_description i.product) s in
      record {
        t = t;
        was_heard = h;
        item = i;
        product = p;
        found = k;
        answer = rw (w) (rw (interpret_payload-put t c) (rw e (rw (validate-dump i p s k))));
      }

  -- For a catalog that the two machines share, with a schema package that reads back what it dumps:
  -- when the pipeline succeeds, the Raspberry Pi identifies the product of the delivered payload, and
  -- answers with what its rules on quantity and unit say. No other rejection is left.
  pub handle-Understood :
      (provider : Option Provider) (heard : Transcription) (r : ServiceResult)
      → handle u (map entry_of products) dump provider heard ≡ returned r
      → r.status ≡ success
      → Understood heard r.payload
  handle-Understood provider heard r h s =
      let d = handle-Delivered u (map entry_of products) dump provider heard r h s in
      let (e, all) = map_draft-given d.draft d.contract d.mapped in
      let (i, one) =
        one_item d.contract.operations
          (rw (operation_count-map_draft d.draft d.contract d.mapped) at d.one_operation) in
      understood heard r.payload d.t d.contract i d.was_heard (e ∙ ap payload_of one) d.matched
        d.written
