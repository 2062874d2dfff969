-- ===== src/Pc/Match/Loading.antt =====
-- The catalog file of the PC: `load_catalog_entries` and `prompt_rows` of src/pc/audio/catalog.py.
-- Reading and parsing the file is outside.
use g3_voicestock.Base.{
  ◌≡◌, false, Option, none, some, is_none, List, [], ◌∷◌, map, All, Text, str, Outcome, returned,
  raised, value_error, bind, bind-returned, Outcome-injective, raised-ne-returned, Bool-cases, inl,
  inr, if◌then◌else◌,
}
use mathlib.Core.Path.{subst}
use g3_voicestock.Json.{Value, Items, Fields, null, text, arr, obj, nil, cons, end, field, get}
use g3_voicestock.Contract.Normalize.{Unicode, normalize_attribute}
use g3_voicestock.Pc.Match.{CatalogEntry}

-- `_optional`
abbrev optional : Option Value → Outcome (Option Text)
optional none = returned none
optional (some null) = returned none
optional (some (text t)) = returned (some t)
optional (some _) = raised value_error

module _ (u : Unicode) where
  -- The name of an item, which must normalize to something.
  unfoldable item_name : Option Value → Outcome Text
  unfolding normalize_attribute
  item_name (some (text t)) =
      if is_none (normalize_attribute u (some t)) then raised value_error else returned t
  item_name _ = raised value_error

  unfoldable load_fields : Fields → Outcome CatalogEntry
  unfolding item_name get
  load_fields f = bind (item_name (get (str "name") f)) (λ n.
      bind (optional (get (str "brand") f)) (λ b. bind (optional (get (str "variant") f)) (λ v.
        bind (optional (get (str "presentation") f))
          (λ p. returned (record { name = n; brand = b; variant = v; presentation = p })))))

  -- One round of the loop: an item that is no object is an error.
  abbrev load_item : Value → Outcome CatalogEntry
  load_item (obj f) = load_fields f
  load_item _ = raised value_error

  unfoldable load_items : Items → Outcome (List CatalogEntry)
  unfolding load_fields
  load_items nil = returned []
  load_items (cons v rest) =
      let others = load_items rest in bind (load_item v) (λ e. bind others (λ l. returned (e ∷ l)))

  -- `load_catalog_entries`: `none` is a file that cannot be read.
  unfoldable load_catalog_entries : Option Value → Outcome (List CatalogEntry)
  unfolding load_items
  load_catalog_entries (some (arr (cons v rest))) = load_items (cons v rest)
  load_catalog_entries _ = raised value_error

  -- The name that a description is matched by is there.
  abbrev IsNamed : CatalogEntry → Type 0
  IsNamed e = is_none (normalize_attribute u (some e.name)) ≡ false

  item_name-returned :
      (v : Option Value) (t : Text)
      → item_name v ≡ returned t
      → is_none (normalize_attribute u (some t)) ≡ false
  unfolding item_name
  item_name-returned (some (text s)) t h =
      elim (Bool-cases (is_none (normalize_attribute u (some s)))) [
        | inl e ↦ absurd (raised-ne-returned (rw e at h))
        | inr e ↦
            subst (λ x. is_none (normalize_attribute u (some x)) ≡ false)
              (Outcome-injective (rw e at h)) e
      ]
  item_name-returned none t h = cc
  item_name-returned (some null) t h = cc
  item_name-returned (some (Value.bool _)) t h = cc
  item_name-returned (some (Value.int _)) t h = cc
  item_name-returned (some (Value.float _)) t h = cc
  item_name-returned (some (arr _)) t h = cc
  item_name-returned (some (obj _)) t h = cc

  load_fields-IsNamed : (f : Fields) (e : CatalogEntry) → load_fields f ≡ returned e → IsNamed e
  unfolding load_fields
  load_fields-IsNamed f e h =
      let (n, a, q) = bind-returned (item_name (get (str "name") f)) _ e h in
      let (b, _, q₁) = bind-returned (optional (get (str "brand") f)) _ e q in
      let (v, _, q₂) = bind-returned (optional (get (str "variant") f)) _ e q₁ in
      let (p, _, q₃) = bind-returned (optional (get (str "presentation") f)) _ e q₂ in
      let x : record { name = n; brand = b; variant = v; presentation = p } ≡ e =
        Outcome-injective q₃ in
      subst IsNamed x (item_name-returned (get (str "name") f) n a)

  load_item-IsNamed : (v : Value) (e : CatalogEntry) → load_item v ≡ returned e → IsNamed e
  load_item-IsNamed (obj f) e h = load_fields-IsNamed f e h
  load_item-IsNamed null e h = cc
  load_item-IsNamed (text _) e h = cc
  load_item-IsNamed (Value.bool _) e h = cc
  load_item-IsNamed (Value.int _) e h = cc
  load_item-IsNamed (Value.float _) e h = cc
  load_item-IsNamed (arr _) e h = cc

  -- Every entry that is loaded has a name that a description can match.
  load_items-IsNamed :
      (items : Items) (l : List CatalogEntry) → load_items items ≡ returned l → All IsNamed l
  unfolding load_items
  load_items-IsNamed nil l h = subst (All IsNamed) (Outcome-injective h) tt
  load_items-IsNamed (cons v rest) l h =
      let (e, a, q) = bind-returned (load_item v) _ l h in
      let (m, b, q₁) = bind-returned (load_items rest) _ l q in
      subst (All IsNamed) (Outcome-injective q₁)
        (load_item-IsNamed v e a, load_items-IsNamed rest m b)

-- `as_prompt_row`
abbrev optional_value : Option Text → Value
optional_value none = null
optional_value (some t) = text t

unfoldable as_prompt_row : CatalogEntry → Fields
as_prompt_row e = field (str "nombre") (text e.name) (
    field (str "marca") (optional_value e.brand) (
      field (str "variante") (optional_value e.variant)
        (field (str "presentacion") (optional_value e.presentation) end)))

unfoldable prompt_rows : List CatalogEntry → List Fields
unfolding as_prompt_row
prompt_rows entries = map as_prompt_row entries
