-- ===== src/Json.antt =====
-- JSON values as `json.loads` returns them. A float is kept as its text: the source only asks
-- whether a value is one. A `dict` is the list of its entries, in order.
use g3_voicestock.Base.{
  ◌≡◌, arith, text_eq_refl, Bool, true, false, Option, none, some, Text, text_eq, ℤ, if◌then◌else◌,
}

mutual
  pub data Value : Type 0 where
    null : Value
    bool : Bool → Value
    int : ℤ → Value
    float : Text → Value
    text : Text → Value
    arr : Items → Value
    obj : Fields → Value

  pub data Items : Type 0 where
    nil : Items
    cons : Value → Items → Items

  pub data Fields : Type 0 where
    end : Fields
    field : Text → Value → Fields → Fields

-- `fields.get(key)`, where `none` is a missing key.
unfoldable pub get : Text → Fields → Option Value
get k end = none
get k (field j v rest) = if text_eq j k then some v else get k rest

-- `{key: value for key, value in fields.items() if key != k}`
unfoldable pub without : Text → Fields → Fields
without k end = end
without k (field j v rest) =
    let others = without k rest in if text_eq j k then others else field j v others

-- `value is None`, for the result of `dict.get`: a missing key reads as `None`.
abbrev pub is_null : Option Value → Bool
is_null none = true
is_null (some null) = true
is_null (some _) = false

-- `value == text`, for the result of `dict.get`.
abbrev pub is_text : Text → Option Value → Bool
is_text t (some (text s)) = text_eq s t
is_text t none = false
is_text t (some _) = false

-- `fields[key] = value`
unfoldable pub put : Text → Value → Fields → Fields
put k v end = field k v end
put k v (field j w rest) =
    let others = put k v rest in if text_eq j k then field j v rest else field j w others

-- A key that was put is read back, and putting it touches no other key.
pub get-put : (k : Text) (v : Value) (fs : Fields) → get k (put k v fs) ≡ some v
unfolding get put
get-put k v end = rw (text_eq_refl k)
get-put k v (field j w rest) = ground (arith, get-put k v rest)

pub without-put : (k : Text) (v : Value) (fs : Fields) → without k (put k v fs) ≡ without k fs
unfolding without put
without-put k v end = rw (text_eq_refl k)
without-put k v (field j w rest) = ground (arith, without-put k v rest)
