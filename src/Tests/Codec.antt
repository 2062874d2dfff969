-- ===== src/Tests/Codec.antt =====
-- A codec of JSON values, for the tests of what travels between the machines: a stack machine whose
-- instructions are pairs of numbers.
use g3_voicestock.Base.{
  ℕ, ◌==◌, ◌≡◌, refl, ◌∙◌, ap, Bool, true, false, Option, none, some, List, [], ◌∷◌, Text, ℤ, pos,
  negsuc, if◌then◌else◌,
}
use g3_voicestock.Json.{
  Value, Items, Fields, null, bool, int, float, text, arr, obj, nil, cons, end, field,
}

pub data Cell : Type 0 where
  value : Value → Cell
  items : Items → Cell
  fields : Fields → Cell
  letters : Text → Cell

abbrev pub Stack : Type 0
Stack = List Cell

abbrev letter : ℕ → Stack → Stack
letter c (letters t ∷ s) = letters (c ∷ t) ∷ s
letter c s = s

abbrev to_text : Stack → Stack
to_text (letters t ∷ s) = value (text t) ∷ s
to_text s = s

abbrev to_float : Stack → Stack
to_float (letters t ∷ s) = value (float t) ∷ s
to_float s = s

abbrev to_arr : Stack → Stack
to_arr (items l ∷ s) = value (arr l) ∷ s
to_arr s = s

abbrev to_obj : Stack → Stack
to_obj (fields l ∷ s) = value (obj l) ∷ s
to_obj s = s

abbrev to_cons : Stack → Stack
to_cons (value v ∷ items l ∷ s) = items (cons v l) ∷ s
to_cons s = s

abbrev to_field : Stack → Stack
to_field (letters k ∷ value v ∷ fields l ∷ s) = fields (field k v l) ∷ s
to_field s = s

abbrev execute : ℕ → ℕ → Stack → Stack
execute o a s =
    if o == 0
    then letters [] ∷ s
    else if o == 1
    then letter a s
    else if o == 2
    then to_text s
    else if o == 3
    then to_float s
    else if o == 4
    then value null ∷ s
    else if o == 5
    then value (bool (a == 1)) ∷ s
    else if o == 6
    then value (int (pos a)) ∷ s
    else if o == 7
    then value (int (negsuc a)) ∷ s
    else if o == 8
    then items nil ∷ s
    else if o == 9
    then to_cons s
    else if o == 10
    then to_arr s
    else if o == 11
    then fields end ∷ s
    else if o == 12
    then to_field s
    else to_obj s

unfoldable decode_from : Stack → List ℕ → Stack
decode_from s [] = s
decode_from s (o ∷ []) = s
decode_from s (o ∷ a ∷ rest) = decode_from (execute o a s) rest

-- The letters, the last first, in front of `rest`.
abbrev push_letters : Text → List ℕ → List ℕ
push_letters [] rest = 0 ∷ 0 ∷ rest
push_letters (c ∷ t) rest = push_letters t (1 ∷ c ∷ rest)

abbrev bit : Bool → ℕ
bit true = 1
bit false = 0

abbrev push_int : ℤ → List ℕ → List ℕ
push_int (pos n) rest = 6 ∷ n ∷ rest
push_int (negsuc n) rest = 7 ∷ n ∷ rest

abbrev mutual
  push : Value → List ℕ → List ℕ
  push null rest = 4 ∷ 0 ∷ rest
  push (bool b) rest = 5 ∷ bit b ∷ rest
  push (int z) rest = push_int z rest
  push (float t) rest = push_letters t (3 ∷ 0 ∷ rest)
  push (text t) rest = push_letters t (2 ∷ 0 ∷ rest)
  push (arr l) rest = push_items l (10 ∷ 0 ∷ rest)
  push (obj l) rest = push_fields l (13 ∷ 0 ∷ rest)

  push_items : Items → List ℕ → List ℕ
  push_items nil rest = 8 ∷ 0 ∷ rest
  push_items (cons v l) rest = push_items l (push v (9 ∷ 0 ∷ rest))

  push_fields : Fields → List ℕ → List ℕ
  push_fields end rest = 11 ∷ 0 ∷ rest
  push_fields (field k v l) rest = push_fields l (push v (push_letters k (12 ∷ 0 ∷ rest)))

decode-push_letters :
    (t : Text) (s : Stack) (rest : List ℕ)
    → decode_from s (push_letters t rest) ≡ decode_from (letters t ∷ s) rest
unfolding decode_from
decode-push_letters [] s rest = refl
decode-push_letters (c ∷ t) s rest = decode-push_letters t s (1 ∷ c ∷ rest)

decode-push_int :
    (z : ℤ) (s : Stack) (rest : List ℕ)
    → decode_from s (push_int z rest) ≡ decode_from (value (int z) ∷ s) rest
unfolding decode_from
decode-push_int (pos n) s rest = refl
decode-push_int (negsuc n) s rest = refl

mutual
  unfolding decode_from

  decode-push :
      (v : Value) (s : Stack) (rest : List ℕ)
      → decode_from s (push v rest) ≡ decode_from (value v ∷ s) rest
  decode-push null s rest = refl
  decode-push (bool true) s rest = refl
  decode-push (bool false) s rest = refl
  decode-push (int z) s rest = decode-push_int z s rest
  decode-push (float t) s rest = decode-push_letters t s (3 ∷ 0 ∷ rest)
  decode-push (text t) s rest = decode-push_letters t s (2 ∷ 0 ∷ rest)
  decode-push (arr l) s rest = decode-push_items l s (10 ∷ 0 ∷ rest)
  decode-push (obj l) s rest = decode-push_fields l s (13 ∷ 0 ∷ rest)

  decode-push_items :
      (l : Items) (s : Stack) (rest : List ℕ)
      → decode_from s (push_items l rest) ≡ decode_from (items l ∷ s) rest
  decode-push_items nil s rest = refl
  decode-push_items (cons v l) s rest =
      decode-push_items l s (push v (9 ∷ 0 ∷ rest)) ∙ decode-push v (items l ∷ s) (9 ∷ 0 ∷ rest)

  decode-push_fields :
      (l : Fields) (s : Stack) (rest : List ℕ)
      → decode_from s (push_fields l rest) ≡ decode_from (fields l ∷ s) rest
  decode-push_fields end s rest = refl
  decode-push_fields (field k v l) s rest =
      decode-push_fields l s (push v (push_letters k (12 ∷ 0 ∷ rest)))
      ∙ decode-push v (fields l ∷ s) (push_letters k (12 ∷ 0 ∷ rest))
      ∙ decode-push_letters k (value v ∷ fields l ∷ s) (12 ∷ 0 ∷ rest)

abbrev pub encode : Value → List ℕ
encode v = push v []

abbrev top : Stack → Option Value
top (value v ∷ s) = some v
top s = none

unfoldable pub decode : List ℕ → Option Value
unfolding decode_from
decode l = top (decode_from [] l)

pub decode-encode : (v : Value) → decode (encode v) ≡ some v
unfolding decode decode_from
decode-encode v = ap top (decode-push v [] [])
