-- ===== src/Contract/Normalize.antt =====
-- `normalize_attribute` of ADR-0006: src/pi/operation_contract/products.py, which
-- src/pc/audio/catalog.py repeats. The tables of the Unicode database that `unicodedata` and `str`
-- consult are a parameter.
use g3_voicestock.Base.{
  ℕ, Bool, true, false, not, Option, none, some, List, [], ◌∷◌, ◌++◌, map, Text, is_space, keep,
  if◌then◌else◌,
}
use mathlib.Core.List.{reverse}

pub record Unicode : Type 0 where
  pub nfkd : Text → Text
  pub is_combining : ℕ → Bool
  pub casefold : Text → Text
  pub is_alnum : ℕ → Bool

-- One word that has ended, unless it is empty.
abbrev pub flush : Text → List Text → List Text
flush [] rest = rest
flush (c ∷ word) rest = reverse (c ∷ word) ∷ rest

-- `str.split()`: the words between runs of white space. `word` holds the letters so far, reversed.
unfoldable pub split_from : Text → Text → List Text
split_from word [] = flush word []
split_from word (c ∷ s) = elim (is_space c) [
  | true ↦ flush word (split_from [] s)
  | false ↦ split_from (c ∷ word) s
]

abbrev pub space : ℕ
space = 32

-- `" ".join(words)`
unfoldable pub join : List Text → Text
join [] = []
join (w ∷ []) = w
join (w ∷ v ∷ rest) = w ++ (space ∷ join (v ∷ rest))

-- `text or None`
abbrev pub or_none : Text → Option Text
or_none [] = none
or_none (c ∷ s) = some (c ∷ s)

module _ (u : Unicode) where
  -- The letters of `value` with marks dropped, case folded, and all else made a space.
  unfoldable pub spaced : Text → Text
  spaced value =
      map (λ c. if u.is_alnum c then c else space)
        (u.casefold (keep (λ c. not (u.is_combining c)) (u.nfkd value)))

  unfoldable pub normalize_attribute : Option Text → Option Text
  unfolding spaced split_from join
  normalize_attribute none = none
  normalize_attribute (some value) = or_none (join (split_from [] (spaced value)))
