-- ===== src/Pc/Match.antt =====
-- Catalog matching on the PC: src/pc/audio/catalog.py. Its `normalize_attribute` is, line by line,
-- the one of Contract/Normalize.
pub mod Agreement
pub mod Loading
use g3_voicestock.Base.{
  Bool, Option, none, some, List, [], ◌∷◌, Text, keep, every, some_of, if◌then◌else◌,
}
use g3_voicestock.Contract.Payload.{ProductDescription}
use g3_voicestock.Contract.Normalize.{Unicode, normalize_attribute}
use g3_voicestock.Contract.Catalog.{
  Attribute, attributes, name, brand, variant, presentation, is_name, option_eq, Wanted,
}

pub data ProductMatch : Type 0 where
  identified unknown ambiguous insufficient : ProductMatch

pub record CatalogEntry : Type 0 where
  pub name : Text
  pub brand : Option Text
  pub variant : Option Text
  pub presentation : Option Text

-- `getattr(description, attribute)` and `getattr(entry, attribute)`
abbrev pub description_attribute : ProductDescription → Attribute → Option Text
description_attribute d name = some d.name
description_attribute d brand = d.brand
description_attribute d variant = d.variant
description_attribute d presentation = d.presentation

abbrev pub entry_attribute : CatalogEntry → Attribute → Option Text
entry_attribute e name = some e.name
entry_attribute e brand = e.brand
entry_attribute e variant = e.variant
entry_attribute e presentation = e.presentation

-- The entries of `wanted` whose value is not `None`.
abbrev pub add_present : Attribute → Option Text → Wanted → Wanted
add_present a none rest = rest
add_present a (some t) rest = (a, t) ∷ rest

abbrev pub match_of : List CatalogEntry → ProductMatch
match_of [] = unknown
match_of (e ∷ []) = identified
match_of (e ∷ f ∷ rest) = ambiguous

module _ (u : Unicode) where
  unfoldable pub wanted_from : ProductDescription → List Attribute → Wanted
  wanted_from d [] = []
  wanted_from d (a ∷ rest) =
      add_present a (normalize_attribute u (description_attribute d a)) (wanted_from d rest)

  abbrev pub entry_fits : CatalogEntry → Attribute × Text → Bool
  entry_fits e (a, value) = option_eq (normalize_attribute u (entry_attribute e a)) (some value)

  -- The verdict for the attributes that the description has.
  unfoldable pub match_entries : Wanted → List CatalogEntry → ProductMatch
  match_entries wanted entries =
      if some_of (λ (a, value). is_name a) wanted
      then match_of (keep (λ e. every (entry_fits e) wanted) entries)
      else insufficient

  unfoldable pub match_description : ProductDescription → List CatalogEntry → ProductMatch
  unfolding wanted_from match_entries
  match_description d entries = match_entries (wanted_from d attributes) entries
