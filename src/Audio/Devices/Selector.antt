-- ===== src/Audio/Devices/Selector.antt =====
-- What a selector matches (`_query_matches` of src/pi/audio/sounddevice_backend.py): the search for its
-- words, each from where the one before ended, against the words' standing in order in the name.
use g3_voicestock.Base.{
  ◌≤◌, ◌==◌, ==→eq, ==_refl, ◌≡◌, refl, sym, ◌∙◌, ap, inl, inr, ◌↔◌, true, false≢true, none, some,
  List, [], ◌∷◌, ◌++◌, length, length-append, append_assoc, Text, Bool-cases, Option-cases, arith,
}
use g3_voicestock.Contract.Normalize.{split_from}
use g3_voicestock.Audio.Devices.{
  InputDevice, after_prefix, after_first, matches_parts, query_matches, full_name,
}

-- The words stand in the text in this order, without overlap.
abbrev pub StandIn : List Text → Text → Type 0
StandIn [] t = Unit
StandIn (p ∷ parts) t =
    (before : Text) × (rest : Text) × (t ≡ before ++ (p ++ rest)) × StandIn parts rest

after_prefix-found : (p t r : Text) → after_prefix p t ≡ some r → t ≡ p ++ r
unfolding after_prefix
after_prefix-found [] t r h = some_injective h
  where
    some_injective : some t ≡ some r → t ≡ r
    some_injective e = cc
after_prefix-found (a ∷ p) [] r h = cc
after_prefix-found (a ∷ p) (b ∷ t) r h = elim (Bool-cases (a == b)) [
  | inl e ↦ ap2 (sym (==→eq a b e)) (after_prefix-found p t r (rw e at h))
  | inr e ↦ absurd (no_end (rw e at h))
]
  where
    ap2 : b ≡ a → t ≡ p ++ r → b ∷ t ≡ a ∷ (p ++ r)
    ap2 x y = cc

    no_end : none ≡ some r → ⊥
    no_end x = cc

after_prefix-append : (p r : Text) → after_prefix p (p ++ r) ≡ some r
unfolding after_prefix
after_prefix-append [] r = refl
after_prefix-append (a ∷ p) r = rw (==_refl a) (after_prefix-append p r)

after_first-found :
    (p t r : Text) → after_first p t ≡ some r → (before : Text) × (t ≡ before ++ (p ++ r))
unfolding after_first
after_first-found p [] r h = ([], after_prefix-found p [] r h)
after_first-found p (c ∷ t) r h = elim (Option-cases (after_prefix p (c ∷ t))) [
  | inr (s, e) ↦ ([], after_prefix-found p (c ∷ t) r (e ∙ (rw (e, after_first) at h)))
  | inl e ↦
      let (b, q) = after_first-found p t r (rw (e, after_first) at h) in (c ∷ b, ap (λ x. c ∷ x) q)
]

-- Of two ends of one text, the longer ends with the shorter.
ends_of : (x y r s : Text) → length x ≤ length y → x ++ r ≡ y ++ s → (z : Text) × (r ≡ z ++ s)
ends_of [] y r s l h = (y, h)
ends_of (a ∷ x) [] r s l h = absurd (omega (arith, l))
ends_of (a ∷ x) (b ∷ y) r s l h = ends_of x y r s (omega (arith, l)) (tail_eq h)
  where
    tail_eq : a ∷ (x ++ r) ≡ b ∷ (y ++ s) → x ++ r ≡ y ++ s
    tail_eq e = cc

after_first-prefix : (p t r : Text) → after_prefix p t ≡ some r → after_first p t ≡ some r
unfolding after_first
after_first-prefix p [] r h = h
after_first-prefix p (c ∷ t) r h = rw (h, after_first) refl

-- The search finds a word that stands in the text, and leaves no less than is after it.
after_first-stands :
    (p before r : Text)
    → (s : Text) × (z : Text) × (after_first p (before ++ (p ++ r)) ≡ some s) × (s ≡ z ++ r)
unfolding after_first
after_first-stands p [] r = (r, [], after_first-prefix p (p ++ r) r (after_prefix-append p r), refl)
after_first-stands p (c ∷ before) r =
    let t = before ++ (p ++ r) in
    elim (Option-cases (after_prefix p (c ∷ t))) [
      | inl e ↦ let (s, z, f, q) = after_first-stands p before r in (s, z, rw (e, after_first) f, q)
      | inr (s, e) ↦
          let d : p ++ s ≡ ((c ∷ before) ++ p) ++ r =
            sym (after_prefix-found p (c ∷ t) s e)
            ∙ ap (λ x. c ∷ x) (sym (append_assoc before p r)) in
          let (z, q) =
            ends_of p ((c ∷ before) ++ p) s r (omega (arith, length-append before p)) d in
          (s, z, rw (e, after_first) refl, q)
    ]

StandIn-longer : (parts : List Text) (z t : Text) → StandIn parts t → StandIn parts (z ++ t)
StandIn-longer [] z t h = tt
StandIn-longer (p ∷ parts) z t (b, r, e, h) =
    (z ++ b, r, ap (λ x. z ++ x) e ∙ sym (append_assoc z b (p ++ r)), h)

matches_parts_sound :
    (parts : List Text) (t : Text) → matches_parts parts t ≡ true → StandIn parts t
unfolding matches_parts
matches_parts_sound [] t h = tt
matches_parts_sound (p ∷ parts) t h = elim (Option-cases (after_first p t)) [
  | inl e ↦ absurd (false≢true (rw (e, matches_parts) at h))
  | inr (r, e) ↦
      let (b, q) = after_first-found p t r e in
      (b, r, q, matches_parts_sound parts r (rw (e, matches_parts) at h))
]

matches_parts_complete :
    (parts : List Text) (t : Text) → StandIn parts t → matches_parts parts t ≡ true
unfolding matches_parts
matches_parts_complete [] t h = refl
matches_parts_complete (p ∷ parts) t (b, r, e, h) =
    let (s, z, f, q) = after_first-stands p b r in
    rw (e, f, matches_parts) (matches_parts_complete parts s (rw q (StandIn-longer parts z r h)))

-- A selector matches a device exactly when its words, in lower case, stand in this order and without
-- overlap in the lower-case name of the device and its host API: taking each word at its first place
-- never misses a match.
pub query_matches-StandIn :
    (lower : Text → Text) (query : Text) (d : InputDevice)
    → (query_matches lower query d ≡ true)
      ↔ StandIn (split_from [] (lower query)) (lower (full_name d.device.name d.host_api))
unfolding query_matches
query_matches-StandIn lower query d = (matches_parts_sound _ _, matches_parts_complete _ _)
