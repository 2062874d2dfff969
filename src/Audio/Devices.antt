-- ===== src/Audio/Devices.antt =====
-- The choice of the input device: `_resolve_input_device` of src/pi/audio/sounddevice_backend.py. What
-- the sound library lists, and `str.lower`, are arguments.
pub mod Choice
pub mod Selector
use g3_voicestock.Base.{
  ℕ, zero, suc, ◌==◌, Bool, true, false, ◌||◌, not, Option, none, some, List, [], ◌∷◌, ◌++◌, map,
  keep, Text, str, text_eq, is_blank, ℤ, is_nonpositive, Outcome, returned, raised, Exc, other,
  bind, if◌then◌else◌,
}
use g3_voicestock.Contract.Normalize.{split_from}

-- An entry of `query_devices()`, of which `hostapi` is the position of its host API.
pub record Device : Type 0 where
  pub index : ℕ
  pub name : Text
  pub hostapi : ℕ
  pub max_input_channels : ℤ

-- A device with the name of its host API.
pub record InputDevice : Type 0 where
  pub device : Device
  pub host_api : Text

-- What resolving a selector ends with, the exceptions of the source as constructors; `failed` is an
-- exception of another class.
pub data Resolution : Type 0 where
  index : ℕ → Resolution
  not_found : Resolution
  ambiguous : List Text → Resolution
  unsupported : Resolution
  query_failed : Resolution
  failed : Exc → Resolution

-- What the library does: `portaudio` is its own `PortAudioError`.
pub data Queried (A : Type 0) : Type 0 where
  listed : A → Queried A
  portaudio : Queried A
  crashed : Exc → Queried A

abbrev pub nth : ℕ → List Text → Outcome Text
nth n [] = raised other
nth zero (x ∷ _) = returned x
nth (suc n) (_ ∷ rest) = nth n rest

-- `_input_devices`
unfoldable pub input_devices : List Text → List Device → Outcome (List InputDevice)
input_devices host_apis [] = returned []
input_devices host_apis (d ∷ rest) =
    let found = input_devices host_apis rest in
    if is_nonpositive d.max_input_channels
    then found
    else bind (nth d.hostapi host_apis)
        (λ h. bind found (λ l. returned (record { device = d; host_api = h } ∷ l)))

-- `text.startswith(part)`, with what follows.
unfoldable pub after_prefix : Text → Text → Option Text
after_prefix [] t = some t
after_prefix (_ ∷ _) [] = none
after_prefix (a ∷ part) (b ∷ t) = if a == b then after_prefix part t else none

-- `haystack.find(part, position)`: what follows the first occurrence.
unfoldable pub after_first : Text → Text → Option Text
unfolding after_prefix
after_first part [] = after_prefix part []
after_first part (c ∷ t) =
    let later = after_first part t in
    elim (after_prefix part (c ∷ t)) [ some rest ↦ some rest | none ↦ later ]

-- The loop of `_query_matches`, on what follows the position.
unfoldable pub matches_parts : List Text → Text → Bool
unfolding after_first
matches_parts [] haystack = true
matches_parts (part ∷ parts) haystack = elim (after_first part haystack) [
  | none ↦ false
  | some rest ↦ matches_parts parts rest
]

abbrev pub full_name : Text → Text → Text
full_name device_name host_api = device_name ++ str ", " ++ host_api

module _ (lower : Text → Text) where
  -- `_query_matches`
  unfoldable pub query_matches : Text → InputDevice → Bool
  unfolding matches_parts split_from
  query_matches query d =
      matches_parts (split_from [] (lower query)) (lower (full_name d.device.name d.host_api))

  -- `_is_exact_name`
  unfoldable pub is_exact_name : Text → InputDevice → Bool
  is_exact_name query d =
      text_eq (lower query) (lower d.device.name)
      || text_eq (lower query) (lower (full_name d.device.name d.host_api))

  abbrev pub name_of : InputDevice → Text
  name_of d = d.device.name

  -- The choice among several matches, by those with the exact name.
  unfoldable pub choose_exact : List InputDevice → List InputDevice → Resolution
  choose_exact matches (d ∷ []) = index d.device.index
  choose_exact matches [] = ambiguous (map name_of matches)
  choose_exact matches (_ ∷ _ ∷ _) = ambiguous (map name_of matches)

  unfoldable pub choose : Text → List InputDevice → Resolution
  unfolding choose_exact is_exact_name
  choose query [] = not_found
  choose query (d ∷ []) = index d.device.index
  choose query (d ∷ e ∷ rest) =
      choose_exact (d ∷ e ∷ rest) (keep (is_exact_name query) (d ∷ e ∷ rest))

  abbrev pub choose_from : Text → Outcome (List InputDevice) → Resolution
  choose_from query (raised e) = failed e
  choose_from query (returned devices) = choose query (keep (query_matches query) devices)

  abbrev pub resolve_queried : Text → Queried (List Text × List Device) → Resolution
  resolve_queried query portaudio = query_failed
  resolve_queried query (crashed e) = failed e
  resolve_queried query (listed (host_apis, devices)) =
      choose_from query (input_devices host_apis devices)

  -- `_resolve_input_device`
  unfoldable pub resolve_input_device : Text → Queried (List Text × List Device) → Resolution
  unfolding choose input_devices query_matches
  resolve_input_device query q = if is_blank query then not_found else resolve_queried query q
