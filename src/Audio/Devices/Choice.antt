-- ===== src/Audio/Devices/Choice.antt =====
-- Which device is chosen (`_resolve_input_device` of src/pi/audio/sounddevice_backend.py).
use mathlib.Core.Path.{subst}
use mathlib.Core.List.{Memᴰ}
use mathlib.Core.List.Memᴰ
use g3_voicestock.Base.{
  ℕ, ◌≡◌, refl, sym, ap, ◌⊎◌, inl, inr, true, false, List, [], ◌∷◌, keep, keep-mem, Text, is_blank,
  is_nonpositive, Outcome, returned, raised, bind-returned, Outcome-injective, Bool-cases,
}
use g3_voicestock.Audio.Devices.{
  Device, InputDevice, index, not_found, Queried, listed, portaudio, crashed, nth, input_devices,
  query_matches, is_exact_name, choose_exact, choose, choose_from, resolve_queried,
  resolve_input_device,
}

-- Every input device that is found can record, and is one that the library lists.
pub input_devices-found :
    (host_apis : List Text) (devices : List Device) (found : List InputDevice) (d : InputDevice)
    → input_devices host_apis devices ≡ returned found
    → Memᴰ d found
    → Memᴰ d.device devices × (is_nonpositive d.device.max_input_channels ≡ false)
unfolding input_devices
input_devices-found host_apis [] found d h m =
    absurd (Memᴰ.not-nil (subst (Memᴰ d) (sym (Outcome-injective h)) m))
input_devices-found host_apis (e ∷ devices) found d h m =
    elim (Bool-cases (is_nonpositive e.max_input_channels)) [
      | inl b ↦
          let (k, n) = input_devices-found host_apis devices found d (rw b at h) m in
          (Memᴰ.tail k, n)
      | inr b ↦
          let (a, p, q) = bind-returned (nth e.hostapi host_apis) _ found (rw b at h) in
          let (l, u, v) = bind-returned (input_devices host_apis devices) _ found q in
          let x : record { device = e; host_api = a } ∷ l ≡ found = Outcome-injective v in
          elim (Memᴰ.cases_cons (subst (Memᴰ d) (sym x) m)) [
            | inl y ↦ (Memᴰ.head (ap (λ (z : InputDevice). z.device) y), rw y b)
            | inr k ↦
                let (k', n) = input_devices-found host_apis devices l d u k in (Memᴰ.tail k', n)
          ]
    ]

module _ (lower : Text → Text) where
  -- The only match, or the only match with the exact name.
  abbrev pub IsOnly : Text → InputDevice → List InputDevice → Type 0
  IsOnly query d matches = (matches ≡ d ∷ []) ⊎ (keep (is_exact_name lower query) matches ≡ d ∷ [])

  choose_exact-index :
      (matches exact : List InputDevice) (n : ℕ)
      → choose_exact lower matches exact ≡ index n
      → (d : InputDevice) × (exact ≡ d ∷ []) × (d.device.index ≡ n)
  unfolding choose_exact
  choose_exact-index matches (d ∷ []) n h = (d, refl, cc)
  choose_exact-index matches [] n h = cc
  choose_exact-index matches (d ∷ e ∷ rest) n h = cc

  choose-index :
      (query : Text) (matches : List InputDevice) (n : ℕ)
      → choose lower query matches ≡ index n
      → (d : InputDevice) × IsOnly query d matches × (d.device.index ≡ n)
  unfolding choose
  choose-index query [] n h = cc
  choose-index query (d ∷ []) n h = (d, inl refl, cc)
  choose-index query (d ∷ e ∷ rest) n h =
      let (x, q, k) =
        choose_exact-index (d ∷ e ∷ rest) (keep (is_exact_name lower query) (d ∷ e ∷ rest)) n h in
      (x, inr q, k)

  only-mem :
      (query : Text) (d : InputDevice) (matches : List InputDevice)
      → IsOnly query d matches
      → Memᴰ d matches
  only-mem query d matches (inl e) = subst (Memᴰ d) (sym e) (Memᴰ.head refl)
  only-mem query d matches (inr e) =
      (keep-mem (is_exact_name lower query) matches (subst (Memᴰ d) (sym e) (Memᴰ.head refl))).0

  -- What a resolved selector has found.
  pub record Chosen (query : Text) (q : Queried (List Text × List Device)) (n : ℕ) : Type 0 where
    pub host_apis : List Text
    pub devices : List Device
    pub found : List InputDevice
    pub chosen : InputDevice
    pub asked : q ≡ listed (host_apis, devices)
    pub inputs : input_devices host_apis devices ≡ returned found
    pub listed_device : Memᴰ chosen.device devices
    pub records : is_nonpositive chosen.device.max_input_channels ≡ false
    pub matches : query_matches lower query chosen ≡ true
    pub only : IsOnly query chosen (keep (query_matches lower query) found)
    pub index_of : chosen.device.index ≡ n

  -- A selector is resolved only to a device that the library lists, that has an input channel, that the
  -- selector matches, and that is the only such device or the only one among them with that exact name.
  pub resolve_input_device-Chosen :
      (query : Text) (q : Queried (List Text × List Device)) (n : ℕ)
      → resolve_input_device lower query q ≡ index n
      → Chosen query q n
  unfolding resolve_input_device
  resolve_input_device-Chosen query q n h = elim (Bool-cases (is_blank query)) [
    | inl b ↦ absurd (not_found-index (rw b at h))
    | inr b ↦ by_answer q (rw b at h)
  ]
    where
      not_found-index : not_found ≡ index n → ⊥
      not_found-index e = cc

      by_found :
          (apis : List Text) (ds : List Device) (o : Outcome (List InputDevice))
          → input_devices apis ds ≡ o
          → choose_from lower query o ≡ index n
          → Chosen query (listed (apis, ds)) n
      by_found apis ds (raised e) u k = cc
      by_found apis ds (returned l) u k =
          let (d, o, i) = choose-index query (keep (query_matches lower query) l) n k in
          let (m, t) = keep-mem (query_matches lower query) l (only-mem query d _ o) in
          let (ld, r) = input_devices-found apis ds l d u m in
          record {
            host_apis = apis;
            devices = ds;
            found = l;
            chosen = d;
            asked = refl;
            inputs = u;
            listed_device = ld;
            records = r;
            matches = t;
            only = o;
            index_of = i;
          }

      by_answer :
          (a : Queried (List Text × List Device))
          → resolve_queried lower query a ≡ index n
          → Chosen query a n
      by_answer portaudio k = cc
      by_answer (crashed e) k = cc
      by_answer (listed (apis, ds)) k = by_found apis ds (input_devices apis ds) refl k
