-- ===== src/Tests/Devices.antt =====
-- The choice of a device and the late callbacks of a stream on concrete inputs.
use g3_voicestock.Base.{
  ◌≡◌, ◌↔◌, refl, true, false, none, List, [], ◌∷◌, Text, str, text_eq, is_blank, is_space, pos,
  returned, arith,
}
use g3_voicestock.Contract.Normalize.{split_from}
use g3_voicestock.Audio.Devices.{
  Device, Queried, listed, index, query_matches, full_name, resolve_input_device,
}
use g3_voicestock.Audio.Devices.Choice.{Chosen, resolve_input_device-Chosen}
use g3_voicestock.Audio.Devices.Selector.{StandIn, query_matches-StandIn}
use g3_voicestock.Audio.Backend.{
  Backend, Starting, no_abort, aborts, pcm_arrives, finished, Callback, start, close,
  after_callbacks,
}
use g3_voicestock.Audio.Backend.Lifecycle.{stale_callbacks}

abbrev lower : Text → Text
lower t = t

abbrev usb : Device
usb = record { index = 2; name = str "usb mic"; hostapi = 0; max_input_channels = pos 1 }

abbrev usb_2 : Device
usb_2 = record { index = 3; name = str "usb mic 2"; hostapi = 0; max_input_channels = pos 1 }

abbrev speaker : Device
speaker = record { index = 1; name = str "usb mic"; hostapi = 0; max_input_channels = pos 0 }

abbrev library : Queried (List Text × List Device)
library = listed (str "alsa" ∷ [], speaker ∷ usb_2 ∷ usb ∷ [])

-- Two devices match, and one has the exact name.
resolved : resolve_input_device lower (str "usb mic") library ≡ index 2
unfolding resolve_input_device is_blank split_from is_space text_eq
resolved = refl

resolve_input_device-Chosen_example : Chosen lower (str "usb mic") library 2
resolve_input_device-Chosen_example =
    resolve_input_device-Chosen lower (str "usb mic") library 2 resolved

query_matches-StandIn_example :
    (query_matches lower (str "mic als") (record { device = usb; host_api = str "alsa" }) ≡ true)
    ↔ StandIn (split_from [] (str "mic als")) (full_name (str "usb mic") (str "alsa"))
query_matches-StandIn_example =
    query_matches-StandIn lower (str "mic als") (record { device = usb; host_api = str "alsa" })

abbrev backend : Backend
backend = record {
  queue_capacity = 32;
  generation = 4;
  stop_requested = false;
  aborted = false;
  stream = true;
  pcm = none;
}

abbrev opening : Starting
opening = record {
  abort = aborts;
  closer = none;
  device = index 2;
  format = listed tt;
  opened = listed tt;
  started = listed tt;
  abandoned = none;
}

abbrev late : List Callback
late = pcm_arrives 4 false (returned (1 ∷ 2 ∷ [])) ∷ finished 3 ∷ []

stale_callbacks_example :
    (after_callbacks late (start opening backend).1 ≡ (start opening backend).1)
    × (after_callbacks late (close no_abort none backend).1 ≡ (close no_abort none backend).1)
stale_callbacks_example =
    stale_callbacks late opening no_abort none backend (omega arith, (omega arith, tt))
