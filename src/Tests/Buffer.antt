-- ===== src/Tests/Buffer.antt =====
-- The PCM queue on concrete inputs.
use g3_voicestock.Base.{◌≡◌, refl, true, false, none, some, [], ◌∷◌, Exc, returned}
use g3_voicestock.Audio.Buffer.{bytes, block, sentinel, put, fail, close, take, after_take}
use g3_voicestock.Audio.Buffer.Methods.{Stream, Step, IsBounded}
use g3_voicestock.Audio.Buffer.Order.{outstanding, Step-Moves}
use g3_voicestock.Audio.Buffer.Bounds.{Reach, start, buffer-IsBounded}

-- One block overflows a queue of capacity 1 that holds another.
abbrev overflowed : Stream
overflowed = record {
  buffer = record {
    capacity = 1;
    queue = block (bytes (1 ∷ [])) ∷ sentinel ∷ [];
    depth = 1;
    closed = true;
    failure = some Exc.audio;
    sentinel_queued = true;
  };
  held = none;
}

Reach-overflowed : Reach (start 1) overflowed
unfolding put
Reach-overflowed =
    Reach.next (Reach.next Reach.here (Step.produced (bytes (1 ∷ [])) refl))
      (Step.produced (bytes (2 ∷ [])) refl)

buffer-IsBounded_example :
    IsBounded overflowed
    × ((put (bytes (3 ∷ [])) overflowed.buffer).0 ≡ returned tt)
    × ((fail Exc.other overflowed.buffer).0 ≡ returned tt)
    × ((close overflowed.buffer).0 ≡ returned tt)
buffer-IsBounded_example = buffer-IsBounded (bytes (3 ∷ [])) Exc.other Reach-overflowed

-- A buffer that was closed, at the consumer's hands.
abbrev ending : Stream
ending = record {
  buffer = record {
    capacity = 1;
    queue = [];
    depth = 0;
    closed = true;
    failure = none;
    sentinel_queued = true;
  };
  held = some sentinel;
}

Reach-ending : Reach (start 1) ending
unfolding close take
Reach-ending =
    Reach.next (Reach.next Reach.here (Step.stopped refl))
      (Step.took sentinel ending.buffer refl refl refl)

-- Two blocks were put, and the first is at the consumer's hands.
abbrev delivering : Stream
delivering = record {
  buffer = record {
    capacity = 2;
    queue = block (bytes (2 ∷ [])) ∷ [];
    depth = 2;
    closed = false;
    failure = none;
    sentinel_queued = false;
  };
  held = some (block (bytes (1 ∷ [])));
}

abbrev delivered : Stream
delivered = record { buffer = record delivering.buffer { depth = 1 }; held = none }

Reach-delivering : Reach (start 2) delivering
unfolding put take
Reach-delivering =
    Reach.next
      (Reach.next (Reach.next Reach.here (Step.produced (bytes (1 ∷ [])) refl))
        (Step.produced (bytes (2 ∷ [])) refl))
      (Step.took (block (bytes (1 ∷ []))) delivering.buffer refl refl refl)

Step-Moves_example : outstanding delivering ≡ bytes (1 ∷ []) ∷ outstanding delivered
unfolding after_take
Step-Moves_example =
    Step-Moves {s = delivering} {t = delivered} Reach-delivering
      (Step.accounted (block (bytes (1 ∷ []))) refl refl)
