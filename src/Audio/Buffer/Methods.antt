-- ===== src/Audio/Buffer/Methods.antt =====
-- The methods of the producer of `_PcmBuffer` (src/pi/audio/sounddevice_backend.py) keep its bound.
use mathlib.Core.Path.{subst}
use g3_voicestock.Base.{
  ℕ, suc, ◌+◌, ◌≤◌, ◌≡◌, refl, sym, ◌∙◌, Bool, true, false, Option, none, some, is_none, [], ◌∷◌,
  ◌++◌, length, leb, Exc, returned, arith, if◌then◌else◌, Bool-cases, inl, inr,
}
use g3_voicestock.Audio.Buffer.{
  Block, Item, block, sentinel, Buffer, put_nowait, wake, put, fail, close, take, after_take,
}
use g3_voicestock.Audio.Buffer.Shape.{
  blocks, IsQueue, blocks-append, blocks-append_sentinel, IsQueue-append, IsQueue-append_sentinel,
  length-IsQueue, length-append_one,
}

-- The buffer, and the item that the consumer has taken and not accounted for.
pub record Stream : Type 0 where
  pub buffer : Buffer
  pub held : Option Item

abbrev pub held_blocks : Option Item → ℕ
held_blocks none = 0
held_blocks (some sentinel) = 0
held_blocks (some (block x)) = 1

abbrev pub holds_end : Option Item → Bool
holds_end (some sentinel) = true
holds_end _ = false

pub data Step (s t : Stream) : Type 0 where
  produced : (x : Block) → t ≡ record s { buffer = (put x s.buffer).1 } → Step s t
  failed : (e : Exc) → t ≡ record s { buffer = (fail e s.buffer).1 } → Step s t
  stopped : t ≡ record s { buffer = (close s.buffer).1 } → Step s t
  took :
      (i : Item) (b : Buffer)
      → s.held ≡ none
      → take s.buffer ≡ some (i, b)
      → t ≡ record { buffer = b; held = some i }
      → Step s t
  accounted :
      (i : Item)
      → s.held ≡ some i
      → t ≡ record { buffer = (after_take i s.buffer).1; held = none }
      → Step s t

-- The invariant of the buffer.
pub record IsBounded (s : Stream) : Type 0 where
  pub shape : IsQueue (if holds_end s.held then false else s.buffer.sentinel_queued) s.buffer.queue
  pub counted : s.buffer.depth ≡ length (blocks s.buffer.queue) + held_blocks s.held
  pub bounded : s.buffer.depth ≤ s.buffer.capacity
  pub ended : s.buffer.closed ≡ s.buffer.sentinel_queued
  pub stored : is_none s.buffer.failure ≡ false → s.buffer.closed ≡ true
  pub last : holds_end s.held ≡ true → (s.buffer.queue ≡ []) × (s.buffer.sentinel_queued ≡ true)

-- What the producer and the shutdown do to an open buffer that keeps its bound.
abbrev pub ended_with : Option Exc → Buffer → Buffer
ended_with f b = record b {
  failure = f;
  closed = true;
  queue = b.queue ++ sentinel ∷ [];
  sentinel_queued = true;
}

module _ (b : Buffer) (room : length b.queue ≤ b.capacity) (c : b.closed ≡ false) where
  wake_open :
      (f : Option Exc)
      → b.sentinel_queued ≡ false
      → wake (record b { failure = f }) ≡ (returned tt, ended_with f b)
  unfolding wake
  wake_open f q = ground arith

  pub put_open :
      (x : Block)
      → b.failure ≡ none
      → suc b.depth ≤ b.capacity
      → put x b ≡ (returned tt, record b { queue = b.queue ++ block x ∷ []; depth = b.depth + 1 })
  unfolding put put_nowait
  put_open x f d = ground arith

  pub put_full :
      (x : Block)
      → b.failure ≡ none
      → b.sentinel_queued ≡ false
      → b.capacity ≤ b.depth
      → put x b ≡ (returned tt, ended_with (some Exc.audio) b)
  unfolding put wake put_nowait
  put_full x f q d = ground arith

  pub fail_open :
      (e : Exc)
      → b.failure ≡ none
      → b.sentinel_queued ≡ false
      → fail e b ≡ (returned tt, ended_with (some e) b)
  unfolding fail wake put_nowait
  fail_open e f q = ground arith

  pub close_open :
      b.failure ≡ none → b.sentinel_queued ≡ false → close b ≡ (returned tt, ended_with none b)
  unfolding close wake put_nowait
  close_open f q = ground arith

module _ (b : Buffer) (c : b.closed ≡ true) (q : b.sentinel_queued ≡ true) where
  pub put_closed : (x : Block) → put x b ≡ (returned tt, b)
  unfolding put
  put_closed x = ground arith

  pub close_closed : close b ≡ (returned tt, b)
  unfolding close
  close_closed = ground arith

  pub fail_closed : (e : Exc) → fail e b ≡ (returned tt, b)
  unfolding fail wake
  fail_closed e = ground arith

module _ (s : Stream) (h : IsBounded s) where
  pub open_shape : s.buffer.closed ≡ false → IsQueue false s.buffer.queue
  open_shape c =
      subst (λ b. IsQueue b s.buffer.queue)
        {x = if holds_end s.held then false else s.buffer.sentinel_queued} (ground (arith, h.ended))
        h.shape

  pub open_length : s.buffer.closed ≡ false → length s.buffer.queue ≤ s.buffer.capacity
  open_length c =
      ground (arith, h.counted, h.bounded, length-IsQueue false s.buffer.queue (open_shape c))

  open_held : s.buffer.closed ≡ false → holds_end s.held ≡ false
  open_held c = ground (arith, h.last, h.ended)

  pub open_failure : s.buffer.closed ≡ false → s.buffer.failure ≡ none
  open_failure c = ground (arith, h.stored)

  ended_with-IsBounded :
      (f : Option Exc)
      → s.buffer.closed ≡ false
      → IsBounded (record s { buffer = ended_with f s.buffer })
  ended_with-IsBounded f c = record {
    shape = rw (open_held c) (IsQueue-append_sentinel s.buffer.queue (open_shape c));
    counted = rw (blocks-append_sentinel s.buffer.queue) h.counted;
    bounded = h.bounded;
    ended = refl;
    stored = λ e. refl;
    last = λ e. absurd (ground (arith, open_held c));
  }

  block-IsBounded :
      (x : Block)
      → s.buffer.closed ≡ false
      → suc s.buffer.depth ≤ s.buffer.capacity
      → IsBounded (record s {
        buffer = record s.buffer {
          queue = s.buffer.queue ++ block x ∷ [];
          depth = s.buffer.depth + 1;
        };
      })
  block-IsBounded x c d = record {
    shape =
        rw (open_held c) (rw (sym h.ended ∙ c) (IsQueue-append s.buffer.queue x (open_shape c)));
    counted =
        rw (blocks-append s.buffer.queue x)
          (ground (arith, h.counted, length-append_one (blocks s.buffer.queue) x));
    bounded = ground (arith, d);
    ended = h.ended;
    stored = h.stored;
    last = λ e. absurd (ground (arith, open_held c));
  }

  -- Each method of the producer returns, never with `queue.Full`, and keeps the invariant.
  pub put-IsBounded :
      (x : Block)
      → ((put x s.buffer).0 ≡ returned tt) × IsBounded (record s { buffer = (put x s.buffer).1 })
  put-IsBounded x = elim (Bool-cases s.buffer.closed) [
    | inl c ↦ rw (put_closed s.buffer c (sym h.ended ∙ c) x) (refl, h)
    | inr c ↦ elim (Bool-cases (leb s.buffer.capacity s.buffer.depth)) [
      | inl d ↦
          rw
            (put_full s.buffer (open_length c) c x (open_failure c) (sym h.ended ∙ c)
              (ground (arith, d)))
            (refl, ended_with-IsBounded (some Exc.audio) c)
      | inr d ↦
          rw (put_open s.buffer (open_length c) c x (open_failure c) (ground (arith, d)))
            (refl, block-IsBounded x c (ground (arith, d)))
    ]
  ]

  pub fail-IsBounded :
      (e : Exc)
      → ((fail e s.buffer).0 ≡ returned tt) × IsBounded (record s { buffer = (fail e s.buffer).1 })
  fail-IsBounded e = elim (Bool-cases s.buffer.closed) [
    | inl c ↦ rw (fail_closed s.buffer c (sym h.ended ∙ c) e) (refl, h)
    | inr c ↦
        rw (fail_open s.buffer (open_length c) c e (open_failure c) (sym h.ended ∙ c))
          (refl, ended_with-IsBounded (some e) c)
  ]

  pub close-IsBounded :
      ((close s.buffer).0 ≡ returned tt) × IsBounded (record s { buffer = (close s.buffer).1 })
  close-IsBounded = elim (Bool-cases s.buffer.closed) [
    | inl c ↦ rw (close_closed s.buffer c (sym h.ended ∙ c)) (refl, h)
    | inr c ↦
        rw (close_open s.buffer (open_length c) c (open_failure c) (sym h.ended ∙ c))
          (refl, ended_with-IsBounded none c)
  ]
