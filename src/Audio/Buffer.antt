-- ===== src/Audio/Buffer.antt =====
-- The bounded PCM queue: `_PcmBuffer` of src/pi/audio/sounddevice_backend.py. A method that holds the
-- lock is one step. `get` is two: it takes an item from the queue, which blocks while that is empty,
-- and then accounts for it, and the producer may run in between. One thread consumes. A block that is
-- not `bytes` is told apart.
pub mod Shape
pub mod Methods
pub mod Bounds
pub mod Order
use g3_voicestock.Base.{
  ℕ, suc, ◌+◌, ◌-◌, Bool, true, false, ◌&&◌, ◌||◌, not, Option, none, some, is_none, List, [], ◌∷◌,
  ◌++◌, length, leb, is_nil, Exc, audio, other, value_error, Outcome, returned, raised, raise_if,
  if◌then◌else◌,
}

pub data Block : Type 0 where
  bytes : List ℕ → Block
  not_audio : Block

-- An item of the queue: `_SENTINEL` stands for the end.
pub data Item : Type 0 where
  block : Block → Item
  sentinel : Item

pub record Buffer : Type 0 where
  pub capacity : ℕ
  pub queue : List Item
  pub depth : ℕ
  pub closed : Bool
  pub failure : Option Exc
  pub sentinel_queued : Bool

unfoldable pub new_buffer : ℕ → Outcome Buffer
new_buffer capacity = raise_if (not (leb 1 capacity)) value_error (
    returned (record {
      capacity = capacity;
      queue = [];
      depth = 0;
      closed = false;
      failure = none;
      sentinel_queued = false;
    }))

-- `put_nowait`: `none` is `queue.Full`.
unfoldable pub put_nowait : Item → Buffer → Option Buffer
put_nowait i b =
    if leb (b.capacity + 1) (length b.queue)
    then none
    else some (record b { queue = b.queue ++ i ∷ [] })

-- The last lines of `_wake_locked`; `queue.Full` would go on to the caller.
unfoldable pub queue_sentinel : Buffer → Option Buffer → Outcome (Unit {0}) × Buffer
queue_sentinel b none = (raised other, b)
queue_sentinel b (some b') = (returned tt, record b' { sentinel_queued = true })

unfoldable pub wake : Buffer → Outcome (Unit {0}) × Buffer
unfolding queue_sentinel put_nowait
wake b =
    if b.sentinel_queued
    then (returned tt, record b { closed = true })
    else queue_sentinel (record b { closed = true })
        (put_nowait sentinel (record b { closed = true }))

abbrev pub overflow : Buffer → Outcome (Unit {0}) × Buffer
overflow b = wake (record b { failure = some audio })

unfoldable pub put_block : Buffer → Option Buffer → Outcome (Unit {0}) × Buffer
unfolding wake
put_block b none = overflow b
put_block b (some b') = (returned tt, record b' { depth = b'.depth + 1 })

unfoldable pub put : Block → Buffer → Outcome (Unit {0}) × Buffer
unfolding put_block wake
put x b =
    if b.closed || not (is_none b.failure)
    then (returned tt, b)
    else if leb b.capacity b.depth
    then overflow b
    else put_block b (put_nowait (block x) b)

unfoldable pub fail : Exc → Buffer → Outcome (Unit {0}) × Buffer
unfolding wake
fail e b =
    if b.closed && is_none b.failure
    then (returned tt, b)
    else wake (if is_none b.failure then record b { failure = some e } else b)

unfoldable pub close : Buffer → Outcome (Unit {0}) × Buffer
unfolding wake
close b =
    if b.sentinel_queued
    then (returned tt, record b { closed = true })
    else wake (record b { closed = true })

-- `self._queue.get()`, which blocks on an empty queue.
unfoldable pub take : Buffer → Option (Item × Buffer)
take b = elim b.queue [ [] ↦ none | i ∷ rest ↦ some (i, record b { queue = rest }) ]

abbrev pub requeue_with : Buffer → Option Buffer → Outcome (Unit {0}) × Buffer
requeue_with b none = (raised other, b)
requeue_with b (some b') = (returned tt, b')

-- `_requeue_sentinel_locked`
unfoldable pub requeue_sentinel : Buffer → Outcome (Unit {0}) × Buffer
unfolding put_nowait
requeue_sentinel b =
    if b.sentinel_queued && is_nil b.queue
    then requeue_with b (put_nowait sentinel b)
    else (returned tt, b)

abbrev pub end_with : Option Exc → Outcome (Unit {0}) → Outcome (List ℕ)
end_with f (raised e) = raised e
end_with (some e) (returned _) = raised e
end_with none (returned _) = returned []

-- The rest of `get`, on the item that was taken.
unfoldable pub after_take : Item → Buffer → Outcome (List ℕ) × Buffer
unfolding requeue_sentinel
after_take (block (bytes x)) b = (returned x, record b { depth = b.depth - 1 })
after_take (block not_audio) b = (raised audio, record b { depth = b.depth - 1 })
after_take sentinel b = let (o, b') = requeue_sentinel b in (end_with b.failure o, b')
