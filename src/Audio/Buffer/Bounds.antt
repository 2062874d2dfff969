-- ===== src/Audio/Buffer/Bounds.antt =====
-- The queue never overflows its own bound, and it loses and reorders nothing (`_PcmBuffer` of
-- src/pi/audio/sounddevice_backend.py).
use mathlib.Core.Path.{subst}
use g3_voicestock.Base.{
  ℕ, ◌+◌, ◌-◌, ◌≡◌, refl, sym, ◌∙◌, ap, false, Option, none, some, List, [], ◌∷◌, length, Exc,
  returned, arith,
}
use g3_voicestock.Audio.Buffer.{
  Block, bytes, not_audio, Item, block, sentinel, Buffer, put_nowait, put, fail, close, take,
  after_take, end_with,
}
use g3_voicestock.Audio.Buffer.Shape.{blocks}
use g3_voicestock.Audio.Buffer.Methods.{
  Stream, Step, produced, failed, stopped, took, accounted, IsBounded, put-IsBounded,
  fail-IsBounded, close-IsBounded,
}

some_pair :
    {x y : Item} {c d : Buffer}
    → ◌≡◌ {A = Option (Item × Buffer)} (some (x, c)) (some (y, d))
    → (x ≡ y) × (c ≡ d)
some_pair k = (cc, cc)

-- What `get` takes.
pub take_cons :
    (b : Buffer) (i : Item) (b' : Buffer)
    → take b ≡ some (i, b')
    → (rest : List Item) × (b.queue ≡ i ∷ rest) × (b' ≡ record b { queue = rest })
unfolding take
take_cons b i b' h = by_queue b.queue refl
  where
    by_queue :
        (q : List Item)
        → b.queue ≡ q
        → (rest : List Item) × (b.queue ≡ i ∷ rest) × (b' ≡ record b { queue = rest })
    by_queue [] e = absurd (ground arith)
    by_queue (j ∷ rest) e =
        let (k, l) = some_pair (rw e at h) in (rest, e ∙ ap (λ x. x ∷ rest) k, sym l)

module _ (b : Buffer) (rest : List Item) (h : IsBounded (record { buffer = b; held = none })) where
  took_block :
      (x : Block)
      → b.queue ≡ block x ∷ rest
      → IsBounded (record { buffer = record b { queue = rest }; held = some (block x) })
  took_block x e = record {
    shape = rw e at h.shape;
    counted = ground (arith, h.counted ∙ ap (λ q. length (blocks q) + 0) e);
    bounded = h.bounded;
    ended = h.ended;
    stored = h.stored;
    last = λ k. cc;
  }

  took_sentinel :
      b.queue ≡ sentinel ∷ rest
      → IsBounded (record { buffer = record b { queue = rest }; held = some sentinel })
  took_sentinel e =
      let (q, r) = (rw e at h.shape) in
      record {
        shape = rw r refl;
        counted = ground (arith, h.counted ∙ ap (λ q. length (blocks q) + 0) e);
        bounded = h.bounded;
        ended = h.ended;
        stored = h.stored;
        last = λ k. (r, q);
      }

accounted_block :
    (b : Buffer) (x : Block)
    → IsBounded (record { buffer = b; held = some (block x) })
    → IsBounded (record { buffer = record b { depth = b.depth - 1 }; held = none })
accounted_block b x h = record {
  shape = h.shape;
  counted = ground (arith, h.counted);
  bounded = ground (arith, h.bounded);
  ended = h.ended;
  stored = h.stored;
  last = λ k. cc;
}

accounted_sentinel :
    (b : Buffer)
    → IsBounded (record { buffer = b; held = some sentinel })
    → (after_take sentinel b).1 ≡ record b { queue = sentinel ∷ [] }
unfolding after_take put_nowait
accounted_sentinel b h = let (e, q) = h.last refl in ground (arith, e, q)

back_to_end :
    (b : Buffer)
    → IsBounded (record { buffer = b; held = some sentinel })
    → IsBounded (record { buffer = record b { queue = sentinel ∷ [] }; held = none })
back_to_end b h =
    let (e, q) = h.last refl in
    record {
      shape = (q, refl);
      counted = h.counted ∙ ap (λ q. length (blocks q) + 0) e;
      bounded = h.bounded;
      ended = h.ended;
      stored = h.stored;
      last = λ k. cc;
    }

at_held :
    (s : Stream) (o : Option Item)
    → s.held ≡ o
    → IsBounded s
    → IsBounded (record { buffer = s.buffer; held = o })
at_held s o e h = subst (λ o. IsBounded (record { buffer = s.buffer; held = o })) e h

took-IsBounded :
    (b : Buffer) (i : Item) (rest : List Item)
    → IsBounded (record { buffer = b; held = none })
    → b.queue ≡ i ∷ rest
    → IsBounded (record { buffer = record b { queue = rest }; held = some i })
took-IsBounded b (block x) rest h e = took_block b rest h x e
took-IsBounded b sentinel rest h e = took_sentinel b rest h e

accounted-IsBounded :
    (b : Buffer) (i : Item)
    → IsBounded (record { buffer = b; held = some i })
    → IsBounded (record { buffer = (after_take i b).1; held = none })
unfolding after_take
accounted-IsBounded b (block (bytes x)) h = accounted_block b (bytes x) h
accounted-IsBounded b (block not_audio) h = accounted_block b not_audio h
accounted-IsBounded b sentinel h =
    subst (λ c. IsBounded (record { buffer = c; held = none })) (sym (accounted_sentinel b h))
      (back_to_end b h)

pub Step-IsBounded : {s t : Stream} → Step s t → IsBounded s → IsBounded t
Step-IsBounded {s} (produced x e) h = rw e ((put-IsBounded s h x).1)
Step-IsBounded {s} (failed x e) h = rw e ((fail-IsBounded s h x).1)
Step-IsBounded {s} (stopped e) h = rw e ((close-IsBounded s h).1)
Step-IsBounded {s} (took i b n k e) h =
    let (rest, q, r) = take_cons s.buffer i b k in
    rw e (rw r (took-IsBounded s.buffer i rest (at_held s none n h) q))
Step-IsBounded {s} (accounted i n e) h =
    rw e (accounted-IsBounded s.buffer i (at_held s (some i) n h))

pub data Reach (s : Stream) : Stream → Type 0 where
  here : Reach s s
  next : {t r : Stream} → Reach s t → Step t r → Reach s r

abbrev pub start : ℕ → Stream
start n = record {
  buffer = record {
    capacity = n;
    queue = [];
    depth = 0;
    closed = false;
    failure = none;
    sentinel_queued = false;
  };
  held = none;
}

pub Reach-IsBounded : {n : ℕ} {s : Stream} → Reach (start n) s → IsBounded s
Reach-IsBounded here = record {
  shape = refl;
  counted = refl;
  bounded = omega arith;
  ended = refl;
  stored = λ e. cc;
  last = λ e. cc;
}
Reach-IsBounded (next r k) = Step-IsBounded k (Reach-IsBounded r)

-- From an empty buffer of any capacity, over any interleaving of the producer, the failures, the
-- shutdown and the consumer: the depth counts the blocks that are queued or being delivered and stays
-- within the capacity, the sentinel stands at the end of the queue exactly while the buffer is closed
-- and it is not in the consumer's hands, and `put`, `fail` and `close` return, never with `queue.Full`.
pub buffer-IsBounded :
    {n : ℕ} {s : Stream} (x : Block) (e : Exc)
    → Reach (start n) s
    → IsBounded s
      × ((put x s.buffer).0 ≡ returned tt)
      × ((fail e s.buffer).0 ≡ returned tt)
      × ((close s.buffer).0 ≡ returned tt)
buffer-IsBounded {n} {s} x e r =
    let h = Reach-IsBounded r in
    (h, (put-IsBounded s h x).0, (fail-IsBounded s h e).0, (close-IsBounded s h).0)

-- In a reachable state whose consumer holds the sentinel, `get` puts it back and ends the stream: with
-- the stored failure, or with no bytes after a normal stop. The next `get` takes it again.
pub get_ends :
    {n : ℕ} {s : Stream}
    → Reach (start n) s
    → s.held ≡ some sentinel
    → (after_take sentinel s.buffer
        ≡ (end_with s.buffer.failure (returned tt), record s.buffer { queue = sentinel ∷ [] }))
      × (take (record s.buffer { queue = sentinel ∷ [] })
          ≡ some (sentinel, record s.buffer { queue = [] }))
unfolding after_take put_nowait take
get_ends {n} {s} r k =
    let (e, q) = (at_held s (some sentinel) k (Reach-IsBounded r)).last refl in
    (ground (arith, e, q), refl)
