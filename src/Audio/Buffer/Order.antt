-- ===== src/Audio/Buffer/Order.antt =====
-- The PCM queue is first in, first out (`_PcmBuffer` of src/pi/audio/sounddevice_backend.py).
use g3_voicestock.Base.{
  ℕ, ◌≡◌, refl, sym, ◌∙◌, ap, ◌⊎◌, inl, inr, true, Option, none, some, List, [], ◌∷◌, ◌++◌, leb,
  Exc, arith, Bool-cases,
}
use g3_voicestock.Audio.Buffer.{
  Block, bytes, not_audio, Item, block, sentinel, Buffer, put, fail, close, after_take, put_nowait,
}
use g3_voicestock.Audio.Buffer.Shape.{blocks, blocks-append, blocks-append_sentinel}
use g3_voicestock.Audio.Buffer.Methods.{
  Stream, Step, produced, failed, stopped, took, accounted, IsBounded, put_open, put_full,
  fail_open, close_open, put_closed, close_closed, fail_closed, open_length, open_failure,
}
use g3_voicestock.Audio.Buffer.Bounds.{Reach, start, Reach-IsBounded, take_cons}

-- The block that is being delivered.
abbrev pub in_hand : Option Item → List Block
in_hand (some (block x)) = x ∷ []
in_hand _ = []

-- The blocks that were accepted and are not delivered yet, the oldest first.
abbrev pub outstanding : Stream → List Block
outstanding s = in_hand s.held ++ blocks s.buffer.queue

-- What a step may do to them: a block that is put goes to the end, or is refused and the buffer is
-- closed; a block that is delivered was the first; nothing else changes them.
abbrev pub Moves : {s t : Stream} → Step s t → Type 0
Moves {s} {t} (produced x _) =
    (outstanding t ≡ outstanding s ++ x ∷ [])
    ⊎ ((outstanding t ≡ outstanding s) × (t.buffer.closed ≡ true))
Moves {s} {t} (failed _ _) = outstanding t ≡ outstanding s
Moves {s} {t} (stopped _) = outstanding t ≡ outstanding s
Moves {s} {t} (took _ _ _ _ _) = outstanding t ≡ outstanding s
Moves {s} {t} (accounted i _ _) = outstanding s ≡ in_hand (some i) ++ outstanding t

append_assoc : (a b c : List Block) → a ++ (b ++ c) ≡ (a ++ b) ++ c
append_assoc [] b c = refl
append_assoc (x ∷ a) b c = ap (λ l. x ∷ l) (append_assoc a b c)

module _ (s : Stream) (h : IsBounded s) where
  put_moves :
      (x : Block)
      → (in_hand s.held ++ blocks (put x s.buffer).1.queue ≡ outstanding s ++ x ∷ [])
        ⊎ ((in_hand s.held ++ blocks (put x s.buffer).1.queue ≡ outstanding s)
            × ((put x s.buffer).1.closed ≡ true))
  put_moves x = elim (Bool-cases s.buffer.closed) [
    | inl c ↦ rw (put_closed s.buffer c (sym h.ended ∙ c) x) (inr (refl, c))
    | inr c ↦ elim (Bool-cases (leb s.buffer.capacity s.buffer.depth)) [
      | inl d ↦
          rw
            (put_full s.buffer (open_length s h c) c x (open_failure s h c) (sym h.ended ∙ c)
              (ground (arith, d)))
            (inr (ap (λ l. in_hand s.held ++ l) (blocks-append_sentinel s.buffer.queue), refl))
      | inr d ↦
          rw (put_open s.buffer (open_length s h c) c x (open_failure s h c) (ground (arith, d))) (
            inl (
              ap (λ l. in_hand s.held ++ l) (blocks-append s.buffer.queue x)
              ∙ append_assoc (in_hand s.held) (blocks s.buffer.queue) (x ∷ [])))
    ]
  ]

  fail_moves : (e : Exc) → blocks (fail e s.buffer).1.queue ≡ blocks s.buffer.queue
  fail_moves e = elim (Bool-cases s.buffer.closed) [
    | inl c ↦ rw (fail_closed s.buffer c (sym h.ended ∙ c) e)
    | inr c ↦
        rw (fail_open s.buffer (open_length s h c) c e (open_failure s h c) (sym h.ended ∙ c))
          (blocks-append_sentinel s.buffer.queue)
  ]

  close_moves : blocks (close s.buffer).1.queue ≡ blocks s.buffer.queue
  close_moves = elim (Bool-cases s.buffer.closed) [
    | inl c ↦ rw (close_closed s.buffer c (sym h.ended ∙ c))
    | inr c ↦
        rw (close_open s.buffer (open_length s h c) c (open_failure s h c) (sym h.ended ∙ c))
          (blocks-append_sentinel s.buffer.queue)
  ]

blocks-cons : (i : Item) (q : List Item) → blocks (i ∷ q) ≡ in_hand (some i) ++ blocks q
blocks-cons (block x) q = refl
blocks-cons sentinel q = refl

after_take_moves : (i : Item) (b : Buffer) → blocks (after_take i b).1.queue ≡ blocks b.queue
unfolding after_take put_nowait
after_take_moves (block (bytes x)) b = refl
after_take_moves (block not_audio) b = refl
after_take_moves sentinel b = ground (arith, blocks-append_sentinel b.queue)

took_moves :
    (s : Stream) (b : Buffer) (i : Item) (rest : List Item)
    → s.held ≡ none
    → s.buffer.queue ≡ i ∷ rest
    → b ≡ record s.buffer { queue = rest }
    → in_hand (some i) ++ blocks b.queue ≡ outstanding s
took_moves s b i rest k u v = rw (v, k, u) (sym (blocks-cons i rest))

-- In every state that an empty buffer can reach, blocks are delivered in the order in which they were
-- accepted, each once: a block that is put goes to the end of those outstanding, or is refused with
-- the buffer closed; a block that is delivered was the first; no other step changes them.
pub Step-Moves : {n : ℕ} {s t : Stream} → Reach (start n) s → (k : Step s t) → Moves k
Step-Moves {n} {s} {t} r (produced x e) = rw e (put_moves s (Reach-IsBounded r) x)
Step-Moves {n} {s} r (failed e q) =
    rw q (ap (λ l. in_hand s.held ++ l) (fail_moves s (Reach-IsBounded r) e))
Step-Moves {n} {s} r (stopped q) =
    rw q (ap (λ l. in_hand s.held ++ l) (close_moves s (Reach-IsBounded r)))
Step-Moves {n} {s} r (took i b k h q) =
    let (rest, u, v) = take_cons s.buffer i b h in rw q (took_moves s b i rest k u v)
Step-Moves {n} {s} r (accounted i k q) =
    rw (q, k) (ap (λ l. in_hand (some i) ++ l) (sym (after_take_moves i s.buffer)))
