-- ===== src/Audio/Buffer/Shape.antt =====
-- The shape of the queue of `_PcmBuffer` (src/pi/audio/sounddevice_backend.py): blocks, and the sentinel
-- at the end.
use g3_voicestock.Base.{
  ◌+◌, ◌≡◌, refl, ap, Bool, true, false, List, [], ◌∷◌, ◌++◌, length, arith, if◌then◌else◌,
}
use g3_voicestock.Audio.Buffer.{Block, Item, block, sentinel}

-- The blocks of a queue, in order.
abbrev pub blocks : List Item → List Block
blocks [] = []
blocks (block x ∷ rest) = x ∷ blocks rest
blocks (sentinel ∷ rest) = blocks rest

-- A queue of blocks, with the sentinel at its end if `b` says so.
abbrev pub IsQueue : Bool → List Item → Type 0
IsQueue b [] = b ≡ false
IsQueue b (block x ∷ rest) = IsQueue b rest
IsQueue b (sentinel ∷ rest) = (b ≡ true) × (rest ≡ [])

pub blocks-append : (q : List Item) (x : Block) → blocks (q ++ block x ∷ []) ≡ blocks q ++ x ∷ []
blocks-append [] x = refl
blocks-append (block y ∷ q) x = ap (λ l. y ∷ l) (blocks-append q x)
blocks-append (sentinel ∷ q) x = blocks-append q x

pub blocks-append_sentinel : (q : List Item) → blocks (q ++ sentinel ∷ []) ≡ blocks q
blocks-append_sentinel [] = refl
blocks-append_sentinel (block y ∷ q) = ap (λ l. y ∷ l) (blocks-append_sentinel q)
blocks-append_sentinel (sentinel ∷ q) = blocks-append_sentinel q

pub IsQueue-append :
    (q : List Item) (x : Block) → IsQueue false q → IsQueue false (q ++ block x ∷ [])
IsQueue-append [] x h = refl
IsQueue-append (block y ∷ q) x h = IsQueue-append q x h
IsQueue-append (sentinel ∷ q) x h = ground arith

pub IsQueue-append_sentinel : (q : List Item) → IsQueue false q → IsQueue true (q ++ sentinel ∷ [])
IsQueue-append_sentinel [] h = (refl, refl)
IsQueue-append_sentinel (block y ∷ q) h = IsQueue-append_sentinel q h
IsQueue-append_sentinel (sentinel ∷ q) h = ground arith

pub length-IsQueue :
    (b : Bool) (q : List Item) → IsQueue b q → length q ≡ length (blocks q) + (if b then 1 else 0)
length-IsQueue b [] h = rw h
length-IsQueue b (block x ∷ q) h = ground (arith, length-IsQueue b q h)
length-IsQueue b (sentinel ∷ q) (h, k) = rw (h, k)

pub length-append_one : (l : List Block) (x : Block) → length (l ++ x ∷ []) ≡ length l + 1
length-append_one [] x = refl
length-append_one (y ∷ l) x = ground (arith, length-append_one l x)
