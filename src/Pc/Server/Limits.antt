-- ===== src/Pc/Server/Limits.antt =====
-- The limit on the body of a request (`_read_limited_body` of src/pc/communication/server.py).
use g3_voicestock.Base.{
  ℕ, ◌+◌, ◌≤◌, ◌≡◌, sym, ◌∙◌, ap, Option, none, some, List, [], ◌∷◌, ◌++◌, length, length-append,
  append_assoc, append-nil, ltb, returned, bind, arith, Bool-cases, inl, inr, if◌then◌else◌,
}
use g3_voicestock.Pc.Server.{Bytes, Request, declares_more, read_chunks, read_limited_body, whole}

-- A body within the limit, and nothing of one beyond it.
abbrev pub within : ℕ → Bytes → Option Bytes
within limit body = if ltb limit (length body) then none else some body

read_chunks-within :
    (limit : ℕ) (body : Bytes) (chunks : List Bytes)
    → length body ≤ limit
    → read_chunks limit body chunks ≡ within limit (body ++ whole chunks)
unfolding read_chunks
read_chunks-within limit body [] h = rw (append-nil body) (ground (arith, h))
read_chunks-within limit body (c ∷ rest) h =
    let e : length ((body ++ c) ++ whole rest) ≡ length (body ++ c) + length (whole rest) =
      length-append (body ++ c) (whole rest) in
    elim (Bool-cases (ltb limit (length (body ++ c)))) [
      | inl o ↦ rw o (rw (sym (append_assoc body c (whole rest))) (ground (arith, o, e)))
      | inr o ↦ rw o (
          read_chunks-within limit (body ++ c) rest (ground (arith, o))
          ∙ ap (within limit) (append_assoc body c (whole rest)))
    ]

-- Unless the declared length fails or is beyond the limit already, the body that is read is the chunks
-- put together, whatever their sizes, if that is within the limit, and nothing otherwise.
pub read_limited_body_lem :
    (limit : ℕ) (r : Request)
    → read_limited_body limit r
      ≡ bind
          (declares_more limit r.content_length)
          (λ more. returned (if more then none else within limit (whole r.chunks)))
unfolding read_limited_body
read_limited_body_lem limit r = rw (read_chunks-within limit [] r.chunks (omega arith))
