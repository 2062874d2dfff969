-- ===== src/Audio/Capture/Worker.antt =====
-- What the worker of src/pi/audio/capture.py can change (`_run` and `_write_chunk`).
use g3_voicestock.Base.{
  ℕ, ◌≡◌, refl, ◌∙◌, ap, ◌⊎◌, inl, inr, true, false, Option, none, some, List, [], ◌∷◌, ◌++◌, Text,
  text_eq, returned, raised, Exc, arith, Bool-cases, append_assoc, append-nil, not, ◌||◌, is_none,
  All, ◌≢◌,
}
use g3_voicestock.Audio.Capture.{
  ThreadPhase, starting, reading, ended, File, Capture, Done, is_active, is_aligned, append,
  worker_fails, startup_fails, write_frames, write_chunk, Action, start_returned, start_raised,
  read_returned, read_raised, after_write, act, run,
}

-- What an action leaves as it was.
pub record Kept (c d : Capture) : Type 0 where
  pub state : d.state ≡ c.state
  pub stop_in_progress : d.stop_in_progress ≡ c.stop_in_progress
  pub worker : d.worker ≡ c.worker
  pub orphaned : d.orphaned ≡ c.orphaned
  pub session : d.thread.session ≡ c.thread.session
  pub cleanup_error : d.cleanup_error ≡ c.cleanup_error
  pub wav : d.wav ≡ c.wav
  pub active_session : d.active_session ≡ c.active_session
  pub recording_closed : d.recording_closed ≡ c.recording_closed
  pub artifact_id : d.artifact_id ≡ c.artifact_id
  pub finals : d.directory.finals ≡ c.directory.finals

Kept-refl : (c : Capture) → Kept c c
Kept-refl c = ground arith

Kept-trans : (c d e : Capture) → Kept c d → Kept d e → Kept c e
Kept-trans c d e h k = ground arith

worker_fails-Kept : (e : Exc) (c : Capture) → Kept c (worker_fails e c)
unfolding worker_fails
worker_fails-Kept e c = ground arith

write_frames-Kept :
    (pcm : List ℕ) (error : Option Exc) (i : Option Text) (c : Capture)
    → Kept c (write_frames pcm error i c).1
write_frames-Kept pcm (some e) i c = Kept-refl c
write_frames-Kept pcm none none c = Kept-refl c
write_frames-Kept pcm none (some i) c = ground arith

write_chunk-Kept :
    (pcm : List ℕ) (error : Option Exc) (c : Capture) → Kept c (write_chunk pcm error c).1
unfolding write_chunk
write_chunk-Kept pcm error c = elim (Bool-cases (is_aligned pcm)) [
  | inr b ↦ rw b (Kept-refl c)
  | inl b ↦ elim (Bool-cases (not (is_active c) || is_none c.wav)) [
    | inl s ↦ rw (b, s) (Kept-refl c)
    | inr s ↦ rw (b, s) (write_frames-Kept pcm error c.wav c)
  ]
]

after_write-Kept : (c : Capture) (w : Done) → Kept c w.1 → Kept c (after_write w)
after_write-Kept c (returned _, d) h = h
after_write-Kept c (raised e, d) h = Kept-trans c d (worker_fails e d) h (worker_fails-Kept e d)

act-Kept : (a : Action) (p : ThreadPhase) (c : Capture) → Kept c (act a p c)
unfolding act startup_fails
act-Kept start_returned starting c = ground arith
act-Kept start_returned reading c = Kept-refl c
act-Kept start_returned ended c = Kept-refl c
act-Kept (start_raised e) starting c = ground arith
act-Kept (start_raised e) reading c = Kept-refl c
act-Kept (start_raised e) ended c = Kept-refl c
act-Kept (read_returned [] error) reading c = ground arith
act-Kept (read_returned [] error) starting c = Kept-refl c
act-Kept (read_returned [] error) ended c = Kept-refl c
act-Kept (read_returned (b ∷ pcm) error) starting c = Kept-refl c
act-Kept (read_returned (b ∷ pcm) error) ended c = Kept-refl c
act-Kept (read_returned (b ∷ pcm) error) reading c =
    after_write-Kept c (write_chunk (b ∷ pcm) error c) (write_chunk-Kept (b ∷ pcm) error c)
act-Kept (read_raised e) reading c = worker_fails-Kept e c
act-Kept (read_raised e) starting c = Kept-refl c
act-Kept (read_raised e) ended c = Kept-refl c

-- The worker touches neither the state nor the published files, nor what is open.
pub run-Kept : (l : List Action) (c : Capture) → Kept c (run l c)
unfolding run
run-Kept [] c = Kept-refl c
run-Kept (a ∷ rest) c =
    Kept-trans c (act a c.thread.phase c) (run rest (act a c.thread.phase c))
      (act-Kept a c.thread.phase c) (run-Kept rest (act a c.thread.phase c))

-- Nothing is open for the session: it is not the one in progress, or the recording is closed.
abbrev pub IsShut : Capture → Type 0
IsShut c = (is_active c ≡ false) ⊎ ((c.wav ≡ none) × (c.recording_closed ≡ true))

shut_lem : (c : Capture) → IsShut c → not (is_active c) || is_none c.wav ≡ true
shut_lem c (inl h) = rw h refl
shut_lem c (inr (w, r)) = elim (Bool-cases (is_active c)) [
  | inl b ↦ rw (b, w) refl
  | inr b ↦ rw b refl
]

-- A chunk that is read then is thrown away.
write_chunk-IsShut :
    (pcm : List ℕ) (error : Option Exc) (c : Capture) → IsShut c → (write_chunk pcm error c).1 ≡ c
unfolding write_chunk
write_chunk-IsShut pcm error c h = elim (Bool-cases (is_aligned pcm)) [
  | inr b ↦ rw b refl
  | inl b ↦ rw (b, shut_lem c h) refl
]

worker_fails-directory : (e : Exc) (c : Capture) → (worker_fails e c).directory ≡ c.directory
unfolding worker_fails
worker_fails-directory e c = ground arith

after_write-directory : (w : Done) → (after_write w).directory ≡ w.1.directory
after_write-directory (returned _, c) = refl
after_write-directory (raised e, c) = worker_fails-directory e c

act-IsShut :
    (a : Action) (p : ThreadPhase) (c : Capture) → IsShut c → (act a p c).directory ≡ c.directory
unfolding act startup_fails
act-IsShut start_returned starting c h = refl
act-IsShut start_returned reading c h = refl
act-IsShut start_returned ended c h = refl
act-IsShut (start_raised e) starting c h = ground arith
act-IsShut (start_raised e) reading c h = refl
act-IsShut (start_raised e) ended c h = refl
act-IsShut (read_returned [] error) reading c h = refl
act-IsShut (read_returned [] error) starting c h = refl
act-IsShut (read_returned [] error) ended c h = refl
act-IsShut (read_returned (b ∷ pcm) error) starting c h = refl
act-IsShut (read_returned (b ∷ pcm) error) ended c h = refl
act-IsShut (read_returned (b ∷ pcm) error) reading c h =
    after_write-directory (write_chunk (b ∷ pcm) error c)
    ∙ ap (λ (d : Capture). d.directory) (write_chunk-IsShut (b ∷ pcm) error c h)
act-IsShut (read_raised e) reading c h = worker_fails-directory e c
act-IsShut (read_raised e) starting c h = refl
act-IsShut (read_raised e) ended c h = refl

Kept-IsShut : (c d : Capture) → Kept c d → IsShut c → IsShut d
Kept-IsShut c d k (inl h) = inl (rw (k.session, k.active_session) h)
Kept-IsShut c d k (inr (w, r)) = inr (k.wav ∙ w, k.recording_closed ∙ r)

-- A worker whose session is not the one in progress, or that goes on after its recording was closed,
-- writes nothing, whatever it reads.
pub run-IsShut : (l : List Action) (c : Capture) → IsShut c → (run l c).directory ≡ c.directory
unfolding run
run-IsShut [] c h = refl
run-IsShut (a ∷ rest) c h =
    run-IsShut rest (act a c.thread.phase c) (Kept-IsShut c _ (act-Kept a c.thread.phase c) h)
    ∙ act-IsShut a c.thread.phase c h

-- A recording in progress: its file is open for the worker's session.
pub record IsWriting (c : Capture) (i : Text) : Type 0 where
  pub active : is_active c ≡ true
  pub opened : c.wav ≡ some i
  pub reads : c.thread.phase ≡ reading

-- The actions that hand over chunks of whole frames, with no error of the file.
abbrev pub reads_of : List (List ℕ) → List Action
reads_of [] = []
reads_of (pcm ∷ rest) = read_returned pcm none ∷ reads_of rest

abbrev pub concat : List (List ℕ) → List ℕ
concat [] = []
concat (pcm ∷ rest) = pcm ++ concat rest

-- The capture with more PCM in its file.
abbrev pub written : Text → List ℕ → Capture → Capture
written i pcm c = record c {
  directory = record {
    recordings = append i pcm c.directory.recordings;
    finals = c.directory.finals;
  };
}

abbrev pub IsChunk : List ℕ → Type 0
IsChunk pcm = (is_aligned pcm ≡ true) × (pcm ≢ [])

act-writes :
    (pcm : List ℕ) (c : Capture) (i : Text)
    → IsWriting c i
    → IsChunk pcm
    → act (read_returned pcm none) c.thread.phase c ≡ written i pcm c
unfolding act write_chunk
act-writes [] c i w h = absurd (h.1 refl)
act-writes (b ∷ pcm) c i w h = rw (w.reads, h.0, w.active, w.opened) refl

append-append :
    (i : Text) (p q : List ℕ) (files : List File)
    → append i q (append i p files) ≡ append i (p ++ q) files
append-append i p q [] = refl
append-append i p q (f ∷ files) = elim (Bool-cases (text_eq f.artifact_id i)) [
  | inl b ↦ rw b (rw (b, append-append i p q files, append_assoc f.pcm p q) refl)
  | inr b ↦ rw b (rw (b, append-append i p q files) refl)
]

append_none : (i : Text) (files : List File) → append i [] files ≡ files
append_none i [] = refl
append_none i (f ∷ files) = elim (Bool-cases (text_eq f.artifact_id i)) [
  | inl b ↦ rw (b, append_none i files, append-nil f.pcm) refl
  | inr b ↦ rw (b, append_none i files) refl
]

-- Chunks of whole frames that the worker reads from an open recording are all written, in order.
pub run-reads :
    (chunks : List (List ℕ)) (c : Capture) (i : Text)
    → IsWriting c i
    → All IsChunk chunks
    → run (reads_of chunks) c ≡ written i (concat chunks) c
unfolding run
run-reads [] c i w h = rw (append_none i c.directory.recordings) refl
run-reads (pcm ∷ rest) c i w h =
    rw (act-writes pcm c i w h.0, run)
      (run-reads rest (written i pcm c) i
          (record { active = w.active; opened = w.opened; reads = w.reads }) h.1
        ∙ (rw (append-append i pcm (concat rest) c.directory.recordings) refl))
