-- ===== src/Audio/Capture/Published.antt =====
-- What `stop` of src/pi/audio/capture.py publishes: all that the worker has read.
use g3_voicestock.Base.{
  ℕ, ◌≡◌, refl, sym, ◌∙◌, ap, inl, inr, Bool, true, false, false≢true, ◌&&◌, ◌||◌, not, Option,
  none, some, is_none, List, [], ◌∷◌, ◌++◌, Text, text_eq, Outcome, returned, Bool-cases, All,
  append_assoc, if◌then◌else◌, ==_refl,
}
use g3_voicestock.Audio.Capture.{
  reading, File, Directory, Capture, is_recording, is_alive, is_active, append, remove, end_thread,
  Action, read_returned, act, run, keep_cleanup_error, Ending, fail,
}
use g3_voicestock.Audio.Capture.Worker.{reads_of, concat, written, IsChunk, run-reads}
use g3_voicestock.Audio.Capture.Control.{
  Stopping, find_file, move_file, check_and_move, publish, finish, close_and_publish, stop,
}
use g3_voicestock.Audio.Capture.Rest.{IsRecording}
use g3_voicestock.Audio.Capture.Finish.{publish-calm}

run-append : (l m : List Action) (c : Capture) → run (l ++ m) c ≡ run m (run l c)
unfolding run
run-append [] m c = refl
run-append (a ∷ l) m c = run-append l m (act a c.thread.phase c)

some_injective : {f g : File} → some f ≡ some g → f ≡ g
some_injective h = cc

abbrev longer : List ℕ → File → Option File
longer p f = some (record f { pcm = f.pcm ++ p })

find_file-append :
    (i : Text) (p : List ℕ) (files : List File) (f : File)
    → find_file i files ≡ some f
    → find_file i (append i p files) ≡ some (record f { pcm = f.pcm ++ p })
unfolding find_file
find_file-append i p [] f h = cc
find_file-append i p (g ∷ files) f h = elim (Bool-cases (text_eq g.artifact_id i)) [
  | inl b ↦ let e : some g ≡ some f = rw b at h in rw b (rw b (ap (longer p) (some_injective e)))
  | inr b ↦ rw b (rw b (find_file-append i p files f (rw b at h)))
]

remove-append :
    (i : Text) (p : List ℕ) (files : List File) → remove i (append i p files) ≡ remove i files
remove-append i p [] = refl
remove-append i p (g ∷ files) = elim (Bool-cases (text_eq g.artifact_id i)) [
  | inl b ↦ rw b (rw b (remove-append i p files))
  | inr b ↦ rw b (rw b (rw (remove-append i p files) refl))
]

-- A stop that meets no error: the worker reads `xs` before the backend stops, and `ys` and the end of
-- the stream after it.
abbrev pub quiet_stop : List (List ℕ) → List (List ℕ) → Ending → Stopping
quiet_stop xs ys ending = record {
  before = reads_of xs;
  stop_backend = none;
  joined = reads_of ys ++ read_returned [] none ∷ [];
  close_backend = none;
  close_wav = none;
  valid = none;
  replace = none;
  valid_final = none;
  unlink_final = none;
  unlink_recording = none;
  ending = ending;
}

-- A recording whose worker reads, with no error so far, and what its file holds.
pub record IsReading (c : Capture) (i : Text) (f : File) : Type 0 where
  pub session : IsRecording c i
  pub phase : c.thread.phase ≡ reading
  pub no_error : c.worker_error ≡ none
  pub file : find_file i c.directory.recordings ≡ some f

-- The capture when the worker has read everything.
abbrev drained : Text → List (List ℕ) → List (List ℕ) → Capture → Capture
drained i xs ys c =
    end_thread
      (written i (concat ys) (written i (concat xs) (record c { stop_in_progress = true })))

last_read :
    (c : Capture) → c.thread.phase ≡ reading → run (read_returned [] none ∷ []) c ≡ end_thread c
unfolding run act
last_read c h = rw h refl

drained_lem :
    (c : Capture) (i : Text) (f : File) (xs ys : List (List ℕ))
    → IsReading c i f
    → All IsChunk xs
    → All IsChunk ys
    → run
        (reads_of ys ++ read_returned [] none ∷ [])
        (run (reads_of xs) (record c { stop_in_progress = true }))
      ≡ drained i xs ys c
drained_lem c i f xs ys r h k =
    let c₀ = record c { stop_in_progress = true } in
    let a : is_active c ≡ true = rw (r.session.active) (==_refl c.active_session) in
    let x : run (reads_of xs) c₀ ≡ written i (concat xs) c₀ =
      run-reads xs c₀ i (record { active = a; opened = r.session.wav; reads = r.phase }) h in
    let c₁ = written i (concat xs) c₀ in
    let y : run (reads_of ys) c₁ ≡ written i (concat ys) c₁ =
      run-reads ys c₁ i (record { active = a; opened = r.session.wav; reads = r.phase }) k in
    ap (run (reads_of ys ++ read_returned [] none ∷ [])) x
    ∙ run-append (reads_of ys) (read_returned [] none ∷ []) c₁
    ∙ ap (run (read_returned [] none ∷ [])) y
    ∙ last_read (written i (concat ys) c₁) r.phase

-- The directory once the recording is published.
abbrev pub published : Text → File → List ℕ → Directory → Directory
published i f pcm d = record {
  recordings = remove i d.recordings;
  finals = record f { pcm = f.pcm ++ pcm } ∷ remove i d.finals;
}

move_file-drained :
    (c : Capture) (i : Text) (f : File) (xs ys : List (List ℕ))
    → IsReading c i f
    → move_file i (drained i xs ys c).directory ≡ published i f (concat xs ++ concat ys) c.directory
unfolding move_file
move_file-drained c i f xs ys r =
    let files = c.directory.recordings in
    let x = find_file-append i (concat xs) files f r.file in
    let y = find_file-append i (concat ys) (append i (concat xs) files) _ x in
    rw
      (
        move_file,
        y,
        remove-append i (concat ys) (append i (concat xs) files),
        remove-append i (concat xs) files,
        append_assoc f.pcm (concat xs) (concat ys),
      )
      refl

-- What `stop` does once its waits are over.
abbrev after_join : Stopping → Capture → Outcome Text × Capture
after_join e d =
    if d.worker && is_alive d.thread
    then fail e.ending d
    else close_and_publish e (keep_cleanup_error e.close_backend d)

by_else : {A : Type 0} (b : Bool) (x y : A) → b ≡ false → (if b then x else y) ≡ y
by_else true x y h = absurd (false≢true (sym h))
by_else false x y h = refl

stop-joined :
    (e : Stopping) (c : Capture) (i : Text)
    → IsRecording c i
    → stop e c
      ≡ after_join e (
          run e.joined (
            keep_cleanup_error e.stop_backend
              (run e.before (record c { stop_in_progress = true }))))
unfolding stop
stop-joined e c i r =
    by_else (not (is_recording c.state) || c.stop_in_progress) _ _
      (rw (r.state, r.stop_in_progress) refl)

-- The end of a stop without errors, from a capture whose worker is gone.
close_quiet :
    (xs ys : List (List ℕ)) (ending : Ending) (i : Text) (d : Capture)
    → d.worker_error ≡ none
    → d.cleanup_error ≡ none
    → d.artifact_id ≡ some i
    → ((close_and_publish (quiet_stop xs ys ending) d).0 ≡ returned i)
      × ((close_and_publish (quiet_stop xs ys ending) d).1.directory ≡ move_file i d.directory)
unfolding close_and_publish check_and_move
close_quiet xs ys ending i d w u a =
    let e = quiet_stop xs ys ending in
    let q : close_and_publish e d ≡ finish e (publish e d) =
      by_else (not (is_none d.worker_error)) _ _ (rw w refl)
      ∙ by_else (not (is_none d.cleanup_error)) _ _ (rw u refl) in
    let p = q ∙ ap (finish e) (publish-calm e i d refl a) in
    (ap (λ x. x.0) p, ap (λ x. x.1.directory) p)

-- A recording that meets no error is published whole: the artifact's file holds what the recording held
-- and after it, in order, every chunk that the worker has read, those still queued when the backend
-- was stopped included; the recording's own file is gone, and the other files are as they were.
pub stop_publishes :
    (c : Capture) (i : Text) (f : File) (xs ys : List (List ℕ)) (ending : Ending)
    → IsReading c i f
    → All IsChunk xs
    → All IsChunk ys
    → ((stop (quiet_stop xs ys ending) c).0 ≡ returned i)
      × ((stop (quiet_stop xs ys ending) c).1.directory
          ≡ published i f (concat xs ++ concat ys) c.directory)
unfolding keep_cleanup_error
stop_publishes c i f xs ys ending r h k =
    let e = quiet_stop xs ys ending in
    let d = drained i xs ys c in
    let q : stop e c ≡ close_and_publish e d =
      stop-joined e c i r.session
      ∙ ap (after_join e) (drained_lem c i f xs ys r h k)
      ∙ by_else (d.worker && is_alive d.thread) _ _ (rw (r.session.worker) refl) in
    let (a, b) =
      close_quiet xs ys ending i d r.no_error r.session.cleanup_error r.session.artifact_id in
    (ap (λ x. x.0) q ∙ a, ap (λ x. x.1.directory) q ∙ b ∙ move_file-drained c i f xs ys r)
