-- ===== src/Store/Opening/Closed.antt =====
-- What `open_database` leaves behind (src/pi/storage/migrations.py, src/pi/storage/database.py).
use mathlib.Core.Path.{subst}
use g3_voicestock.Base.{
  ◌≡◌, refl, sym, ◌∙◌, inl, inr, true, false, ◌&&◌, ◌||◌, Option, none, some, List, [], ◌∷◌, ◌++◌,
  map, some_of, Outcome-cases, false≢true, Outcome-injective, Text, text_eq, text_eq_refl, strip,
  is_empty, str, ℤ, Outcome, returned, raised, Exc, arith, Bool-cases, All, raised-ne-returned,
}
use g3_voicestock.Store.Migrations.{Migration, Connection, Answers, apply_migrations}
use g3_voicestock.Store.Migrations.History.{
  Applied, apply_migrations-Applied, apply_migrations-committed,
}
use g3_voicestock.Store.Opening.{
  Parts, parts_eq, parents, parent, is_under, ensure_persistent_path, Opening, Opened,
  setting_error, configured, connected, connect_in, connect, close_on_error, migrate_opened,
  open_database,
}

-- The path lies in the directory, or is it.
abbrev pub IsIn : Parts → Parts → Type 0
IsIn root p = (rest : Parts) × (p ≡ root ++ rest)

some_of-map :
    (a : Text) (r : Parts) (b : Text) (l : List Parts)
    → some_of (parts_eq (a ∷ r)) (map (λ q. b ∷ q) l) ≡ text_eq a b && some_of (parts_eq r) l
some_of-map a r b [] = ground arith
some_of-map a r b (q ∷ l) = ground (arith, some_of-map a r b l)

is_under-step :
    (a : Text) (r : Parts) (b : Text) (p : Parts)
    → is_under (b ∷ p) (a ∷ r) ≡ text_eq a b && is_under p r
unfolding is_under
is_under-step a r b p = rw (some_of-map a r b (parents p)) (ground arith)

parts_eq_refl : (p : Parts) → parts_eq p p ≡ true
parts_eq_refl [] = refl
parts_eq_refl (a ∷ p) = rw (text_eq_refl a) (parts_eq_refl p)

is_under-append : (root rest : Parts) → is_under (root ++ rest) root ≡ true
unfolding is_under
is_under-append [] [] = refl
is_under-append [] (a ∷ rest) = refl
is_under-append (a ∷ root) rest =
    is_under-step a root a (root ++ rest) ∙ (rw (text_eq_refl a) (is_under-append root rest))

not-IsIn :
    (p : Parts) (roots : List Parts)
    → some_of (is_under p) roots ≡ false
    → All (λ root. ¬ IsIn root p) roots
not-IsIn p [] h = tt
not-IsIn p (root ∷ roots) h = (
  λ (rest, e).
      let u : is_under p root ≡ false = ground (arith, h) in
      absurd (false≢true (sym u ∙ (rw e (is_under-append root rest)))),
  not-IsIn p roots (ground (arith, h)),
)

-- A path is accepted only when no volatile root holds it or is it; the answer is the resolved path.
pub ensure_persistent_path-returned :
    (resolve : Text → Parts) (roots : List Parts) (path : Text) (p : Parts)
    → ensure_persistent_path resolve roots path ≡ returned p
    → (p ≡ resolve path) × All (λ root. ¬ IsIn root p) roots
unfolding ensure_persistent_path
ensure_persistent_path-returned resolve roots path p h =
    elim (Bool-cases (is_empty (strip path) || text_eq (strip path) (str ":memory:"))) [
      | inl e ↦ absurd (raised-ne-returned (rw e at h))
      | inr e ↦ elim (Bool-cases (some_of (is_under (resolve path)) roots)) [
        | inl u ↦ absurd (raised-ne-returned (rw (e, u) at h))
        | inr u ↦
            let q : resolve path ≡ p = Outcome-injective (rw (e, u) at h) in
            (sym q, not-IsIn p roots (rw q at u))
      ]
    ]

module _ {D : Type 0} (execute : Text → D → Outcome D) where
  -- The connection that an opening made and gave up: it is closed, with no transaction, and what is
  -- committed is what the file held.
  abbrev pub Left : Parts → Opening D → Option (Connection D) → Type 0
  Left p o none = Unit
  Left p o (some k) =
      (k₀ : Connection D) × (o.connection p ≡ returned k₀)
      × (k.is_open ≡ false)
      × (k.working ≡ none)
      × (k.committed ≡ k₀.committed)

  -- What an opening hands over: the connection it made, with the migrations applied to its file.
  abbrev pub Handed : Parts → Opening D → List Migration → Option (Connection D) → Type 0
  Handed p o ms none = ⊥
  Handed p o ms (some k) =
      (k₀ : Connection D) × (vs : List ℤ) × (o.connection p ≡ returned k₀)
      × Applied execute ms k₀.committed k.committed vs
      × (k.working ≡ none)

  -- The two ends of an opening.
  abbrev pub Ends : Parts → Opening D → List Migration → Opened D → Type 0
  Ends p o ms (returned _, k) = Handed p o ms k
  Ends p o ms (raised _, k) = Left p o k

  close_on_error-Ends :
      (p : Parts) (o : Opening D) (ms : List Migration) (k : Connection D)
      (w : Outcome (List ℤ) × Connection D)
      → o.connection p ≡ returned k
      → ((vs : List ℤ)
          → w.0 ≡ returned vs
          → Applied execute ms k.committed w.1.committed vs × (w.1.working ≡ none))
      → ((e : Exc) → w.0 ≡ raised e → w.1.committed ≡ k.committed)
      → Ends p o ms (close_on_error execute w)
  close_on_error-Ends p o ms k (returned vs, k') c f g = let (d, n) = f vs refl in (k, vs, c, d, n)
  close_on_error-Ends p o ms k (raised e, k') c f g = (k, c, refl, refl, g e refl)

  configured-Ends :
      (a : Answers) (ms : List Migration) (p : Parts) (o : Opening D) (k : Connection D)
      (s : Option Exc)
      → o.connection p ≡ returned k
      → Ends p o ms (migrate_opened execute a ms (configured s k))
  configured-Ends a ms p o k (some e) c = (k, c, refl, refl, refl)
  configured-Ends a ms p o k none c =
      close_on_error-Ends p o ms k (apply_migrations execute a ms k) c
        (λ vs h.
          let (d, _, n) =
            apply_migrations-Applied execute a ms k (apply_migrations execute a ms k).1 vs
              (rw⁻¹ h refl) in
          (d, n))
        (λ e h. apply_migrations-committed execute a ms k e h)

  connected-Ends :
      (a : Answers) (ms : List Migration) (p : Parts) (o : Opening D) (c : Outcome (Connection D))
      → o.connection p ≡ c
      → Ends p o ms (migrate_opened execute a ms (connected o c))
  connected-Ends a ms p o (raised e) h = tt
  connected-Ends a ms p o (returned k) h = configured-Ends a ms p o k (setting_error o) h

  connect_in-Ends :
      (a : Answers) (ms : List Migration) (p : Parts) (o : Opening D) (m : Option Exc)
      → Ends p o ms (migrate_opened execute a ms (connect_in m p o))
  connect_in-Ends a ms p o (some e) = tt
  connect_in-Ends a ms p o none = connected-Ends a ms p o (o.connection p) refl

  connect-Ends :
      (a : Answers) (ms : List Migration) (p : Parts) (o : Opening D)
      → Ends p o ms (migrate_opened execute a ms (connect p o))
  unfolding connect
  connect-Ends a ms p o = connect_in-Ends a ms p o (o.mkdir (parent p))

  Ends-raised :
      (roots : List Parts) (p : Parts) (w : Opened D) (e : Exc)
      → w.0 ≡ raised e
      → (w.0 ≡ returned tt → All (λ root. ¬ IsIn root p) roots)
  Ends-raised roots p w e h q = absurd (raised-ne-returned (sym h ∙ q))

  -- However an opening ends: with an exception, of the path, the file system, a setting or a migration,
  -- a connection that it has made, to the resolved path, is closed and its file holds what it held; and
  -- without one the migrations are applied to the file of the resolved path, and no volatile root holds
  -- that path.
  pub open_database-Ends :
      (resolve : Text → Parts) (roots : List Parts) (path : Text) (o : Opening D) (a : Answers)
      (ms : List Migration)
      → Ends (resolve path) o ms (open_database execute resolve roots path o a ms)
        × ((open_database execute resolve roots path o a ms).0 ≡ returned tt
            → All (λ root. ¬ IsIn root (resolve path)) roots)
  unfolding open_database connect
  open_database-Ends resolve roots path o a ms =
      elim (Outcome-cases (ensure_persistent_path resolve roots path)) [
        | inr (e, h) ↦ (rw h tt, rw h (Ends-raised roots (resolve path) (raised e, none) e refl))
        | inl (p, h) ↦
            let (q, n) = ensure_persistent_path-returned resolve roots path p h in
            (
              rw h (
                  subst (λ x. Ends x o ms (migrate_opened execute a ms (connect p o))) q
                    (connect-Ends a ms p o)),
              λ _. rw q at n,
            )
      ]
