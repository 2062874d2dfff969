-- ===== src/Store/Migrations/Upgrade.antt =====
-- Repeated runs of `apply_migrations` (src/pi/storage/migrations.py): on every start, and with a list
-- of migrations that has grown since.
use mathlib.Core.Path.{subst}
use g3_voicestock.Base.{
  append-nil, ◌≡◌, refl, sym, ◌∙◌, ap, inl, inr, true, none, some, List, [], ◌∷◌, ◌++◌, map, Text,
  text_eq_refl, eq_ℤ, ℤ, pos, negsuc, ==_refl, Outcome, returned, bind, arith, Bool-cases,
  Outcome-cases, Outcome-injective, raised-ne-returned,
}
use g3_voicestock.Store.Migrations.{
  Migration, Row, Connection, Answers, row_of, version_of, check_sequence, is_start, after, rows_of,
  run_pending, migrate, begin_error, end_block, transaction, apply_migrations,
}
use g3_voicestock.Store.Migrations.Rows.{check_sequence-Counted}
use g3_voicestock.Store.Migrations.History.{
  tables_by, transaction-returned, migrate-Applied, tables_after, migrate-started,
}

eq_ℤ_refl : (z : ℤ) → eq_ℤ z z ≡ true
eq_ℤ_refl (pos n) = ==_refl n
eq_ℤ_refl (negsuc n) = ==_refl n

-- The rows of a list are a start of those of the list with more at its end.
is_start-append :
    (ms more : List Migration) → is_start (map row_of ms) (map row_of (ms ++ more)) ≡ true
unfolding is_start
is_start-append [] more = refl
is_start-append (m ∷ ms) more =
    rw (eq_ℤ_refl m.version, text_eq_refl m.name, is_start-append ms more)

after-append : (ms more : List Migration) → after (map row_of ms) (ms ++ more) ≡ more
after-append [] more = refl
after-append (m ∷ ms) more = after-append ms more

is_start-longer :
    (rows : List Row) (ms more : List Migration)
    → is_start rows (map row_of ms) ≡ true
    → (is_start rows (map row_of (ms ++ more)) ≡ true)
      × (after rows (ms ++ more) ≡ after rows ms ++ more)
unfolding is_start
is_start-longer [] ms more h = (refl, refl)
is_start-longer (r ∷ rows) [] more h = cc
is_start-longer (r ∷ rows) (m ∷ ms) more h = ground (arith, is_start-longer rows ms more)

map-append : (f : Migration → ℤ) (xs ys : List Migration) → map f (xs ++ ys) ≡ map f xs ++ map f ys
map-append f [] ys = refl
map-append f (x ∷ xs) ys = rw (map-append f xs ys) refl

module _ {D : Type 0} (execute : Text → D → Outcome D) where
  tables_after-append :
      (ms more : List Migration) (d : D)
      → tables_after execute (ms ++ more) d
        ≡ bind (tables_after execute ms d) (tables_after execute more)
  tables_after-append [] more d = refl
  tables_after-append (m ∷ ms) more d = elim (Outcome-cases (tables_by execute m.statements d)) [
    | inl (d', e) ↦ rw e (tables_after-append ms more d')
    | inr (x, e) ↦ rw e refl
  ]

  -- What a run needs to return, with the tables `d` that it leaves.
  pub record Ready (a : Answers) (ms : List Migration) (k : Connection D) (d : D) : Type 0 where
    pub sequence : check_sequence ms ≡ true
    pub start : is_start (rows_of k.committed.history) (map row_of ms) ≡ true
    pub begun : begin_error execute a k ≡ none
    pub commits : a.commit ≡ none
    pub tables :
        tables_after execute (after (rows_of k.committed.history) ms) k.committed.tables
        ≡ returned d

  abbrev pub migrated : List Migration → Connection D → D → Outcome (List ℤ) × Connection D
  migrated ms k d = (
    returned (map version_of (after (rows_of k.committed.history) ms)),
    record {
      committed = record { history = some (map row_of ms); tables = d };
      working = none;
      is_open = k.is_open;
    },
  )

  -- A run returns, and as `migrated` says, where the numbers count from 1, the history is a start of
  -- the known one, the transaction begins and commits, and the pending statements succeed.
  pub apply_migrations-migrated :
      (a : Answers) (ms : List Migration) (k : Connection D) (d : D)
      → Ready a ms k d
      → apply_migrations execute a ms k ≡ migrated ms k d
  unfolding apply_migrations transaction migrate end_block
  apply_migrations-migrated a ms k d r =
      let w =
        migrate-started execute ms k.committed (check_sequence-Counted ms r.sequence) r.start in
      let v : run_pending execute (after (rows_of k.committed.history) ms)
            (record { history = some (rows_of k.committed.history); tables = k.committed.tables })
          ≡ (returned tt, record { history = some (map row_of ms); tables = d }) =
        rw (r.tables) at w in
      rw (r.sequence, transaction, r.begun, migrate, r.start, v, r.commits) refl

  returned-Ready :
      (a : Answers) (ms : List Migration) (k k' : Connection D) (vs : List ℤ)
      → apply_migrations execute a ms k ≡ (returned vs, k')
      → (d : D) × Ready a ms k d
  unfolding apply_migrations
  returned-Ready a ms k k' vs h = elim (Bool-cases (check_sequence ms)) [
    | inr e ↦ absurd (raised-ne-returned (ap (λ w. w.0) (rw e at h)))
    | inl e ↦
        let (m, _, b, c) =
          transaction-returned execute a (migrate execute ms) k k' vs (rw e at h) in
        let f = migrate-Applied execute ms k.committed k'.committed vs e m in
        (_, record { sequence = e; start = f.start; begun = b; commits = c; tables = f.tables })
  ]

  joined :
      {x x' y y' : List ℤ} {c c' : Connection D}
      → x ≡ x'
      → y ≡ y'
      → c ≡ c'
      → Path (Outcome (List ℤ) × Connection D) (returned (x ++ y), c) (returned (x' ++ y'), c')
  joined p q r = cc

  -- The connection that a run leaves.
  abbrev after_run : List Migration → Connection D → D → Connection D
  after_run ms k d = (migrated ms k d).1

  again_lem :
      (b : Answers) (ms : List Migration) (k : Connection D) (d : D)
      → check_sequence ms ≡ true
      → begin_error execute b (after_run ms k d) ≡ none
      → b.commit ≡ none
      → apply_migrations execute b ms (after_run ms k d) ≡ (returned [], after_run ms k d)
  again_lem b ms k d q s c =
      let e : after (map row_of ms) ms ≡ [] = rw (append-nil ms) at (after-append ms []) in
      apply_migrations-migrated b ms (after_run ms k d) d (record {
        sequence = q;
        start = rw (append-nil ms) at (is_start-append ms []);
        begun = s;
        commits = c;
        tables = rw e refl;
      })
      ∙ (rw e refl)

  upgrade_lem :
      (a : Answers) (ms more : List Migration) (k : Connection D) (d d' : D)
      → Ready a ms k d
      → check_sequence (ms ++ more) ≡ true
      → tables_after execute more d ≡ returned d'
      → apply_migrations execute a (ms ++ more) k ≡ (
        returned (map version_of (after (rows_of k.committed.history) ms) ++ map version_of more),
        after_run (ms ++ more) (after_run ms k d) d',
      )
  upgrade_lem a ms more k d d' r q t =
      let rows = rows_of k.committed.history in
      let (s, f) = is_start-longer rows ms more r.start in
      apply_migrations-migrated a (ms ++ more) k d' (record {
        sequence = q;
        start = s;
        begun = r.begun;
        commits = r.commits;
        tables =
            rw f (tables_after-append (after rows ms) more k.committed.tables ∙ (rw (r.tables) t));
      })
      ∙ (rw (f, map-append version_of (after rows ms) more) refl)

  -- On the next start, when the migrations have returned once, a run that can begin and commit applies
  -- nothing, returns no version and leaves the connection as it was.
  pub apply_migrations_again :
      (a b : Answers) (ms : List Migration) (k k' : Connection D) (vs : List ℤ)
      → apply_migrations execute a ms k ≡ (returned vs, k')
      → begin_error execute b k' ≡ none
      → b.commit ≡ none
      → apply_migrations execute b ms k' ≡ (returned [], k')
  apply_migrations_again a b ms k k' vs h s c =
      let (d, r) = returned-Ready a ms k k' vs h in
      let e : after_run ms k d ≡ k' =
        ap (λ w. w.1) (sym (apply_migrations-migrated a ms k d r) ∙ h) in
      subst (λ x. apply_migrations execute b ms x ≡ (returned [], x)) e
        (again_lem b ms k d r.sequence (subst (λ x. begin_error execute b x ≡ none) (sym e) s) c)

  -- Migrating in two steps, with a list and later with the list grown by `more`, ends in the connection
  -- that one run of the longer list ends in, and applies the same versions.
  pub upgrade_in_steps :
      (a b : Answers) (ms more : List Migration) (k k' k'' : Connection D) (vs ws : List ℤ)
      → apply_migrations execute a ms k ≡ (returned vs, k')
      → apply_migrations execute b (ms ++ more) k' ≡ (returned ws, k'')
      → apply_migrations execute a (ms ++ more) k ≡ (returned (vs ++ ws), k'')
  upgrade_in_steps a b ms more k k' k'' vs ws h i =
      let (d, r) = returned-Ready a ms k k' vs h in
      let e : migrated ms k d ≡ (returned vs, k') =
        sym (apply_migrations-migrated a ms k d r) ∙ h in
      let i' : apply_migrations execute b (ms ++ more) (after_run ms k d) ≡ (returned ws, k'') =
        subst (λ x. apply_migrations execute b (ms ++ more) x ≡ (returned ws, k''))
          (sym (ap (λ w. w.1) e)) i in
      let (d', r') = returned-Ready b (ms ++ more) (after_run ms k d) k'' ws i' in
      let f : migrated (ms ++ more) (after_run ms k d) d' ≡ (returned ws, k'') =
        sym (apply_migrations-migrated b (ms ++ more) (after_run ms k d) d' r') ∙ i' in
      let t : after (map row_of ms) (ms ++ more) ≡ more = after-append ms more in
      upgrade_lem a ms more k d d' r r'.sequence (rw t at (r'.tables))
      ∙ joined (Outcome-injective (ap (λ w. w.0) e)) (rw t at (Outcome-injective (ap (λ w. w.0) f)))
          (ap (λ w. w.1) f)
