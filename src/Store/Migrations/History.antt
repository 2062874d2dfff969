-- ===== src/Store/Migrations/History.antt =====
-- What `apply_migrations` has done when it returns or raises (src/pi/storage/migrations.py, and
-- `transaction` of src/pi/storage/database.py).
use g3_voicestock.Base.{
  ◌≡◌, refl, sym, ap, inl, inr, true, Option, none, some, List, [], ◌∷◌, ◌++◌, map, append_assoc,
  append-nil, Text, ℤ, Outcome, returned, raised, Exc, bind, Bool-cases, Option-cases,
  Outcome-injective, raised-ne-returned, bind-returned_right, Outcome-cases, arith,
}
use g3_voicestock.Store.Migrations.Rows.{
  Counted, check_sequence-Counted, insert_row-last, is_start-after,
}
use g3_voicestock.Store.Migrations.{
  Migration, Row, Contents, Connection, Answers, row_of, version_of, check_sequence, is_start,
  after, rows_of, insert_row, and_then, run_statements, put_row, run_migration, run_pending,
  migrate, end_block, begin_error, transaction, apply_migrations,
}

-- The statements of the migrations, run in their order on the tables alone.
module _ {D : Type 0} (execute : Text → D → Outcome D) where
  abbrev pub tables_by : List Text → D → Outcome D
  tables_by [] d = returned d
  tables_by (s ∷ rest) d = bind (execute s d) (tables_by rest)

  abbrev pub tables_after : List Migration → D → Outcome D
  tables_after [] d = returned d
  tables_after (m ∷ rest) d = bind (tables_by m.statements d) (tables_after rest)

  -- The run did to the tables what the outcome says; after a return, the history is `h`.
  abbrev pub Runs : Outcome D → Option (List Row) → Outcome {0} Unit × Contents D → Type 0
  Runs (returned d) h w = w ≡ (returned tt, record { history = h; tables = d })
  Runs (raised e) h w = w.0 ≡ raised e

  run_statements-Runs :
      (s : List Text) (h : Option (List Row)) (d : D)
      → Runs (tables_by s d) h (run_statements execute s (record { history = h; tables = d }))
  unfolding run_statements
  run_statements-Runs [] h d = refl
  run_statements-Runs (t ∷ s) h d = elim (Outcome-cases (execute t d)) [
    | inl (d', e) ↦ rw e (run_statements-Runs s h d')
    | inr (x, e) ↦ rw e refl
  ]

  -- A step that follows a run: it sees what the run left, or is not taken.
  Runs-and_then :
      (o : Outcome D) (next : D → Outcome D) (h h' : Option (List Row))
      (w : Outcome {0} Unit × Contents D) (step : Unit → Contents D → Outcome Unit × Contents D)
      → Runs o h w
      → ((d : D) → o ≡ returned d → Runs (next d) h' (step tt (record { history = h; tables = d })))
      → Runs (bind o next) h' (and_then execute w step)
  Runs-and_then (returned d) next h h' w step r s = rw r (s d refl)
  Runs-and_then (raised e) next h h' (raised e', c) step r s = r
  Runs-and_then (raised e) next h h' (returned u, c) step r s = cc

  run_migration-Runs :
      (m : Migration) (rows rest : List Row) (d : D)
      → Counted 1 (rows ++ row_of m ∷ rest)
      → Runs
          (tables_by m.statements d)
          (some (rows ++ row_of m ∷ []))
          (run_migration execute m (record { history = some rows; tables = d }))
  unfolding run_migration
  run_migration-Runs m rows rest d c = rw (bind-returned_right (tables_by m.statements d)) at (
      Runs-and_then (tables_by m.statements d) returned (some rows) (some (rows ++ row_of m ∷ []))
        (run_statements execute m.statements (record { history = some rows; tables = d }))
        (λ u d'. put_row execute d' (insert_row (row_of m) (rows_of d'.history)))
        (run_statements-Runs m.statements (some rows) d)
        (λ d' e. rw (insert_row-last 1 rows (row_of m) rest c) refl))

  run_pending-Runs :
      (pending : List Migration) (rows : List Row) (d : D)
      → Counted 1 (rows ++ map row_of pending)
      → Runs
          (tables_after pending d)
          (some (rows ++ map row_of pending))
          (run_pending execute pending (record { history = some rows; tables = d }))
  unfolding run_pending
  run_pending-Runs [] rows d c = rw (append-nil rows) refl
  run_pending-Runs (m ∷ pending) rows d c =
      let e : (rows ++ row_of m ∷ []) ++ map row_of pending
          ≡ rows ++ row_of m ∷ map row_of pending =
        append_assoc rows (row_of m ∷ []) (map row_of pending) in
      rw⁻¹ e (
        Runs-and_then (tables_by m.statements d) (tables_after pending)
          (some (rows ++ row_of m ∷ [])) (some ((rows ++ row_of m ∷ []) ++ map row_of pending))
          (run_migration execute m (record { history = some rows; tables = d }))
          (λ u. run_pending execute pending) (run_migration-Runs m rows (map row_of pending) d c)
          (λ d' o. run_pending-Runs pending (rows ++ row_of m ∷ []) d' (rw e c)))

  -- What a run of the known migrations `ms` that returns the versions `vs` has made of the contents.
  pub record Applied (ms : List Migration) (c c' : Contents D) (vs : List ℤ) : Type 0 where
    pub start : is_start (rows_of c.history) (map row_of ms) ≡ true
    pub known : map row_of ms ≡ rows_of c.history ++ map row_of (after (rows_of c.history) ms)
    pub versions : vs ≡ map version_of (after (rows_of c.history) ms)
    pub tables : tables_after (after (rows_of c.history) ms) c.tables ≡ returned c'.tables
    pub history : c'.history ≡ some (map row_of ms)

  -- The body of the transaction, once the history is a start of the known one.
  pub migrate-started :
      (ms : List Migration) (c : Contents D)
      → Counted 1 (map row_of ms)
      → is_start (rows_of c.history) (map row_of ms) ≡ true
      → Runs (tables_after (after (rows_of c.history) ms) c.tables) (some (map row_of ms)) (
          run_pending execute
            (after (rows_of c.history) ms)
            (record { history = some (rows_of c.history); tables = c.tables }))
  migrate-started ms c n h =
      let e = is_start-after (rows_of c.history) ms h in
      rw e
        (run_pending-Runs (after (rows_of c.history) ms) (rows_of c.history) c.tables (rw e at n))

  abbrev pub answer : List ℤ → Outcome {0} Unit × Contents D → Outcome (List ℤ) × Contents D
  answer v w = and_then execute w (λ u d. (returned v, d))

  pub answer-Runs :
      (o : Outcome D) (h : Option (List Row)) (w : Outcome {0} Unit × Contents D) (v vs : List ℤ)
      (c' : Contents D)
      → Runs o h w
      → answer v w ≡ (returned vs, c')
      → (o ≡ returned c'.tables) × (c'.history ≡ h) × (vs ≡ v)
  answer-Runs (returned d) h w v vs c' r e =
      let q : (returned v, record { history = h; tables = d }) ≡ (returned vs, c') = rw r at e in
      (
        ap (λ x. returned (x.1.tables)) q,
        ap (λ x. x.1.history) (sym q),
        sym (Outcome-injective (ap (λ x. x.0) q)),
      )
  answer-Runs (raised x) h (raised y, d) v vs c' r e = cc
  answer-Runs (raised x) h (returned u, d) v vs c' r e = cc

  pub migrate-Applied :
      (ms : List Migration) (c c' : Contents D) (vs : List ℤ)
      → check_sequence ms ≡ true
      → migrate execute ms c ≡ (returned vs, c')
      → Applied ms c c' vs
  unfolding migrate
  migrate-Applied ms c c' vs n h =
      elim (Bool-cases (is_start (rows_of c.history) (map row_of ms))) [
        | inr e ↦ absurd (raised-ne-returned (ap (λ w. w.0) (rw e at h)))
        | inl e ↦
            let (t, k, v) =
              answer-Runs (tables_after (after (rows_of c.history) ms) c.tables)
                (some (map row_of ms)) _ _ vs c'
                (migrate-started ms c (check_sequence-Counted ms n) e) (rw e at h) in
            record {
              start = e;
              known = is_start-after (rows_of c.history) ms e;
              versions = v;
              tables = t;
              history = k;
            }
      ]

  end_block-returned :
      {A : Type 0} (a : Answers) (k k' : Connection D) (w : Outcome A × Contents D) (v : A)
      → end_block execute a k w ≡ (returned v, k')
      → (w ≡ (returned v, k'.committed)) × (k'.working ≡ none)
  unfolding end_block
  end_block-returned a k k' (returned u, c) v h = ground (arith, h)
  end_block-returned a k k' (raised e, c) v h = ground (arith, h)

  end_block-committed :
      {A : Type 0} (a : Answers) (k : Connection D) (w : Outcome A × Contents D) (e : Exc)
      → (end_block execute a k w).0 ≡ raised e
      → (end_block execute a k w).1.committed ≡ k.committed
  unfolding end_block
  end_block-committed a k (returned u, c) e h = ground (arith, h)
  end_block-committed a k (raised x, c) e h = ground (arith, h)

  end_block-commits :
      {A : Type 0} (a : Answers) (k k' : Connection D) (w : Outcome A × Contents D) (v : A)
      → end_block execute a k w ≡ (returned v, k')
      → a.commit ≡ none
  unfolding end_block
  end_block-commits a k k' (returned u, c) v h = ground (arith, h)
  end_block-commits a k k' (raised e, c) v h = ground (arith, h)

  -- A transaction commits what its block returned and wrote; with an exception it commits nothing.
  pub transaction-returned :
      {A : Type 0} (a : Answers) (block : Contents D → Outcome A × Contents D) (k k' : Connection D)
      (v : A)
      → transaction execute a block k ≡ (returned v, k')
      → (block k.committed ≡ (returned v, k'.committed))
        × (k'.working ≡ none)
        × (begin_error execute a k ≡ none)
        × (a.commit ≡ none)
  unfolding transaction
  transaction-returned a block k k' v h = elim (Option-cases (begin_error execute a k)) [
    | inl e ↦
        let q : end_block execute a k (block k.committed) ≡ (returned v, k') =
          rw (e, transaction) at h in
        let (w, n) = end_block-returned a k k' (block k.committed) v q in
        (w, n, e, end_block-commits a k k' (block k.committed) v q)
    | inr (x, e) ↦ absurd (raised-ne-returned (ap (λ w. w.0) (rw (e, transaction) at h)))
  ]

  transaction-raised :
      {A : Type 0} (a : Answers) (block : Contents D → Outcome A × Contents D) (k : Connection D)
      (e : Exc)
      → (transaction execute a block k).0 ≡ raised e
      → (transaction execute a block k).1.committed ≡ k.committed
  unfolding transaction
  transaction-raised a block k e h = elim (Option-cases (begin_error execute a k)) [
    | inl b ↦
        rw (b, transaction)
          (end_block-committed a k (block k.committed) e (rw (b, transaction) at h))
    | inr (x, b) ↦ rw (b, transaction) refl
  ]

  -- When the migrations return, their numbers count from 1, what was in the history is the start of
  -- the known one, the versions returned are those after it, their statements have run in order and
  -- succeeded, the history is the known one, and no transaction is left open.
  pub apply_migrations-Applied :
      (a : Answers) (ms : List Migration) (k k' : Connection D) (vs : List ℤ)
      → apply_migrations execute a ms k ≡ (returned vs, k')
      → Applied ms k.committed k'.committed vs × Counted 1 (map row_of ms) × (k'.working ≡ none)
  unfolding apply_migrations
  apply_migrations-Applied a ms k k' vs h = elim (Bool-cases (check_sequence ms)) [
    | inr e ↦ absurd (raised-ne-returned (ap (λ w. w.0) (rw e at h)))
    | inl e ↦
        let (m, w, _, _) = transaction-returned a (migrate execute ms) k k' vs (rw e at h) in
        (migrate-Applied ms k.committed k'.committed vs e m, check_sequence-Counted ms e, w)
  ]

  -- An exception, wherever it is raised, the commit included, leaves what is committed as it was.
  pub apply_migrations-committed :
      (a : Answers) (ms : List Migration) (k : Connection D) (e : Exc)
      → (apply_migrations execute a ms k).0 ≡ raised e
      → (apply_migrations execute a ms k).1.committed ≡ k.committed
  unfolding apply_migrations
  apply_migrations-committed a ms k e h = elim (Bool-cases (check_sequence ms)) [
    | inr b ↦ rw b refl
    | inl b ↦ rw b (transaction-raised a (migrate execute ms) k e (rw b at h))
  ]
