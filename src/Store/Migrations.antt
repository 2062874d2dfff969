-- ===== src/Store/Migrations.antt =====
-- The schema history: src/pi/storage/migrations.py with `transaction` of src/pi/storage/database.py.
-- The engine is outside: what a statement of a migration does to the tables, `D`, is a parameter, and
-- the answers of `BEGIN`, `ROLLBACK` and `COMMIT` are arguments. The statements on `schema_migrations`
-- are written out; its time stamps, which nothing reads, are left out.
pub mod Rows
pub mod History
pub mod Upgrade
use g3_voicestock.Base.{
  ℕ, zero, suc, Bool, true, false, ◌&&◌, not, Option, none, some, List, [], ◌∷◌, map, length, Text,
  text_eq, ℤ, pos, negsuc, eq_ℤ, ltb, Outcome, returned, raised, Exc, value_error, runtime_error,
  other, bind, if◌then◌else◌,
}

pub record Migration : Type 0 where
  pub version : ℤ
  pub name : Text
  pub statements : List Text

-- A row of `schema_migrations`, which is kept in the order of its key, the version.
pub record Row : Type 0 where
  pub version : ℤ
  pub name : Text

-- What a file holds: `none` is a file without the table of the history.
pub record Contents (D : Type 0) : Type 0 where
  pub history : Option (List Row)
  pub tables : D

-- A connection in autocommit mode: what is committed, and what an open transaction has written.
pub record Connection (D : Type 0) : Type 0 where
  pub committed : Contents D
  pub working : Option (Contents D)
  pub is_open : Bool

-- The exceptions of the three statements of a transaction, where the engine raises one.
pub record Answers : Type 0 where
  pub begin : Option Exc
  pub rollback : Option Exc
  pub commit : Option Exc

abbrev pub row_of : Migration → Row
row_of m = record { version = m.version; name = m.name }

abbrev pub version_of : Migration → ℤ
version_of m = m.version

abbrev pub lt_ℤ : ℤ → ℤ → Bool
lt_ℤ (pos a) (pos b) = ltb a b
lt_ℤ (pos _) (negsuc _) = false
lt_ℤ (negsuc _) (pos _) = true
lt_ℤ (negsuc a) (negsuc b) = ltb b a

-- `list(range(k, k + n))`
abbrev pub range : ℕ → ℕ → List ℤ
range k zero = []
range k (suc n) = pos k ∷ range (suc k) n

abbrev pub ints_eq : List ℤ → List ℤ → Bool
ints_eq [] [] = true
ints_eq [] (_ ∷ _) = false
ints_eq (_ ∷ _) [] = false
ints_eq (a ∷ s) (b ∷ t) = eq_ℤ a b && ints_eq s t

-- `_check_sequence`, as a test.
unfoldable pub check_sequence : List Migration → Bool
check_sequence ms = ints_eq (map version_of ms) (range 1 (length ms))

-- `applied == known[: len(applied)]`
unfoldable pub is_start : List Row → List Row → Bool
is_start [] known = true
is_start (_ ∷ _) [] = false
is_start (a ∷ s) (b ∷ t) = eq_ℤ a.version b.version && (text_eq a.name b.name && is_start s t)

-- `migrations[len(applied) :]`
abbrev pub after : List Row → List Migration → List Migration
after [] ms = ms
after (_ ∷ _) [] = []
after (_ ∷ s) (_ ∷ ms) = after s ms

-- The table as `CREATE TABLE IF NOT EXISTS` leaves it.
abbrev pub rows_of : Option (List Row) → List Row
rows_of none = []
rows_of (some rows) = rows

-- `INSERT INTO schema_migrations`: an existing version is an `IntegrityError`.
unfoldable pub insert_row : Row → List Row → Outcome (List Row)
insert_row r [] = returned (r ∷ [])
insert_row r (x ∷ rows) =
    let rest = bind (insert_row r rows) (λ l. returned (x ∷ l)) in
    if eq_ℤ r.version x.version
    then raised other
    else if lt_ℤ r.version x.version
    then returned (r ∷ x ∷ rows)
    else rest

module _ {D : Type 0} (execute : Text → D → Outcome D) where
  abbrev pub Written : Type 0 → Type 0
  Written A = Outcome A × Contents D

  -- What comes next runs only after a return, on what is written so far.
  abbrev pub and_then : {A B : Type 0} → Written A → (A → Contents D → Written B) → Written B
  and_then (raised e, c) next = (raised e, c)
  and_then (returned a, c) next = next a c

  -- One statement after the other.
  abbrev pub run_one : Contents D → Outcome D → Written Unit
  run_one c (raised e) = (raised e, c)
  run_one c (returned d) = (returned tt, record c { tables = d })

  unfoldable pub run_statements : List Text → Contents D → Written Unit
  run_statements [] c = (returned tt, c)
  run_statements (s ∷ rest) c = and_then (run_one c (execute s c.tables)) (λ u. run_statements rest)

  abbrev pub put_row : Contents D → Outcome (List Row) → Written Unit
  put_row c (raised e) = (raised e, c)
  put_row c (returned rows) = (returned tt, record c { history = some rows })

  -- The statements of one migration, and its row.
  unfoldable pub run_migration : Migration → Contents D → Written Unit
  unfolding run_statements insert_row
  run_migration m c =
      and_then (run_statements m.statements c)
        (λ u d. put_row d (insert_row (row_of m) (rows_of d.history)))

  unfoldable pub run_pending : List Migration → Contents D → Written Unit
  unfolding run_migration
  run_pending [] c = (returned tt, c)
  run_pending (m ∷ rest) c = and_then (run_migration m c) (λ u. run_pending rest)

  -- The body of the transaction of `apply_migrations`.
  unfoldable pub migrate : List Migration → Contents D → Written (List ℤ)
  unfolding run_pending is_start
  migrate ms c =
      let applied = rows_of c.history in
      let created : Contents D = record c { history = some applied } in
      let pending = after applied ms in
      if not (is_start applied (map row_of ms))
      then (raised runtime_error, created)
      else and_then (run_pending pending created) (λ u d. (returned (map version_of pending), d))

  -- The end of the block: `COMMIT` after a return, `ROLLBACK` after an exception. One that
  -- raises leaves the transaction open.
  unfoldable pub end_block :
      {A : Type 0} → Answers → Connection D → Written A → Outcome A × Connection D
  end_block a k (returned v, c) = elim a.commit [
    | none ↦ (returned v, record k { committed = c; working = none })
    | some e ↦ (raised e, record k { working = some c })
  ]
  end_block a k (raised e, c) = elim a.rollback [
    | none ↦ (raised e, record k { working = none })
    | some e' ↦ (raised e', record k { working = some c })
  ]

  -- What `BEGIN IMMEDIATE` raises: on a closed connection, in a transaction, or by the engine.
  unfoldable pub begin_error : Answers → Connection D → Option Exc
  begin_error a k =
      if not k.is_open
      then some other
      else (elim k.working [ some _ ↦ some other | none ↦ a.begin ])

  -- `transaction`
  unfoldable pub transaction :
      {A : Type 0} → Answers → (Contents D → Written A) → Connection D → Outcome A × Connection D
  unfolding end_block begin_error
  transaction a block k = elim (begin_error a k) [
    | some e ↦ (raised e, k)
    | none ↦ end_block a k (block k.committed)
  ]

  -- `apply_migrations`
  unfoldable pub apply_migrations :
      Answers → List Migration → Connection D → Outcome (List ℤ) × Connection D
  unfolding transaction migrate check_sequence
  apply_migrations a ms k =
      if not (check_sequence ms) then (raised value_error, k) else transaction a (migrate ms) k
