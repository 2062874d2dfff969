-- ===== src/Store/Opening.antt =====
-- Where the database lies and how it is opened: src/pi/storage/database.py, and `open_database` of
-- src/pi/storage/migrations.py. A resolved path is the list of its parts below the root directory;
-- the file system that resolves a path, and the engine, are outside.
pub mod Closed
use g3_voicestock.Base.{
  ℕ, ◌==◌, ◌≡◌, refl, sym, ◌∙◌, ap, inl, inr, Bool, true, false, ◌&&◌, ◌||◌, not, Option, none,
  some, is_none, List, [], ◌∷◌, ◌++◌, map, some_of, Text, str, text_eq, strip, is_blank, is_empty,
  ℤ, Outcome, returned, raised, Exc, value_error, other, arith, Bool-cases, if◌then◌else◌,
  raised-ne-returned,
}
use g3_voicestock.Store.Migrations.{Migration, Connection, Answers, row_of, apply_migrations}
use g3_voicestock.Store.Migrations.History.{
  Applied, apply_migrations-Applied, apply_migrations-committed,
}

abbrev pub Parts : Type 0
Parts = List Text

abbrev pub parts_eq : Parts → Parts → Bool
parts_eq [] [] = true
parts_eq [] (_ ∷ _) = false
parts_eq (_ ∷ _) [] = false
parts_eq (a ∷ p) (b ∷ q) = text_eq a b && parts_eq p q

-- `Path.parents`
abbrev pub parents : Parts → List Parts
parents [] = []
parents (a ∷ p) = [] ∷ map (λ q. a ∷ q) (parents p)

-- `Path.parent`: the root is its own.
abbrev pub parent : Parts → Parts
parent [] = []
parent (a ∷ []) = []
parent (a ∷ b ∷ p) = a ∷ parent (b ∷ p)

-- `environ.get(name, "")`
abbrev pub get_or_empty : Option Text → Text
get_or_empty none = []
get_or_empty (some t) = t

-- `default_database_path`, from the two variables: the joined path, before `expanduser`.
unfoldable pub default_database_path :
    (home : Parts) → (Text → Parts) → Option Text → Option Text → Parts
default_database_path home path explicit data_home =
    if not (is_empty (strip (get_or_empty explicit)))
    then path (strip (get_or_empty explicit))
    else ((if not (is_empty (strip (get_or_empty data_home)))
          then path (strip (get_or_empty data_home))
          else home ++ str ".local" ∷ str "share" ∷ [])
        ++ str "voicestock" ∷ str "voicestock.sqlite3" ∷ [])

-- `resolved == root or root in resolved.parents`
unfoldable pub is_under : Parts → Parts → Bool
is_under resolved root = parts_eq root resolved || some_of (parts_eq root) (parents resolved)

-- `ensure_persistent_path`: the roots are resolved already.
unfoldable pub ensure_persistent_path : (Text → Parts) → List Parts → Text → Outcome Parts
unfolding is_under
ensure_persistent_path resolve roots path =
    if is_empty (strip path) || text_eq (strip path) (str ":memory:")
    then raised value_error
    else if some_of (is_under (resolve path)) roots
    then raised value_error
    else returned (resolve path)

-- The answers to `connect`: of `mkdir` and `sqlite3.connect` on a path, of the three settings, and the
-- row that `PRAGMA foreign_keys` fetches.
pub record Opening (D : Type 0) : Type 0 where
  pub mkdir : Parts → Option Exc
  pub connection : Parts → Outcome (Connection D)
  pub foreign_keys : Option Exc
  pub journal_mode : Option Exc
  pub synchronous : Option Exc
  pub enforced : Outcome (Option ℕ)

-- What a call returns or raises, with the connection that it has made, if any.
abbrev pub Opened : Type 0 → Type 0
Opened D = Outcome {0} Unit × Option (Connection D)

abbrev pub enforcement_error : Outcome (Option ℕ) → Option Exc
enforcement_error (raised e) = some e
enforcement_error (returned none) = some other
enforcement_error (returned (some n)) = if n == 1 then none else some other

abbrev pub first_error : Option Exc → Option Exc → Option Exc
first_error (some e) next = some e
first_error none next = next

module _ {D : Type 0} where
  -- The first exception of the settings of a connection.
  abbrev pub setting_error : Opening D → Option Exc
  setting_error o =
      first_error o.foreign_keys
        (first_error o.journal_mode (first_error o.synchronous (enforcement_error o.enforced)))

  abbrev pub close : Connection D → Connection D
  close k = record k { working = none; is_open = false }

  abbrev pub configured : Option Exc → Connection D → Opened D
  configured none k = (returned tt, some k)
  configured (some e) k = (raised e, some (close k))

  abbrev pub connected : Opening D → Outcome (Connection D) → Opened D
  connected o (raised e) = (raised e, none)
  connected o (returned k) = configured (setting_error o) k

  -- `connect`, on what `mkdir` answers for the parent directory.
  abbrev pub connect_in : Option Exc → Parts → Opening D → Opened D
  connect_in (some e) path o = (raised e, none)
  connect_in none path o = connected o (o.connection path)

  -- `connect`
  unfoldable pub connect : Parts → Opening D → Opened D
  connect path o = connect_in (o.mkdir (parent path)) path o

  module _ (execute : Text → D → Outcome D) where
    abbrev pub close_on_error : Outcome (List ℤ) × Connection D → Opened D
    close_on_error (returned _, k) = (returned tt, some k)
    close_on_error (raised e, k) = (raised e, some (close k))

    abbrev pub migrate_opened : Answers → List Migration → Opened D → Opened D
    migrate_opened a ms (raised e, k) = (raised e, k)
    migrate_opened a ms (returned _, none) = (returned tt, none)
    migrate_opened a ms (returned _, some k) = close_on_error (apply_migrations execute a ms k)

    abbrev pub open_at : Outcome Parts → Opening D → Answers → List Migration → Opened D
    open_at (raised e) o a ms = (raised e, none)
    open_at (returned path) o a ms = migrate_opened a ms (connect path o)

    -- `open_database`
    unfoldable pub open_database :
        (Text → Parts) → List Parts → Text → Opening D → Answers → List Migration → Opened D
    unfolding ensure_persistent_path connect
    open_database resolve roots path o a ms =
        open_at (ensure_persistent_path resolve roots path) o a ms
