-- ===== src/Tests/Store.antt =====
-- The migrations and the opening of the database on concrete inputs: an engine whose tables are the
-- statements that it has run, and that refuses the statement "bad".
use g3_voicestock.Base.{
  ◌≡◌, refl, true, none, some, List, [], ◌∷◌, ◌++◌, map, Text, str, text_eq, pos, Outcome, returned,
  raised, other, if◌then◌else◌, All,
}
use g3_voicestock.Store.Migrations.{
  Migration, Connection, Answers, row_of, begin_error, apply_migrations,
}
use g3_voicestock.Store.Migrations.Rows.{Counted}
use g3_voicestock.Store.Migrations.History.{
  Applied, apply_migrations-Applied, apply_migrations-committed,
}
use g3_voicestock.Store.Migrations.Upgrade.{apply_migrations_again, upgrade_in_steps}
use g3_voicestock.Store.Opening.{Parts, Opening, open_database}
use g3_voicestock.Store.Opening.Closed.{Ends, IsIn, open_database-Ends}

abbrev Tables : Type 0
Tables = List Text

abbrev execute : Text → Tables → Outcome Tables
execute s d = if text_eq s (str "bad") then raised other else returned (d ++ s ∷ [])

abbrev no_error : Answers
no_error = record { begin = none; rollback = none; commit = none }

abbrev failing : Answers
failing = record { begin = none; rollback = none; commit = some other }

abbrev empty : Connection Tables
empty = record {
  committed = record { history = none; tables = [] };
  working = none;
  is_open = true;
}

abbrev first : List Migration
first = record { version = pos 1; name = str "a"; statements = str "s" ∷ [] } ∷ []

abbrev more : List Migration
more = record { version = pos 2; name = str "b"; statements = str "t" ∷ str "u" ∷ [] } ∷ []

abbrev once : Connection Tables
once = record {
  committed = record { history = some (map row_of first); tables = str "s" ∷ [] };
  working = none;
  is_open = true;
}

abbrev twice : Connection Tables
twice = record {
  committed = record {
    history = some (map row_of (first ++ more));
    tables = str "s" ∷ str "t" ∷ str "u" ∷ [];
  };
  working = none;
  is_open = true;
}

first_run : apply_migrations execute no_error first empty ≡ (returned (pos 1 ∷ []), once)
unfolding apply_migrations text_eq
first_run = refl

second_run : apply_migrations execute no_error (first ++ more) once ≡ (returned (pos 2 ∷ []), twice)
unfolding apply_migrations text_eq
second_run = refl

-- A commit that fails leaves its transaction open.
commit_fails : (apply_migrations execute failing first empty).0 ≡ raised other
unfolding apply_migrations text_eq
commit_fails = refl

begins : begin_error execute no_error once ≡ none
unfolding begin_error
begins = refl

apply_migrations-Applied_example :
    Applied execute first empty.committed once.committed (pos 1 ∷ [])
    × Counted 1 (map row_of first)
    × (once.working ≡ none)
apply_migrations-Applied_example =
    apply_migrations-Applied execute no_error first empty once (pos 1 ∷ []) first_run

apply_migrations-committed_example :
    (apply_migrations execute failing first empty).1.committed ≡ empty.committed
apply_migrations-committed_example =
    apply_migrations-committed execute failing first empty other commit_fails

apply_migrations_again_example : apply_migrations execute no_error first once ≡ (returned [], once)
apply_migrations_again_example =
    apply_migrations_again execute no_error no_error first empty once (pos 1 ∷ []) first_run begins
      refl

upgrade_in_steps_example :
    apply_migrations execute no_error (first ++ more) empty ≡ (returned (pos 1 ∷ pos 2 ∷ []), twice)
upgrade_in_steps_example =
    upgrade_in_steps execute no_error no_error first more empty once twice (pos 1 ∷ []) (pos 2 ∷ [])
      first_run second_run

abbrev opening : Opening Tables
opening = record {
  mkdir = λ p. none;
  connection = λ p. returned empty;
  foreign_keys = none;
  journal_mode = none;
  synchronous = none;
  enforced = returned (some 1);
}

abbrev resolve : Text → Parts
resolve path = str "home" ∷ path ∷ []

abbrev volatile : List Parts
volatile = (str "tmp" ∷ []) ∷ []

open_database-Ends_example :
    Ends execute
      (resolve (str "db"))
      opening
      first
      (open_database execute resolve volatile (str "db") opening no_error first)
    × ((open_database execute resolve volatile (str "db") opening no_error first).0 ≡ returned tt
        → All (λ root. ¬ IsIn root (resolve (str "db"))) volatile)
open_database-Ends_example =
    open_database-Ends execute resolve volatile (str "db") opening no_error first
