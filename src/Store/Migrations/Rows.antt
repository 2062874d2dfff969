-- ===== src/Store/Migrations/Rows.antt =====
-- The rows of the history and their order: the list of migrations counts from 1
-- (src/pi/storage/migrations.py).
use g3_voicestock.Base.{
  ℕ, suc, ◌+◌, ==→eq, ◌≡◌, refl, ◌∙◌, ap, true, false, List, [], ◌∷◌, ◌++◌, map, length, text_eq→eq,
  ℤ, pos, negsuc, eq_ℤ, returned, arith,
}
use g3_voicestock.Store.Migrations.{
  Migration, Row, row_of, version_of, range, ints_eq, lt_ℤ, check_sequence, is_start, after,
  insert_row,
}

-- Rows with the versions k, k + 1, …
abbrev pub Counted : ℕ → List Row → Type 0
Counted k [] = Unit
Counted k (r ∷ rows) = (r.version ≡ pos k) × Counted (suc k) rows

eq_ℤ→eq : (a b : ℤ) → eq_ℤ a b ≡ true → a ≡ b
eq_ℤ→eq (pos a) (pos b) h = ap pos (==→eq a b h)
eq_ℤ→eq (pos a) (negsuc b) h = cc
eq_ℤ→eq (negsuc a) (pos b) h = cc
eq_ℤ→eq (negsuc a) (negsuc b) h = ap negsuc (==→eq a b h)

ints_eq-Counted :
    (k : ℕ) (ms : List Migration)
    → ints_eq (map version_of ms) (range k (length ms)) ≡ true
    → Counted k (map row_of ms)
ints_eq-Counted k [] h = tt
ints_eq-Counted k (m ∷ ms) h = ground (arith, eq_ℤ→eq m.version (pos k), ints_eq-Counted (suc k) ms)

pub check_sequence-Counted :
    (ms : List Migration) → check_sequence ms ≡ true → Counted 1 (map row_of ms)
unfolding check_sequence
check_sequence-Counted ms h = ints_eq-Counted 1 ms h

version-last :
    (k : ℕ) (rows : List Row) (r : Row) (rest : List Row)
    → Counted k (rows ++ r ∷ rest)
    → r.version ≡ pos (k + length rows)
version-last k [] r rest h = rw (h.0) (ap pos (omega arith))
version-last k (x ∷ rows) r rest h = version-last (suc k) rows r rest h.1 ∙ ap pos (omega arith)

later_lem :
    (k n : ℕ) → (eq_ℤ (pos (suc k + n)) (pos k) ≡ false) × (lt_ℤ (pos (suc k + n)) (pos k) ≡ false)
later_lem k n = (ground arith, ground arith)

-- A row whose version follows those of the table is put at its end.
pub insert_row-last :
    (k : ℕ) (rows : List Row) (r : Row) (rest : List Row)
    → Counted k (rows ++ r ∷ rest)
    → insert_row r rows ≡ returned (rows ++ r ∷ [])
unfolding insert_row
insert_row-last k [] r rest h = refl
insert_row-last k (x ∷ rows) r rest h =
    let (e, l) = later_lem k (length rows) in
    simp (version-last (suc k) rows r rest h.1, h.0, e, l, insert_row-last (suc k) rows r rest h.1)

row_eq : (a b : Row) → a.version ≡ b.version → a.name ≡ b.name → a ≡ b
row_eq a b h n = cc

-- Where the rows are a start of the known ones, the known ones are the rows and those pending.
pub is_start-after :
    (rows : List Row) (ms : List Migration)
    → is_start rows (map row_of ms) ≡ true
    → map row_of ms ≡ rows ++ map row_of (after rows ms)
unfolding is_start
is_start-after [] ms h = refl
is_start-after (r ∷ rows) [] h = cc
is_start-after (r ∷ rows) (m ∷ ms) h = ground (
  arith,
  eq_ℤ→eq r.version m.version,
  text_eq→eq r.name m.name,
  row_eq r (row_of m),
  is_start-after rows ms,
)
