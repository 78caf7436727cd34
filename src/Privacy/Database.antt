-- ===== src/Privacy/Database.antt =====
-- Tables as `Base.metadata.tables` names them, and the statements that privacy/subject.py and
-- jobs/retention.py make on them. What the database's foreign keys do when rows are deleted is the
-- function `on_delete`, given the table and the rows.
use procuresignal.Prelude.{
  Bool, List, Option, String, arith, eq_iff, eq_refl, keep, not, false, if◌then◌else◌, keep, none,
  not, refl, some, str_eq, ℕ, ◌==◌, ◌∷◌, ◌≡◌, ◌≤◌, [],
}
use procuresignal.Prelude.Table.{rowcount, update_where}

-- A value that is not NULL
pub data Cell : Type 0 where
  number : (n : ℕ) → Cell
  words : (s : String) → Cell

abbrev pub same_cell : Cell → Cell → Bool
same_cell (number a) (number b) = a == b
same_cell (words a) (words b) = str_eq a b
same_cell a b = false

abbrev pub Row : Type 0
Row = String → Option Cell

abbrev pub Database : Type 0
Database = String → List Row

-- A comparison with NULL is not true.
abbrev pub holds : (Cell → Bool) → Option Cell → Bool
holds test none = false
holds test (some cell) = test cell

abbrev pub meets : String → (Cell → Bool) → Row → Bool
meets column test row = holds test (row column)

-- column == value
abbrev pub has_cell : String → Cell → Row → Bool
has_cell column value = meets column (λ cell. same_cell cell value)

abbrev pub cleared : String → Row → Row
cleared column row = λ c. if str_eq c column then none else row c

abbrev pub with_table : String → List Row → Database → Database
with_table table rows db = λ t. if str_eq t table then rows else db t

-- update(table).where(p).values({column: None})
unfoldable pub clear_where : String → (Row → Bool) → String → Database → Database
clear_where table p column db = with_table table (update_where p (cleared column) (db table)) db

module _ (on_delete : String → List Row → Database → Database) where
  -- delete(table).where(p)
  unfoldable pub delete_where : String → (Row → Bool) → Database → Database
  delete_where table p db =
      on_delete table (keep p (db table)) (with_table table (keep (λ r. not (p r)) (db table)) db)

-- No comparison with a column holds for more rows of the table than before.
abbrev pub IsThinner : List Row → List Row → Type 0
IsThinner rows rows' =
    (column : String) (test : Cell → Bool)
    → rowcount (meets column test) rows' ≤ rowcount (meets column test) rows

abbrev pub Thins : Database → Database → Type 0
Thins db db' = (table : String) → IsThinner (db table) (db' table)

-- Foreign keys delete rows and set columns to NULL, and do nothing else.
abbrev pub OnlyThins : (String → List Row → Database → Database) → Type 0
OnlyThins on_delete =
    (table : String) (rows : List Row) (db : Database) → Thins db (on_delete table rows db)

keep-thinner : (p q : Row → Bool) (rows : List Row) → rowcount q (keep p rows) ≤ rowcount q rows
keep-thinner p q [] = omega arith
keep-thinner p q (r ∷ rows) = ground (arith, keep-thinner p q rows)

clear-thinner :
    (p : Row → Bool) (cleared_column column : String) (test : Cell → Bool) (rows : List Row)
    → rowcount (meets column test) (update_where p (cleared cleared_column) rows)
      ≤ rowcount (meets column test) rows
clear-thinner p cleared_column column test [] = omega arith
clear-thinner p cleared_column column test (r ∷ rows) =
    ground (arith, clear-thinner p cleared_column column test rows)

with_table-Thins :
    (table : String) (rows : List Row) (db : Database)
    → IsThinner (db table) rows
    → Thins db (with_table table rows db)
with_table-Thins table rows db h t column test = ground (arith, eq_iff t table, h column test)

pub clear_where-Thins :
    (table : String) (p : Row → Bool) (column : String) (db : Database)
    → Thins db (clear_where table p column db)
unfolding clear_where
clear_where-Thins table p column db =
    with_table-Thins table (update_where p (cleared column) (db table)) db
      (λ c v. clear-thinner p column c v (db table))

rowcount-keep-not : (p : Row → Bool) (rows : List Row) → rowcount p (keep (λ r. not (p r)) rows) ≡ 0
rowcount-keep-not p [] = refl
rowcount-keep-not p (r ∷ rows) = ground (arith, rowcount-keep-not p rows)

cleared_gone :
    (column : String) (test : Cell → Bool) (rows : List Row)
    → rowcount (meets column test) (update_where (meets column test) (cleared column) rows) ≡ 0
cleared_gone column test [] = refl
cleared_gone column test (r ∷ rows) = ground (arith, eq_refl column, cleared_gone column test rows)

-- Whoever was told by the column is gone after it was cleared.
pub rowcount-clear_where :
    (table column : String) (test : Cell → Bool) (db : Database)
    → rowcount (meets column test) (clear_where table (meets column test) column db table) ≡ 0
unfolding clear_where
rowcount-clear_where table column test db =
    ground (arith, eq_refl table, cleared_gone column test (db table))

module _ (on_delete : String → List Row → Database → Database) (thins : OnlyThins on_delete) where
  pub delete_where-Thins :
      (table : String) (p : Row → Bool) (db : Database)
      → Thins db (delete_where on_delete table p db)
  unfolding delete_where
  delete_where-Thins table p db t column test =
      let rest = with_table table (keep (λ r. not (p r)) (db table)) db in
      omega (
        arith,
        thins table (keep p (db table)) rest t column test,
        with_table-Thins table (keep (λ r. not (p r)) (db table)) db
            (λ c v. keep-thinner (λ r. not (p r)) (meets c v) (db table)) t column test,
      )

  pub rowcount-delete_where :
      (table column : String) (test : Cell → Bool) (db : Database)
      → rowcount (meets column test) (delete_where on_delete table (meets column test) db table) ≡ 0
  unfolding delete_where
  rowcount-delete_where table column test db =
      let p = meets column test in
      let rest = with_table table (keep (λ r. not (p r)) (db table)) db in
      ground (
        arith,
        eq_refl table,
        thins table (keep p (db table)) rest table column test,
        rowcount-keep-not p (db table),
      )
