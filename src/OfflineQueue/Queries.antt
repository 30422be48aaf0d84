-- ===== src/OfflineQueue/Queries.antt =====
-- What src/offline_queue.rs relies on of SQLite's `ORDER BY`: the same rows, sorted. Which of two
-- rows with equal keys comes first is not said. And of its AUTOINCREMENT: an id larger than all that
-- were given.
use sens.Common.{ℕ, ◌<◌, ◌≡◌, Bool, true, ◌||◌, List, arith}
use sens.Common.Tables.{SameRows, IsSorted}
use sens.OfflineQueue.{Row, Sql, outranks, expendable}

-- An order that compares any two rows.
abbrev pub IsPreorder : (Row → Row → Bool) → Type 0
IsPreorder le =
    ((a b : Row) → (le a b || le b a) ≡ true)
    × ((a b c : Row) → le a b ≡ true → le b c ≡ true → le a c ≡ true)

pub record SqlLaws (sql : Sql) : Type 0 where
  pub same_rows : (le : Row → Row → Bool) (rows : List Row) → SameRows (sql.order_by le rows) rows
  pub sorted :
      (le : Row → Row → Bool)
      → IsPreorder le
      → (rows : List Row) → IsSorted le (sql.order_by le rows)
  pub above : (sequence : ℕ) → sequence < sql.next_id sequence

pub outranks-IsPreorder : IsPreorder outranks
unfolding outranks
outranks-IsPreorder = (λ a b. ground arith, λ a b c ab bc. ground arith)

pub expendable-IsPreorder : IsPreorder expendable
unfolding expendable
expendable-IsPreorder = (λ a b. ground arith, λ a b c ab bc. ground arith)
