-- ===== src/Examples/Sorting.antt =====
-- Insertion sort as SQLite's `ORDER BY`, for the examples of the offline queue.
use sens.Common.{◌+◌, refl, sym, inl, inr, Bool, List, [], ◌∷◌, arith, if◌then◌else◌, Bool-cases}
use sens.Common.Tables.{count, all, SameRows, IsSorted, all_mono, all-SameRows}
use sens.OfflineQueue.{Row, Sql}
use sens.OfflineQueue.Queries.{IsPreorder, SqlLaws}

unfoldable pub insert_by : (Row → Row → Bool) → Row → List Row → List Row
insert_by le x [] = x ∷ []
insert_by le x (y ∷ ys) = let rest = insert_by le x ys in if le x y then x ∷ y ∷ ys else y ∷ rest

unfoldable pub sort : (Row → Row → Bool) → List Row → List Row
sort le [] = []
sort le (x ∷ xs) = insert_by le x (sort le xs)

insert_by-SameRows :
    (le : Row → Row → Bool) (x : Row) (ys : List Row) → SameRows (insert_by le x ys) (x ∷ ys)
unfolding insert_by count
insert_by-SameRows le x [] f = refl
insert_by-SameRows le x (y ∷ ys) f = ground (arith, insert_by-SameRows le x ys f)

sort-SameRows : (le : Row → Row → Bool) (xs : List Row) → SameRows (sort le xs) xs
unfolding sort count
sort-SameRows le [] f = refl
sort-SameRows le (x ∷ xs) f =
    omega (arith, insert_by-SameRows le x (sort le xs) f, sort-SameRows le xs f)

insert_by-IsSorted :
    (le : Row → Row → Bool)
    → IsPreorder le
    → (x : Row) (ys : List Row) → IsSorted le ys
    → IsSorted le (insert_by le x ys)
unfolding insert_by all
insert_by-IsSorted le order x [] sorted = (refl, tt)
insert_by-IsSorted le order x (y ∷ ys) (before, sorted) = elim (Bool-cases (le x y)) [
  | inl first ↦ rw first (
      (
        rw first (all_mono (le y) (le x) ys before (λ z yz. order.1 x y z first yz)),
        (before, sorted),
      ))
  | inr later ↦ rw later (
    all-SameRows (le y) (x ∷ ys) (insert_by le x ys) (λ f. sym (insert_by-SameRows le x ys f))
        (ground (arith, order.0 x y)),
    insert_by-IsSorted le order x ys sorted,
  )
]

sort-IsSorted : (le : Row → Row → Bool) → IsPreorder le → (xs : List Row) → IsSorted le (sort le xs)
unfolding sort
sort-IsSorted le order [] = tt
sort-IsSorted le order (x ∷ xs) =
    insert_by-IsSorted le order x (sort le xs) (sort-IsSorted le order xs)

abbrev pub sorting : Sql
sorting = record { order_by = sort; next_id = λ n. n + 1 }

pub sorting-laws : SqlLaws sorting
sorting-laws = record {
  same_rows = sort-SameRows;
  sorted = sort-IsSorted;
  above = λ n. omega arith;
}
