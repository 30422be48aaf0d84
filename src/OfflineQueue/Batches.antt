-- ===== src/OfflineQueue/Batches.antt =====
-- The batch operations of src/offline_queue.rs against the single ones, and its statistics.
use sens.Common.{
  ℕ, ◌+◌, ◌≤◌, String, ◌≡◌, refl, Bool, true, false, not, List, [], ◌∷◌, arith, ltb, ◌==◌,
}
use sens.Common.Tables.{retain_all, all_of, count-retain_le, count, retain}
use sens.Common.Result.{Result, ok, err}
use sens.OfflineQueue.{Row, OfflineQueue, Replies, ack, ack_batch, is_listed}
use sens.OfflineQueue.Rows.{UniqueIds}
use sens.OfflineQueue.Delivery.{no_failure}

-- One for a message that was found.
abbrev tally : Result Bool String → ℕ
tally (ok true) = 1
tally (ok false) = 0
tally (err e) = 0

-- Acknowledgements one at a time, and how many of them found their message.
unfoldable pub ack_each : Replies → List ℕ → OfflineQueue → OfflineQueue × ℕ
ack_each a [] q = (q, 0)
ack_each a (i ∷ ids) q =
    let rest = ack_each a ids (ack a i q).0 in (rest.0, tally (ack a i q).1 + rest.1)

retain-listed :
    (i : ℕ) (ids : List ℕ) (rows : List Row)
    → retain (λ r. not (is_listed (i ∷ ids) r)) rows
      ≡ retain (λ r. not (is_listed ids r)) (retain (λ r. not (r.id == i)) rows)
unfolding retain is_listed
retain-listed i ids [] = refl
retain-listed i ids (r ∷ rows) = ground (arith, retain-listed i ids rows)

count-listed :
    (i : ℕ) (ids : List ℕ) (rows : List Row)
    → count (is_listed (i ∷ ids)) rows
      ≡ count (λ r. r.id == i) rows + count (is_listed ids) (retain (λ r. not (r.id == i)) rows)
unfolding count retain is_listed
count-listed i ids [] = refl
count-listed i ids (r ∷ rows) = ground (arith, count-listed i ids rows)

count-nothing : (rows : List Row) → count (λ r. false) rows ≡ 0
unfolding count
count-nothing [] = refl
count-nothing (r ∷ rows) = omega (arith, count-nothing rows)

-- A batch, the empty one included, is one deletion.
ack_batch-quiet :
    (now file_bytes : ℕ) (ids : List ℕ) (q : OfflineQueue)
    → ack_batch (no_failure now file_bytes) ids q ≡ (
      record q { rows = retain (λ r. not (is_listed ids r)) q.rows },
      ok (count (is_listed ids) q.rows),
    )
unfolding ack_batch is_listed
ack_batch-quiet now file_bytes [] q =
    rw (retain_all (λ r. true) q.rows (all_of (λ r. true) q.rows (λ r. refl)), count-nothing q.rows)
      refl
ack_batch-quiet now file_bytes (i ∷ ids) q = refl

tally_once : (n : ℕ) → n ≤ 1 → tally (ok (ltb 0 n)) ≡ n
tally_once n h = ground arith

ack_each-quiet :
    (now file_bytes : ℕ) (ids : List ℕ) (q : OfflineQueue)
    → UniqueIds q.rows
    → ack_each (no_failure now file_bytes) ids q ≡ (
      record q { rows = retain (λ r. not (is_listed ids r)) q.rows },
      count (is_listed ids) q.rows,
    )
unfolding ack_each ack is_listed
ack_each-quiet now file_bytes [] q unique =
    rw (retain_all (λ r. true) q.rows (all_of (λ r. true) q.rows (λ r. refl)), count-nothing q.rows)
      refl
ack_each-quiet now file_bytes (i ∷ ids) q unique =
    rw
      (
        ack_each-quiet now file_bytes ids (record q { rows = retain (λ r. not (r.id == i)) q.rows })
            (λ j.
              omega
                (arith, unique j, count-retain_le (λ r. r.id == j) (λ r. not (r.id == i)) q.rows)),
        tally_once (count (λ r. r.id == i) q.rows) (unique i),
        retain-listed i ids q.rows,
        count-listed i ids q.rows,
      )
      refl

-- With unique ids and every statement answered, `ack_batch` removes the same rows as one `ack` for
-- each of the ids, and reports as many as those find.
pub ack_batch-ack_each :
    (now file_bytes : ℕ) (ids : List ℕ) (q : OfflineQueue)
    → UniqueIds q.rows
    → ack_batch (no_failure now file_bytes) ids q ≡ (
      (ack_each (no_failure now file_bytes) ids q).0,
      ok (ack_each (no_failure now file_bytes) ids q).1,
    )
ack_batch-ack_each now file_bytes ids q unique =
    rw (ack_batch-quiet now file_bytes ids q, ack_each-quiet now file_bytes ids q unique) refl
