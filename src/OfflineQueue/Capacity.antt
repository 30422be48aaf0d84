-- ===== src/OfflineQueue/Capacity.antt =====
-- The bound on the number of rows that src/offline_queue.rs keeps.
use sens.Common.{
  is_some, ℕ, ◌+◌, ◌≤◌, max, String, ◌≡◌, refl, ◌∙◌, inl, inr, Bool, true, not, Option, none, some,
  List, [], ◌∷◌, arith, leb, is_some, Bool-cases, Option-cases, length, length-append,
}
use sens.Common.Tables.{all}
use sens.Common.Result.{Result}
use sens.OfflineQueue.{
  Row, MessagePriority, OfflineQueue, Replies, Sql, evict_one, make_room, make_disk_room,
  insert_row, try_then, enqueue, count_rows, peek, peek_batch, ack, nack, ack_batch, clear,
}
use sens.OfflineQueue.Queries.{SqlLaws}
use sens.OfflineQueue.Rows.{UniqueIds}
use sens.OfflineQueue.Eviction.{evicted, length-evicted}
use sens.OfflineQueue.Invariants.{
  IsWell, Shrinks, unless-P, try_then-P, make_disk_room-Shrinks, peek-Shrinks, peek_batch-Shrinks,
  ack-Shrinks, nack-Shrinks, ack_batch-Shrinks, clear-Shrinks, Call, enqueues, peeks, peeks_batch,
  acks, nacks, acks_batch, clears, call, run, call-IsWell,
}

-- At most `max_size` rows; a size of 0 still lets one message in.
abbrev pub IsBounded : ℕ → OfflineQueue → Type 0
IsBounded max_size q = (q.max_size ≡ max_size) × (length q.rows ≤ max 1 max_size)

-- The query for the number of rows is answered.
abbrev pub is_counted : Replies × Call → Bool
is_counted (a, enqueues topic payload priority qos retain_flag) = not (is_some (a.statement 0))
is_counted (a, _) = true

HasRoom : ℕ → OfflineQueue → Type 0
HasRoom max_size q = (q.max_size ≡ max_size) × (length q.rows + 1 ≤ max 1 max_size)

IsBounded-Shrinks :
    (max_size : ℕ) (q q' : OfflineQueue)
    → Shrinks q q'
    → IsBounded max_size q
    → IsBounded max_size q'
IsBounded-Shrinks max_size q q' (_, same_size, shorter, _) (is_max, bound) =
    (same_size ∙ is_max, omega (arith, shorter, bound))

HasRoom-Shrinks :
    (max_size : ℕ) (q q' : OfflineQueue) → Shrinks q q' → HasRoom max_size q → HasRoom max_size q'
unfolding HasRoom
HasRoom-Shrinks max_size q q' (_, same_size, shorter, _) (is_max, bound) =
    (same_size ∙ is_max, omega (arith, shorter, bound))

HasRoom-IsBounded : (max_size : ℕ) (q : OfflineQueue) → HasRoom max_size q → IsBounded max_size q
unfolding HasRoom
HasRoom-IsBounded max_size q (is_max, room) = (is_max, omega (arith, room))

is_none-none : (o : Option String) → not (is_some o) ≡ true → o ≡ none
is_none-none none h = refl
is_none-none (some e) h = cc h

module _ (sql : Sql) (laws : SqlLaws sql) where
  -- What comes after a guard that has made room, or has failed and changed nothing.
  make_room-then :
      (a : Replies) (max_size : ℕ) (q : OfflineQueue)
      (rest : OfflineQueue → OfflineQueue × Result ℕ String)
      → UniqueIds q.rows
      → IsBounded max_size q
      → ((q' : OfflineQueue) → HasRoom max_size q' → IsBounded max_size (rest q').0)
      → IsBounded max_size (try_then sql (make_room sql a (length q.rows) q) rest).0
  unfolding make_room evict_one HasRoom
  make_room-then a max_size q rest unique (is_max, bound) next =
      elim (Bool-cases (leb q.max_size (length q.rows))) [
        | inr room ↦ rw room (next q (is_max, ground arith))
        | inl full ↦ elim (Option-cases (a.statement 1)) [
          | inr (e, failed) ↦ rw (full, failed) (is_max, bound)
          | inl fine ↦
              rw (full, fine)
                (next (record q { rows = evicted sql 1 q.rows })
                  (is_max, omega (arith, bound, length-evicted sql laws 1 q.rows unique)))
        ]
      ]

  insert_row-IsBounded :
      (a : Replies) (max_size : ℕ) (row : Row) (q : OfflineQueue)
      → HasRoom max_size q
      → IsBounded max_size (insert_row sql a row q).0
  unfolding insert_row HasRoom
  insert_row-IsBounded a max_size row q (is_max, room) =
      unless-P (IsBounded max_size) (a.statement 4) q _ (is_max, omega (arith, room))
        (is_max, omega (arith, room, length-append q.rows (row ∷ [])))

  enqueue-IsBounded :
      (a : Replies) (topic payload : String) (priority : MessagePriority) (qos : ℕ)
      (retain_flag : Bool) (max_size : ℕ) (q : OfflineQueue)
      → a.statement 0 ≡ none
      → UniqueIds q.rows
      → IsBounded max_size q
      → IsBounded max_size (enqueue sql a topic payload priority qos retain_flag q).0
  unfolding enqueue count_rows
  enqueue-IsBounded a topic payload priority qos retain_flag max_size q counted unique bounded =
      rw counted (
        unless-P (IsBounded max_size) a.lock q _ bounded (
          make_room-then a max_size q _ unique bounded (λ q1 room.
            try_then-P (HasRoom max_size) (IsBounded max_size) sql
              (make_disk_room sql a (length q.rows) q1) _
              (HasRoom-Shrinks max_size q1 (make_disk_room sql a (length q.rows) q1).0
                (make_disk_room-Shrinks sql a (length q.rows) q1) room)
              (HasRoom-IsBounded max_size) (λ q2. insert_row-IsBounded a max_size _ q2))))

  call-IsBounded :
      (a : Replies) (c : Call) (max_size : ℕ) (q : OfflineQueue)
      → is_counted (a, c) ≡ true
      → UniqueIds q.rows
      → IsBounded max_size q
      → IsBounded max_size (call sql a c q)
  unfolding call
  call-IsBounded a (enqueues topic payload priority qos retain_flag) max_size q counted unique
        bounded =
      enqueue-IsBounded a topic payload priority qos retain_flag max_size q
        (is_none-none (a.statement 0) counted) unique bounded
  call-IsBounded a peeks max_size q counted unique bounded =
      IsBounded-Shrinks max_size q (peek sql a q).0 (peek-Shrinks sql a q) bounded
  call-IsBounded a (peeks_batch n) max_size q counted unique bounded =
      IsBounded-Shrinks max_size q (peek_batch sql a n q).0 (peek_batch-Shrinks sql a n q) bounded
  call-IsBounded a (acks i) max_size q counted unique bounded =
      IsBounded-Shrinks max_size q (ack a i q).0 (ack-Shrinks a i q) bounded
  call-IsBounded a (nacks i) max_size q counted unique bounded =
      IsBounded-Shrinks max_size q (nack a i q).0 (nack-Shrinks a i q) bounded
  call-IsBounded a (acks_batch ids) max_size q counted unique bounded =
      IsBounded-Shrinks max_size q (ack_batch a ids q).0 (ack_batch-Shrinks a ids q) bounded
  call-IsBounded a clears max_size q counted unique bounded =
      IsBounded-Shrinks max_size q (clear a q).0 (clear-Shrinks a q) bounded

  -- Any calls, with whatever fails in them except the query for the number of rows in an `enqueue`,
  -- keep the queue at `max_size` messages, or at one where `max_size` is 0.
  pub run-IsBounded :
      (cs : List (Replies × Call)) (max_size : ℕ) (q : OfflineQueue)
      → all is_counted cs ≡ true
      → IsWell q
      → IsBounded max_size q
      → IsBounded max_size (run sql cs q)
  unfolding run all
  run-IsBounded [] max_size q counted well bounded = bounded
  run-IsBounded ((a, c) ∷ cs) max_size q counted well bounded =
      run-IsBounded cs max_size (call sql a c q) (ground arith) (call-IsWell sql laws a c q well)
        (call-IsBounded a c max_size q (ground arith) well.0 bounded)
