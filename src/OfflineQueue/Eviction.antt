-- ===== src/OfflineQueue/Eviction.antt =====
-- What `enqueue` of src/offline_queue.rs evicts when the queue is full.
use sens.Common.{
  not, true, ap, ◌∙◌, [], ◌∷◌, ◌+◌, ◌+◌, ◌<◌, ◌++◌, ◌≤◌, Bool, String, ℕ, ◌-◌, ◌/◌, min, max, ◌≡◌,
  refl, inl, inr, ◌&&◌, List, arith, ltb, leb, if◌then◌else◌, Bool-cases, length,
}
use sens.Common.Tables.{
  all-count, count_of_all, count_one, count-append, all, count, length-drop, take, drop, SameRows,
  length-SameRows,
}
use sens.Common.Result.{ok}
use sens.OfflineQueue.{
  as_u8, new_row, insert_row, MessagePriority, count_rows, id_in, enqueue, Row, OfflineQueue, Sql,
  expendable, delete_found, evict_one, evict_for_disk_space, make_room, make_disk_room, get_db_size,
}
use sens.OfflineQueue.Queries.{expendable-IsPreorder, SqlLaws}
use sens.OfflineQueue.Rows.{
  first_before_all, first_IsIn, first_IsIn, first_cases, IsIn, UniqueIds, delete_first_found,
}
use sens.OfflineQueue.Delivery.{no_failure}

abbrev pub evict_count : ℕ → ℕ
evict_count n = min 50 (max 5 (n / 10))

module _ (sql : Sql) where
  -- The rows that an eviction of `n` rows leaves.
  abbrev pub evicted : ℕ → List Row → List Row
  evicted n rows = delete_found (take n (sql.order_by expendable rows)) rows

  -- The guards, where every statement is answered.
  pub make_room-quiet :
      (now file_bytes n : ℕ) (q : OfflineQueue)
      → make_room sql (no_failure now file_bytes) n q
        ≡ (record q { rows = if leb q.max_size n then evicted 1 q.rows else q.rows }, ok tt)
  unfolding make_room evict_one
  make_room-quiet now file_bytes n q = elim (Bool-cases (leb q.max_size n)) [
    | inl full ↦ rw full refl
    | inr room ↦ rw room refl
  ]

  pub make_disk_room-quiet :
      (now file_bytes n : ℕ) (q : OfflineQueue)
      → let over = ltb 0 q.max_disk_bytes && leb q.max_disk_bytes file_bytes in
        let found = take (evict_count n) (sql.order_by expendable q.rows) in
        make_disk_room sql (no_failure now file_bytes) n q ≡ (
          record q { rows = if over then evicted (evict_count n) q.rows else q.rows },
          ok (if over then count (λ r. id_in r found) q.rows else 0),
        )
  unfolding make_disk_room evict_for_disk_space get_db_size
  make_disk_room-quiet now file_bytes n q =
      elim (Bool-cases (ltb 0 q.max_disk_bytes && leb q.max_disk_bytes file_bytes)) [
        | inl full ↦ rw full refl
        | inr room ↦ rw room refl
      ]

  -- The rows that are left when both guards have been passed.
  abbrev pub room_left : OfflineQueue → List Row
  room_left q = if leb q.max_size (length q.rows) then evicted 1 q.rows else q.rows

  abbrev pub left : ℕ → OfflineQueue → List Row
  left file_bytes q =
      if ltb 0 q.max_disk_bytes && leb q.max_disk_bytes file_bytes
      then evicted (evict_count (length q.rows)) (room_left q)
      else room_left q

  pub enqueue-quiet :
      (now file_bytes : ℕ) (topic payload : String) (priority : MessagePriority) (qos : ℕ)
      (retain_flag : Bool) (q : OfflineQueue)
      → enqueue sql (no_failure now file_bytes) topic payload priority qos retain_flag q ≡ (
        record q {
          rows =
              left file_bytes q
              ++ new_row (sql.next_id q.sequence) now topic payload priority qos retain_flag ∷ [];
          sequence = sql.next_id q.sequence;
        },
        ok (sql.next_id q.sequence),
      )
  unfolding enqueue count_rows insert_row new_row
  enqueue-quiet now file_bytes topic payload priority qos retain_flag q =
      rw
        (
          make_room-quiet now file_bytes (length q.rows) q,
          make_disk_room-quiet now file_bytes (length q.rows) (record q { rows = room_left q }),
        )
        refl

module _ (sql : Sql) (laws : SqlLaws sql) where
  pub evicted-SameRows :
      (n : ℕ) (rows : List Row)
      → UniqueIds rows
      → SameRows (evicted sql n rows) (drop n (sql.order_by expendable rows))
  evicted-SameRows n rows unique =
      delete_first_found n (sql.order_by expendable rows) rows (laws.same_rows expendable rows)
        unique

  pub length-evicted :
      (n : ℕ) (rows : List Row) → UniqueIds rows → length (evicted sql n rows) ≡ length rows - n
  length-evicted n rows unique = omega (
    arith,
    length-SameRows (evicted sql n rows) (drop n (sql.order_by expendable rows))
        (evicted-SameRows n rows unique),
    length-drop n (sql.order_by expendable rows),
    length-SameRows (sql.order_by expendable rows) rows (laws.same_rows expendable rows),
  )

  left_full :
      (file_bytes : ℕ) (q : OfflineQueue)
      → q.max_disk_bytes ≡ 0
      → q.max_size ≤ length q.rows
      → left sql file_bytes q ≡ evicted sql 1 q.rows
  left_full file_bytes q no_limit full = ground arith

  evicted_first :
      (victim : Row) (rest rows : List Row)
      → UniqueIds rows
      → sql.order_by expendable rows ≡ victim ∷ rest
      → SameRows (victim ∷ rest) rows
      → (f : Row → Bool) → count f (evicted sql 1 rows) + (if f victim then 1 else 0) ≡ count f rows
  unfolding count drop
  evicted_first victim rest rows unique found same f =
      omega (arith, evicted-SameRows 1 rows unique f ∙ ap (λ s. count f (drop 1 s)) found, same f)

  -- The queue is full and has no disk limit, its ids are unique, every statement is answered. Then
  -- `enqueue` removes exactly one row, and one that is expendable against all rows: none has a lower
  -- priority, and none of the same priority is older. The new message is stored.
  pub full_queue_evicts :
      (now file_bytes : ℕ) (topic payload : String) (priority : MessagePriority) (qos : ℕ)
      (retain_flag : Bool) (q : OfflineQueue)
      → UniqueIds q.rows
      → q.max_disk_bytes ≡ 0
      → q.max_size ≤ length q.rows
      → 0 < length q.rows
      → let after =
          (enqueue sql (no_failure now file_bytes) topic payload priority qos retain_flag q).0 in
        let row = new_row (sql.next_id q.sequence) now topic payload priority qos retain_flag in
        (victim : Row) × IsIn victim q.rows
        × (all (expendable victim) q.rows ≡ true)
        × ((f : Row → Bool)
            → count f after.rows + (if f victim then 1 else 0)
              ≡ count f q.rows + (if f row then 1 else 0))
  full_queue_evicts now file_bytes topic payload priority qos retain_flag q unique no_limit full
        some =
      elim (first_cases expendable (sql.order_by expendable q.rows) q.rows
        (laws.same_rows expendable q.rows) (laws.sorted expendable expendable-IsPreorder q.rows)) [
          | inl (empty, none_found) ↦ absurd (omega (arith, ap length empty))
          | inr (victim, rest, found, same, sorted) ↦ (
            victim,
            first_IsIn victim rest q.rows same,
            first_before_all expendable expendable-IsPreorder victim rest q.rows same sorted,
            λ f.
                rw
                  (
                    enqueue-quiet sql now file_bytes topic payload priority qos retain_flag q,
                    left_full file_bytes q no_limit full,
                  )
                  (omega (
                    arith,
                    evicted_first victim rest q.rows unique found same f,
                    count-append f (evicted sql 1 q.rows) (
                        new_row (sql.next_id q.sequence) now topic payload priority qos retain_flag
                        ∷ []),
                    count_one f (
                        new_row (sql.next_id q.sequence) now topic payload priority qos
                          retain_flag),
                  )),
          )
        ]

  -- The order of eviction does not look at the new message: when the queue is full, has no disk
  -- limit, and holds only messages of a higher priority than the new one, `enqueue` with every
  -- statement answered drops one of those to store the new one.
  pub lower_displaces_higher :
      (now file_bytes : ℕ) (topic payload : String) (priority : MessagePriority) (qos : ℕ)
      (retain_flag : Bool) (q : OfflineQueue)
      → UniqueIds q.rows
      → q.max_disk_bytes ≡ 0
      → q.max_size ≤ length q.rows
      → 0 < length q.rows
      → all (λ r. ltb (as_u8 priority) r.priority) q.rows ≡ true
      → let after =
          (enqueue sql (no_failure now file_bytes) topic payload priority qos retain_flag q).0 in
        count (λ r. ltb (as_u8 priority) r.priority) after.rows + 1 ≡ length q.rows
  unfolding new_row
  lower_displaces_higher now file_bytes topic payload priority qos retain_flag q unique no_limit
        full some higher =
      let f = λ (r : Row). ltb (as_u8 priority) r.priority in
      let (victim, is_in, _, counts) =
        full_queue_evicts now file_bytes topic payload priority qos retain_flag q unique no_limit
          full some in
      ground (
        arith,
        is_in (λ r. not (f r)),
        counts f,
        all-count f q.rows higher,
        count_of_all f q.rows higher,
      )
