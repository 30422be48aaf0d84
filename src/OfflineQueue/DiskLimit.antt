-- ===== src/OfflineQueue/DiskLimit.antt =====
-- What `enqueue` of src/offline_queue.rs does while the database file stays at its size limit.
use sens.Common.{
  ℕ, ◌-◌, ◌*◌, ◌≤◌, ◌<◌, max, String, ◌≡◌, ap, ◌∙◌, inl, inr, Bool, true, List, [], ◌∷◌, ◌++◌,
  arith, leb, ◌==◌, leb→le, Bool-cases, length, length-append,
}
use sens.Common.Tables.{all, count-retain_le}
use sens.OfflineQueue.{Row, MessagePriority, OfflineQueue, Sql, new_row, enqueue, delete_found}
use sens.OfflineQueue.Queries.{SqlLaws}
use sens.OfflineQueue.Rows.{UniqueIds}
use sens.OfflineQueue.Delivery.{no_failure}
use sens.OfflineQueue.Eviction.{evict_count, length-evicted, room_left, left, enqueue-quiet}
use sens.OfflineQueue.Invariants.{IsWell, enqueue-IsWell}

-- A message that arrives, with the clock and the file's size at that moment.
pub record Arrival : Type 0 where
  pub now : ℕ
  pub file_bytes : ℕ
  pub topic : String
  pub payload : String
  pub priority : MessagePriority
  pub qos : ℕ
  pub retain_flag : Bool

-- The queue after messages that arrive in turn, with every statement answered.
unfoldable pub enqueue_all : Sql → List Arrival → OfflineQueue → OfflineQueue
enqueue_all sql [] q = q
enqueue_all sql (m ∷ ms) q =
    enqueue_all sql ms
      (enqueue sql (no_failure m.now m.file_bytes) m.topic m.payload m.priority m.qos m.retain_flag
        q).0

-- The file has not shrunk below the limit.
abbrev pub is_at_limit : ℕ → Arrival → Bool
is_at_limit max_disk_bytes m = leb max_disk_bytes m.file_bytes

module _ (sql : Sql) (laws : SqlLaws sql) where
  length-room_left :
      (q : OfflineQueue) → UniqueIds q.rows → length (room_left sql q) ≤ length q.rows
  length-room_left q unique = ground (arith, length-evicted sql laws 1 q.rows unique)

  UniqueIds-room_left : (q : OfflineQueue) → UniqueIds q.rows → UniqueIds (room_left sql q)
  unfolding delete_found
  UniqueIds-room_left q unique i = elim (Bool-cases (leb q.max_size (length q.rows))) [
    | inl full ↦ rw full (omega (arith, unique i, count-retain_le (λ r. r.id == i) _ q.rows))
    | inr room ↦ rw room (unique i)
  ]

  evict_count-bounds : (n : ℕ) → 5 ≤ evict_count n
  evict_count-bounds n = omega arith

  length-left :
      (file_bytes : ℕ) (q : OfflineQueue)
      → UniqueIds q.rows
      → 0 < q.max_disk_bytes
      → q.max_disk_bytes ≤ file_bytes
      → length (left sql file_bytes q) ≤ length q.rows - 5
  length-left file_bytes q unique limited at_limit = ground (
    arith,
    length-evicted sql laws (evict_count (length q.rows)) (room_left sql q)
        (UniqueIds-room_left q unique),
    length-room_left q unique,
    evict_count-bounds (length q.rows),
  )

  abbrev after : Arrival → OfflineQueue → OfflineQueue
  after m q =
      (enqueue sql (no_failure m.now m.file_bytes) m.topic m.payload m.priority m.qos m.retain_flag
        q).0

  abbrev stored : Arrival → OfflineQueue → Row
  stored m q =
      new_row (sql.next_id q.sequence) m.now m.topic m.payload m.priority m.qos m.retain_flag

  after_eq :
      (m : Arrival) (q : OfflineQueue)
      → after m q ≡ record q {
        rows = left sql m.file_bytes q ++ stored m q ∷ [];
        sequence = sql.next_id q.sequence;
      }
  after_eq m q =
      ap (λ p. p.0)
        (enqueue-quiet sql m.now m.file_bytes m.topic m.payload m.priority m.qos m.retain_flag q)

  length-after :
      (m : Arrival) (q : OfflineQueue)
      → UniqueIds q.rows
      → 0 < q.max_disk_bytes
      → is_at_limit q.max_disk_bytes m ≡ true
      → length (after m q).rows ≤ max 1 (length q.rows - 4)
  length-after m q unique limited at_limit = omega (
    arith,
    ap (λ q'. length q'.rows) (after_eq m q),
    length-append (left sql m.file_bytes q) (stored m q ∷ []),
    length-left m.file_bytes q unique limited (leb→le q.max_disk_bytes m.file_bytes at_limit),
  )

  -- SQLite does not shrink the file when rows are deleted, only `vacuum` does. As long as every
  -- `enqueue` finds the file at its limit, with every statement answered, each one loses at least
  -- four messages more than it stores, until the new message is the only one.
  pub disk_limit_drains :
      (max_disk_bytes : ℕ) (ms : List Arrival) (q : OfflineQueue)
      → IsWell q
      → q.max_disk_bytes ≡ max_disk_bytes
      → 0 < max_disk_bytes
      → all (is_at_limit max_disk_bytes) ms ≡ true
      → length (enqueue_all sql ms q).rows ≤ max 1 (length q.rows - 4 * length ms)
  unfolding enqueue_all all
  disk_limit_drains max_disk_bytes [] q well is_limit limited at_limit = omega arith
  disk_limit_drains max_disk_bytes (m ∷ ms) q well is_limit limited at_limit = omega (
    arith,
    disk_limit_drains max_disk_bytes ms (after m q)
        (enqueue-IsWell sql laws (no_failure m.now m.file_bytes) m.topic m.payload m.priority m.qos
          m.retain_flag q well)
        (ap (λ q'. q'.max_disk_bytes) (after_eq m q) ∙ is_limit) limited (ground arith),
    length-after m q well.0 (omega (arith, is_limit, limited))
        (ap (λ n. is_at_limit n m) is_limit ∙ ground arith),
  )
