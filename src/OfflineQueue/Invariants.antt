-- ===== src/OfflineQueue/Invariants.antt =====
-- What every call of src/offline_queue.rs keeps, whatever the lock and the database answer: ids are
-- unique and lie below the sequence; and the bound on the number of rows.
use sens.Common.{
  ◌<◌, Option-cases, [], ◌∷◌, map, List, ℕ, ◌≤◌, String, ◌≡◌, refl, inl, inr, Bool, ◌&&◌, Option,
  none, some, arith, ltb, leb, ◌==◌, Bool-cases, length,
}
use sens.Common.Tables.{
  count_mono, count_mono, count_one, count-append, count, retain, count-retain_le, length-retain_le,
}
use sens.Common.Result.{Result, ok, err, unless}
use sens.OfflineQueue.{
  count_rows, cleanup_expired, new_row, peek_batch, MessagePriority, clear, ack_batch, nack,
  retry_row, cleaned, enqueue, insert_row, Row, OfflineQueue, Replies, Sql, delete_found, evict_one,
  evict_for_disk_space, make_room, make_disk_room, try_then, get_db_size, peek, ack,
}
use sens.OfflineQueue.Queries.{SqlLaws}
use sens.OfflineQueue.Rows.{UniqueIds}

-- Ids are unique, and none is above the sequence.
abbrev pub IsWell : OfflineQueue → Type 0
IsWell q = UniqueIds q.rows × (count (λ r. ltb q.sequence r.id) q.rows ≡ 0)

-- Rows were only removed, or had columns other than their ids changed.
abbrev pub Shrinks : OfflineQueue → OfflineQueue → Type 0
Shrinks q q' =
    (q'.sequence ≡ q.sequence)
    × (q'.max_size ≡ q.max_size)
    × (length q'.rows ≤ length q.rows)
    × ((f : ℕ → Bool) → count (λ r. f r.id) q'.rows ≤ count (λ r. f r.id) q.rows)

pub Shrinks-refl : (q : OfflineQueue) → Shrinks q q
Shrinks-refl q = (refl, refl, omega arith, λ f. omega arith)

pub Shrinks-retain :
    (keep : Row → Bool) (q : OfflineQueue) → Shrinks q (record q { rows = retain keep q.rows })
Shrinks-retain keep q =
    (refl, refl, length-retain_le keep q.rows, λ f. count-retain_le (λ r. f r.id) keep q.rows)

IsWell-Shrinks : (q q' : OfflineQueue) → Shrinks q q' → IsWell q → IsWell q'
IsWell-Shrinks q q' (same_sequence, _, _, fewer) (unique, below) = (
  λ i. omega (arith, fewer (λ j. j == i), unique i),
  rw same_sequence (omega (arith, fewer (ltb q.sequence), below)),
)

-- A call that may fail, before anything or after a change.
pub unless-P {ℓ} :
    {A : Type 0} (P : OfflineQueue → Type ℓ) (o : Option String) (q : OfflineQueue)
    (rest : OfflineQueue × Result A String)
    → P q
    → P rest.0
    → P (unless o (λ e. (q, err e)) rest).0
unless-P P none q rest before after = after
unless-P P (some e) q rest before after = before

pub try_then-P {ℓ κ} :
    {A : Type 0} (P : OfflineQueue → Type ℓ) (Q : OfflineQueue → Type κ) (sql : Sql)
    (x : OfflineQueue × Result A String) (rest : OfflineQueue → OfflineQueue × Result ℕ String)
    → P x.0
    → ((q : OfflineQueue) → P q → Q q)
    → ((q : OfflineQueue) → P q → Q (rest q).0)
    → Q (try_then sql x rest).0
try_then-P P Q sql (q, ok a) rest before stop go = go q before
try_then-P P Q sql (q, err e) rest before stop go = stop q before

module _ (sql : Sql) where
  pub make_room-Shrinks :
      (a : Replies) (n : ℕ) (q : OfflineQueue) → Shrinks q (make_room sql a n q).0
  unfolding make_room evict_one delete_found
  make_room-Shrinks a n q = elim (Bool-cases (leb q.max_size n)) [
    | inl full ↦
        rw full (unless-P (Shrinks q) (a.statement 1) q _ (Shrinks-refl q) (Shrinks-retain _ q))
    | inr room ↦ rw room (Shrinks-refl q)
  ]

  pub make_disk_room-Shrinks :
      (a : Replies) (n : ℕ) (q : OfflineQueue) → Shrinks q (make_disk_room sql a n q).0
  unfolding make_disk_room evict_for_disk_space delete_found
  make_disk_room-Shrinks a n q =
      elim (Bool-cases (
        ltb 0 q.max_disk_bytes
        && leb q.max_disk_bytes (get_db_size (a.statement 2) a.file_bytes))) [
          | inl full ↦
              rw full
                (unless-P (Shrinks q) (a.statement 3) q _ (Shrinks-refl q) (Shrinks-retain _ q))
          | inr room ↦ rw room (Shrinks-refl q)
        ]

  insert_row-IsWell :
      (a : Replies) (row : Row) (q : OfflineQueue)
      → q.sequence < row.id
      → IsWell q
      → IsWell (insert_row sql a row q).0
  unfolding insert_row
  insert_row-IsWell a row q next (unique, below) =
      unless-P IsWell (a.statement 4) q _ (unique, below)
        (
          (λ i. ground (
            arith,
            count-append (λ r. r.id == i) q.rows (row ∷ []),
            count_one (λ r. r.id == i) row,
            unique i,
            count_mono (λ r. r.id == row.id) (λ r. ltb q.sequence r.id) q.rows
                (λ r same. ground arith),
          )),
          ground (
            arith,
            count-append (λ r. ltb row.id r.id) q.rows (row ∷ []),
            count_one (λ r. ltb row.id r.id) row,
            count_mono (λ r. ltb row.id r.id) (λ r. ltb q.sequence r.id) q.rows
                (λ r above. ground arith),
          ),
        )

module _ (sql : Sql) (laws : SqlLaws sql) where
  pub enqueue-IsWell :
      (a : Replies) (topic payload : String) (priority : MessagePriority) (qos : ℕ)
      (retain_flag : Bool) (q : OfflineQueue)
      → IsWell q
      → IsWell (enqueue sql a topic payload priority qos retain_flag q).0
  unfolding enqueue new_row
  enqueue-IsWell a topic payload priority qos retain_flag q well =
      let n = count_rows (a.statement 0) q.rows in
      let well1 = IsWell-Shrinks q (make_room sql a n q).0 (make_room-Shrinks sql a n q) well in
      unless-P IsWell a.lock q _ well (
        try_then-P IsWell IsWell sql (make_room sql a n q) _ well1 (λ q1 w. w)
          (λ q1 w1.
            try_then-P IsWell IsWell sql (make_disk_room sql a n q1) _
              (IsWell-Shrinks q1 (make_disk_room sql a n q1).0 (make_disk_room-Shrinks sql a n q1)
                w1)
              (λ q2 w. w)
              (λ q2.
                insert_row-IsWell sql a
                  (new_row (sql.next_id q2.sequence) a.now topic payload priority qos retain_flag)
                  q2 (laws.above q2.sequence))))

cleaned-Shrinks : (a : Replies) (q : OfflineQueue) → Shrinks q (cleaned a q)
unfolding cleaned cleanup_expired
cleaned-Shrinks a q = elim (Bool-cases (ltb 0 q.max_age_secs)) [
  | inr unlimited ↦ rw (unlimited, cleaned) (Shrinks-refl q)
  | inl limited ↦ elim (Option-cases (a.statement 0)) [
    | inl fine ↦ rw (limited, cleaned, cleanup_expired, fine) (Shrinks-retain _ q)
    | inr (e, failed) ↦ rw (limited, cleaned, cleanup_expired, failed) (Shrinks-refl q)
  ]
]

count_ids-retry :
    (f : ℕ → Bool) (i : ℕ) (rows : List Row)
    → count (λ r. f r.id) (map (retry_row i) rows) ≡ count (λ r. f r.id) rows
unfolding count retry_row
count_ids-retry f i [] = refl
count_ids-retry f i (r ∷ rows) = ground (arith, count_ids-retry f i rows)

length-retry : (i : ℕ) (rows : List Row) → length (map (retry_row i) rows) ≡ length rows
length-retry i [] = refl
length-retry i (r ∷ rows) = omega (arith, length-retry i rows)

pub nack-Shrinks : (a : Replies) (i : ℕ) (q : OfflineQueue) → Shrinks q (nack a i q).0
unfolding nack
nack-Shrinks a i q = unless-P (Shrinks q) a.lock q _ (Shrinks-refl q) (
    unless-P (Shrinks q) (a.statement 0) q _ (Shrinks-refl q) (
      refl,
      refl,
      omega (arith, length-retry i q.rows),
      λ f. omega (arith, count_ids-retry f i q.rows),
    ))

pub ack-Shrinks : (a : Replies) (i : ℕ) (q : OfflineQueue) → Shrinks q (ack a i q).0
unfolding ack
ack-Shrinks a i q =
    unless-P (Shrinks q) a.lock q _ (Shrinks-refl q)
      (unless-P (Shrinks q) (a.statement 0) q _ (Shrinks-refl q) (Shrinks-retain _ q))

pub ack_batch-Shrinks :
    (a : Replies) (ids : List ℕ) (q : OfflineQueue) → Shrinks q (ack_batch a ids q).0
unfolding ack_batch
ack_batch-Shrinks a [] q = Shrinks-refl q
ack_batch-Shrinks a (i ∷ ids) q =
    unless-P (Shrinks q) a.lock q _ (Shrinks-refl q)
      (unless-P (Shrinks q) (a.statement 0) q _ (Shrinks-refl q) (Shrinks-retain _ q))

pub clear-Shrinks : (a : Replies) (q : OfflineQueue) → Shrinks q (clear a q).0
unfolding clear count
clear-Shrinks a q = unless-P (Shrinks q) a.lock q _ (Shrinks-refl q) (
    unless-P (Shrinks q) (a.statement 0) q _ (Shrinks-refl q)
      (refl, refl, omega arith, λ f. omega arith))

-- The calls that may change the queue.
pub data Call : Type 0 where
  enqueues : String → String → MessagePriority → ℕ → Bool → Call
  peeks : Call
  peeks_batch : ℕ → Call
  acks : ℕ → Call
  nacks : ℕ → Call
  acks_batch : List ℕ → Call
  clears : Call

module _ (sql : Sql) where
  unfoldable pub call : Replies → Call → OfflineQueue → OfflineQueue
  call a (enqueues topic payload priority qos retain_flag) q =
      (enqueue sql a topic payload priority qos retain_flag q).0
  call a peeks q = (peek sql a q).0
  call a (peeks_batch max_count) q = (peek_batch sql a max_count q).0
  call a (acks i) q = (ack a i q).0
  call a (nacks i) q = (nack a i q).0
  call a (acks_batch ids) q = (ack_batch a ids q).0
  call a clears q = (clear a q).0

  -- Calls in turn, each with what it meets.
  unfoldable pub run : List (Replies × Call) → OfflineQueue → OfflineQueue
  run [] q = q
  run ((a, c) ∷ cs) q = run cs (call a c q)

  pub peek-Shrinks : (a : Replies) (q : OfflineQueue) → Shrinks q (peek sql a q).0
  unfolding peek
  peek-Shrinks a q = unless-P (Shrinks q) a.lock q _ (Shrinks-refl q) (cleaned-Shrinks a q)

  pub peek_batch-Shrinks :
      (a : Replies) (n : ℕ) (q : OfflineQueue) → Shrinks q (peek_batch sql a n q).0
  unfolding peek_batch
  peek_batch-Shrinks a n q = unless-P (Shrinks q) a.lock q _ (Shrinks-refl q) (cleaned-Shrinks a q)

module _ (sql : Sql) (laws : SqlLaws sql) where
  pub call-IsWell : (a : Replies) (c : Call) (q : OfflineQueue) → IsWell q → IsWell (call sql a c q)
  unfolding call
  call-IsWell a (enqueues topic payload priority qos retain_flag) q well =
      enqueue-IsWell sql laws a topic payload priority qos retain_flag q well
  call-IsWell a peeks q well = IsWell-Shrinks q (peek sql a q).0 (peek-Shrinks sql a q) well
  call-IsWell a (peeks_batch n) q well =
      IsWell-Shrinks q (peek_batch sql a n q).0 (peek_batch-Shrinks sql a n q) well
  call-IsWell a (acks i) q well = IsWell-Shrinks q (ack a i q).0 (ack-Shrinks a i q) well
  call-IsWell a (nacks i) q well = IsWell-Shrinks q (nack a i q).0 (nack-Shrinks a i q) well
  call-IsWell a (acks_batch ids) q well =
      IsWell-Shrinks q (ack_batch a ids q).0 (ack_batch-Shrinks a ids q) well
  call-IsWell a clears q well = IsWell-Shrinks q (clear a q).0 (clear-Shrinks a q) well

  -- Any calls, with whatever the lock, the statements and the clock answer, keep the ids unique and
  -- not above the sequence, so that the next message gets an id that no row has.
  pub run-IsWell :
      (cs : List (Replies × Call)) (q : OfflineQueue) → IsWell q → IsWell (run sql cs q)
  unfolding run
  run-IsWell [] q well = well
  run-IsWell ((a, c) ∷ cs) q well = run-IsWell cs (call sql a c q) (call-IsWell a c q well)
