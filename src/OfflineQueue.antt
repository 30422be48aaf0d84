-- ===== src/OfflineQueue.antt =====
-- src/offline_queue.rs. The table `message_queue` is a list of rows and `sequence` is what SQLite's
-- AUTOINCREMENT keeps, the largest id given so far. The database file's size and what the lock and
-- each statement answer are arguments, `Replies`. How SQLite sorts a query, and the id that it gives
-- next, are a parameter, `Sql`.
pub mod Queries
pub mod Rows
pub mod Delivery
pub mod Drain
pub mod Eviction
pub mod Invariants
pub mod Capacity
pub mod DiskLimit
pub mod Batches
pub mod Origins
pub mod History
use sens.Common.{
  ℕ, ◌+◌, ◌-◌, ◌*◌, ◌/◌, min, max, String, Bool, true, false, not, ◌&&◌, ◌||◌, Option, none, some,
  List, [], ◌∷◌, ◌++◌, map, ltb, leb, ◌==◌, if◌then◌else◌, length, u32_mod, u64_mod, wrap64,
}
use sens.Common.Tables.{count, retain, take}
use sens.Common.Result.{Result, ok, err, unless}

pub data MessagePriority : Type 0 where
  low : MessagePriority
  normal : MessagePriority
  high : MessagePriority
  critical : MessagePriority

-- `priority as u8`
unfoldable pub as_u8 : MessagePriority → ℕ
as_u8 low = 0
as_u8 normal = 1
as_u8 high = 2
as_u8 critical = 3

-- `MessagePriority::from`
unfoldable pub from_u8 : ℕ → MessagePriority
from_u8 value =
    if value == 0
    then low
    else (if value == 1 then normal else (if value == 2 then high else critical))

-- A row of `message_queue`.
pub record Row : Type 0 where
  pub id : ℕ
  pub topic : String
  pub payload : String
  pub priority : ℕ
  pub qos : ℕ
  pub retain_flag : ℕ
  pub created_at : ℕ
  pub retry_count : ℕ

pub record QueuedMessage : Type 0 where
  pub id : ℕ
  pub topic : String
  pub payload : String
  pub priority : MessagePriority
  pub qos : ℕ
  pub retain : Bool
  pub created_at : ℕ
  pub retry_count : ℕ

pub record OfflineQueue : Type 0 where
  pub rows : List Row
  pub sequence : ℕ
  pub max_size : ℕ
  pub max_age_secs : ℕ
  pub max_disk_bytes : ℕ

-- What one call meets: the error of a poisoned lock, the error of each statement in its order, the
-- clock in milliseconds since the epoch, and `page_count * page_size`.
pub record Replies : Type 0 where
  pub lock : Option String
  pub statement : ℕ → Option String
  pub now : ℕ
  pub file_bytes : ℕ

-- `SELECT … ORDER BY`, the rows so that each comes before all that it need not follow, and the id
-- that AUTOINCREMENT gives after the largest one so far.
pub record Sql : Type 0 where
  pub order_by : (Row → Row → Bool) → List Row → List Row
  pub next_id : ℕ → ℕ

-- `ORDER BY priority DESC, created_at ASC`
unfoldable pub outranks : Row → Row → Bool
outranks a b =
    ltb b.priority a.priority || (a.priority == b.priority && leb a.created_at b.created_at)

-- `ORDER BY priority ASC, created_at ASC`
unfoldable pub expendable : Row → Row → Bool
expendable a b =
    ltb a.priority b.priority || (a.priority == b.priority && leb a.created_at b.created_at)

-- `with_disk_limit`, on a database file that is new, and `in_memory`.
unfoldable pub with_disk_limit : ℕ → ℕ → ℕ → OfflineQueue
with_disk_limit max_size max_age_secs max_disk_bytes = record {
  rows = [];
  sequence = 0;
  max_size = max_size;
  max_age_secs = max_age_secs;
  max_disk_bytes = max_disk_bytes;
}

unfoldable pub in_memory : ℕ → OfflineQueue
unfolding with_disk_limit
in_memory max_size = with_disk_limit max_size 0 0

-- `id IN (…)`
unfoldable pub id_in : Row → List Row → Bool
id_in r [] = false
id_in r (s ∷ found) = r.id == s.id || id_in r found

-- `DELETE … WHERE id IN (SELECT id …)`
unfoldable pub delete_found : List Row → List Row → List Row
unfolding id_in
delete_found found = retain (λ r. not (id_in r found))

-- `query_row("SELECT COUNT(*) …").unwrap_or(0)`
unfoldable pub count_rows : Option String → List Row → ℕ
count_rows (some e) rows = 0
count_rows none rows = length rows

-- `get_db_size`
unfoldable pub get_db_size : Option String → ℕ → ℕ
get_db_size (some e) bytes = 0
get_db_size none bytes = bytes

-- One more than the largest `i64`.
abbrev pub i64_end : ℕ
i64_end = 9223372036854775808

-- `created_at < cutoff`, where `cutoff` is an `i64` and its product and difference wrap.
unfoldable pub is_expired : ℕ → ℕ → Row → Bool
is_expired now max_age_secs r =
    let age_ms = wrap64 (max_age_secs * 1000) in
    if ltb age_ms i64_end
    then ltb (r.created_at + age_ms) now
    else (let cutoff = now + (u64_mod - age_ms) in ltb cutoff i64_end && ltb r.created_at cutoff)

unfoldable pub cleanup_expired : Replies → OfflineQueue → OfflineQueue
unfolding is_expired
cleanup_expired a q = elim (a.statement 0) [
  | some e ↦ q
  | none ↦ record q { rows = retain (λ r. not (is_expired a.now q.max_age_secs r)) q.rows }
]

-- The columns of a row as `row.get` reads them: priority and quality of service must fit a `u8`, and
-- the retry count a `u32`.
unfoldable pub read_row : Row → Result QueuedMessage String
unfolding from_u8
read_row r =
    if ltb r.priority 256 && ltb r.qos 256 && ltb r.retry_count u32_mod
    then ok (record {
      id = r.id;
      topic = r.topic;
      payload = r.payload;
      priority = from_u8 r.priority;
      qos = r.qos;
      retain = not (r.retain_flag == 0);
      created_at = r.created_at;
      retry_count = r.retry_count;
    })
    else err "IntegralValueOutOfRange"

-- `filter_map(|r| r.ok())`
unfoldable pub readable : List Row → List QueuedMessage
unfolding read_row
readable [] = []
readable (r ∷ rows) = elim (read_row r) [ ok m ↦ m ∷ readable rows | err e ↦ readable rows ]

-- `query_row` of the first row
unfoldable pub first_row : List Row → Result (Option QueuedMessage) String
unfolding read_row
first_row [] = ok none
first_row (r ∷ rows) = elim (read_row r) [ ok m ↦ ok (some m) | err e ↦ err e ]

-- The rows that `peek` and `peek_batch` choose from.
unfoldable pub cleaned : Replies → OfflineQueue → OfflineQueue
unfolding cleanup_expired
cleaned a q = if ltb 0 q.max_age_secs then cleanup_expired a q else q

unfoldable pub ack : Replies → ℕ → OfflineQueue → OfflineQueue × Result Bool String
unfolding count
ack a message_id q =
    unless a.lock (λ e. (q, err e))
      (unless (a.statement 0) (λ e. (q, err e))
        (
          record q { rows = retain (λ r. not (r.id == message_id)) q.rows },
          ok (ltb 0 (count (λ r. r.id == message_id) q.rows)),
        ))

unfoldable pub retry_row : ℕ → Row → Row
retry_row message_id r =
    if r.id == message_id then record r { retry_count = r.retry_count + 1 } else r

unfoldable pub nack : Replies → ℕ → OfflineQueue → OfflineQueue × Result (Unit {0}) String
unfolding retry_row
nack a message_id q =
    unless a.lock (λ e. (q, err e))
      (unless (a.statement 0) (λ e. (q, err e))
        (record q { rows = map (retry_row message_id) q.rows }, ok tt))

unfoldable pub is_listed : List ℕ → Row → Bool
is_listed [] r = false
is_listed (i ∷ ids) r = r.id == i || is_listed ids r

unfoldable pub ack_batch : Replies → List ℕ → OfflineQueue → OfflineQueue × Result ℕ String
unfolding is_listed
ack_batch a [] q = (q, ok 0)
ack_batch a (i ∷ ids) q =
    unless a.lock (λ e. (q, err e))
      (unless (a.statement 0) (λ e. (q, err e))
        (
          record q { rows = retain (λ r. not (is_listed (i ∷ ids) r)) q.rows },
          ok (count (is_listed (i ∷ ids)) q.rows),
        ))

unfoldable pub clear : Replies → OfflineQueue → OfflineQueue × Result ℕ String
clear a q =
    unless a.lock (λ e. (q, err e))
      (unless (a.statement 0) (λ e. (q, err e)) (record q { rows = [] }, ok (length q.rows)))

unfoldable pub len : Replies → OfflineQueue → ℕ
unfolding count_rows
len a q = elim a.lock [ some e ↦ 0 | none ↦ count_rows (a.statement 0) q.rows ]

unfoldable pub is_empty : Replies → OfflineQueue → Bool
unfolding count_rows
is_empty a q = elim a.lock [ some e ↦ true | none ↦ count_rows (a.statement 0) q.rows == 0 ]

-- A new row, as `enqueue` inserts it.
unfoldable pub new_row : ℕ → ℕ → String → String → MessagePriority → ℕ → Bool → Row
unfolding as_u8
new_row id now topic payload priority qos retain_flag = record {
  id = id;
  topic = topic;
  payload = payload;
  priority = as_u8 priority;
  qos = qos;
  retain_flag = if retain_flag then 1 else 0;
  created_at = now;
  retry_count = 0;
}

module _ (sql : Sql) where
  -- `evict_one`
  unfoldable pub evict_one : Option String → OfflineQueue → OfflineQueue × Result (Unit {0}) String
  unfolding delete_found
  evict_one statement q =
      unless statement (λ e. (q, err e))
        (record q { rows = delete_found (take 1 (sql.order_by expendable q.rows)) q.rows }, ok tt)

  unfoldable pub evict_for_disk_space :
      Option String → ℕ → OfflineQueue → OfflineQueue × Result ℕ String
  unfolding delete_found id_in count
  evict_for_disk_space statement evict_count q =
      let found = take evict_count (sql.order_by expendable q.rows) in
      unless statement (λ e. (q, err e))
        (record q { rows = delete_found found q.rows }, ok (count (λ r. id_in r found) q.rows))

  -- The two guards of `enqueue`, on the size that it counted.
  unfoldable pub make_room : Replies → ℕ → OfflineQueue → OfflineQueue × Result (Unit {0}) String
  unfolding evict_one
  make_room a current_size q =
      if leb q.max_size current_size then evict_one (a.statement 1) q else (q, ok tt)

  unfoldable pub make_disk_room : Replies → ℕ → OfflineQueue → OfflineQueue × Result ℕ String
  unfolding evict_for_disk_space get_db_size
  make_disk_room a current_size q =
      if ltb 0 q.max_disk_bytes && leb q.max_disk_bytes (get_db_size (a.statement 2) a.file_bytes)
      then evict_for_disk_space (a.statement 3) (min 50 (max 5 (current_size / 10))) q
      else (q, ok 0)

  unfoldable pub insert_row : Replies → Row → OfflineQueue → OfflineQueue × Result ℕ String
  insert_row a row q =
      unless (a.statement 4) (λ e. (q, err e))
        (record q { rows = q.rows ++ row ∷ []; sequence = row.id }, ok row.id)

  -- `?`
  abbrev pub try_then :
      {A : Type 0}
      → OfflineQueue × Result A String
      → (OfflineQueue → OfflineQueue × Result ℕ String)
      → OfflineQueue × Result ℕ String
  try_then (q, ok u) rest = rest q
  try_then (q, err e) rest = (q, err e)

  unfoldable pub enqueue :
      Replies
      → String
      → String
      → MessagePriority
      → ℕ
      → Bool
      → OfflineQueue
      → OfflineQueue × Result ℕ String
  unfolding make_room make_disk_room insert_row new_row count_rows
  enqueue a topic payload priority qos retain_flag q =
      unless a.lock (λ e. (q, err e))
        (let current_size = count_rows (a.statement 0) q.rows in
          try_then (make_room a current_size q) (λ q1.
            try_then (make_disk_room a current_size q1) (λ q2.
              insert_row a
                (new_row (sql.next_id q2.sequence) a.now topic payload priority qos retain_flag)
                q2)))

  unfoldable pub peek : Replies → OfflineQueue → OfflineQueue × Result (Option QueuedMessage) String
  unfolding cleaned first_row
  peek a q =
      unless a.lock (λ e. (q, err e))
        (let live = cleaned a q in
          (live, unless (a.statement 1) (λ e. err e) (first_row (sql.order_by outranks live.rows))))

  unfoldable pub peek_batch :
      Replies → ℕ → OfflineQueue → OfflineQueue × Result (List QueuedMessage) String
  unfolding cleaned readable
  peek_batch a max_count q =
      unless a.lock (λ e. (q, err e))
        (let live = cleaned a q in
          (
            live,
            unless (a.statement 1) (λ e. err e)
                (ok (readable (take max_count (sql.order_by outranks live.rows)))),
          ))
