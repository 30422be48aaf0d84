-- ===== src/OfflineQueue/Delivery.antt =====
-- What `peek`, `ack` and `nack` of src/offline_queue.rs deliver, and in which order.
use sens.Common.{
  ◌&&◌, ℕ, ◌≡◌, refl, ◌⊎◌, inl, inr, Bool, true, not, none, some, List, [], ◌∷◌, ltb, ◌==◌, u32_mod,
}
use sens.Common.Tables.{all}
use sens.Common.Result.{ok}
use sens.OfflineQueue.{
  Row, QueuedMessage, OfflineQueue, Replies, Sql, outranks, cleaned, peek, read_row, first_row,
  from_u8,
}
use sens.OfflineQueue.Queries.{SqlLaws, outranks-IsPreorder}
use sens.OfflineQueue.Rows.{IsIn, first_before_all, first_IsIn, first_cases, all-first}

abbrev pub is_readable : Row → Bool
is_readable r = ltb r.priority 256 && ltb r.qos 256 && ltb r.retry_count u32_mod

-- The message that a row reads as.
abbrev pub message : Row → QueuedMessage
message r = record {
  id = r.id;
  topic = r.topic;
  payload = r.payload;
  priority = from_u8 r.priority;
  qos = r.qos;
  retain = not (r.retain_flag == 0);
  created_at = r.created_at;
  retry_count = r.retry_count;
}

pub first_row-readable :
    (r : Row) (rest : List Row)
    → is_readable r ≡ true
    → first_row (r ∷ rest) ≡ ok (some (message r))
unfolding first_row read_row
first_row-readable r rest h = rw (h, first_row, read_row) refl

-- An answer to every statement.
abbrev pub no_failure : ℕ → ℕ → Replies
no_failure now file_bytes = record {
  lock = none;
  statement = λ i. none;
  now = now;
  file_bytes = file_bytes;
}

module _ (sql : Sql) (laws : SqlLaws sql) where
  -- With every statement answered and every row readable, `peek` gives no message exactly when no
  -- unexpired row is left, and otherwise a row of the queue that outranks every row left: no row
  -- has a higher priority, and none of the same priority is older.
  pub next_message :
      (now file_bytes : ℕ) (q : OfflineQueue)
      → let live = (cleaned (no_failure now file_bytes) q).rows in
        all is_readable live ≡ true
        → ((live ≡ []) × ((peek sql (no_failure now file_bytes) q).1 ≡ ok none))
          ⊎ ((r : Row) × IsIn r live
              × (all (outranks r) live ≡ true)
              × ((peek sql (no_failure now file_bytes) q).1 ≡ ok (some (message r))))
  unfolding peek first_row
  next_message now file_bytes q readable_rows =
      let live = (cleaned (no_failure now file_bytes) q).rows in
      elim (first_cases outranks (sql.order_by outranks live) live (laws.same_rows outranks live)
        (laws.sorted outranks outranks-IsPreorder live)) [
          | inl (empty, none_found) ↦ inl (empty, rw none_found refl)
          | inr (r, rest, found, same, sorted) ↦ inr (
            r,
            first_IsIn r rest live same,
            first_before_all outranks outranks-IsPreorder r rest live same sorted,
            rw (found) (
                first_row-readable r rest (all-first is_readable r rest live same readable_rows).0),
          )
        ]
