-- ===== src/OfflineQueue/History.antt =====
-- src/offline_queue.rs: where the rows of the queue come from, over any calls.
use sens.Common.{
  ℕ, ◌+◌, String, ◌≡◌, refl, sym, ap, ◌∙◌, ◌⊎◌, inl, inr, Bool, ◌&&◌, List, [], ◌∷◌, arith, ltb,
  leb, Bool-cases,
}
use sens.OfflineQueue.{
  MessagePriority, from_u8, Row, OfflineQueue, Replies, Sql, delete_found, count_rows, evict_one,
  evict_for_disk_space, make_room, make_disk_room, insert_row, enqueue, peek, peek_batch, ack,
  ack_batch, clear, get_db_size,
}
use sens.OfflineQueue.Origins.{
  IsOneOf, retries, IsSentBy, IsSent, WasThere, IsPart, Comes, IsOneOf-append, same_row,
  new_row-IsSentBy, IsPart-retain, Comes-part, cleaned-IsPart, nack-Comes,
}
use sens.OfflineQueue.Invariants.{
  run, Call, enqueues, peeks, peeks_batch, acks, nacks, acks_batch, clears, call, unless-P,
  try_then-P,
}

IsSentBy-later :
    (a : Replies) (c : Call) (cs : List (Replies × Call)) (r s : Row)
    → IsSentBy (a, c) [] r
    → s ≡ record r { retry_count = r.retry_count + retries r.id cs }
    → IsSentBy (a, c) cs s
IsSentBy-later a (enqueues topic payload priority qos retain_flag) cs r s
      (same_topic, same_payload, same_priority, same_qos, same_flag, same_time, none_yet) eq =
    (
      ap (λ x. x.topic) eq ∙ same_topic,
      ap (λ x. x.payload) eq ∙ same_payload,
      ap (λ x. from_u8 x.priority) eq ∙ same_priority,
      ap (λ x. x.qos) eq ∙ same_qos,
      ap (λ x. x.retain_flag) eq ∙ same_flag,
      ap (λ x. x.created_at) eq ∙ same_time,
      ap (λ x. x.retry_count) eq
          ∙ ap (λ n. n + retries r.id cs) none_yet
          ∙ omega arith
          ∙ ap (λ i. retries i cs) (sym (ap (λ x. x.id) eq)),
    )
IsSentBy-later a peeks cs r s h eq = h
IsSentBy-later a (peeks_batch n) cs r s h eq = h
IsSentBy-later a (acks i) cs r s h eq = h
IsSentBy-later a (nacks i) cs r s h eq = h
IsSentBy-later a (acks_batch ids) cs r s h eq = h
IsSentBy-later a clears cs r s h eq = h

module _ (sql : Sql) where
  make_room-IsPart : (a : Replies) (n : ℕ) (q : OfflineQueue) → IsPart q (make_room sql a n q).0
  unfolding make_room evict_one delete_found
  make_room-IsPart a n q = elim (Bool-cases (leb q.max_size n)) [
    | inl full ↦ rw full (unless-P (IsPart q) (a.statement 1) q _ (λ s h. h) (IsPart-retain _ q))
    | inr room ↦ rw room (λ s h. h)
  ]

  make_disk_room-IsPart :
      (a : Replies) (n : ℕ) (q : OfflineQueue) → IsPart q (make_disk_room sql a n q).0
  unfolding make_disk_room evict_for_disk_space delete_found
  make_disk_room-IsPart a n q =
      elim (Bool-cases (
        ltb 0 q.max_disk_bytes
        && leb q.max_disk_bytes (get_db_size (a.statement 2) a.file_bytes))) [
          | inl full ↦
              rw full (unless-P (IsPart q) (a.statement 3) q _ (λ s h. h) (IsPart-retain _ q))
          | inr room ↦ rw room (λ s h. h)
        ]

  enqueue-Comes :
      (a : Replies) (topic payload : String) (priority : MessagePriority) (qos : ℕ)
      (retain_flag : Bool) (q : OfflineQueue)
      → Comes
          (a, enqueues topic payload priority qos retain_flag)
          q
          (enqueue sql a topic payload priority qos retain_flag q).0
  unfolding enqueue insert_row
  enqueue-Comes a topic payload priority qos retain_flag q =
      let c = enqueues topic payload priority qos retain_flag in
      let n = count_rows (a.statement 0) q.rows in
      let P = IsPart q in
      let Q = Comes (a, c) q in
      let stop : (q1 : OfflineQueue) → P q1 → Q q1 =
        λ q1 part s h. inr (same_row a c s q.rows refl (part s h)) in
      unless-P Q a.lock q _ (stop q (λ s h. h)) (
        try_then-P P Q sql (make_room sql a n q) _ (make_room-IsPart a n q) stop (λ q1 p1.
          try_then-P P Q sql (make_disk_room sql a n q1) _
            (λ s h. p1 s (make_disk_room-IsPart a n q1 s h)) stop
            (λ q2 p2. unless-P Q (a.statement 4) q2 _ (stop q2 p2) (λ s h.
              elim (IsOneOf-append s _ q2.rows h) [
                | inl old ↦ stop q2 p2 s old
                | inr new ↦ inl (new_row-IsSentBy a topic payload priority qos retain_flag _ s new)
              ]))))

  call-Comes : (a : Replies) (c : Call) (q : OfflineQueue) → Comes (a, c) q (call sql a c q)
  unfolding call peek peek_batch ack ack_batch clear
  call-Comes a (enqueues topic payload priority qos retain_flag) q =
      enqueue-Comes a topic payload priority qos retain_flag q
  call-Comes a peeks q =
      Comes-part a peeks q (peek sql a q).0 (λ i. refl)
        (unless-P (IsPart q) a.lock q _ (λ s h. h) (cleaned-IsPart a q))
  call-Comes a (peeks_batch n) q =
      Comes-part a (peeks_batch n) q (peek_batch sql a n q).0 (λ i. refl)
        (unless-P (IsPart q) a.lock q _ (λ s h. h) (cleaned-IsPart a q))
  call-Comes a (acks i) q =
      Comes-part a (acks i) q (ack a i q).0 (λ i. refl)
        (unless-P (IsPart q) a.lock q _ (λ s h. h)
          (unless-P (IsPart q) (a.statement 0) q _ (λ s h. h) (IsPart-retain _ q)))
  call-Comes a (nacks i) q = nack-Comes a i q
  call-Comes a (acks_batch []) q = Comes-part a (acks_batch []) q q (λ i. refl) (λ s h. h)
  call-Comes a (acks_batch (i ∷ ids)) q =
      Comes-part a (acks_batch (i ∷ ids)) q (ack_batch a (i ∷ ids) q).0 (λ i. refl)
        (unless-P (IsPart q) a.lock q _ (λ s h. h)
          (unless-P (IsPart q) (a.statement 0) q _ (λ s h. h) (IsPart-retain _ q)))
  call-Comes a clears q =
      Comes-part a clears q (clear a q).0 (λ i. refl)
        (unless-P (IsPart q) a.lock q _ (λ s h. h)
          (unless-P (IsPart q) (a.statement 0) q _ (λ s h. h) (λ s h. absurd h)))

  -- After any calls, with whatever the lock, the statements and the clock answer, every row of the
  -- queue either is that of a message that one of the calls enqueued, with its topic, payload,
  -- priority, quality of service, retain flag and the time of the call, and was retried as often as
  -- later calls of `nack` with its id met no error; or it was there before the calls, and only its
  -- retries are more, by as many as those calls of `nack`.
  pub rows_have_origin :
      (cs : List (Replies × Call)) (q : OfflineQueue) (s : Row)
      → IsOneOf s (run sql cs q).rows
      → IsSent cs s ⊎ WasThere q.rows cs s
  unfolding run
  rows_have_origin [] q s h = inr (s, h, ap (λ n. record s { retry_count = n }) (omega arith))
  rows_have_origin ((a, c) ∷ cs) q s h = elim (rows_have_origin cs (call sql a c q) s h) [
    | inl sent ↦ inl (inr sent)
    | inr (r, old, eq) ↦ elim (call-Comes a c q r old) [
      | inl sent ↦ inl (inl (IsSentBy-later a c cs r s sent eq))
      | inr (r0, first, eq0) ↦ inr (
        r0,
        first,
        eq
            ∙ ap (λ (x : Row). record x { retry_count = x.retry_count + retries x.id cs }) eq0
            ∙ ap (λ n. record r0 { retry_count = n }) (omega arith),
      )
    ]
  ]
