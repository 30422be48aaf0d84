-- ===== src/OfflineQueue/Drain.antt =====
-- The replay of src/offline_queue.rs: `peek` and `ack` in turn, until nothing is left.
use sens.Common.{
  ℕ, zero, suc, ◌≤◌, String, ◌≡◌, refl, sym, ap, ◌∙◌, ◌⊎◌, inl, inr, true, not, Option, none, some,
  List, [], ◌∷◌, map, arith, ◌==◌, length,
}
use sens.Common.Tables.{
  all-retain, count-retain_le, count, all, retain, SameRows, IsSorted, all-SameRows,
  length-SameRows,
}
use sens.Common.Result.{Result, ok, err}
use sens.OfflineQueue.{
  first_row, Row, QueuedMessage, OfflineQueue, Replies, Sql, outranks, cleaned, peek, ack,
}
use sens.OfflineQueue.Queries.{SqlLaws, outranks-IsPreorder}
use sens.OfflineQueue.Rows.{SameRows-others, UniqueIds, first_cases, all-first}
use sens.OfflineQueue.Delivery.{is_readable, message, no_failure, first_row-readable}

-- One round: what `rest` does with the queue after the message of a `peek` is acknowledged.
abbrev go_on :
    (OfflineQueue → OfflineQueue × List QueuedMessage)
    → Replies
    → OfflineQueue × Result (Option QueuedMessage) String
    → OfflineQueue × List QueuedMessage
go_on rest a (q, ok none) = (q, [])
go_on rest a (q, ok (some m)) = ((rest (ack a m.id q).0).0, m ∷ (rest (ack a m.id q).0).1)
go_on rest a (q, err e) = (q, [])

-- What a loop over `peek` and `ack` does in at most `n` rounds: the queue after it, and the messages
-- in the order in which it sent them.
unfoldable pub replay : Sql → Replies → ℕ → OfflineQueue → OfflineQueue × List QueuedMessage
replay sql a zero q = (q, [])
replay sql a (suc n) q = go_on (replay sql a n) a (peek sql a q)

-- The rows without the one that was sent.
abbrev without : ℕ → OfflineQueue → OfflineQueue
without i q = record q { rows = retain (λ r. not (r.id == i)) q.rows }

module _ (sql : Sql) (laws : SqlLaws sql) (now file_bytes : ℕ) where
  abbrev a : Replies
  a = no_failure now file_bytes

  peek_no_age :
      (q : OfflineQueue)
      → q.max_age_secs ≡ 0
      → peek sql a q ≡ (q, first_row (sql.order_by outranks q.rows))
  unfolding peek cleaned
  peek_no_age q no_age = rw (no_age, cleaned) refl

  empty_peek :
      (q : OfflineQueue)
      → q.max_age_secs ≡ 0
      → sql.order_by outranks q.rows ≡ []
      → peek sql a q ≡ (q, ok none)
  empty_peek q no_age none_found = peek_no_age q no_age ∙ rw none_found (unfold first_row in refl)

  replay_none :
      (n : ℕ) (q : OfflineQueue)
      → q.max_age_secs ≡ 0
      → sql.order_by outranks q.rows ≡ []
      → replay sql a n q ≡ (q, [])
  unfolding replay
  replay_none zero q no_age none_found = refl
  replay_none (suc n) q no_age none_found =
      ap (go_on (replay sql a n) a) (empty_peek q no_age none_found)

  found_peek :
      (q : OfflineQueue) (r : Row) (rest : List Row)
      → q.max_age_secs ≡ 0
      → sql.order_by outranks q.rows ≡ r ∷ rest
      → is_readable r ≡ true
      → peek sql a q ≡ (q, ok (some (message r)))
  found_peek q r rest no_age found readable_row =
      peek_no_age q no_age ∙ rw found (ap (λ o. (q, o)) (first_row-readable r rest readable_row))

  replay_some :
      (n : ℕ) (q : OfflineQueue) (r : Row) (rest : List Row)
      → q.max_age_secs ≡ 0
      → sql.order_by outranks q.rows ≡ r ∷ rest
      → is_readable r ≡ true
      → replay sql a (suc n) q
        ≡ ((replay sql a n (without r.id q)).0, message r ∷ (replay sql a n (without r.id q)).1)
  unfolding replay ack
  replay_some n q r rest no_age found readable_row =
      ap (go_on (replay sql a n) a) (found_peek q r rest no_age found readable_row)

  -- The first message that a query finds, if any.
  abbrev first :
      (q : OfflineQueue)
      → ((q.rows ≡ []) × (sql.order_by outranks q.rows ≡ []))
        ⊎ ((x : Row) × (rest : List Row) × (sql.order_by outranks q.rows ≡ x ∷ rest)
            × SameRows (x ∷ rest) q.rows
            × IsSorted outranks (x ∷ rest))
  first q =
      first_cases outranks (sql.order_by outranks q.rows) q.rows (laws.same_rows outranks q.rows)
        (laws.sorted outranks outranks-IsPreorder q.rows)

  abbrev SendsAll : ℕ → OfflineQueue → Type 0
  SendsAll n q =
      ((replay sql a n q).0.rows ≡ [])
      × ((sent : List Row) × IsSorted outranks sent
          × SameRows sent q.rows
          × ((replay sql a n q).1 ≡ map message sent))

  sends_none :
      (n : ℕ) (q : OfflineQueue)
      → q.max_age_secs ≡ 0
      → q.rows ≡ []
      → sql.order_by outranks q.rows ≡ []
      → SendsAll n q
  sends_none n q no_age empty none_found =
      rw (replay_none n q no_age none_found) (empty, ([], tt, (λ f. rw empty refl), refl))

  SameRows-sent :
      (q : OfflineQueue) (r : Row) (rest sent : List Row)
      → SameRows (r ∷ rest) q.rows
      → SameRows rest sent
      → SameRows (r ∷ sent) q.rows
  unfolding count
  SameRows-sent q r rest sent same others f = omega (arith, same f, others f)

  sends_first :
      (n : ℕ) (q : OfflineQueue) (r : Row) (rest : List Row)
      → q.max_age_secs ≡ 0
      → UniqueIds q.rows
      → is_readable r ≡ true
      → sql.order_by outranks q.rows ≡ r ∷ rest
      → SameRows (r ∷ rest) q.rows
      → IsSorted outranks (r ∷ rest)
      → SendsAll n (without r.id q)
      → SendsAll (suc n) q
  sends_first n q r rest no_age unique readable_row found same (before, sorted)
        (empty, (sent, order, all_sent, messages)) =
      let others = SameRows-others r rest q.rows unique same in
      rw (replay_some n q r rest no_age found readable_row) (
        empty,
        (
          r ∷ sent,
          (all-SameRows (outranks r) rest sent (λ f. others f ∙ sym (all_sent f)) before, order),
          SameRows-sent q r rest sent same (λ f. others f ∙ sym (all_sent f)),
          ap (◌∷◌ (message r)) messages,
        ),
      )

  -- With no expiry, unique ids and readable rows, and every statement answered, `n` rounds of
  -- `peek` and `ack` empty a queue of at most `n` messages, and they send each row's message once,
  -- in the order of priority and, among equals, of age.
  pub replay_sends_all :
      (n : ℕ) (q : OfflineQueue)
      → q.max_age_secs ≡ 0
      → UniqueIds q.rows
      → all is_readable q.rows ≡ true
      → length q.rows ≤ n
      → ((replay sql a n q).0.rows ≡ [])
        × ((sent : List Row) × IsSorted outranks sent
            × SameRows sent q.rows
            × ((replay sql a n q).1 ≡ map message sent))
  replay_sends_all zero q no_age unique readable_rows enough = elim (first q) [
    | inl (empty, none_found) ↦ sends_none zero q no_age empty none_found
    | inr (r, rest, found, same, sorted) ↦
        absurd (omega (arith, length-SameRows (r ∷ rest) q.rows same))
  ]
  replay_sends_all (suc n) q no_age unique readable_rows enough = elim (first q) [
    | inl (empty, none_found) ↦ sends_none (suc n) q no_age empty none_found
    | inr (r, rest, found, same, sorted) ↦
        (let others = SameRows-others r rest q.rows unique same in
          sends_first n q r rest no_age unique
            (all-first is_readable r rest q.rows same readable_rows).0 found same sorted
            (replay_sends_all n (without r.id q) no_age
              (λ i. omega (
                arith,
                unique i,
                count-retain_le (λ s. s.id == i) (λ s. not (s.id == r.id)) q.rows,
              ))
              (all-retain is_readable (λ s. not (s.id == r.id)) q.rows readable_rows)
              (omega (
                arith,
                length-SameRows (r ∷ rest) q.rows same,
                length-SameRows rest (without r.id q).rows others,
              ))))
  ]
