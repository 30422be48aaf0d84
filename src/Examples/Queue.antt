-- ===== src/Examples/Queue.antt =====
-- The offline queue at concrete messages.
use sens.Common.{
  inl, inr, ℕ, ◌+◌, ◌≤◌, ◌≡◌, refl, ◌⊎◌, Bool, true, false, none, some, List, [], ◌∷◌, map, arith,
  ◌==◌, if◌then◌else◌, length,
}
use sens.Common.Tables.{take, retain, count, all, SameRows, IsSorted}
use sens.Common.Result.{ok}
use sens.OfflineQueue.{
  make_disk_room, make_room, evict_one, insert_row, count_rows, delete_found, id_in, retry_row,
  get_db_size, nack, ack, make_disk_room, evict_one, make_room, ack, nack, Row, OfflineQueue, low,
  high, critical, Replies, outranks, expendable, cleaned, cleanup_expired, is_expired, peek,
  enqueue, ack_batch, new_row,
}
use sens.OfflineQueue.Rows.{UniqueIds, IsIn}
use sens.OfflineQueue.Delivery.{message, no_failure, next_message}
use sens.OfflineQueue.Drain.{replay, replay_sends_all}
use sens.OfflineQueue.Eviction.{full_queue_evicts}
use sens.OfflineQueue.Invariants.{call, IsWell, Call, enqueues, peeks, acks, nacks, run}
use sens.OfflineQueue.Origins.{IsSent, WasThere}
use sens.OfflineQueue.History.{rows_have_origin}
use sens.OfflineQueue.Capacity.{IsBounded, run-IsBounded}
use sens.OfflineQueue.DiskLimit.{Arrival, enqueue_all, disk_limit_drains}
use sens.OfflineQueue.Batches.{ack_each, ack_batch-ack_each}
use sens.Examples.Sorting.{sort, insert_by, sorting, sorting-laws}

abbrev row : ℕ → ℕ → ℕ → Row
row id priority created_at = record {
  id = id;
  topic = "sens/telemetry";
  payload = "{}";
  priority = priority;
  qos = 1;
  retain_flag = 0;
  created_at = created_at;
  retry_count = 0;
}

-- Two alarms around an event, of a queue with room for three.
abbrev alarms : OfflineQueue
alarms = record {
  rows = row 1 3 1000 ∷ row 2 2 2000 ∷ row 3 3 3000 ∷ [];
  sequence = 3;
  max_size = 3;
  max_age_secs = 0;
  max_disk_bytes = 0;
}

-- The same with an expiry of a minute.
abbrev expiring : OfflineQueue
expiring = record alarms { max_age_secs = 60 }

alarms_unique : UniqueIds alarms.rows
unfolding count
alarms_unique i = ground arith

alarms-IsWell : IsWell alarms
unfolding count
alarms-IsWell = (alarms_unique, refl)

next_message_example :
    let live = (cleaned (no_failure 61500 0) expiring).rows in
    ((live ≡ []) × ((peek sorting (no_failure 61500 0) expiring).1 ≡ ok none))
    ⊎ ((r : Row) × IsIn r live
        × (all (outranks r) live ≡ true)
        × ((peek sorting (no_failure 61500 0) expiring).1 ≡ ok (some (message r))))
unfolding cleaned cleanup_expired is_expired all sens.Common.Tables.retain
next_message_example = next_message sorting sorting-laws 61500 0 expiring refl

replay_sends_all_example :
    ((replay sorting (no_failure 5000 0) 3 alarms).0.rows ≡ [])
    × ((sent : List Row) × IsSorted outranks sent
        × SameRows sent alarms.rows
        × ((replay sorting (no_failure 5000 0) 3 alarms).1 ≡ map message sent))
unfolding all
replay_sends_all_example =
    replay_sends_all sorting sorting-laws 5000 0 3 alarms refl alarms_unique refl (omega arith)

full_queue_evicts_example :
    (victim : Row) × IsIn victim alarms.rows
    × (all (expendable victim) alarms.rows ≡ true)
    × ((f : Row → Bool)
        → count f
              (enqueue sorting (no_failure 5000 0) "sens/alarm" "{}" critical 1 false alarms).0.rows
            + (if f victim then 1 else 0)
          ≡ count f alarms.rows
            + (if f (new_row 4 5000 "sens/alarm" "{}" critical 1 false) then 1 else 0))
full_queue_evicts_example =
    full_queue_evicts sorting sorting-laws 5000 0 "sens/alarm" "{}" critical 1 false alarms
      alarms_unique refl (omega arith) (omega arith)

-- Calls of which one finds the database locked and one fails to insert.
abbrev locked : Replies
locked = record (no_failure 6000 0) { lock = some "poisoned" }

abbrev not_inserted : Replies
not_inserted = record (no_failure 7000 0) {
  statement = λ i. if i == 4 then some "disk full" else none;
}

abbrev calls : List (Replies × Call)
calls =
    (no_failure 5000 0, enqueues "sens/event" "{}" high 1 false)
    ∷ (locked, enqueues "sens/event" "{}" high 1 false)
    ∷ (not_inserted, enqueues "sens/event" "{}" low 0 true)
    ∷ (no_failure 8000 0, nacks 1)
    ∷ (no_failure 9000 0, acks 3)
    ∷ (no_failure 9500 0, peeks)
    ∷ []

-- The message that is enqueued gets the id 4 and is given back once.
abbrev given_back : List (Replies × Call)
given_back =
    (no_failure 5000 0, enqueues "sens/alarm" "{1}" high 2 true)
    ∷ (no_failure 6000 0, nacks 4)
    ∷ (no_failure 7000 0, acks 1)
    ∷ []

abbrev alarm_row : Row
alarm_row = record {
  id = 4;
  topic = "sens/alarm";
  payload = "{1}";
  priority = 2;
  qos = 2;
  retain_flag = 1;
  created_at = 5000;
  retry_count = 1;
}

rows_have_origin_example : IsSent given_back alarm_row ⊎ WasThere alarms.rows given_back alarm_row
unfolding run call enqueue nack ack make_room evict_one make_disk_room insert_row new_row count_rows
    delete_found id_in retain retry_row take get_db_size sort insert_by expendable
rows_have_origin_example = rows_have_origin sorting given_back alarms alarm_row (inr (inl refl))

run-IsBounded_example : IsBounded 3 (run sorting calls alarms)
unfolding all
run-IsBounded_example =
    run-IsBounded sorting sorting-laws calls 3 alarms refl alarms-IsWell (refl, omega arith)

abbrev arrival : Arrival
arrival = record {
  now = 9000;
  file_bytes = 52428800;
  topic = "sens/telemetry";
  payload = "{}";
  priority = low;
  qos = 1;
  retain_flag = false;
}

abbrev arrivals : List Arrival
arrivals = arrival ∷ arrival ∷ []

disk_limit_drains_example :
    length
      (enqueue_all sorting arrivals
        (record alarms { max_size = 100; max_disk_bytes = 52428800 })).rows
    ≤ 1
unfolding all
disk_limit_drains_example =
    disk_limit_drains sorting sorting-laws 52428800 arrivals
      (record alarms { max_size = 100; max_disk_bytes = 52428800 }) alarms-IsWell refl (omega arith)
      refl

ack_batch-ack_each_example : ack_batch (no_failure 5000 0) (2 ∷ 7 ∷ 2 ∷ []) alarms ≡ (
  (ack_each (no_failure 5000 0) (2 ∷ 7 ∷ 2 ∷ []) alarms).0,
  ok (ack_each (no_failure 5000 0) (2 ∷ 7 ∷ 2 ∷ []) alarms).1,
)
ack_batch-ack_each_example = ack_batch-ack_each 5000 0 (2 ∷ 7 ∷ 2 ∷ []) alarms alarms_unique
