-- ===== src/OfflineQueue/Origins.antt =====
-- src/offline_queue.rs: where the rows of the queue come from, and what `nack` and
-- the deletions do to them.
use sens.Common.{
  ℕ, ◌+◌, String, ◌≡◌, refl, sym, ap, ◌∙◌, ◌⊎◌, inl, inr, Bool, false, not, ◌&&◌, ◌||◌, none, some,
  List, [], ◌∷◌, ◌++◌, map, arith, ltb, ◌==◌, if◌then◌else◌, is_some, Bool-cases, Option-cases,
}
use sens.Common.Tables.{retain}
use mathlib.Core.Path.{subst}
use sens.OfflineQueue.{
  nack, low, normal, high, critical, MessagePriority, as_u8, from_u8, Row, OfflineQueue, Replies,
  new_row, retry_row, cleaned, cleanup_expired,
}
use sens.OfflineQueue.Invariants.{Call, enqueues, nacks}

-- The row is one of the list.
abbrev pub IsOneOf : Row → List Row → Type 0
IsOneOf s [] = ⊥
IsOneOf s (r ∷ rows) = (s ≡ r) ⊎ IsOneOf s rows

-- A `nack` of the id that met no error.
abbrev pub is_retry : ℕ → Replies × Call → Bool
is_retry i (a, nacks j) = i == j && not (is_some a.lock || is_some (a.statement 0))
is_retry i (a, _) = false

-- How often the message with the id was given back in the calls.
abbrev pub retries : ℕ → List (Replies × Call) → ℕ
retries i [] = 0
retries i (c ∷ cs) = (if is_retry i c then 1 else 0) + retries i cs

-- The row holds what the call enqueued, the clock's time of the call, and a retry for each `nack`
-- in the calls after it.
abbrev pub IsSentBy : Replies × Call → List (Replies × Call) → Row → Type 0
IsSentBy (a, enqueues topic payload priority qos retain_flag) later s =
    (s.topic ≡ topic)
    × (s.payload ≡ payload)
    × (from_u8 s.priority ≡ priority)
    × (s.qos ≡ qos)
    × (s.retain_flag ≡ (if retain_flag then 1 else 0))
    × (s.created_at ≡ a.now)
    × (s.retry_count ≡ retries s.id later)
IsSentBy (a, _) later s = ⊥

abbrev pub IsSent : List (Replies × Call) → Row → Type 0
IsSent [] s = ⊥
IsSent (c ∷ cs) s = IsSentBy c cs s ⊎ IsSent cs s

-- The row was there before the calls, and has a retry more for each `nack` of it.
abbrev pub WasThere : List Row → List (Replies × Call) → Row → Type 0
WasThere rows cs s =
    (r : Row) × IsOneOf r rows × (s ≡ record r { retry_count = r.retry_count + retries r.id cs })

IsOneOf-retain :
    (f : Row → Bool) (s : Row) (rows : List Row) → IsOneOf s (retain f rows) → IsOneOf s rows
unfolding retain
IsOneOf-retain f s [] h = h
IsOneOf-retain f s (r ∷ rows) h = elim (Bool-cases (f r)) [
  | inl kept ↦
      let h' : IsOneOf s (r ∷ retain f rows) = rw kept at h in
      elim h' [ inl here ↦ inl here | inr there ↦ inr (IsOneOf-retain f s rows there) ]
  | inr gone ↦ let h' : IsOneOf s (retain f rows) = rw gone at h in inr (IsOneOf-retain f s rows h')
]

pub IsOneOf-append :
    (s r : Row) (rows : List Row) → IsOneOf s (rows ++ (r ∷ [])) → IsOneOf s rows ⊎ (s ≡ r)
IsOneOf-append s r [] (inl here) = inr here
IsOneOf-append s r [] (inr there) = absurd there
IsOneOf-append s r (x ∷ rows) (inl here) = inl (inl here)
IsOneOf-append s r (x ∷ rows) (inr there) = elim (IsOneOf-append s r rows there) [
  | inl old ↦ inl (inr old)
  | inr new ↦ inr new
]

IsOneOf-map :
    (f : Row → Row) (s : Row) (rows : List Row)
    → IsOneOf s (map f rows)
    → (r : Row) × IsOneOf r rows × (s ≡ f r)
IsOneOf-map f s [] h = absurd h
IsOneOf-map f s (r ∷ rows) (inl here) = (r, inl refl, here)
IsOneOf-map f s (r ∷ rows) (inr there) =
    let (q, old, eq) = IsOneOf-map f s rows there in (q, inr old, eq)

-- No row of the second queue is new.
abbrev pub IsPart : OfflineQueue → OfflineQueue → Type 0
IsPart q q' = (s : Row) → IsOneOf s q'.rows → IsOneOf s q.rows

-- Where the rows after one call come from.
abbrev pub Comes : Replies × Call → OfflineQueue → OfflineQueue → Type 0
Comes c q q' = (s : Row) → IsOneOf s q'.rows → IsSentBy c [] s ⊎ WasThere q.rows (c ∷ []) s

-- A row that is not given back.
pub same_row :
    (a : Replies) (c : Call) (s : Row) (rows : List Row)
    → is_retry s.id (a, c) ≡ false
    → IsOneOf s rows
    → WasThere rows ((a, c) ∷ []) s
same_row a c s rows other old =
    (s, old, ap (λ n. record s { retry_count = n }) (ground (arith, other)))

from_u8-as_u8 : (p : MessagePriority) → from_u8 (as_u8 p) ≡ p
unfolding from_u8 as_u8
from_u8-as_u8 low = refl
from_u8-as_u8 normal = refl
from_u8-as_u8 high = refl
from_u8-as_u8 critical = refl

pub new_row-IsSentBy :
    (a : Replies) (topic payload : String) (priority : MessagePriority) (qos : ℕ)
    (retain_flag : Bool) (id : ℕ) (s : Row)
    → s ≡ new_row id a.now topic payload priority qos retain_flag
    → IsSentBy (a, enqueues topic payload priority qos retain_flag) [] s
unfolding new_row
new_row-IsSentBy a topic payload priority qos retain_flag id s eq = (
  ap (λ r. r.topic) eq,
  ap (λ r. r.payload) eq,
  ap (λ r. from_u8 r.priority) eq ∙ from_u8-as_u8 priority,
  ap (λ r. r.qos) eq,
  ap (λ r. r.retain_flag) eq,
  ap (λ r. r.created_at) eq,
  ap (λ r. r.retry_count) eq,
)

pub IsPart-retain :
    (keep : Row → Bool) (q : OfflineQueue) → IsPart q (record q { rows = retain keep q.rows })
IsPart-retain keep q s h = IsOneOf-retain keep s q.rows h

pub Comes-part :
    (a : Replies) (c : Call) (q q' : OfflineQueue)
    → ((i : ℕ) → is_retry i (a, c) ≡ false)
    → IsPart q q'
    → Comes (a, c) q q'
Comes-part a c q q' other part s h = inr (same_row a c s q.rows (other s.id) (part s h))

pub cleaned-IsPart : (a : Replies) (q : OfflineQueue) → IsPart q (cleaned a q)
unfolding cleaned cleanup_expired
cleaned-IsPart a q = elim (Bool-cases (ltb 0 q.max_age_secs)) [
  | inr unlimited ↦ rw (unlimited, cleaned) (λ s h. h)
  | inl limited ↦ elim (Option-cases (a.statement 0)) [
    | inl fine ↦ rw (limited, cleaned, cleanup_expired, fine) (IsPart-retain _ q)
    | inr (e, failed) ↦ rw (limited, cleaned, cleanup_expired, failed) (λ s h. h)
  ]
]

nack_locked :
    (a : Replies) (i : ℕ) (e : String) (q : OfflineQueue) → a.lock ≡ some e → (nack a i q).0 ≡ q
unfolding nack
nack_locked a i e q failed = rw failed refl

nack_failed :
    (a : Replies) (i : ℕ) (e : String) (q : OfflineQueue)
    → a.lock ≡ none
    → a.statement 0 ≡ some e
    → (nack a i q).0 ≡ q
unfolding nack
nack_failed a i e q free failed = rw (free, failed) refl

nack_done :
    (a : Replies) (i : ℕ) (q : OfflineQueue)
    → a.lock ≡ none
    → a.statement 0 ≡ none
    → (nack a i q).0 ≡ record q { rows = map (retry_row i) q.rows }
unfolding nack
nack_done a i q free fine = rw (free, fine) refl

retry_once :
    (a : Replies) (i : ℕ) (r : Row)
    → a.lock ≡ none
    → a.statement 0 ≡ none
    → retry_row i r ≡ record r { retry_count = r.retry_count + retries r.id ((a, nacks i) ∷ []) }
unfolding retry_row
retry_once a i r free fine = elim (Bool-cases (r.id == i)) [
  | inl same ↦ rw (same, free, fine) refl
  | inr other ↦ rw other (ap (λ n. record r { retry_count = n }) (omega arith))
]

pub nack-Comes : (a : Replies) (i : ℕ) (q : OfflineQueue) → Comes (a, nacks i) q (nack a i q).0
nack-Comes a i q = elim (Option-cases a.lock) [
  | inr (e, failed) ↦
      subst (Comes (a, nacks i) q) (sym (nack_locked a i e q failed))
        (λ s old. inr (same_row a (nacks i) s q.rows (rw failed (ground arith)) old))
  | inl free ↦ elim (Option-cases (a.statement 0)) [
    | inr (e, failed) ↦
        subst (Comes (a, nacks i) q) (sym (nack_failed a i e q free failed))
          (λ s old. inr (same_row a (nacks i) s q.rows (rw (free, failed) (ground arith)) old))
    | inl fine ↦ subst (Comes (a, nacks i) q) (sym (nack_done a i q free fine)) (λ s changed.
        let (r, old, eq) = IsOneOf-map (retry_row i) s q.rows changed in
        inr (r, old, eq ∙ retry_once a i r free fine))
  ]
]
