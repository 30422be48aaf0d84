-- ===== src/FunctionBlocks/Counters/Ctu/Laws.antt =====
-- What CTU counts, and its state across a restart (counters.rs, CTU).
use sens.Common.{
  rises, ℕ, ◌+◌, ◌≤◌, ◌≡◌, refl, ap, ◌∙◌, Bool, true, false, not, ◌&&◌, List, [], ◌∷◌, arith,
  add-zero, add_assoc, if◌then◌else◌,
}
use sens.Common.Int.{pos, leb_ℤ, IsI32, as_i32_of_IsI32}
use sens.Common.Json.{Json, JsonLaws, entry}
use sens.FunctionBlocks.Counters.Ctu.{
  Ctu, execute, serialize_state, deserialize_state, state_fields, restore_fields,
}

-- The numbers of a counter fit their `i32` fields.
pub record IsWord (c : Ctu) : Type 0 where
  pub preset : IsI32 c.pv
  pub count : IsI32 c.cv

-- Scans, before each of which the count input is set.
pub scans : List Bool → Ctu → Ctu
scans [] c = c
scans (u ∷ us) c = scans us (execute (record c { cu = u }))

execute-count :
    (n : ℕ) (u : Bool) (c : Ctu)
    → c.reset ≡ false
    → c.cv ≡ pos n
    → n + (if u && not c.prev_cu then 1 else 0) ≤ 2147483647
    → (execute (record c { cu = u })).cv ≡ pos (n + (if u && not c.prev_cu then 1 else 0))
unfolding execute
execute-count n u c r e b = ground arith

scans-count :
    (n : ℕ) (us : List Bool) (c : Ctu)
    → c.reset ≡ false
    → c.cv ≡ pos n
    → n + rises c.prev_cu us ≤ 2147483647
    → (scans us c).cv ≡ pos (n + rises c.prev_cu us)
unfolding scans execute
scans-count n [] c r e b = rw add-zero e
scans-count n (u ∷ us) c r e b =
    rw (← add_assoc n (if u && not c.prev_cu then 1 else 0) (rises u us)) (
      scans-count (n + (if u && not c.prev_cu then 1 else 0)) us (execute (record c { cu = u })) r
        (execute-count n u c r e (omega arith)) (omega arith))

-- The output follows the count.
scans-output :
    (u : Bool) (us : List Bool) (c : Ctu) → (scans (u ∷ us) c).q ≡ leb_ℤ c.pv (scans (u ∷ us) c).cv
unfolding scans execute
scans-output u [] c = refl
scans-output u (v ∷ us) c = scans-output v us (execute (record c { cu = u }))

-- A CTU that is not reset counts the rising edges of its input: scanned with any inputs from a
-- count that is not negative, it has gone up by the number of rising edges, as long as that does
-- not pass the largest `i32`; and after the last scan its output is on exactly if the count has
-- reached the preset value.
pub counts_rising_edges :
    (n : ℕ) (u : Bool) (us : List Bool) (c : Ctu)
    → c.reset ≡ false
    → c.cv ≡ pos n
    → n + rises c.prev_cu (u ∷ us) ≤ 2147483647
    → ((scans (u ∷ us) c).cv ≡ pos (n + rises c.prev_cu (u ∷ us)))
      × ((scans (u ∷ us) c).q ≡ leb_ℤ c.pv (pos (n + rises c.prev_cu (u ∷ us))))
counts_rising_edges n u us c r e b =
    let counted = scans-count n (u ∷ us) c r e b in
    (counted, scans-output u us c ∙ ap (leb_ℤ c.pv) counted)

-- A scan keeps the count within `i32`: at the largest value a rising edge leaves it there.
pub execute-IsWord : (c : Ctu) → IsWord c → IsWord (execute c)
unfolding execute
execute-IsWord c w = ground arith

module _ {Value : Type 0} (json : Json Value) (laws : JsonLaws json) where
  restore-state_fields :
      (c d : Ctu) → IsWord c → restore_fields json (entry (state_fields json c)) d ≡ c
  unfolding restore_fields
  restore-state_fields c d w = simp (
    laws.as_bool-bool,
    laws.as_i64-number c.pv w.preset,
    laws.as_i64-number c.cv w.count,
    as_i32_of_IsI32 c.pv w.preset,
    as_i32_of_IsI32 c.cv w.count,
  )

  -- A CTU whose numbers are `i32` survives a restart: what was written for it reads back as the
  -- same counter, into whatever counter it is read.
  pub ctu_round_trip :
      (c d : Ctu) → IsWord c → deserialize_state json (serialize_state json c) d ≡ (c, true)
  unfolding deserialize_state serialize_state
  ctu_round_trip c d w = rw (laws.as_object-object, restore-state_fields c d w)
