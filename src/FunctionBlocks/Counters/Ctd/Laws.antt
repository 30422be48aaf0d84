-- ===== src/FunctionBlocks/Counters/Ctd/Laws.antt =====
-- What CTD counts, and its state across a restart (counters.rs, CTD).
use sens.Common.{
  rises, ℕ, ◌-◌, ◌≤◌, ◌≡◌, refl, ap, ◌∙◌, Bool, true, false, not, ◌&&◌, List, [], ◌∷◌, arith, leb,
  if◌then◌else◌,
}
use sens.Common.Int.{pos, leb_ℤ, IsI32, as_i32_of_IsI32}
use sens.Common.Json.{Json, JsonLaws, entry}
use sens.FunctionBlocks.Counters.Ctd.{
  Ctd, new, execute, serialize_state, deserialize_state, state_fields, restore_fields,
}

-- The numbers of a counter fit their `i32` fields.
pub record IsWord (c : Ctd) : Type 0 where
  pub preset : IsI32 c.pv
  pub count : IsI32 c.cv

-- Scans, before each of which the count input is set.
pub scans : List Bool → Ctd → Ctd
scans [] c = c
scans (d ∷ ds) c = scans ds (execute (record c { cd = d }))

-- A scan keeps the count within `i32`: at the smallest value a rising edge leaves it there.
pub execute-IsWord : (c : Ctd) → IsWord c → IsWord (execute c)
unfolding execute
execute-IsWord c w = ground arith

execute-count :
    (n : ℕ) (d : Bool) (c : Ctd)
    → c.load ≡ false
    → c.cv ≡ pos n
    → (if d && not c.prev_cd then 1 else 0) ≤ n
    → (execute (record c { cd = d })).cv ≡ pos (n - (if d && not c.prev_cd then 1 else 0))
unfolding execute
execute-count n d c l e b = ground arith

scans-count :
    (n : ℕ) (ds : List Bool) (c : Ctd)
    → c.load ≡ false
    → c.cv ≡ pos n
    → rises c.prev_cd ds ≤ n
    → (scans ds c).cv ≡ pos (n - rises c.prev_cd ds)
unfolding scans execute
scans-count n [] c l e b = e ∙ ap pos (omega arith)
scans-count n (d ∷ ds) c l e b =
    scans-count (n - (if d && not c.prev_cd then 1 else 0)) ds (execute (record c { cd = d })) l
      (execute-count n d c l e (omega arith)) (omega arith)
    ∙ ap pos (omega arith)

scans-output :
    (d : Bool) (ds : List Bool) (c : Ctd)
    → (scans (d ∷ ds) c).q ≡ leb_ℤ (scans (d ∷ ds) c).cv (pos 0)
unfolding scans execute
scans-output d [] c = refl
scans-output d (e ∷ ds) c = scans-output e ds (execute (record c { cd = d }))

-- A new CTD with a preset value of `n` has its output on exactly after `n` rising edges of its
-- input: scanned with any inputs that rise at most `n` times, its count is `n` less the rising
-- edges, and after the last scan the output is on exactly if there have been `n` of them.
pub done_after_preset :
    (n : ℕ) (d : Bool) (ds : List Bool)
    → rises false (d ∷ ds) ≤ n
    → ((scans (d ∷ ds) (new (pos n))).cv ≡ pos (n - rises false (d ∷ ds)))
      × ((scans (d ∷ ds) (new (pos n))).q ≡ leb n (rises false (d ∷ ds)))
unfolding new
done_after_preset n d ds b =
    let counted = scans-count n (d ∷ ds) (new (pos n)) refl refl b in
    (counted, scans-output d ds (new (pos n)) ∙ (ap (λ z. leb_ℤ z (pos 0)) counted ∙ at_zero))
  where
    at_zero : leb_ℤ (pos (n - rises false (d ∷ ds))) (pos 0) ≡ leb n (rises false (d ∷ ds))
    at_zero = ground arith

module _ {Value : Type 0} (json : Json Value) (laws : JsonLaws json) where
  restore-state_fields :
      (c d : Ctd) → IsWord c → restore_fields json (entry (state_fields json c)) d ≡ c
  unfolding restore_fields
  restore-state_fields c d w = simp (
    laws.as_bool-bool,
    laws.as_i64-number c.pv w.preset,
    laws.as_i64-number c.cv w.count,
    as_i32_of_IsI32 c.pv w.preset,
    as_i32_of_IsI32 c.cv w.count,
  )

  -- A CTD whose numbers are `i32` survives a restart: what was written for it reads back as the
  -- same counter, into whatever counter it is read.
  pub ctd_round_trip :
      (c d : Ctd) → IsWord c → deserialize_state json (serialize_state json c) d ≡ (c, true)
  unfolding deserialize_state serialize_state
  ctd_round_trip c d w = rw (laws.as_object-object, restore-state_fields c d w)
