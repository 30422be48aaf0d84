-- ===== src/FunctionBlocks/Counters/Ctud/Laws.antt =====
-- What CTUD counts, and its state across a restart (counters.rs, CTUD).
use sens.Common.{
  ap, ◌∙◌, ◌+◌, suc, ◌≤◌, map, length, rises, ℕ, ◌≡◌, Bool, true, false, not, ◌&&◌, List, [], ◌∷◌,
  arith, if◌then◌else◌,
}
use sens.Common.Int.{
  int_laws, ℤ, pos, negsuc, ◌+ℤ◌, ◌-ℤ◌, ◌≤ℤ◌, ltb_ℤ, leb_ℤ, i32_max, IsI32, as_i32_of_IsI32,
}
use sens.Common.Json.{Json, JsonLaws, entry}
use sens.FunctionBlocks.Counters.Ctud.{
  Ctud, execute, serialize_state, deserialize_state, state_fields, restore_fields,
}

-- The numbers of a counter fit their `i32` fields.
pub record IsWord (c : Ctud) : Type 0 where
  pub preset : IsI32 c.pv
  pub count : IsI32 c.cv

-- The outputs say where the count stands.
pub record IsSettled (c : Ctud) : Type 0 where
  pub up : c.qu ≡ leb_ℤ c.pv c.cv
  pub down : c.qd ≡ leb_ℤ c.cv (pos 0)
  pub seen_up : c.prev_cu ≡ c.cu
  pub seen_down : c.prev_cd ≡ c.cd

-- After a scan of a CTUD in any state, the up output says that the count has reached the preset
-- value, the down output that it is not positive, and both inputs have been seen.
pub execute-IsSettled : (c : Ctud) → IsSettled (execute c)
unfolding execute
execute-IsSettled c = ground arith

-- A scan keeps the count within `i32`: at either limit an edge that would pass it changes nothing.
pub execute-IsWord : (c : Ctud) → IsWord c → IsWord (execute c)
unfolding execute
execute-IsWord c w = ground arith

-- Scans, before each of which the two count inputs are set.
pub scans : List (Bool × Bool) → Ctud → Ctud
scans [] c = c
scans ((u, d) ∷ xs) c = scans xs (execute (record c { cu = u; cd = d }))

abbrev edge : Bool → Bool → ℕ
edge prev now = if now && not prev then 1 else 0

execute-count :
    (u d : Bool) (c : Ctud)
    → c.reset ≡ false
    → c.load ≡ false
    → negsuc 2147483646 ≤ℤ c.cv
    → c.cv ≤ℤ pos 2147483646
    → (execute (record c { cu = u; cd = d })).cv
      ≡ c.cv +ℤ pos (edge c.prev_cu u) -ℤ pos (edge c.prev_cd d)
unfolding execute
execute-count u d c r l lo hi = ground arith

edge_small : (prev now : Bool) → edge prev now ≤ 1
edge_small prev now = ground arith

+ℤ_regroup :
    (z : ℤ) (a b m n : ℕ) → z +ℤ pos a -ℤ pos b +ℤ pos m -ℤ pos n ≡ z +ℤ pos (a + m) -ℤ pos (b + n)
+ℤ_regroup z a b m n = omega int_laws

-- A scan moves the count by at most one either way, and one scan fewer is left.
below_step :
    (k a b : ℕ) (z : ℤ)
    → b ≤ 1
    → pos (suc k) -ℤ pos 2147483648 ≤ℤ z
    → pos k -ℤ pos 2147483648 ≤ℤ z +ℤ pos a -ℤ pos b
below_step k a b z small lo = omega int_laws

above_step :
    (k a b : ℕ) (z : ℤ)
    → a ≤ 1
    → z +ℤ pos (suc k) ≤ℤ i32_max
    → z +ℤ pos a -ℤ pos b +ℤ pos k ≤ℤ i32_max
above_step k a b z small hi = omega int_laws

-- The count goes up by the rising edges of CU and down by those of CD: a CTUD that is neither reset
-- nor loaded, scanned with any inputs, and further from both limits of `i32` than there are scans.
pub net_count :
    (xs : List (Bool × Bool)) (c : Ctud)
    → c.reset ≡ false
    → c.load ≡ false
    → pos (length xs) -ℤ pos 2147483648 ≤ℤ c.cv
    → c.cv +ℤ pos (length xs) ≤ℤ i32_max
    → (scans xs c).cv
      ≡ c.cv
        +ℤ pos (rises c.prev_cu (map (λ x. x.0) xs))
        -ℤ pos (rises c.prev_cd (map (λ x. x.1) xs))
unfolding scans execute
net_count [] c r l lo hi = omega int_laws
net_count ((u, d) ∷ xs) c r l lo hi =
    net_count xs (execute (record c { cu = u; cd = d })) r l
      (rw counted
        (below_step (length xs) (edge c.prev_cu u) (edge c.prev_cd d) c.cv (edge_small _ _) lo))
      (rw counted
        (above_step (length xs) (edge c.prev_cu u) (edge c.prev_cd d) c.cv (edge_small _ _) hi))
    ∙ (ap (λ z. z +ℤ pos (rises u (map (λ x. x.0) xs)) -ℤ pos (rises d (map (λ x. x.1) xs))) counted
        ∙ +ℤ_regroup c.cv (edge c.prev_cu u) (edge c.prev_cd d) (rises u (map (λ x. x.0) xs))
            (rises d (map (λ x. x.1) xs)))
  where
    counted :
        (execute (record c { cu = u; cd = d })).cv
        ≡ c.cv +ℤ pos (edge c.prev_cu u) -ℤ pos (edge c.prev_cd d)
    counted = execute-count u d c r l (omega int_laws) (omega int_laws)

-- Both edges in one scan cancel out, unless the count stands at the largest `i32`: there the edge
-- up is lost, and the count goes down by one.
pub both_edges :
    (c : Ctud)
    → IsWord c
    → c.reset ≡ false
    → c.load ≡ false
    → c.cu ≡ true
    → c.prev_cu ≡ false
    → c.cd ≡ true
    → c.prev_cd ≡ false
    → (execute c).cv ≡ (if ltb_ℤ c.cv i32_max then c.cv else pos 2147483646)
unfolding execute
both_edges c w r l u pu d pd = ground arith

module _ {Value : Type 0} (json : Json Value) (laws : JsonLaws json) where
  restore-state_fields :
      (c d : Ctud) → IsWord c → restore_fields json (entry (state_fields json c)) d ≡ c
  unfolding restore_fields
  restore-state_fields c d w = simp (
    laws.as_bool-bool,
    laws.as_i64-number c.pv w.preset,
    laws.as_i64-number c.cv w.count,
    as_i32_of_IsI32 c.pv w.preset,
    as_i32_of_IsI32 c.cv w.count,
  )

  -- A CTUD whose numbers are `i32` survives a restart: what was written for it reads back as the
  -- same counter, into whatever counter it is read.
  pub ctud_round_trip :
      (c d : Ctud) → IsWord c → deserialize_state json (serialize_state json c) d ≡ (c, true)
  unfolding deserialize_state serialize_state
  ctud_round_trip c d w = rw (laws.as_object-object, restore-state_fields c d w)
