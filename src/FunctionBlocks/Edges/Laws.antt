-- ===== src/FunctionBlocks/Edges/Laws.antt =====
-- What R_TRIG and F_TRIG detect, and their state across a restart (edge_triggers.rs).
use sens.Common.{rises, ◌≡◌, refl, Bool, true, false, not, ◌&&◌, List, [], ◌∷◌, map, arith, trues}
use sens.Common.Json.{Json, JsonLaws, entry}
use sens.FunctionBlocks.Edges.{
  Trig, execute_r_trig, execute_f_trig, serialize_state, deserialize_state, state_fields,
  restore_fields,
}

-- The outputs of scans, before each of which the clock input is set.
pub r_trig_outputs : List Bool → Trig → List Bool
r_trig_outputs [] t = []
r_trig_outputs (c ∷ cs) t =
    (execute_r_trig (record t { clk = c })).q
    ∷ r_trig_outputs cs (execute_r_trig (record t { clk = c }))

pub f_trig_outputs : List Bool → Trig → List Bool
f_trig_outputs [] t = []
f_trig_outputs (c ∷ cs) t =
    (execute_f_trig (record t { clk = c })).q
    ∷ f_trig_outputs cs (execute_f_trig (record t { clk = c }))

-- No two outputs in a row are on.
abbrev pub IsSingle : List Bool → Type 0
IsSingle [] = Unit
IsSingle (a ∷ []) = Unit
IsSingle (a ∷ b ∷ bs) = ((a && b) ≡ false) × IsSingle (b ∷ bs)

r_trig-trues : (cs : List Bool) (t : Trig) → trues (r_trig_outputs cs t) ≡ rises t.prev_clk cs
unfolding r_trig_outputs execute_r_trig
r_trig-trues [] t = refl
r_trig-trues (c ∷ cs) t = rw (r_trig-trues cs (execute_r_trig (record t { clk = c })))

r_trig-IsSingle : (cs : List Bool) (t : Trig) → IsSingle (r_trig_outputs cs t)
unfolding r_trig_outputs execute_r_trig
r_trig-IsSingle [] t = tt
r_trig-IsSingle (c ∷ []) t = tt
r_trig-IsSingle (c ∷ d ∷ cs) t =
    (ground arith, r_trig-IsSingle (d ∷ cs) (execute_r_trig (record t { clk = c })))

-- R_TRIG is on at one scan for each rising edge of its clock and at no other: over scans with any
-- clock inputs, as many outputs are on as there are rising edges, and never two in a row.
pub one_pulse_per_rise :
    (cs : List Bool) (t : Trig)
    → (trues (r_trig_outputs cs t) ≡ rises t.prev_clk cs) × IsSingle (r_trig_outputs cs t)
one_pulse_per_rise cs t = (r_trig-trues cs t, r_trig-IsSingle cs t)

-- F_TRIG is R_TRIG on the inverted clock: over scans with any clock inputs it gives the outputs
-- that an R_TRIG gives which sees each input, and has seen the one before, the other way round.
pub f_trig-eq-r_trig_not :
    (cs : List Bool) (t u : Trig)
    → u.prev_clk ≡ not t.prev_clk
    → f_trig_outputs cs t ≡ r_trig_outputs (map not cs) u
unfolding f_trig_outputs r_trig_outputs execute_f_trig execute_r_trig
f_trig-eq-r_trig_not [] t u h = refl
f_trig-eq-r_trig_not (c ∷ cs) t u h = ground (
  arith,
  f_trig-eq-r_trig_not cs (execute_f_trig (record t { clk = c }))
      (execute_r_trig (record u { clk = not c })) refl,
)

module _ {Value : Type 0} (json : Json Value) (laws : JsonLaws json) where
  restore-state_fields : (t u : Trig) → restore_fields json (entry (state_fields json t)) u ≡ t
  unfolding restore_fields
  restore-state_fields t u = simp laws.as_bool-bool

  -- An edge detector survives a restart: what was written for it reads back as the same detector,
  -- into whatever detector it is read.
  pub trig_round_trip : (t u : Trig) → deserialize_state json (serialize_state json t) u ≡ (t, true)
  unfolding deserialize_state serialize_state
  trig_round_trip t u = rw (laws.as_object-object, restore-state_fields t u)
