-- ===== src/Examples/Counters.antt =====
-- The counters and edge detectors of src/scripting/function_blocks at concrete inputs.
use sens.Common.{◌≡◌, refl, Bool, true, false, List, [], ◌∷◌, arith}
use sens.Common.Int.{pos}
use sens.FunctionBlocks.Counters.Ctu
use sens.FunctionBlocks.Counters.Ctu.{Ctu}
use sens.FunctionBlocks.Counters.Ctu.Laws.{counts_rising_edges}
use sens.FunctionBlocks.Counters.Ctud.{Ctud}
use sens.FunctionBlocks.Edges.{Trig}

abbrev counted_to_2 : Ctu
counted_to_2 = record {
  pv = pos 3;
  cv = pos 2;
  cu = false;
  reset = false;
  q = false;
  prev_cu = false;
}

counts_rising_edges_example :
    let c = Ctu.Laws.scans (true ∷ true ∷ false ∷ true ∷ []) counted_to_2 in
    (c.cv ≡ pos 4) × (c.q ≡ true)
counts_rising_edges_example =
    counts_rising_edges 2 true (true ∷ false ∷ true ∷ []) counted_to_2 refl refl (omega arith)

abbrev at_5 : Ctud
at_5 = record {
  pv = pos 9;
  cv = pos 5;
  cu = false;
  cd = false;
  reset = false;
  load = false;
  qu = false;
  qd = false;
  prev_cu = false;
  prev_cd = false;
}

abbrev low : Trig
low = record { clk = false; q = false; prev_clk = false }

abbrev high : Trig
high = record { clk = false; q = false; prev_clk = true }

abbrev clock : List Bool
clock = true ∷ true ∷ false ∷ true ∷ []
