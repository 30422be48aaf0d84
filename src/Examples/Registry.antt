-- ===== src/Examples/Registry.antt =====
-- The registry of src/scripting/fb_registry.rs over a store that never fails.
use sens.Common.{
  String, ◌≡◌, refl, true, false, none, some, List, [], ◌∷◌, arith, str_eq, if◌then◌else◌, Readings,
}
use sens.Common.Int.{pos, negsuc}
use sens.Common.Map.{string_key, get, insert, get-insert, beq_refl}
use sens.Common.Result.{ok}
use sens.Examples.Document.{Document, documents, documents-laws}
use sens.FunctionBlocks.Block.{FunctionBlock, ctud, f_trig}
use sens.FunctionBlocks.Counters.Ctud.{Ctud}
use sens.FunctionBlocks.Counters.Ctud.Laws.{IsWord}
use sens.Scripting.Registry.{
  FbDefinition, FbState, FunctionBlockStore, with_persistence, create_fb, save_states,
}
use sens.Scripting.Registry.Keys.{SameKeys, Op, create, drop, scan, save, run, run-SameKeys}
use sens.Scripting.Registry.Saving.{Distinct, StoreLaws, counter_survives_restart}

abbrev Rows : Type 0
Rows = List (String × FbState Document)

abbrev rows_store : FunctionBlockStore Document Rows String
rows_store = record {
  save_fb_state = λ id state s. (insert id state s, ok tt);
  load_fb_state = λ id s. ok (get id s);
  clear_fb_state = λ id s. (s, ok tt);
}

rows_store-laws : StoreLaws rows_store
rows_store-laws = record {
  load-save = λ id state s saved. rw (get-insert id id state s, beq_refl {K = String} id) refl;
  load-save_other = λ id j state s other. rw (get-insert id j state s, other) refl;
}

abbrev boot : Readings
boot = record { at_start = 0; at_elapsed = 0 }

abbrev counter_def : FbDefinition
counter_def = record {
  id = "parts";
  fb_type = "ctud";
  params = record { pt_ms = none; pv = some (pos 7) };
  inputs = [];
  outputs = [];
}

-- Enough of `to_uppercase`.
abbrev upper : String → String
upper s = if str_eq s "ctud" then "CTUD" else s

empty-SameKeys : SameKeys (with_persistence {Store = Rows} [])
unfolding SameKeys with_persistence get
empty-SameKeys = λ id. refl

abbrev calls : List (Readings × Op documents rows_store)
calls =
    (boot, create counter_def)
    ∷ (boot, scan (λ id. boot))
    ∷ (boot, save (λ id. pos 9))
    ∷ (boot, drop "other")
    ∷ []

run-SameKeys_example : SameKeys (run documents rows_store upper calls (with_persistence []))
run-SameKeys_example =
    run-SameKeys documents rows_store upper calls (with_persistence []) empty-SameKeys

abbrev parts : Ctud
parts = record {
  pv = pos 3;
  cv = negsuc 4;
  cu = false;
  cd = true;
  reset = false;
  load = false;
  qu = false;
  qd = true;
  prev_cu = false;
  prev_cd = true;
}

parts-IsWord : IsWord parts
parts-IsWord = record {
  preset = record { above = omega arith; below = omega arith };
  count = record { above = omega arith; below = omega arith };
}

abbrev running : List (String × FunctionBlock)
running =
    ("edge", f_trig (record { clk = true; q = false; prev_clk = true }))
    ∷ ("parts", ctud parts)
    ∷ []

running-Distinct : Distinct running
unfolding Distinct get
running-Distinct = (refl, (refl, tt))

running-saved : (save_states documents rows_store (λ id. pos 9) running []).1 ≡ 2
unfolding save_states
running-saved = refl

counter_survives_restart_example :
    get "parts"
      (create_fb documents rows_store upper boot counter_def (
        with_persistence (save_states documents rows_store (λ id. pos 9) running []).0)).0.instances
    ≡ some (ctud parts)
unfolding get
counter_survives_restart_example =
    counter_survives_restart documents rows_store rows_store-laws documents-laws upper (λ id. pos 9)
      boot running [] counter_def parts running-Distinct running-saved refl refl parts-IsWord
