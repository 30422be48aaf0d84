-- ===== src/Examples/Persistence.antt =====
-- The stores of src/scripting/persistence.rs over texts that are their own JSON.
use sens.Common.{String, ◌≡◌, refl, sym, none, some, [], ◌∷◌, ◌==◌, if◌then◌else◌}
use sens.Common.Int.{pos}
use sens.Common.Map.{get, string_pair_key}
use sens.Common.Result.{ok}
use sens.Scripting.Registry.{FbState}
use sens.Scripting.Persistence.{
  SqlitePersistence, JsonText, JsonTextLaws, Answers, quiet, load_fb_state, save_fb_state,
  save_batch, save_each, commit,
}
use sens.Scripting.Persistence.Blocks.{load_fb_state-save_fb_state}
use sens.Scripting.Persistence.Variables.{failed_batch_changes_nothing}

abbrev plain : JsonText String
plain = record { to_string = λ v. ok v; from_str = λ t. ok t }

plain-laws : JsonTextLaws plain
plain-laws = record { from_str-to_string = λ v t wrote. sym wrote }

abbrev one_variable : SqlitePersistence
one_variable = record {
  retain_variables = (("pump", "hours"), record { var_value = "12"; updated_at = pos 3 }) ∷ [];
  fb_states = [];
}

-- The second upsert of a batch fails.
abbrev disk_full : Answers
disk_full = record {
  lock = none;
  statement = λ i. if i == 3 then some "disk full" else none;
  now = pos 4;
}

-- The id had a timer, and now has a counter.
abbrev timer_row : SqlitePersistence
timer_row = record one_variable {
  fb_states = ("fb1", record { fb_type = "TON"; state_data = "5"; last_executed = pos 1 }) ∷ [];
}

abbrev counter_state : FbState String
counter_state = record { fb_id = "fb1"; fb_type = "CTU"; state_data = "7"; last_executed = pos 8 }

load_fb_state-save_fb_state_example :
    load_fb_state plain
      (quiet (pos 9))
      "fb1"
      (save_fb_state plain (quiet (pos 8)) "fb1" counter_state timer_row).0
    ≡ ok (some (record counter_state { fb_type = "TON" }))
unfolding get
load_fb_state-save_fb_state_example =
    load_fb_state-save_fb_state plain plain-laws (pos 8) (pos 9) "fb1" "fb1" "7" counter_state
      timer_row refl

failed_batch_changes_nothing_example :
    (save_batch plain disk_full "pump" (("hours", "13") ∷ ("starts", "7") ∷ []) one_variable).0
    ≡ one_variable
unfolding save_batch save_each commit
failed_batch_changes_nothing_example =
    failed_batch_changes_nothing plain plain-laws disk_full "pump"
      (("hours", "13") ∷ ("starts", "7") ∷ []) one_variable refl
