-- ===== src/Scripting/Triggers/States.antt =====
-- The states that src/scripting/triggers.rs keeps under the names of scripts.
use Prim.Native.String.{String}
use text.Mathlib.TextEquality.{eq_iff}
use sens.Common.{
  ℕ, String, ◌≡◌, refl, sym, ap, ◌∙◌, inl, inr, Bool, false, not, none, List, [], ◌∷◌, arith,
  str_eq, if◌then◌else◌, Bool-cases,
}
use sens.Common.Map.{get, string_key}
use sens.Common.Tables.{retain}
use sens.Common.Text.{◌⧺◌, starts_with, show, starts_with-append}
use sens.Scripting.Triggers.{TriggerState, state_key, reset_script}

get-retain :
    {V : Type 0} (keep : String → Bool) (k : String) (m : List (String × V))
    → get k (retain (λ e. keep e.0) m) ≡ (if keep k then get k m else none)
unfolding get retain
get-retain keep k [] = ground arith
get-retain keep k ((j, v) ∷ m) = elim (Bool-cases (str_eq j k)) [
  | inr other ↦ ground (arith, get-retain keep k m)
  | inl same ↦ ground (arith, get-retain keep k m, ap keep ((eq_iff j k).0 same))
]

append_assoc : (s t u : String) → (s ⧺ t) ⧺ u ≡ s ⧺ (t ⧺ u)
append_assoc String.[] t u = refl
append_assoc (String.◌∷◌ c s) t u = ap (String.◌∷◌ c) (append_assoc s t u)

-- A key that begins with the prefix is gone.
forgotten :
    {V : Type 0} (prefix rest : String) (states : List (String × V))
    → get (prefix ⧺ rest) (retain (λ e. not (starts_with e.0 prefix)) states) ≡ none
forgotten prefix rest states =
    get-retain (λ key. not (starts_with key prefix)) (prefix ⧺ rest) states
    ∙ rw (starts_with-append prefix rest) refl

-- `reset_script` forgets every trigger of the script, and those of every script whose name goes on
-- from this one's with a colon; it keeps the states under names that do not begin so.
pub get-reset_script :
    {Value : Type 0} (script_id : String) (states : List (String × TriggerState Value))
    → ((trigger_index : ℕ)
        → get (state_key script_id trigger_index) (reset_script script_id states) ≡ none)
      × ((rest : String) (trigger_index : ℕ)
          → get (state_key (script_id ⧺ ":" ⧺ rest) trigger_index) (reset_script script_id states)
            ≡ none)
      × ((key : String)
          → starts_with key (script_id ⧺ ":") ≡ false
          → get key (reset_script script_id states) ≡ get key states)
unfolding reset_script state_key
get-reset_script script_id states = (
  λ trigger_index.
      rw (sym (append_assoc script_id ":" (show trigger_index)))
        (forgotten (script_id ⧺ ":") (show trigger_index) states),
  λ rest trigger_index. rw (append_assoc script_id (":" ⧺ rest) (":" ⧺ show trigger_index)) (
      rw (sym (append_assoc script_id ":" (rest ⧺ ":" ⧺ show trigger_index)))
        (forgotten (script_id ⧺ ":") (rest ⧺ ":" ⧺ show trigger_index) states)),
  λ key other. get-retain (λ k. not (starts_with k (script_id ⧺ ":"))) key states ∙ rw other refl,
)
