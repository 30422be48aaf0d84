-- ===== src/Scripting/Engine/Retained.antt =====
-- src/scripting/engine.rs with src/scripting/context.rs: retained variables under the names that
-- conditions read.
use sens.Common.{
  ℕ, String, ◌≡◌, refl, ap, ◌∙◌, inl, inr, false, Option, none, some, ◌∷◌, arith, str_eq, unwrap_or,
  Bool-cases,
}
use sens.Common.Map.{get, insert, get-insert, string_key}
use sens.Common.Text.{◌⧺◌, has_char}
use sens.Common.Text.Laws.{split_off, has_char-append}
use sens.Common.Json.{Json}
use sens.Scripting.Context.{
  ScriptContext, JsonNumbers, UtcNow, set_variable, get_value, value_of_parts, typed_value,
}
use sens.Scripting.Triggers.{Floats}
use sens.Scripting.Limits.{ScriptLimits}
use sens.Scripting.Actions.{Action, VariableScope}
use sens.Scripting.Engine.{Agent, ScriptEngine}
use sens.Scripting.Engine.Steps.{persist, set_retained}

-- A name without a colon is not one that has the script's name before it.
qualified-eq-plain :
    (id name : String) → has_char b':' id ≡ false → str_eq (id ⧺ ":" ⧺ name) id ≡ false
unfolding has_char
qualified-eq-plain id name plain = elim (Bool-cases (str_eq (id ⧺ ":" ⧺ name) id)) [
  | inr differ ↦ differ
  | inl same ↦
      let eq : (id ⧺ ":" ⧺ name) ≡ id = (string_key.beq_iff (id ⧺ ":" ⧺ name) id).0 same in
      let colon : has_char b':' (id ⧺ ":" ⧺ name) ≡ has_char b':' id = ap (has_char b':') eq in
      ground (arith, colon, has_char-append b':' id (":" ⧺ name))
]

module _ {Value F W : Type 0} (json : Json Value) (numbers : JsonNumbers Value F)
    (floats : Floats F) (agent : Agent Value F W) (limits : ScriptLimits)
    (utc : ℕ → ℕ → UtcNow) where
  pub persist-context :
      (p : Option (String → String → Value → W → W × Option String)) (script_id : String)
      (action : Action Value) (v : Value) (scope : VariableScope) (e : ScriptEngine Value F W)
      → (persist json numbers floats agent limits utc p script_id action v scope e).0.context
        ≡ e.context
  unfolding persist
  persist-context none script_id action v scope e = refl
  persist-context (some save) script_id action v scope e = refl

  -- Of a source of three parts the third is not read.
  get_value-qualified :
      (now : UtcNow) (ctx : ScriptContext Value F) (id name : String)
      → has_char b':' id ≡ false
      → get_value json numbers now ctx ("var:" ⧺ id ⧺ ":" ⧺ name) ≡ get id ctx.variables
  unfolding get_value value_of_parts typed_value has_char
  get_value-qualified now ctx id name plain =
      ap (value_of_parts json numbers now ctx ("var:" ⧺ id ⧺ ":" ⧺ name)) (
        split_off ":" "var" (id ⧺ ":" ⧺ name) refl
        ∙ ap (λ parts. "var" ∷ parts) (split_off ":" id name plain))

  -- A script without a colon in its name sets a retained variable: a condition that names the
  -- variable as it is kept, with the script's name before it, reads what the variable named like
  -- the script was before, whatever value was set.
  pub retained_unread :
      (now : UtcNow) (action : Action Value) (v : Value) (scope : VariableScope)
      (e : ScriptEngine Value F W) (id : String)
      → e.current_script_id ≡ some id
      → has_char b':' id ≡ false
      → get_value json numbers now
          (set_retained json numbers floats agent limits utc action v scope e).0.context
          ("var:" ⧺ id ⧺ ":" ⧺ action.target)
        ≡ get id e.context.variables
  unfolding set_retained set_variable
  retained_unread now action v scope e id named plain =
      let name = λ (o : Option String). unwrap_or o "global" ⧺ ":" ⧺ action.target in
      get_value-qualified now _ id action.target plain
      ∙ ap (λ (c : ScriptContext Value F). get id c.variables)
          (persist-context agent.persistence _ action v scope _)
      ∙ ap (λ (o : Option String). get id (insert (name o) v e.context.variables)) named
      ∙ get-insert (id ⧺ ":" ⧺ action.target) id v e.context.variables
      ∙ rw (qualified-eq-plain id action.target plain) refl
