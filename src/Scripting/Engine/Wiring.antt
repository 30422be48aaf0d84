-- ===== src/Scripting/Engine/Wiring.antt =====
-- src/scripting/engine.rs: the wiring of function blocks to the values of the context. The order in
-- which a map gives its keys is an argument, the entries of a definition come in their order, and
-- `parse_json` is `serde_json::from_str`.
use sens.Common.{
  ℕ, String, ◌≡◌, refl, ◌∙◌, inl, inr, Bool, Option, none, some, List, [], ◌∷◌, ◌==◌, if◌then◌else◌,
  and_then, Option-cases,
}
use sens.Common.Map.{get, string_key}
use sens.Common.Json.{Json}
use sens.Common.Text.{starts_with, skip}
use sens.Scripting.Context.{
  ScriptContext, JsonNumbers, get_sensor, get_gpio, get_variable, set_sensor, set_variable,
  parse_u8,
}
use sens.Scripting.Registry.{FbRegistry, FunctionBlockStore, set_input, get_output}
use mathlib.Core.Option
use Prim.Native.Char.{code}

-- `s.strip_prefix(p)`, `n` being the number of bytes of `p`.
unfoldable pub strip_prefix : String → ℕ → String → Option String
unfolding starts_with skip
strip_prefix p n s = if starts_with s p then some (skip n s) else none

-- `s.split_once(c)`
unfoldable pub split_once : ℕ → String → Option (String × String)
split_once c String.[] = none
split_once c (String.◌∷◌ d s) =
    let rest = split_once c s in
    if code d == c then some (String.[], s) else Option.map (λ p. (String.◌∷◌ d p.0, p.1)) rest

module _ {Value F Store Error : Type 0} (json : Json Value) (numbers : JsonNumbers Value F)
    (store : FunctionBlockStore Value Store Error) (parse_json : String → Option Value)
    (zero_f64 one_f64 : F) where
  -- The value that an input is wired to.
  unfoldable pub source_value : ScriptContext Value F → FbRegistry Store → String → Option Value
  unfolding strip_prefix split_once get_sensor get_gpio get_variable get_output
  source_value ctx reg source = elim (strip_prefix "sensor:" 7 source) [
    | some path ↦ Option.map numbers.of_f64 (get_sensor ctx path)
    | none ↦ elim (strip_prefix "gpio:" 5 source) [
      | some pin ↦ Option.map json.bool (and_then (parse_u8 pin) (get_gpio ctx))
      | none ↦ elim (strip_prefix "var:" 4 source) [
        | some name ↦ get_variable ctx name
        | none ↦ elim (strip_prefix "fb:" 3 source) [
          | some fb_ref ↦ and_then (split_once b'.' fb_ref) (λ p. get_output json store p.0 p.1 reg)
          | none ↦ parse_json source
        ]
      ]
    ]
  ]

  unfoldable pub wire_inputs_of :
      ScriptContext Value F → String → List (String × String) → FbRegistry Store → FbRegistry Store
  unfolding source_value set_input
  wire_inputs_of ctx fb_id [] reg = reg
  wire_inputs_of ctx fb_id ((input_name, source) ∷ inputs) reg =
      wire_inputs_of ctx fb_id inputs (elim (source_value ctx reg source) [
        | some v ↦ (set_input json store fb_id input_name v reg).0
        | none ↦ reg
      ])

  unfoldable pub wire_fb_inputs :
      ScriptContext Value F → List String → FbRegistry Store → FbRegistry Store
  unfolding wire_inputs_of
  wire_fb_inputs ctx [] reg = reg
  wire_fb_inputs ctx (fb_id ∷ ids) reg = wire_fb_inputs ctx ids (elim (get fb_id reg.definitions) [
    | some def ↦ wire_inputs_of ctx fb_id def.inputs reg
    | none ↦ reg
  ])

  -- A virtual sensor, from a number or a truth value.
  unfoldable pub write_sensor :
      String → Option F → Option Bool → ScriptContext Value F → ScriptContext Value F
  unfolding set_sensor
  write_sensor name (some num) b ctx = set_sensor name num ctx
  write_sensor name none (some b) ctx = set_sensor name (if b then one_f64 else zero_f64) ctx
  write_sensor name none none ctx = ctx

  -- The target by what its prefixes leave, `var:` and then `sensor:`.
  unfoldable pub write_stripped :
      Option String → Option String → Value → ScriptContext Value F → ScriptContext Value F
  unfolding set_variable write_sensor
  write_stripped (some name) s v ctx = set_variable name v ctx
  write_stripped none (some name) v ctx = write_sensor name (numbers.as_f64 v) (json.as_bool v) ctx
  write_stripped none none v ctx = ctx

  -- What an output's value does to the context.
  unfoldable pub write_target : String → Value → ScriptContext Value F → ScriptContext Value F
  unfolding strip_prefix write_stripped
  write_target target v =
      write_stripped (strip_prefix "var:" 4 target) (strip_prefix "sensor:" 7 target) v

  unfoldable pub wire_outputs_of :
      FbRegistry Store
      → String
      → List (String × String)
      → ScriptContext Value F
      → ScriptContext Value F
  unfolding write_target get_output
  wire_outputs_of reg fb_id [] ctx = ctx
  wire_outputs_of reg fb_id ((output_name, target) ∷ outputs) ctx =
      wire_outputs_of reg fb_id outputs (elim (get_output json store fb_id output_name reg) [
        | some v ↦ write_target target v ctx
        | none ↦ ctx
      ])

  unfoldable pub wire_fb_outputs :
      FbRegistry Store → List String → ScriptContext Value F → ScriptContext Value F
  unfolding wire_outputs_of
  wire_fb_outputs reg [] ctx = ctx
  wire_fb_outputs reg (fb_id ∷ ids) ctx =
      wire_fb_outputs reg ids (elim (get fb_id reg.definitions) [
        | some def ↦ wire_outputs_of reg fb_id def.outputs ctx
        | none ↦ ctx
      ])

  write_sensor-gpio :
      (name : String) (num : Option F) (b : Option Bool) (ctx : ScriptContext Value F)
      → (write_sensor name num b ctx).gpio ≡ ctx.gpio
  unfolding write_sensor set_sensor
  write_sensor-gpio name (some num) b ctx = refl
  write_sensor-gpio name none (some b) ctx = refl
  write_sensor-gpio name none none ctx = refl

  write_stripped-gpio :
      (name s : Option String) (v : Value) (ctx : ScriptContext Value F)
      → (write_stripped name s v ctx).gpio ≡ ctx.gpio
  unfolding write_stripped set_variable
  write_stripped-gpio (some name) s v ctx = refl
  write_stripped-gpio none (some name) v ctx = write_sensor-gpio name _ _ ctx
  write_stripped-gpio none none v ctx = refl

  wire_outputs_of-gpio :
      (reg : FbRegistry Store) (fb_id : String) (outputs : List (String × String))
      (ctx : ScriptContext Value F)
      → (wire_outputs_of reg fb_id outputs ctx).gpio ≡ ctx.gpio
  unfolding wire_outputs_of write_target
  wire_outputs_of-gpio reg fb_id [] ctx = refl
  wire_outputs_of-gpio reg fb_id ((output_name, target) ∷ outputs) ctx =
      wire_outputs_of-gpio reg fb_id outputs _
      ∙ (elim (Option-cases (get_output json store fb_id output_name reg)) [
        | inl missing ↦ rw missing refl
        | inr (v, found) ↦ rw found (
            write_stripped-gpio (strip_prefix "var:" 4 target) (strip_prefix "sensor:" 7 target) v
              ctx)
      ])

  -- Whatever the definitions wire the outputs of function blocks to, the wiring sets no pin.
  pub wire_fb_outputs-gpio :
      (reg : FbRegistry Store) (ids : List String) (ctx : ScriptContext Value F)
      → (wire_fb_outputs reg ids ctx).gpio ≡ ctx.gpio
  unfolding wire_fb_outputs
  wire_fb_outputs-gpio reg [] ctx = refl
  wire_fb_outputs-gpio reg (fb_id ∷ ids) ctx =
      wire_fb_outputs-gpio reg ids _ ∙ (elim (Option-cases (get fb_id reg.definitions)) [
        | inl missing ↦ rw missing refl
        | inr (def, found) ↦ rw found (wire_outputs_of-gpio reg fb_id def.outputs ctx)
      ])
