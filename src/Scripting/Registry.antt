-- ===== src/Scripting/Registry.antt =====
-- src/scripting/fb_registry.rs, the registry of the function blocks, over the trait
-- `FunctionBlockStore` of src/scripting/persistence.rs. `str::to_uppercase`, the table of Unicode,
-- is a parameter: nothing here depends on what it does outside the eight names. The order of the
-- entries stands for the arbitrary order in which a `HashMap` is walked. The store behind the `Arc`
-- is a field of the registry's state, so that a call returns the store that it leaves.
pub mod Keys
pub mod Saving
use mathlib.Core.Option
use sens.Common.{
  ℕ, ◌+◌, String, Bool, false, Option, none, some, List, [], ◌∷◌, map, str_eq, if◌then◌else◌,
  unwrap_or, and_then, length, Readings,
}
use sens.Common.Int.{ℤ, pos}
use sens.Common.Json.{Json}
use sens.Common.Map.{string_key, get, insert, remove, update, map_values, contains_key}
use sens.Common.Result.{Result, ok, err, is_ok}
use sens.FunctionBlocks.Block
use sens.FunctionBlocks.Block.{
  FunctionBlock, ton, tof, tp, ctu, ctd, ctud, r_trig, f_trig, fb_type, serialize_state,
  deserialize_state,
}
use sens.FunctionBlocks.Timers.Ton
use sens.FunctionBlocks.Timers.Tof
use sens.FunctionBlocks.Timers.Tp
use sens.FunctionBlocks.Counters.Ctu
use sens.FunctionBlocks.Counters.Ctd
use sens.FunctionBlocks.Counters.Ctud
use sens.FunctionBlocks.Edges

pub record FbParams : Type 0 where
  pub pt_ms : Option ℕ
  pub pv : Option ℤ

pub record FbDefinition : Type 0 where
  pub id : String
  pub fb_type : String
  pub params : FbParams
  pub inputs : List (String × String)
  pub outputs : List (String × String)

pub data FbRegistryError : Type 0 where
  already_exists : String → FbRegistryError
  unknown_type : String → FbRegistryError
  not_found : String → FbRegistryError
  invalid_params : String → FbRegistryError

pub record FbState (Value : Type 0) : Type 0 where
  pub fb_id : String
  pub fb_type : String
  pub state_data : Value
  pub last_executed : ℤ

-- The trait `FunctionBlockStore`: a store's states are `Store`, its errors `Error`.
pub record FunctionBlockStore (Value Store Error : Type 0) : Type 0 where
  pub save_fb_state : String → FbState Value → Store → Store × Result (Unit {0}) Error
  pub load_fb_state : String → Store → Result (Option (FbState Value)) Error
  pub clear_fb_state : String → Store → Store × Result (Unit {0}) Error

pub record FbRegistry (Store : Type 0) : Type 0 where
  pub instances : List (String × FunctionBlock)
  pub definitions : List (String × FbDefinition)
  pub persistence : Option Store

pub record FbRegistryStats : Type 0 where
  pub total_count : ℕ
  pub type_counts : List (String × ℕ)

unfoldable pub new : {Store : Type 0} → FbRegistry Store
new = record { instances = []; definitions = []; persistence = none }

unfoldable pub with_persistence : {Store : Type 0} → Store → FbRegistry Store
with_persistence s = record { instances = []; definitions = []; persistence = some s }

unfoldable pub set_persistence : {Store : Type 0} → Store → FbRegistry Store → FbRegistry Store
set_persistence s reg = record reg { persistence = some s }

-- `def.fb_type.to_uppercase()` is `name`.
unfoldable pub instantiate_named : String → FbDefinition → Result FunctionBlock FbRegistryError
instantiate_named name def =
    let pt = unwrap_or def.params.pt_ms 1000 in
    let pv = unwrap_or def.params.pv (pos 10) in
    if str_eq name "TON"
    then ok (ton (Ton.new pt))
    else if str_eq name "TOF"
    then ok (tof (Tof.new pt))
    else if str_eq name "TP"
    then ok (tp (Tp.new pt))
    else if str_eq name "CTU"
    then ok (ctu (Ctu.new pv))
    else if str_eq name "CTD"
    then ok (ctd (Ctd.new pv))
    else if str_eq name "CTUD"
    then ok (ctud (Ctud.new pv))
    else if str_eq name "R_TRIG"
    then ok (r_trig Edges.new)
    else if str_eq name "F_TRIG"
    then ok (f_trig Edges.new)
    else err (unknown_type def.fb_type)

unfoldable pub contains : {Store : Type 0} → String → FbRegistry Store → Bool
contains id reg = contains_key id reg.instances

unfoldable pub count : {Store : Type 0} → FbRegistry Store → ℕ
count reg = length reg.instances

-- `readings` are the clock readings of each block.
unfoldable pub execute_all :
    {Store : Type 0} → (String → Readings) → FbRegistry Store → FbRegistry Store
execute_all readings reg = record reg {
  instances = map_values (λ id fb. Block.execute (readings id) fb) reg.instances;
}

unfoldable pub reset_all : {Store : Type 0} → FbRegistry Store → FbRegistry Store
reset_all reg = record reg { instances = map_values (λ id fb. Block.reset fb) reg.instances }

-- `*type_counts.entry(fb_type).or_insert(0) += 1` for each block.
unfoldable pub type_counts_of :
    List (String × FunctionBlock) → List (String × ℕ) → List (String × ℕ)
type_counts_of [] counts = counts
type_counts_of ((id, fb) ∷ rest) counts =
    type_counts_of rest (insert (fb_type fb) (unwrap_or (get (fb_type fb) counts) 0 + 1) counts)

unfoldable pub stats : {Store : Type 0} → FbRegistry Store → FbRegistryStats
unfolding type_counts_of
stats reg = record {
  total_count = length reg.instances;
  type_counts = type_counts_of reg.instances [];
}

module _ {Value Store Error : Type 0} (json : Json Value)
    (store : FunctionBlockStore Value Store Error) where
  open store use {save_fb_state, load_fb_state, clear_fb_state}

  -- A block with what the store has answered for it, and whether it took that.
  unfoldable pub load_from :
      Readings → Result (Option (FbState Value)) Error → FunctionBlock → FunctionBlock × Bool
  load_from r (ok (some state)) fb = deserialize_state json r state.state_data fb
  load_from r (ok none) fb = (fb, false)
  load_from r (err e) fb = (fb, false)

  unfoldable pub load_state : Readings → String → Store → FunctionBlock → FunctionBlock × Bool
  unfolding load_from
  load_state r id s fb = load_from r (load_fb_state id s) fb

  unfoldable pub restored : Readings → String → Option Store → FunctionBlock → FunctionBlock
  unfolding load_state
  restored r id persistence fb = elim persistence [ none ↦ fb | some s ↦ (load_state r id s fb).0 ]

  unfoldable pub create_fb :
      (String → String)
      → Readings
      → FbDefinition
      → FbRegistry Store
      → FbRegistry Store × Result (Unit {0}) FbRegistryError
  unfolding restored instantiate_named
  create_fb to_uppercase r def reg =
      if contains_key def.id reg.instances
      then (reg, err (already_exists def.id))
      else (elim (instantiate_named (to_uppercase def.fb_type) def) [
        | err e ↦ (reg, err e)
        | ok fb ↦
            let fb' = restored r def.id reg.persistence fb in
            (
              record reg {
                instances = insert def.id fb' reg.instances;
                definitions = insert def.id def reg.definitions;
              },
              ok tt,
            )
      ])

  unfoldable pub remove_fb : String → FbRegistry Store → FbRegistry Store × Bool
  remove_fb id reg = (
    record reg {
      persistence = Option.map (λ s. (clear_fb_state id s).0) reg.persistence;
      definitions = remove id reg.definitions;
      instances = remove id reg.instances;
    },
    contains_key id reg.instances,
  )

  unfoldable pub set_input : String → String → Value → FbRegistry Store → FbRegistry Store × Bool
  set_input fb_id input_name value reg = elim (get fb_id reg.instances) [
    | none ↦ (reg, false)
    | some fb ↦
        let (fb', done) = Block.set_input json input_name value fb in
        (record reg { instances = update fb_id (λ _. fb') reg.instances }, done)
  ]

  unfoldable pub get_output : String → String → FbRegistry Store → Option Value
  get_output fb_id output_name reg =
      and_then (get fb_id reg.instances) (Block.get_output json output_name)

  -- What is written for a block; `now` is the time stamp.
  abbrev pub state_of : ℤ → String → FunctionBlock → FbState Value
  state_of now id fb = record {
    fb_id = id;
    fb_type = fb_type fb;
    state_data = serialize_state json fb;
    last_executed = now;
  }

  unfoldable pub save_states : (String → ℤ) → List (String × FunctionBlock) → Store → Store × ℕ
  save_states now [] s = (s, 0)
  save_states now ((id, fb) ∷ rest) s =
      let (s', result) = save_fb_state id (state_of (now id) id fb) s in
      let (s'', saved) = save_states now rest s' in (s'', (if is_ok result then 1 else 0) + saved)

  unfoldable pub save_all_states : (String → ℤ) → FbRegistry Store → FbRegistry Store × ℕ
  unfolding save_states
  save_all_states now reg = elim reg.persistence [
    | none ↦ (reg, 0)
    | some s ↦
        let (s', saved) = save_states now reg.instances s in
        (record reg { persistence = some s' }, saved)
  ]

  unfoldable pub load_states :
      (String → Readings)
      → Store
      → List (String × FunctionBlock)
      → List (String × FunctionBlock) × ℕ
  unfolding load_state
  load_states readings s [] = ([], 0)
  load_states readings s ((id, fb) ∷ rest) =
      let (fb', done) = load_state (readings id) id s fb in
      let (rest', loaded) = load_states readings s rest in
      ((id, fb') ∷ rest', (if done then 1 else 0) + loaded)

  unfoldable pub load_all_states : (String → Readings) → FbRegistry Store → FbRegistry Store × ℕ
  unfolding load_states
  load_all_states readings reg = elim reg.persistence [
    | none ↦ (reg, 0)
    | some s ↦
        let (instances', loaded) = load_states readings s reg.instances in
        (record reg { instances = instances' }, loaded)
  ]

  -- The store with the state of each of the blocks cleared.
  unfoldable pub clear_states : List (String × FunctionBlock) → Store → Store
  clear_states [] s = s
  clear_states ((id, fb) ∷ rest) s = clear_states rest (clear_fb_state id s).0

  unfoldable pub clear : FbRegistry Store → FbRegistry Store
  unfolding clear_states
  clear reg = record {
    persistence = Option.map (clear_states reg.instances) reg.persistence;
    instances = [];
    definitions = [];
  }
