-- ===== src/Scripting/Registry/Saving.antt =====
-- `save_all_states` of src/scripting/fb_registry.rs before a restart, and `create_fb` after it.
use sens.Common.{
  ◌≤◌, String, ◌≡◌, refl, ap, ◌∙◌, inl, inr, true, false, Option, none, some, List, [], ◌∷◌, arith,
  str_eq, unwrap_or, Bool-cases, length, Readings,
}
use mathlib.Core.Option
use mathlib.Core.Path.{subst}
use sens.Common.Int.{ℤ, pos}
use sens.Common.Json.{Json, JsonLaws}
use sens.Common.Map.{string_key, get, contains_key, string_key, get-insert, beq_refl}
use sens.Common.Result.{Result, ok, err, is_ok}
use sens.FunctionBlocks.Block.{FunctionBlock, ctud, serialize_state, deserialize_state}
use sens.FunctionBlocks.Counters.Ctud.{Ctud}
use sens.FunctionBlocks.Counters.Ctud
use sens.FunctionBlocks.Counters.Ctud.Laws.{IsWord, ctud_round_trip}
use sens.Scripting.Registry.{
  FbDefinition, FbState, FunctionBlockStore, instantiate_named, with_persistence, create_fb,
  save_states, state_of, load_from, load_state, restored,
}
use sens.Scripting.Registry.Keys.{create_fb-new}

-- The entries of a `HashMap` have different keys.
unfoldable pub Distinct : {V : Type 0} → List (String × V) → Type 0
Distinct [] = Unit
Distinct ((k, v) ∷ m) = (contains_key k m ≡ false) × Distinct m

module _ {Value Store Error : Type 0} (store : FunctionBlockStore Value Store Error) where
  open store use {save_fb_state, load_fb_state}

  -- The state that the store has for a block.
  abbrev pub data_of : Result (Option (FbState Value)) Error → Option Value
  data_of (ok (some state)) = some state.state_data
  data_of (ok none) = none
  data_of (err e) = none

  abbrev pub data_at : String → Store → Option Value
  data_at id s = data_of (load_fb_state id s)

  -- A row of the table is what was last saved under its key.
  pub record StoreLaws : Type 0 where
    pub load-save :
        (id : String) (state : FbState Value) (s : Store)
        → is_ok (save_fb_state id state s).1 ≡ true
        → data_at id (save_fb_state id state s).0 ≡ some state.state_data
    pub load-save_other :
        (id j : String) (state : FbState Value) (s : Store)
        → str_eq id j ≡ false
        → data_at j (save_fb_state id state s).0 ≡ data_at j s

module _ {Value Store Error : Type 0} (json : Json Value)
    (store : FunctionBlockStore Value Store Error) (rows : StoreLaws store) where
  open store use {save_fb_state, load_fb_state}

  saved-le :
      (now : String → ℤ) (m : List (String × FunctionBlock)) (s : Store)
      → (save_states json store now m s).1 ≤ length m
  unfolding save_states
  saved-le now [] s = omega arith
  saved-le now ((id, fb) ∷ m) s =
      let rest = saved-le now m (save_fb_state id (state_of json store (now id) id fb) s).0 in
      ground arith

  untouched :
      (now : String → ℤ) (m : List (String × FunctionBlock)) (s : Store) (j : String)
      → contains_key j m ≡ false
      → data_at store j (save_states json store now m s).0 ≡ data_at store j s
  unfolding save_states get
  untouched now [] s j absent = refl
  untouched now ((id, fb) ∷ m) s j absent = elim (Bool-cases (str_eq id j)) [
    | inl same ↦ cc (rw same at absent)
    | inr other ↦
        untouched now m (save_fb_state id (state_of json store (now id) id fb) s).0 j
          (rw other at absent)
        ∙ rows.load-save_other id j (state_of json store (now id) id fb) s other
  ]

  -- Where every block is saved, the store has the state of each.
  saved_data :
      (now : String → ℤ) (m : List (String × FunctionBlock)) (s : Store) (j : String)
      (fb : FunctionBlock)
      → Distinct m
      → (save_states json store now m s).1 ≡ length m
      → get j m ≡ some fb
      → data_at store j (save_states json store now m s).0 ≡ some (serialize_state json fb)
  unfolding save_states get Distinct
  saved_data now [] s j fb distinct all found = cc found
  saved_data now ((id, fb') ∷ m) s j fb distinct all found =
      let state = state_of json store (now id) id fb' in
      let s' = (save_fb_state id state s).0 in
      let few = saved-le now m s' in
      elim (Bool-cases (str_eq id j)) [
        | inl same ↦
            let here = (string_key.beq_iff id j).0 same in
            let head_saved : is_ok (save_fb_state id state s).1 ≡ true = ground arith in
            let block : some fb' ≡ some fb = rw same at found in
            let alone : contains_key j m ≡ false = rw here at distinct.0 in
            untouched now m s' j alone
            ∙ (subst (λ k. data_at store k s' ≡ some state.state_data) here
                  (rows.load-save id state s head_saved)
                ∙ ap (Option.map (serialize_state json)) block)
        | inr other ↦
            let tail_saved : (save_states json store now m s').1 ≡ length m = ground arith in
            saved_data now m s' j fb distinct.1 tail_saved (rw other at found)
      ]

  load_from-data :
      (r : Readings) (loaded : Result (Option (FbState Value)) Error) (v : Value)
      (fb : FunctionBlock)
      → data_of store loaded ≡ some v
      → load_from json store r loaded fb ≡ deserialize_state json r v fb
  unfolding load_from
  load_from-data r (ok (some state)) v fb found =
      ap (λ o. deserialize_state json r (unwrap_or o v) fb) found
  load_from-data r (ok none) v fb found = cc found
  load_from-data r (err e) v fb found = cc found

  restored-data :
      (r : Readings) (id : String) (s : Store) (v : Value) (fb : FunctionBlock)
      → data_at store id s ≡ some v
      → restored json store r id (some s) fb ≡ (deserialize_state json r v fb).0
  unfolding restored load_state
  restored-data r id s v fb found = ap (λ p. p.0) (load_from-data r (load_fb_state id s) v fb found)

  -- A restart: where every block of a registry was saved in its store, creating a block under its
  -- old id in a new registry with that store gives the block that reading back its own state gives.
  pub restart_restores :
      (to_uppercase : String → String) (now : String → ℤ) (r : Readings)
      (m : List (String × FunctionBlock)) (s : Store) (def : FbDefinition)
      (fb new_fb : FunctionBlock)
      → Distinct m
      → (save_states json store now m s).1 ≡ length m
      → get def.id m ≡ some fb
      → instantiate_named (to_uppercase def.fb_type) def ≡ ok new_fb
      → let reg = with_persistence (save_states json store now m s).0 in
        get def.id (create_fb json store to_uppercase r def reg).0.instances
        ≡ some (deserialize_state json r (serialize_state json fb) new_fb).0
  unfolding with_persistence
  restart_restores to_uppercase now r m s def fb new_fb distinct all found known =
      let stored = saved_data now m s def.id fb distinct all found in
      rw
        (create_fb-new json store to_uppercase r def
          (with_persistence (save_states json store now m s).0) new_fb (unfold get in refl) known)
        (get-insert def.id def.id _ []
          ∙ rw (beq_refl {K = String} def.id) (ap some (restored-data r def.id _ _ new_fb stored)))

  -- An up-down counter survives a restart of the agent: saved with every other block of its
  -- registry, and created again under its id, with its type and any preset value, it comes back as
  -- it was, if its numbers are `i32`.
  pub counter_survives_restart :
      (laws : JsonLaws json) (to_uppercase : String → String) (now : String → ℤ) (r : Readings)
      (m : List (String × FunctionBlock)) (s : Store) (def : FbDefinition) (c : Ctud)
      → Distinct m
      → (save_states json store now m s).1 ≡ length m
      → get def.id m ≡ some (ctud c)
      → to_uppercase def.fb_type ≡ "CTUD"
      → IsWord c
      → let reg = with_persistence (save_states json store now m s).0 in
        get def.id (create_fb json store to_uppercase r def reg).0.instances ≡ some (ctud c)
  counter_survives_restart laws to_uppercase now r m s def c distinct all found type word =
      restart_restores to_uppercase now r m s def (ctud c)
        (ctud (Ctud.new (unwrap_or def.params.pv (pos 10)))) distinct all found
        (rw type (unfold instantiate_named in refl))
      ∙ ap some (
          unfold deserialize_state serialize_state in
          ap (λ p. ctud p.0)
            (ctud_round_trip json laws c (Ctud.new (unwrap_or def.params.pv (pos 10))) word))
