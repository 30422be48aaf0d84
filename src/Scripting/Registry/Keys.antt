-- ===== src/Scripting/Registry/Keys.antt =====
-- What every operation of src/scripting/fb_registry.rs keeps: an instance for each definition.
use sens.Common.{
  ◌||◌, String, ◌≡◌, refl, sym, ap, ◌∙◌, inl, inr, true, false, not, ◌&&◌, List, [], ◌∷◌, arith,
  str_eq, Bool-cases, Option-cases, Readings,
}
use sens.Common.Int.{ℤ}
use sens.Common.Json.{Json}
use sens.Common.Map.{
  contains-map_values, contains-update, contains-remove, contains-insert, string_key, get, insert,
  contains_key,
}
use sens.Common.Result.{ok, err, Result-cases}
use sens.FunctionBlocks.Block.{FunctionBlock}
use sens.Scripting.Registry.{
  FbDefinition, FbRegistry, FbRegistryError, already_exists, FunctionBlockStore, instantiate_named,
  execute_all, reset_all, create_fb, remove_fb, set_input, save_all_states, load_all_states,
  load_states, clear, restored,
}

-- An id has an instance exactly if it has a definition.
unfoldable pub SameKeys : {Store : Type 0} → FbRegistry Store → Type 0
SameKeys reg = (id : String) → contains_key id reg.instances ≡ contains_key id reg.definitions

module _ {Value Store Error : Type 0} (json : Json Value)
    (store : FunctionBlockStore Value Store Error) where
  contains-load_states :
      (readings : String → Readings) (s : Store) (j : String) (m : List (String × FunctionBlock))
      → contains_key j (load_states json store readings s m).0 ≡ contains_key j m
  unfolding load_states get
  contains-load_states readings s j [] = refl
  contains-load_states readings s j ((id, fb) ∷ m) =
      ground (arith, contains-load_states readings s j m)

  -- What `create_fb` does with an id that is taken, with a type that it does not know, and else.
  pub create_fb-taken :
      (to_uppercase : String → String) (r : Readings) (def : FbDefinition) (reg : FbRegistry Store)
      → contains_key def.id reg.instances ≡ true
      → create_fb json store to_uppercase r def reg ≡ (reg, err (already_exists def.id))
  unfolding create_fb
  create_fb-taken to_uppercase r def reg taken = rw taken refl

  pub create_fb-unknown :
      (to_uppercase : String → String) (r : Readings) (def : FbDefinition) (reg : FbRegistry Store)
      (e : FbRegistryError)
      → contains_key def.id reg.instances ≡ false
      → instantiate_named (to_uppercase def.fb_type) def ≡ err e
      → create_fb json store to_uppercase r def reg ≡ (reg, err e)
  unfolding create_fb
  create_fb-unknown to_uppercase r def reg e free unknown = rw free (rw unknown refl)

  pub create_fb-new :
      (to_uppercase : String → String) (r : Readings) (def : FbDefinition) (reg : FbRegistry Store)
      (fb : FunctionBlock)
      → contains_key def.id reg.instances ≡ false
      → instantiate_named (to_uppercase def.fb_type) def ≡ ok fb
      → create_fb json store to_uppercase r def reg ≡ (
        record reg {
          instances = insert def.id (restored json store r def.id reg.persistence fb) reg.instances;
          definitions = insert def.id def reg.definitions;
        },
        ok tt,
      )
  unfolding create_fb
  create_fb-new to_uppercase r def reg fb free known = rw free (rw known refl)

  insert-SameKeys :
      (def : FbDefinition) (fb : FunctionBlock) (reg : FbRegistry Store)
      → SameKeys reg
      → SameKeys (record reg {
        instances = insert def.id fb reg.instances;
        definitions = insert def.id def reg.definitions;
      })
  unfolding SameKeys
  insert-SameKeys def fb reg h = λ id.
      contains-insert def.id id fb reg.instances
      ∙ (ap (λ b. str_eq def.id id || b) (h id)
          ∙ sym (contains-insert def.id id def reg.definitions))

  create_fb-SameKeys :
      (to_uppercase : String → String) (r : Readings) (def : FbDefinition) (reg : FbRegistry Store)
      → SameKeys reg
      → SameKeys (create_fb json store to_uppercase r def reg).0
  create_fb-SameKeys to_uppercase r def reg h =
      elim (Bool-cases (contains_key def.id reg.instances)) [
        | inl taken ↦ rw (create_fb-taken to_uppercase r def reg taken) h
        | inr free ↦ elim (Result-cases (instantiate_named (to_uppercase def.fb_type) def)) [
          | inl (fb, known) ↦
              rw (create_fb-new to_uppercase r def reg fb free known)
                (insert-SameKeys def (restored json store r def.id reg.persistence fb) reg h)
          | inr (e, unknown) ↦ rw (create_fb-unknown to_uppercase r def reg e free unknown) h
        ]
      ]

  remove_fb-SameKeys :
      (id : String) (reg : FbRegistry Store)
      → SameKeys reg
      → SameKeys (remove_fb json store id reg).0
  unfolding SameKeys remove_fb
  remove_fb-SameKeys id reg h = λ j.
      contains-remove id j reg.instances
      ∙ (ap (λ b. not (str_eq id j) && b) (h j) ∙ sym (contains-remove id j reg.definitions))

  set_input-SameKeys :
      (id name : String) (value : Value) (reg : FbRegistry Store)
      → SameKeys reg
      → SameKeys (set_input json store id name value reg).0
  unfolding SameKeys set_input
  set_input-SameKeys id name value reg h = elim (Option-cases (get id reg.instances)) [
    | inl missing ↦ rw (missing, set_input) h
    | inr (fb, found) ↦
        rw (found, set_input) (λ j. contains-update id j (λ _. _) reg.instances ∙ h j)
  ]

  execute_all-SameKeys :
      (readings : String → Readings) (reg : FbRegistry Store)
      → SameKeys reg
      → SameKeys (execute_all readings reg)
  unfolding SameKeys execute_all
  execute_all-SameKeys readings reg h = λ j. contains-map_values _ j reg.instances ∙ h j

  reset_all-SameKeys : (reg : FbRegistry Store) → SameKeys reg → SameKeys (reset_all reg)
  unfolding SameKeys reset_all
  reset_all-SameKeys reg h = λ j. contains-map_values _ j reg.instances ∙ h j

  save_all_states-SameKeys :
      (now : String → ℤ) (reg : FbRegistry Store)
      → SameKeys reg
      → SameKeys (save_all_states json store now reg).0
  unfolding SameKeys save_all_states
  save_all_states-SameKeys now reg h = elim (Option-cases reg.persistence) [
    | inl none_set ↦ rw none_set h
    | inr (s, set) ↦ rw set h
  ]

  load_all_states-SameKeys :
      (readings : String → Readings) (reg : FbRegistry Store)
      → SameKeys reg
      → SameKeys (load_all_states json store readings reg).0
  unfolding SameKeys load_all_states
  load_all_states-SameKeys readings reg h = elim (Option-cases reg.persistence) [
    | inl none_set ↦ rw none_set h
    | inr (s, set) ↦ rw set (λ j. contains-load_states readings s j reg.instances ∙ h j)
  ]

  clear-SameKeys : (reg : FbRegistry Store) → SameKeys (clear json store reg)
  unfolding SameKeys clear get
  clear-SameKeys reg = λ j. refl

  -- A call of the registry.
  pub data Op : Type 0 where
    create : FbDefinition → Op
    drop : String → Op
    set : String → String → Value → Op
    scan : (String → Readings) → Op
    save : (String → ℤ) → Op
    load : (String → Readings) → Op
    reset : Op
    empty : Op

  unfoldable pub run_op : (String → String) → Readings → Op → FbRegistry Store → FbRegistry Store
  run_op to_uppercase r (create def) reg = (create_fb json store to_uppercase r def reg).0
  run_op to_uppercase r (drop id) reg = (remove_fb json store id reg).0
  run_op to_uppercase r (set id name value) reg = (set_input json store id name value reg).0
  run_op to_uppercase r (scan readings) reg = execute_all readings reg
  run_op to_uppercase r (save now) reg = (save_all_states json store now reg).0
  run_op to_uppercase r (load readings) reg = (load_all_states json store readings reg).0
  run_op to_uppercase r reset reg = reset_all reg
  run_op to_uppercase r empty reg = clear json store reg

  run_op-SameKeys :
      (to_uppercase : String → String) (r : Readings) (op : Op) (reg : FbRegistry Store)
      → SameKeys reg
      → SameKeys (run_op to_uppercase r op reg)
  unfolding run_op
  run_op-SameKeys to_uppercase r (create def) reg h = create_fb-SameKeys to_uppercase r def reg h
  run_op-SameKeys to_uppercase r (drop id) reg h = remove_fb-SameKeys id reg h
  run_op-SameKeys to_uppercase r (set id name value) reg h = set_input-SameKeys id name value reg h
  run_op-SameKeys to_uppercase r (scan readings) reg h = execute_all-SameKeys readings reg h
  run_op-SameKeys to_uppercase r (save now) reg h = save_all_states-SameKeys now reg h
  run_op-SameKeys to_uppercase r (load readings) reg h = load_all_states-SameKeys readings reg h
  run_op-SameKeys to_uppercase r reset reg h = reset_all-SameKeys reg h
  run_op-SameKeys to_uppercase r empty reg h = clear-SameKeys reg

  -- Calls, each with the clock readings of its own.
  unfoldable pub run :
      (String → String) → List (Readings × Op) → FbRegistry Store → FbRegistry Store
  run to_uppercase [] reg = reg
  run to_uppercase ((r, op) ∷ ops) reg = run to_uppercase ops (run_op to_uppercase r op reg)

  -- Whatever calls are made of a registry that starts out empty, with or without a store that may
  -- fail at any of them, an id always has an instance exactly if it has a definition.
  pub run-SameKeys :
      (to_uppercase : String → String) (ops : List (Readings × Op)) (reg : FbRegistry Store)
      → SameKeys reg
      → SameKeys (run to_uppercase ops reg)
  unfolding run
  run-SameKeys to_uppercase [] reg h = h
  run-SameKeys to_uppercase ((r, op) ∷ ops) reg h =
      run-SameKeys to_uppercase ops (run_op to_uppercase r op reg)
        (run_op-SameKeys to_uppercase r op reg h)
