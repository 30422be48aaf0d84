-- ===== src/Scripting/Persistence/Blocks.antt =====
-- The table of the function blocks' states (src/scripting/persistence.rs) is a store as the registry
-- of src/scripting/fb_registry.rs needs it.
use sens.Common.{
  String, ◌≡◌, refl, sym, ap, ◌∙◌, inl, inr, true, false, Option, none, some, str_eq, if◌then◌else◌,
  Bool-cases,
}
use sens.Common.Int.{ℤ, pos}
use sens.Common.Map.{get, insert, string_key, get-insert, beq_refl}
use sens.Common.Result.{ok, err, is_ok, Result-cases}
use sens.Scripting.Registry.{FbState}
use sens.Scripting.Registry.Saving.{StoreLaws, data_of, data_at}
use sens.Scripting.Persistence.{
  FbRow, SqlitePersistence, serialization_error, JsonText, JsonTextLaws, quiet, save_fb_state,
  load_fb_state, read_fb, upserted, sqlite_store,
}

module _ {Value : Type 0} (text : JsonText Value) (laws : JsonTextLaws text) where
  upserted-data :
      (state : FbState Value) (t : String) (o : Option FbRow)
      → (upserted text state t o).state_data ≡ t
  unfolding upserted
  upserted-data state t none = refl
  upserted-data state t (some row) = refl

  read_fb-data :
      (id : String) (row : FbRow) (v : Value)
      → text.from_str row.state_data ≡ ok v
      → data_of (sqlite_store text (pos 0)) (read_fb text id (some row)) ≡ some v
  unfolding read_fb
  read_fb-data id row v reads = rw reads refl

  save-rows :
      (now : ℤ) (id t : String) (state : FbState Value) (s : SqlitePersistence)
      → text.to_string state.state_data ≡ ok t
      → save_fb_state text (quiet now) id state s ≡ (
        record s { fb_states = insert id (upserted text state t (get id s.fb_states)) s.fb_states },
        ok tt,
      )
  unfolding save_fb_state
  save-rows now id t state s wrote = rw wrote refl

  save-unwritten :
      (now : ℤ) (id e : String) (state : FbState Value) (s : SqlitePersistence)
      → text.to_string state.state_data ≡ err e
      → save_fb_state text (quiet now) id state s ≡ (s, err (serialization_error e))
  unfolding save_fb_state
  save-unwritten now id e state s failed = rw failed refl

  load-save_ok :
      (now : ℤ) (id : String) (state : FbState Value) (s : SqlitePersistence)
      → is_ok (save_fb_state text (quiet now) id state s).1 ≡ true
      → data_at (sqlite_store text now) id (save_fb_state text (quiet now) id state s).0
        ≡ some state.state_data
  unfolding load_fb_state
  load-save_ok now id state s saved = elim (Result-cases (text.to_string state.state_data)) [
    | inl (t, wrote) ↦
        let row = upserted text state t (get id s.fb_states) in
        rw (save-rows now id t state s wrote) (
          rw (get-insert id id row s.fb_states) (
            rw (beq_refl {K = String} id) (
              read_fb-data id row state.state_data (
                ap text.from_str (upserted-data state t (get id s.fb_states))
                ∙ laws.from_str-to_string state.state_data t wrote))))
    | inr (e, failed) ↦ cc (rw (save-unwritten now id e state s failed) at saved)
  ]

  load-save_other :
      (now : ℤ) (id j : String) (state : FbState Value) (s : SqlitePersistence)
      → str_eq id j ≡ false
      → data_at (sqlite_store text now) j (save_fb_state text (quiet now) id state s).0
        ≡ data_at (sqlite_store text now) j s
  unfolding load_fb_state
  load-save_other now id j state s other = elim (Result-cases (text.to_string state.state_data)) [
    | inl (t, wrote) ↦ rw (save-rows now id t state s wrote) (
        rw (get-insert id j (upserted text state t (get id s.fb_states)) s.fb_states)
          (rw other refl))
    | inr (e, failed) ↦ rw (save-unwritten now id e state s failed) refl
  ]

  -- The table of function block states is a store as the registry needs it.
  pub sqlite-StoreLaws : (now : ℤ) → StoreLaws (sqlite_store text now)
  sqlite-StoreLaws now = record {
    load-save = load-save_ok now;
    load-save_other = load-save_other now;
  }

  read_fb-upserted :
      (id t : String) (state : FbState Value) (o : Option FbRow)
      → text.to_string state.state_data ≡ ok t
      → read_fb text id (some (upserted text state t o))
        ≡ ok (
            some (record state {
              fb_id = id;
              fb_type = elim o [ none ↦ state.fb_type | some row ↦ row.fb_type ];
            }))
  unfolding read_fb upserted
  read_fb-upserted id t state none wrote =
      rw (laws.from_str-to_string state.state_data t wrote) refl
  read_fb-upserted id t state (some row) wrote =
      rw (laws.from_str-to_string state.state_data t wrote) refl

  -- Where neither the lock nor the database fails and the value of a state has a text, the state
  -- that is loaded after it was saved under an id is the saved one, with its data and its time, under
  -- that id; its type is the saved one where the id had no row, and that of the old row where it had
  -- one. Every other id loads what it did.
  pub load_fb_state-save_fb_state :
      (now later : ℤ) (id j t : String) (state : FbState Value) (s : SqlitePersistence)
      → text.to_string state.state_data ≡ ok t
      → load_fb_state text (quiet later) j (save_fb_state text (quiet now) id state s).0 ≡ (
          if str_eq id j
          then ok (
              some (record {
                fb_id = id;
                fb_type = elim (get id s.fb_states) [
                  | none ↦ state.fb_type
                  | some row ↦ row.fb_type
                ];
                state_data = state.state_data;
                last_executed = state.last_executed;
              }))
          else load_fb_state text (quiet later) j s)
  unfolding load_fb_state
  load_fb_state-save_fb_state now later id j t state s wrote =
      let row = upserted text state t (get id s.fb_states) in
      ap (λ (x : SqlitePersistence). read_fb text j (get j x.fb_states))
        (ap (λ x. x.0) (save-rows now id t state s wrote))
      ∙ ap (read_fb text j) (get-insert id j row s.fb_states)
      ∙ (elim (Bool-cases (str_eq id j)) [
        | inl same ↦
            let eq : id ≡ j = (string_key.beq_iff id j).0 same in
            rw same (
              ap (λ k. read_fb text k (some row)) (sym eq)
              ∙ read_fb-upserted id t state (get id s.fb_states) wrote)
        | inr other ↦ rw other refl
      ])
