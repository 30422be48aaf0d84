-- ===== src/Scripting/Persistence/Variables.antt =====
-- The retained variables of src/scripting/persistence.rs.
use sens.Common.{
  ℕ, ◌+◌, String, ◌≡◌, refl, inl, inr, true, false, ◌&&◌, Option, none, some, List, [], ◌∷◌, arith,
  str_eq, if◌then◌else◌, Bool-cases, Option-cases, length,
}
use text.Mathlib.TextEquality.{eq_iff}
use sens.Common.Int.{ℤ}
use sens.Common.Map.{get, insert, string_pair_key, get-insert}
use sens.Common.Result.{unless, Result, ok, err, is_ok, Result-cases}
use sens.Scripting.Persistence.{
  VariableRow, SqlitePersistence, PersistenceError, Outcome, transaction_failed, database_locked,
  JsonText, JsonTextLaws, Answers, quiet, save, load, read, found_value, without_script,
  clear_script, save_failed, save_each, commit, save_batch,
}

-- A call that fails has changed nothing: this holds of a call after a step that may fail, if it
-- holds of the rest.
unless-kept :
    (db : SqlitePersistence) (o : Option String) (f : String → PersistenceError) (rest : Outcome)
    → (is_ok rest.1 ≡ false → rest.0 ≡ db)
    → is_ok (unless o (λ e. (db, err (f e))) rest).1 ≡ false
    → (unless o (λ e. (db, err (f e))) rest).0 ≡ db
unless-kept db none f rest keep failed = keep failed
unless-kept db (some e) f rest keep failed = refl

-- And a call that succeeds is its rest.
unless-ok :
    (db : SqlitePersistence) (o : Option String) (f : String → PersistenceError) (rest : Outcome)
    → is_ok (unless o (λ e. (db, err (f e))) rest).1 ≡ true
    → unless o (λ e. (db, err (f e))) rest ≡ rest
unless-ok db none f rest done = refl
unless-ok db (some e) f rest done = cc done

module _ {Value : Type 0} (text : JsonText Value) (laws : JsonTextLaws text) where
  commit-kept :
      (a : Answers) (i : ℕ) (db : SqlitePersistence)
      (saved : Result (List ((String × String) × VariableRow)) PersistenceError)
      → is_ok (commit text a i db saved).1 ≡ false
      → (commit text a i db saved).0 ≡ db
  unfolding commit
  commit-kept a i db (err e) failed = refl
  commit-kept a i db (ok table) failed =
      unless-kept db (a.statement i) transaction_failed
        (record db { retain_variables = table }, ok tt) (λ h. cc h) failed

  -- A batch that fails, at whichever of its statements or values, changes nothing: none of its
  -- variables is saved.
  pub failed_batch_changes_nothing :
      (a : Answers) (script_id : String) (variables : List (String × Value))
      (db : SqlitePersistence)
      → is_ok (save_batch text a script_id variables db).1 ≡ false
      → (save_batch text a script_id variables db).0 ≡ db
  unfolding save_batch
  failed_batch_changes_nothing a script_id variables db = unless-kept db a.lock database_locked _ (
      unless-kept db (a.statement 0) transaction_failed _ (
        unless-kept db (a.statement 1) transaction_failed _ (
          commit-kept a (2 + length variables) db
            (save_each text a 2 script_id variables db.retain_variables))))

  wrote :
      (a : Answers) (script_id var_name : String) (value : Value) (db : SqlitePersistence)
      → is_ok (save text a script_id var_name value db).1 ≡ true
      → (t : String) × (text.to_string value ≡ ok t)
        × ((save text a script_id var_name value db).0 ≡ record db {
          retain_variables =
              insert
                (script_id, var_name)
                (record { var_value = t; updated_at = a.now })
                db.retain_variables;
        })
  unfolding save
  wrote a script_id var_name value db done = elim (Option-cases a.lock) [
    | inr (e, locked) ↦ cc (rw locked at done)
    | inl free ↦ elim (Result-cases (text.to_string value)) [
      | inr (e, failed) ↦ cc (rw (free, failed) at done)
      | inl (t, texted) ↦ elim (Option-cases (a.statement 0)) [
        | inr (e, refused) ↦ cc (rw (free, texted, refused) at done)
        | inl fine ↦ (t, texted, rw (free, texted, fine) refl)
      ]
    ]
  ]

  -- A variable that is saved loads as it was saved, and every other variable, of this script or of
  -- another, loads as before, where nothing fails at the load.
  pub load-save :
      (a : Answers) (now : ℤ) (script_id var_name s v : String) (value : Value)
      (db : SqlitePersistence)
      → is_ok (save text a script_id var_name value db).1 ≡ true
      → load text (quiet now) s v (save text a script_id var_name value db).0 ≡ (
          if str_eq script_id s && str_eq var_name v
          then ok (some value)
          else load text (quiet now) s v db)
  unfolding load read found_value
  load-save a now script_id var_name s v value db done =
      let (t, texted, changed) = wrote a script_id var_name value db done in
      let row : VariableRow = record { var_value = t; updated_at = a.now } in
      rw changed (
        rw (get-insert (script_id, var_name) (s, v) row db.retain_variables)
          (elim (Bool-cases (str_eq script_id s && str_eq var_name v)) [
            | inl same ↦ rw same (rw (laws.from_str-to_string value t texted) refl)
            | inr other ↦ rw other refl
          ]))

  get-without_script :
      (script_id s v : String) (table : List ((String × String) × VariableRow))
      → get (s, v) (without_script script_id table)
        ≡ (if str_eq script_id s then none else get (s, v) table)
  unfolding get without_script
  get-without_script script_id s v [] = ground arith
  get-without_script script_id s v (((script, var_name), row) ∷ table) = ground (
    arith,
    eq_iff script script_id,
    eq_iff script s,
    eq_iff script_id s,
    get-without_script script_id s v table,
  )

  -- Clearing a script, if it succeeds, leaves none of its variables to load, and all those of the
  -- other scripts, where nothing fails at the load.
  pub clear_script-load :
      (a : Answers) (now : ℤ) (script_id s v : String) (db : SqlitePersistence)
      → is_ok (clear_script a script_id db).1 ≡ true
      → load text (quiet now) s v (clear_script a script_id db).0
        ≡ (if str_eq script_id s then ok none else load text (quiet now) s v db)
  unfolding load read found_value clear_script
  clear_script-load a now script_id s v db done =
      let fine = unless-ok db a.lock database_locked _ done in
      let cleared = unless-ok db (a.statement 0) (save_failed script_id "*") _ (rw fine at done) in
      rw (fine, cleared)
        (rw (get-without_script script_id s v db.retain_variables)
          (elim (Bool-cases (str_eq script_id s)) [
            | inl same ↦ rw same refl
            | inr other ↦ rw other refl
          ]))
