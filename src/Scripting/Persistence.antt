-- ===== src/Scripting/Persistence.antt =====
-- src/scripting/persistence.rs, the two stores in SQLite: `VariableStore` and `FunctionBlockStore`.
-- A table is a map from its key to its row; an upsert changes the columns that its `DO UPDATE`
-- names. The columns that no statement here reads or sets (`id`, `scope`, `created_at`) are left
-- out, and so are the asynchronous copies of the methods. A transaction that is dropped without a
-- commit changes nothing. JSON text is a parameter.
pub mod Variables
pub mod Blocks
use sens.Common.{
  ℕ, ◌+◌, String, ◌≡◌, ◌||◌, Option, none, some, List, [], ◌∷◌, str_eq, if◌then◌else◌, length,
}
use sens.Common.Int.{ℤ}
use sens.Common.Map.{get, insert, remove, string_key, string_pair_key}
use sens.Common.Result.{Result, ok, err, unless, and_ok}
use sens.Scripting.Registry.{FbState, FunctionBlockStore}

pub data PersistenceError : Type 0 where
  connection_failed : String → PersistenceError
  migration_failed : String → PersistenceError
  save_failed : String → String → String → PersistenceError
  load_failed : String → String → String → PersistenceError
  transaction_failed : String → PersistenceError
  serialization_error : String → PersistenceError
  database_locked : String → PersistenceError

pub record VariableRow : Type 0 where
  pub var_value : String
  pub updated_at : ℤ

pub record FbRow : Type 0 where
  pub fb_type : String
  pub state_data : String
  pub last_executed : ℤ

pub record SqlitePersistence : Type 0 where
  pub retain_variables : List ((String × String) × VariableRow)
  pub fb_states : List (String × FbRow)

-- `serde_json::to_string` and `from_str`, with the texts of their errors.
pub record JsonText (Value : Type 0) : Type 0 where
  pub to_string : Value → Result String String
  pub from_str : String → Result Value String

-- What is written reads back.
pub record JsonTextLaws {Value : Type 0} (text : JsonText Value) : Type 0 where
  pub from_str-to_string :
      (v : Value) (t : String) → text.to_string v ≡ ok t → text.from_str t ≡ ok v

-- What the lock and the database say to one call: the error of the lock, if it is poisoned, the
-- error of each statement in order, if it fails, and the time of the statements.
pub record Answers : Type 0 where
  pub lock : Option String
  pub statement : ℕ → Option String
  pub now : ℤ

-- Nothing fails.
abbrev pub quiet : ℤ → Answers
quiet now = record { lock = none; statement = λ i. none; now = now }

abbrev pub Outcome : Type 0
Outcome = SqlitePersistence × Result (Unit {0}) PersistenceError

-- `DELETE … WHERE script_id = ?1`
unfoldable pub without_script :
    String → List ((String × String) × VariableRow) → List ((String × String) × VariableRow)
without_script script_id [] = []
without_script script_id (((script, var_name), row) ∷ table) =
    let rest = without_script script_id table in
    if str_eq script script_id then rest else ((script, var_name), row) ∷ rest

unfoldable pub clear_script : Answers → String → SqlitePersistence → Outcome
unfolding without_script
clear_script a script_id db =
    unless a.lock (λ e. (db, err (database_locked e)))
      (unless (a.statement 0) (λ e. (db, err (save_failed script_id "*" e)))
        (record db { retain_variables = without_script script_id db.retain_variables }, ok tt))

module _ {Value : Type 0} (text : JsonText Value) where
  open text use {to_string, from_str}

  unfoldable pub save : Answers → String → String → Value → SqlitePersistence → Outcome
  save a script_id var_name value db =
      unless a.lock (λ e. (db, err (database_locked e)))
        (and_ok (to_string value) (λ e. (db, err (serialization_error e)))
          (λ value_json.
            unless (a.statement 0) (λ e. (db, err (save_failed script_id var_name e)))
              (
                record db {
                  retain_variables =
                      insert (script_id, var_name)
                        (record { var_value = value_json; updated_at = a.now }) db.retain_variables;
                },
                ok tt,
              )))

  -- The text that a query has found. An error of the query counts as no row.
  unfoldable pub read : Option String → Result (Option Value) PersistenceError
  read none = ok none
  read (some json_str) =
      and_ok (from_str json_str) (λ e. err (serialization_error e)) (λ value. ok (some value))

  unfoldable pub found_value : Answers → Option VariableRow → Option String
  found_value a row =
      unless (a.statement 0) (λ e. none) (elim row [ none ↦ none | some r ↦ some r.var_value ])

  unfoldable pub load :
      Answers → String → String → SqlitePersistence → Result (Option Value) PersistenceError
  unfolding read found_value
  load a script_id var_name db =
      unless a.lock (λ e. err (database_locked e))
        (read (found_value a (get (script_id, var_name) db.retain_variables)))

  unfoldable pub delete : Answers → String → String → SqlitePersistence → Outcome
  delete a script_id var_name db =
      unless a.lock (λ e. (db, err (database_locked e)))
        (unless (a.statement 0) (λ e. (db, err (save_failed script_id var_name e)))
          (
            record db { retain_variables = remove (script_id, var_name) db.retain_variables },
            ok tt,
          ))

  -- The upserts of a batch, `i` being the number of the next statement.
  unfoldable pub save_each :
      Answers
      → ℕ
      → String
      → List (String × Value)
      → List ((String × String) × VariableRow)
      → Result (List ((String × String) × VariableRow)) PersistenceError
  save_each a i script_id [] table = ok table
  save_each a i script_id ((var_name, value) ∷ rest) table =
      and_ok (to_string value) (λ e. err (serialization_error e))
        (λ value_json.
          unless (a.statement i) (λ e. err (save_failed script_id var_name e))
            (save_each a (i + 1) script_id rest (
              insert (script_id, var_name) (record { var_value = value_json; updated_at = a.now })
                table)))

  -- Statement 0 opens the transaction, 1 prepares, the last one commits.
  unfoldable pub commit :
      Answers
      → ℕ
      → SqlitePersistence
      → Result (List ((String × String) × VariableRow)) PersistenceError
      → Outcome
  commit a i db (err e) = (db, err e)
  commit a i db (ok table) =
      unless (a.statement i) (λ e. (db, err (transaction_failed e)))
        (record db { retain_variables = table }, ok tt)

  unfoldable pub save_batch : Answers → String → List (String × Value) → SqlitePersistence → Outcome
  unfolding save_each commit
  save_batch a script_id variables db =
      unless a.lock (λ e. (db, err (database_locked e)))
        (unless (a.statement 0) (λ e. (db, err (transaction_failed e)))
          (unless (a.statement 1) (λ e. (db, err (transaction_failed e)))
            (commit a (2 + length variables) db
              (save_each a 2 script_id variables db.retain_variables))))

  -- The rows of one script, `i` being the number of the next row's answer: a row that does not
  -- read, or whose text is no JSON, is skipped.
  unfoldable pub list_rows :
      Answers → ℕ → String → List ((String × String) × VariableRow) → List (String × Value)
  list_rows a i script_id [] = []
  list_rows a i script_id (((script, var_name), row) ∷ table) =
      let rest = list_rows a i script_id table in
      let rest' = list_rows a (i + 1) script_id table in
      if str_eq script script_id
      then unless (a.statement i) (λ e. rest')
          (and_ok (from_str row.var_value) (λ e. rest') (λ value. (var_name, value) ∷ rest'))
      else rest

  unfoldable pub list_variables :
      Answers → String → SqlitePersistence → Result (List (String × Value)) PersistenceError
  unfolding list_rows
  list_variables a script_id db =
      unless a.lock (λ e. err (database_locked e))
        (unless (a.statement 0) (λ e. err (load_failed script_id "*" e))
          (unless (a.statement 1) (λ e. err (load_failed script_id "*" e))
            (ok (list_rows a 2 script_id db.retain_variables))))

  -- A new row takes all columns; an old one keeps its type.
  unfoldable pub upserted : FbState Value → String → Option FbRow → FbRow
  upserted state state_json none = record {
    fb_type = state.fb_type;
    state_data = state_json;
    last_executed = state.last_executed;
  }
  upserted state state_json (some row) = record row {
    state_data = state_json;
    last_executed = state.last_executed;
  }

  unfoldable pub save_fb_state : Answers → String → FbState Value → SqlitePersistence → Outcome
  unfolding upserted
  save_fb_state a fb_id state db =
      unless a.lock (λ e. (db, err (database_locked e)))
        (and_ok (to_string state.state_data) (λ e. (db, err (serialization_error e)))
          (λ state_json.
            unless (a.statement 0) (λ e. (db, err (save_failed fb_id "fb_state" e)))
              (
                record db {
                  fb_states =
                      insert fb_id (upserted state state_json (get fb_id db.fb_states))
                        db.fb_states;
                },
                ok tt,
              )))

  unfoldable pub read_fb : String → Option FbRow → Result (Option (FbState Value)) PersistenceError
  read_fb fb_id none = ok none
  read_fb fb_id (some row) =
      and_ok (from_str row.state_data) (λ e. err (serialization_error e))
        (λ state_data. ok (
          some (record {
            fb_id = fb_id;
            fb_type = row.fb_type;
            state_data = state_data;
            last_executed = row.last_executed;
          })))

  unfoldable pub load_fb_state :
      Answers → String → SqlitePersistence → Result (Option (FbState Value)) PersistenceError
  unfolding read_fb
  load_fb_state a fb_id db =
      unless a.lock (λ e. err (database_locked e))
        (read_fb fb_id (unless (a.statement 0) (λ e. none) (get fb_id db.fb_states)))

  unfoldable pub clear_fb_state : Answers → String → SqlitePersistence → Outcome
  clear_fb_state a fb_id db =
      unless a.lock (λ e. (db, err (database_locked e)))
        (unless (a.statement 0) (λ e. (db, err (save_failed fb_id "fb_state" e)))
          (record db { fb_states = remove fb_id db.fb_states }, ok tt))

  -- The store as the registry sees it, where nothing fails.
  abbrev pub sqlite_store : ℤ → FunctionBlockStore Value SqlitePersistence PersistenceError
  sqlite_store now = record {
    save_fb_state = save_fb_state (quiet now);
    load_fb_state = load_fb_state (quiet now);
    clear_fb_state = clear_fb_state (quiet now);
  }
