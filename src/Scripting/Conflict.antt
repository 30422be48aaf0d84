-- ===== src/Scripting/Conflict.antt =====
-- src/scripting/conflict.rs. The texts of the messages are left out: each names the two scripts,
-- their priorities and their values.
pub mod Laws
pub mod Priority
use sens.Common.{
  ℕ, String, Bool, true, false, not, none, some, List, [], ltb, ◌==◌, str_eq, if◌then◌else◌,
}
use sens.Common.Map.{Eq, get, insert, nat_key, pair_key}

pub data WriteValue : Type 0 where
  bool : Bool → WriteValue
  u16 : ℕ → WriteValue

pub record PendingWrite : Type 0 where
  pub script_id : String
  pub priority : ℕ
  pub value : WriteValue

pub data ConflictResult : Type 0 where
  no_conflict : ConflictResult
  conflict_won : ConflictResult
  conflict_lost : ConflictResult
  duplicate : ConflictResult

abbrev bool_eq : Bool → Bool → Bool
bool_eq true b = b
bool_eq false b = not b

-- The derived `PartialEq` of `WriteValue`.
abbrev pub value_eq : WriteValue → WriteValue → Bool
value_eq (bool a) (bool b) = bool_eq a b
value_eq (u16 a) (u16 b) = a == b
value_eq _ _ = false

-- The three checks do the same on their own map, the key being what is written to.
module _ {K : Type 0} ⦃e : Eq K⦄ where
  -- A write against the one that is pending for its target.
  unfoldable pub against :
      PendingWrite
      → K
      → PendingWrite
      → List (K × PendingWrite)
      → List (K × PendingWrite) × ConflictResult
  against existing key new_write writes =
      if str_eq existing.script_id new_write.script_id
      then (insert key new_write writes, no_conflict)
      else if value_eq existing.value new_write.value
      then (writes, duplicate)
      else if ltb existing.priority new_write.priority
      then (insert key new_write writes, conflict_won)
      else if ltb new_write.priority existing.priority
      then (writes, conflict_lost)
      else (insert key new_write writes, conflict_won)

  unfoldable pub check_write :
      K → PendingWrite → List (K × PendingWrite) → List (K × PendingWrite) × ConflictResult
  unfolding against
  check_write key new_write writes = elim (get key writes) [
    | none ↦ (insert key new_write writes, no_conflict)
    | some existing ↦ against existing key new_write writes
  ]

pub record ConflictDetector : Type 0 where
  pub gpio_writes : List (ℕ × PendingWrite)
  pub modbus_writes : List ((String × ℕ) × PendingWrite)
  pub coil_writes : List ((String × ℕ) × PendingWrite)

unfoldable pub new : ConflictDetector
new = record { gpio_writes = []; modbus_writes = []; coil_writes = [] }

unfoldable pub reset : ConflictDetector → ConflictDetector
reset d = record d { gpio_writes = []; modbus_writes = []; coil_writes = [] }

unfoldable pub check_gpio_write :
    String → ℕ → ℕ → Bool → ConflictDetector → ConflictDetector × ConflictResult
check_gpio_write script_id priority pin value d =
    let new_write : PendingWrite = record {
      script_id = script_id;
      priority = priority;
      value = bool value;
    } in
    let (writes, result) = check_write pin new_write d.gpio_writes in
    (record d { gpio_writes = writes }, result)

unfoldable pub check_modbus_write :
    String → ℕ → String → ℕ → ℕ → ConflictDetector → ConflictDetector × ConflictResult
check_modbus_write script_id priority device address value d =
    let new_write : PendingWrite = record {
      script_id = script_id;
      priority = priority;
      value = u16 value;
    } in
    let (writes, result) = check_write (device, address) new_write d.modbus_writes in
    (record d { modbus_writes = writes }, result)

unfoldable pub check_coil_write :
    String → ℕ → String → ℕ → Bool → ConflictDetector → ConflictDetector × ConflictResult
check_coil_write script_id priority device address value d =
    let new_write : PendingWrite = record {
      script_id = script_id;
      priority = priority;
      value = bool value;
    } in
    let (writes, result) = check_write (device, address) new_write d.coil_writes in
    (record d { coil_writes = writes }, result)
