-- ===== src/Modbus/Registers.antt =====
-- The decoding of register values in src/modbus.rs.
use sens.Common.{
  arith, ◌<◌, ℕ, ◌+◌, ◌-◌, ◌*◌, ◌/◌, ◌%◌, String, Option, none, some, List, [], ◌∷◌, ltb, str_eq,
  if◌then◌else◌, is_any,
}
use sens.Common.Int.{ℤ, pos, negsuc}

pub data ByteOrder : Type 0 where
  big_endian : ByteOrder
  little_endian : ByteOrder
  big_endian_byte_swap : ByteOrder
  little_endian_byte_swap : ByteOrder

-- The conversions to `f64` that the code uses, and the product.
pub record Floats (F : Type 0) : Type 0 where
  pub of_int : ℤ → F
  pub of_f32_bits : ℕ → F
  pub mul : F → F → F

unfoldable pub get_register_count : String → ℕ
get_register_count data_type =
    if is_any data_type ("u32" ∷ "i32" ∷ "f32" ∷ [])
    then 2
    else (if is_any data_type ("u64" ∷ "i64" ∷ "f64" ∷ []) then 4 else 1)

-- `u16::swap_bytes`
abbrev pub swap_bytes : ℕ → ℕ
swap_bytes n = n % 256 * 256 + n / 256

-- `(high << 16) | low`
abbrev pub join_words : ℕ → ℕ → ℕ
join_words high low = high * 65536 + low

unfoldable pub combine_u32 : ℕ → ℕ → ByteOrder → ℕ
combine_u32 a b big_endian = join_words a b
combine_u32 a b little_endian = join_words b a
combine_u32 a b big_endian_byte_swap = join_words (swap_bytes a) (swap_bytes b)
combine_u32 a b little_endian_byte_swap = join_words (swap_bytes b) (swap_bytes a)

-- `as i16` and `as i32` of an unsigned number
abbrev pub as_i16 : ℕ → ℤ
as_i16 n = if ltb n 32768 then pos n else negsuc (65535 - n)

abbrev pub as_i32 : ℕ → ℤ
as_i32 n = if ltb n 2147483648 then pos n else negsuc (4294967295 - n)

-- `values.first().copied().unwrap_or(0)`
abbrev pub first_value : List ℕ → ℕ
first_value [] = 0
first_value (v ∷ vs) = v

-- The first two of at least two values, combined.
abbrev pub bits_of : List ℕ → ByteOrder → Option ℕ
bits_of (a ∷ b ∷ vs) order = some (combine_u32 a b order)
bits_of _ order = none

-- A conversion of the bits, if there are any.
abbrev pub with_bits : {F : Type 0} → Option ℕ → F → (ℕ → F) → F
with_bits none other f = other
with_bits (some bits) other f = f bits

module _ {F : Type 0} (floats : Floats F) where
  unfoldable pub convert_value : List ℕ → String → ByteOrder → F
  unfolding combine_u32
  convert_value values data_type order =
      let first = floats.of_int (pos (first_value values)) in
      let bits = bits_of values order in
      if str_eq data_type "u16"
      then first
      else (if str_eq data_type "i16"
          then floats.of_int (as_i16 (first_value values))
          else (if str_eq data_type "u32"
              then with_bits bits first (λ n. floats.of_int (pos n))
              else (if str_eq data_type "i32"
                  then with_bits bits first (λ n. floats.of_int (as_i32 n))
                  else (if str_eq data_type "f32"
                      then with_bits bits first floats.of_f32_bits
                      else first))))

-- Every type takes a register at least.
pub register_count_positive : (data_type : String) → 0 < get_register_count data_type
unfolding get_register_count
register_count_positive data_type = ground arith
