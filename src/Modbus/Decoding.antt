-- ===== src/Modbus/Decoding.antt =====
-- The byte orders of src/modbus.rs against how a device lays out a value.
use sens.Common.{ℕ, ◌-◌, ◌/◌, ◌%◌, ◌<◌, ◌≡◌, refl, ap, some, List, [], ◌∷◌, arith}
use sens.Common.Int.{ℤ, pos, negsuc, IsI32}
use sens.Modbus.Registers.{
  ByteOrder, big_endian, little_endian, big_endian_byte_swap, little_endian_byte_swap, Floats,
  swap_bytes, join_words, combine_u32, as_i32, convert_value, bits_of,
}

-- The two registers in which a device of this byte order gives a 32-bit value.
abbrev pub layout : ℕ → ByteOrder → List ℕ
layout n big_endian = n / 65536 ∷ n % 65536 ∷ []
layout n little_endian = n % 65536 ∷ n / 65536 ∷ []
layout n big_endian_byte_swap = swap_bytes (n / 65536) ∷ swap_bytes (n % 65536) ∷ []
layout n little_endian_byte_swap = swap_bytes (n % 65536) ∷ swap_bytes (n / 65536) ∷ []

swap_bytes_twice : (n : ℕ) → n < 65536 → swap_bytes (swap_bytes n) ≡ n
swap_bytes_twice n h = omega arith

words : (n : ℕ) → join_words (n / 65536) (n % 65536) ≡ n
words n = omega arith

high_word : (n : ℕ) → n < 4294967296 → n / 65536 < 65536
high_word n h = omega arith

low_word : (n : ℕ) → n % 65536 < 65536
low_word n = omega arith

bits_of-layout :
    (n : ℕ) (order : ByteOrder) → n < 4294967296 → bits_of (layout n order) order ≡ some n
unfolding combine_u32
bits_of-layout n big_endian h = ap some (words n)
bits_of-layout n little_endian h = ap some (words n)
bits_of-layout n big_endian_byte_swap h =
    rw (swap_bytes_twice (n / 65536) (high_word n h), swap_bytes_twice (n % 65536) (low_word n))
      (ap some (words n))
bits_of-layout n little_endian_byte_swap h =
    rw (swap_bytes_twice (n / 65536) (high_word n h), swap_bytes_twice (n % 65536) (low_word n))
      (ap some (words n))

-- The bits of an `i32`.
abbrev pub bits_of_i32 : ℤ → ℕ
bits_of_i32 (pos n) = n
bits_of_i32 (negsuc n) = 4294967295 - n

as_i32-bits_of_i32 : (z : ℤ) → IsI32 z → as_i32 (bits_of_i32 z) ≡ z
as_i32-bits_of_i32 (pos n) h = ground arith
as_i32-bits_of_i32 (negsuc n) h = ground arith

bits_of_i32-bound : (z : ℤ) → IsI32 z → bits_of_i32 z < 4294967296
bits_of_i32-bound (pos n) h = ground arith
bits_of_i32-bound (negsuc n) h = ground arith

module _ {F : Type 0} (floats : Floats F) where
  -- Whatever the byte order, the registers in which a device of that order lays out an unsigned
  -- 32-bit value convert to that value as `u32`, and those of an `i32` convert to it as `i32`.
  pub convert-layout :
      (order : ByteOrder) (n : ℕ) (z : ℤ)
      → n < 4294967296
      → IsI32 z
      → (convert_value floats (layout n order) "u32" order ≡ floats.of_int (pos n))
        × (convert_value floats (layout (bits_of_i32 z) order) "i32" order ≡ floats.of_int z)
  unfolding convert_value
  convert-layout order n z hn hz = (
    rw (bits_of-layout n order hn) refl,
    rw (bits_of-layout (bits_of_i32 z) order (bits_of_i32-bound z hz), as_i32-bits_of_i32 z hz)
        refl,
  )
