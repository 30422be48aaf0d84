-- ===== src/Common/Words.antt =====
-- The moduli of Rust's unsigned integers. A release build wraps; `wrapping` is that remainder.
use Prim.Native.Nat.{ℕ, ◌%◌, ◌^◌}

abbrev pub u32_mod : ℕ
u32_mod = 2 ^ 32

abbrev pub u64_mod : ℕ
u64_mod = 2 ^ 64

abbrev pub wrap32 : ℕ → ℕ
wrap32 n = n % 4294967296

abbrev pub wrap64 : ℕ → ℕ
wrap64 n = n % 18446744073709551616
