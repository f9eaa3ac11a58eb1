-- ===== src/Base/Words.antt =====
-- Machine words as native numbers, with the wrap-around written out.
use Prim.Native.Nat.{ℕ, ◌+◌, ◌-◌, ◌%◌, ◌^◌}

abbrev pub u8_mod : ℕ
u8_mod = 2 ^ 8

abbrev pub u16_mod : ℕ
u16_mod = 2 ^ 16

abbrev pub u32_mod : ℕ
u32_mod = 2 ^ 32

abbrev pub u64_mod : ℕ
u64_mod = 2 ^ 64

-- `std::numeric_limits<std::uint64_t>::max()`
abbrev pub u64_max : ℕ
u64_max = 2 ^ 64 - 1

-- `++` on a `std::uint64_t` counter
abbrev pub inc64 : ℕ → ℕ
inc64 n = (n + 1) % u64_mod

-- `+=` on a `std::uint64_t` counter
abbrev pub add64 : ℕ → ℕ → ℕ
add64 a b = (a + b) % u64_mod
