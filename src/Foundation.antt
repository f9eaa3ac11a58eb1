-- ===== src/Foundation.antt =====
-- libs/st2110core/include/st2110/foundation: big-endian reads and error classes.
use st2110_obs_plugin.Base.{
  ℕ, ◌+◌, ◌-◌, ◌*◌, ltb, if◌then◌else◌, u64_mod, ◌<◌, ◌^◌, Bool, true, false, List, arith, get_or,
  Error, All, [], ◌∷◌,
}

-- `-` on `std::size_t`, which wraps where the difference is negative.
abbrev pub sub_size : ℕ → ℕ → ℕ
sub_size a b = if ltb a b then a + u64_mod - b else a - b

-- `s[i]` on a byte span. Every read of the source stands behind a test of the span's size.
abbrev pub byte : List ℕ → ℕ → ℕ
byte s i = get_or s i 0

-- `read_be16(s.subspan(i, 2))`
unfoldable pub read_be16 : List ℕ → ℕ → ℕ
read_be16 s i = byte s i * 256 + byte s (i + 1)

-- `read_be32(s.subspan(i, 4))`
unfoldable pub read_be32 : List ℕ → ℕ → ℕ
read_be32 s i =
    byte s i * 2 ^ 24 + byte s (i + 1) * 2 ^ 16 + byte s (i + 2) * 2 ^ 8 + byte s (i + 3)

unfoldable pub is_backend_runtime_error : Error → Bool
is_backend_runtime_error Error.invalid_backend_state = true
is_backend_runtime_error Error.system_failure = true
is_backend_runtime_error Error.operation_interrupted = true
is_backend_runtime_error Error.operation_aborted = true
is_backend_runtime_error _ = false

-- Every element of a byte span is a byte.
abbrev pub IsBytes : List ℕ → Type 0
IsBytes = All (λ b. b < 256)

pub byte-lt : (s : List ℕ) (i : ℕ) → IsBytes s → byte s i < 256
byte-lt [] i h = omega arith
byte-lt (b ∷ s) ℕ.zero h = h.0
byte-lt (b ∷ s) (ℕ.suc i) h = byte-lt s i h.1

pub read_be16-lt : (s : List ℕ) (i : ℕ) → IsBytes s → read_be16 s i < 2 ^ 16
unfolding read_be16
read_be16-lt s i h = omega (arith, byte-lt s i h, byte-lt s (i + 1) h)

pub read_be32-lt : (s : List ℕ) (i : ℕ) → IsBytes s → read_be32 s i < 2 ^ 32
unfolding read_be32
read_be32-lt s i h =
    omega (arith, byte-lt s i h, byte-lt s (i + 1) h, byte-lt s (i + 2) h, byte-lt s (i + 3) h)
