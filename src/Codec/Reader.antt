-- ===== src/Codec/Reader.antt =====
-- libs/st2110core/src/backends/mtl/mtl_worker_ipc_codec.cpp, `Reader`. What a reader has left of its
-- span is a list of bytes; a read gives its value and what is left behind it. Every read that fails
-- fails with `InvalidValue`, and no reader is used again after a failure: where the source makes
-- several reads and tests them together, the first failure ends the chain here with the same error.
use st2110_obs_plugin.Base.{
  ℕ, Option, none, some, ◌+◌, ◌*◌, ◌^◌, Bool, List, [], ◌∷◌, length, take, drop, ltb, Expected, ok,
  unexpected, invalid_value, Error, if◌then◌else◌,
}
use st2110_obs_plugin.Codec.Writer.{Ipv4}
use st2110_obs_plugin.Word.{word, U8, U16, U32, U64}

abbrev pub Reader : Type 0 → Type 0
Reader A = List U8 → Expected (A × List U8)

unfoldable pub return : {A : Type 0} → A → Reader A
return a bytes = ok (a, bytes)

unfoldable pub fail : {A : Type 0} → Error → Reader A
fail error bytes = unexpected error

unfoldable pub pass :
    {A B : Type 0} → (A → Reader B) → Expected (A × List U8) → Expected (B × List U8)
pass next (ok read) = next (read.0) (read.1)
pass next (unexpected error) = unexpected error

infixl 5 ◌>>=◌
unfoldable pub ◌>>=◌ : {A B : Type 0} → Reader A → (A → Reader B) → Reader B
unfolding pass
◌>>=◌ read next bytes = pass next (read bytes)

-- A test on what was read.
unfoldable pub check : Expected (Unit {0}) → Reader (Unit {0})
check (ok passed) = return tt
check (unexpected error) = fail error

infixl 5 ◌>>◌
abbrev pub ◌>>◌ : {B : Type 0} → Reader (Unit {0}) → Reader B → Reader B
test >> next = test >>= (λ passed. next)

unfoldable pub read_u8 : Reader U8
read_u8 (a ∷ rest) = ok (a, rest)
read_u8 _ = unexpected invalid_value

unfoldable pub read_u16 : Reader U16
read_u16 (a ∷ b ∷ rest) = ok (word 16 (a.value * 2 ^ 8 + b.value), rest)
read_u16 _ = unexpected invalid_value

unfoldable pub read_u32 : Reader U32
read_u32 (a ∷ b ∷ c ∷ d ∷ rest) =
    ok (word 32 (a.value * 2 ^ 24 + b.value * 2 ^ 16 + c.value * 2 ^ 8 + d.value), rest)
read_u32 _ = unexpected invalid_value

-- `value = (value << 8) | byte`, eight times.
abbrev pub shift_in : ℕ → U8 → ℕ
shift_in value b = value * 2 ^ 8 + b.value

unfoldable pub read_u64 : Reader U64
read_u64 (a ∷ b ∷ c ∷ d ∷ e ∷ f ∷ g ∷ h ∷ rest) =
    let high = shift_in (shift_in (shift_in (shift_in 0 a) b) c) d in
    ok (word 64 (shift_in (shift_in (shift_in (shift_in high e) f) g) h), rest)
read_u64 _ = unexpected invalid_value

-- `n` bytes, copied.
unfoldable pub read_bytes : ℕ → Reader (List U8)
read_bytes n bytes =
    if ltb (length bytes) n then unexpected invalid_value else ok (take n bytes, drop n bytes)

unfoldable pub read_string : Reader (List U8)
read_string = do size ← read_u32; read_bytes (size.value)

unfoldable pub read_ipv4 : Reader Ipv4
read_ipv4 (a ∷ b ∷ c ∷ d ∷ rest) = ok ((a, b, c, d), rest)
read_ipv4 _ = unexpected invalid_value

unfoldable pub read_bool_u8 : Reader Bool
read_bool_u8 = do
  value ← read_u8
  if ltb 1 (value.value) then fail invalid_value else return (ltb 0 (value.value))

-- A flag byte, and the value if there is one.
unfoldable pub read_optional : {A : Type 0} → Reader A → Reader (Option A)
read_optional read = do
  has_value ← read_bool_u8
  if has_value then (read >>= λ value. return (some value)) else return none

-- `ensure_consumed`
unfoldable pub ensure_consumed : Reader (Unit {0})
ensure_consumed [] = ok (tt, [])
ensure_consumed _ = unexpected invalid_value

-- A message: what it reads, and nothing behind it.
unfoldable pub whole : {A : Type 0} → Reader A → Reader A
whole read = do value ← read; ensure_consumed; return value

-- `Reader reader(payload);` and the result of a run of reads.
unfoldable pub deserialize : {A : Type 0} → Reader A → List U8 → Expected A
deserialize read payload = elim (read payload) [
  | ok result ↦ ok (result.0)
  | unexpected error ↦ unexpected error
]
