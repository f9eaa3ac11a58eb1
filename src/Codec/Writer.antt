-- ===== src/Codec/Writer.antt =====
-- libs/st2110core/src/backends/mtl/mtl_worker_ipc_codec.cpp, `Writer`. The bytes that a run of calls
-- appends stand in front of those that later calls append, so a run of calls is a function from the
-- later bytes; `finish` has none.
use st2110_obs_plugin.Base.{
  ℕ, Bool, true, false, Option, none, some, ◌>>=◌, ◌-◌, ◌/◌, ◌^◌, List, [], ◌∷◌, ◌++◌, length,
  Expected, ok, unexpected, invalid_value, u32_mod, ltb, if◌then◌else◌,
}
use st2110_obs_plugin.Word.{Word, word, U8, U16, U32, U64}

abbrev pub Writer : Type 0
Writer = List U8 → List U8

-- One call behind the other.
infixr 7 ◌then◌
unfoldable pub ◌then◌ : Writer → Writer → Writer
(first then second) later = first (second later)

-- No call.
unfoldable pub nothing : Writer
nothing later = later

-- `static_cast<std::uint8_t>((value >> shift) & 0xFF)`
abbrev pub byte_at : {w : ℕ} → ℕ → Word w → U8
byte_at shift v = word 8 (v.value / 2 ^ shift)

unfoldable pub write_u8 : U8 → Writer
write_u8 v later = v ∷ later

unfoldable pub write_u16 : U16 → Writer
write_u16 v later = byte_at 8 v ∷ byte_at 0 v ∷ later

unfoldable pub write_u32 : U32 → Writer
write_u32 v later = byte_at 24 v ∷ byte_at 16 v ∷ byte_at 8 v ∷ byte_at 0 v ∷ later

unfoldable pub write_u64 : U64 → Writer
write_u64 v later =
    byte_at 56 v
    ∷ byte_at 48 v
    ∷ byte_at 40 v
    ∷ byte_at 32 v
    ∷ byte_at 24 v
    ∷ byte_at 16 v
    ∷ byte_at 8 v
    ∷ byte_at 0 v
    ∷ later

unfoldable pub write_bytes : List U8 → Writer
write_bytes value later = value ++ later

-- A `std::array<std::uint8_t, 4>`
abbrev pub Ipv4 : Type 0
Ipv4 = U8 × U8 × U8 × U8

unfoldable pub write_ipv4 : Ipv4 → Writer
write_ipv4 (a, b, c, d) = write_bytes (a ∷ b ∷ c ∷ d ∷ [])

unfoldable pub write_bool : Bool → Writer
write_bool value = write_u8 (word 8 (if value then 1 else 0))

unfoldable pub write_string : List U8 → Expected Writer
write_string value =
    if ltb (u32_mod - 1) (length value)
    then unexpected invalid_value
    else ok (write_u32 (word 32 (length value)) then write_bytes value)

-- A flag byte, and the value if there is one.
unfoldable pub write_optional {ℓ} :
    {A : Type ℓ} → (A → Expected Writer) → Option A → Expected Writer
write_optional write none = ok (write_bool false)
write_optional write (some value) = do written ← write value; ok (write_bool true then written)

unfoldable pub finish : Writer → List U8
finish writer = writer []
