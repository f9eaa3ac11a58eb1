-- ===== src/Protocol.antt =====
-- libs/st2110core/include/st2110/backends/mtl/mtl_worker_protocol.hpp: the descriptor of a ring of
-- slots in shared memory, and the test that the codec makes of it. An enum that the wire or the shared
-- memory carries is its underlying value, since the code casts numbers to it.
use st2110_obs_plugin.Base.{
  ℕ, ◌+◌, ◌-◌, ◌*◌, ◌/◌, Bool, not, ◌&&◌, ◌||◌, Option, none, some, ltb, ◌==◌, if◌then◌else◌,
  Expected, ok, unexpected, ◌>>=◌, ◌>>◌, reject, require, invalid_value, u64_max, ◌≤◌, ◌≡◌, arith,
}
use st2110_obs_plugin.Word.{U32, U64}

-- enum class MtlWorkerMediaKind : std::uint32_t
abbrev pub MtlWorkerMediaKind : Type 0
MtlWorkerMediaKind = U32

-- `case MtlWorkerMediaKind::Video:`
abbrev pub is_video : MtlWorkerMediaKind → Bool
is_video kind = kind.value == 0

-- `case MtlWorkerMediaKind::Audio:`
abbrev pub is_audio : MtlWorkerMediaKind → Bool
is_audio kind = kind.value == 1

abbrev pub shared_memory_ring_layout_version : ℕ
shared_memory_ring_layout_version = 3

abbrev pub max_shared_memory_ring_descriptors : ℕ
max_shared_memory_ring_descriptors = 16

pub record MtlWorkerSharedMemoryRingDescriptor : Type 0 where
  pub ring_id : U64
  pub media_kind : MtlWorkerMediaKind
  pub fd_index : U32
  pub layout_version : U32
  pub mapped_size_bytes : U64
  pub slot_region_offset_bytes : U64
  pub slot_count : U32
  pub slot_stride_bytes : U64
  pub slot_payload_offset_bytes : U64
  pub slot_payload_capacity_bytes : U64

-- `out`, where the sum does not overflow.
unfoldable pub add_overflows_u64 : ℕ → ℕ → Option ℕ
add_overflows_u64 a b = if ltb (u64_max - a) b then none else some (a + b)

unfoldable pub mul_overflows_u64 : ℕ → ℕ → Option ℕ
mul_overflows_u64 a b = if not (a == 0) && ltb (u64_max / a) b then none else some (a * b)

-- `if (overflows(a, b, out)) return std::unexpected(Error::InvalidValue);`
abbrev pub fits : Option ℕ → Expected ℕ
fits none = unexpected invalid_value
fits (some out) = ok out

-- A field that may not be zero is, or the version is another one.
unfoldable pub has_bad_field : MtlWorkerSharedMemoryRingDescriptor → Bool
has_bad_field d =
    d.ring_id.value == 0
    || not (d.layout_version.value == shared_memory_ring_layout_version)
    || d.mapped_size_bytes.value == 0
    || d.slot_count.value == 0
    || d.slot_stride_bytes.value == 0
    || d.slot_payload_capacity_bytes.value == 0

unfoldable pub require_ring_fields : MtlWorkerSharedMemoryRingDescriptor → Expected (Unit {0})
require_ring_fields d = do
  reject (has_bad_field d) invalid_value
  require (is_video d.media_kind || is_audio d.media_kind) invalid_value

-- A payload ends inside its slot, and the last slot's payload inside the mapping.
unfoldable pub require_ring_layout : MtlWorkerSharedMemoryRingDescriptor → Expected (Unit {0})
require_ring_layout d = do
  payload_end_within_slot ←
      fits (
        add_overflows_u64 (d.slot_payload_offset_bytes.value) (d.slot_payload_capacity_bytes.value))
  reject (ltb (d.slot_stride_bytes.value) payload_end_within_slot) invalid_value
  last_slot_relative_offset ←
      fits (mul_overflows_u64 (d.slot_count.value - 1) (d.slot_stride_bytes.value))
  last_slot_payload_end ← fits (add_overflows_u64 last_slot_relative_offset payload_end_within_slot)
  mapped_payload_end ←
      fits (add_overflows_u64 (d.slot_region_offset_bytes.value) last_slot_payload_end)
  reject (ltb (d.mapped_size_bytes.value) mapped_payload_end) invalid_value

unfoldable pub validate_shared_memory_ring_descriptor :
    MtlWorkerSharedMemoryRingDescriptor → Expected (Unit {0})
validate_shared_memory_ring_descriptor d = do require_ring_fields d; require_ring_layout d

-- What the layout promises, as inequalities of the numbers.
pub record IsLaidOut (d : MtlWorkerSharedMemoryRingDescriptor) : Type 0 where
  pub payload_inside :
      d.slot_payload_offset_bytes.value + d.slot_payload_capacity_bytes.value
      ≤ d.slot_stride_bytes.value
  pub slots_inside :
      d.slot_region_offset_bytes.value
        + (d.slot_count.value - 1) * d.slot_stride_bytes.value
        + (d.slot_payload_offset_bytes.value + d.slot_payload_capacity_bytes.value)
      ≤ d.mapped_size_bytes.value

pub add_overflows_u64-some : (a b : ℕ) {out : ℕ} → add_overflows_u64 a b ≡ some out → out ≡ a + b
unfolding add_overflows_u64
add_overflows_u64-some a b h = ground arith

pub mul_overflows_u64-some : (a b : ℕ) {out : ℕ} → mul_overflows_u64 a b ≡ some out → out ≡ a * b
unfolding mul_overflows_u64
mul_overflows_u64-some a b h = ground arith
