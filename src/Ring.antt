-- ===== src/Ring.antt =====
-- libs/st2110core/include/st2110/backends/mtl/mtl_worker_shared_memory_ring.hpp and
-- libs/st2110core/src/backends/mtl/mtl_worker_shared_memory_ring.cpp: a ring of slots in memory that
-- the plugin's process and the worker's share. The headers of the slots are a list by slot index; a
-- pointer into the mapping is its offset. What `fstat` and `mmap` answer is an argument.
pub mod Metadata
pub mod Headers
pub mod Transitions
pub mod Slots
pub mod Bounds
pub mod View
pub mod Refinement
pub mod Operations
pub mod Promises
pub mod Keeping
pub mod Failing
pub mod Errors
pub mod Soundness
pub mod Initialized
pub mod Cycle
pub mod Acquiring
use st2110_obs_plugin.Base.{
  ℕ, suc, ◌+◌, ◌%◌, Bool, true, false, not, ◌||◌, Option, none, some, List, get_or, replicate, ltb,
  leb, ◌==◌, Expected, ok, unexpected, ◌>>=◌, ◌>>◌, reject, invalid_value, system_failure, u64_mod,
}
use st2110_obs_plugin.Word.{word, U32, U64}
use st2110_obs_plugin.Protocol.{
  MtlWorkerMediaKind, MtlWorkerSharedMemoryRingDescriptor, shared_memory_ring_layout_version,
  require_ring_fields, require_ring_layout, add_overflows_u64, mul_overflows_u64, fits,
}

abbrev pub slot_magic : ℕ
slot_magic = 1297370195

-- enum class MtlWorkerSharedMemorySlotState : std::uint32_t
abbrev pub empty_state : U32
empty_state = word 32 0

abbrev pub writing_state : U32
writing_state = word 32 1

abbrev pub ready_state : U32
ready_state = word 32 2

abbrev pub reading_state : U32
reading_state = word 32 3

-- The arrays have four entries each.
pub record MtlWorkerSharedMemorySlotMediaMetadata : Type 0 where
  pub media_kind : MtlWorkerMediaKind
  pub media_format : U32
  pub width : U32
  pub height : U32
  pub sample_rate_hz : U32
  pub channels : U32
  pub samples_per_channel : U32
  pub rtp_timestamp : U32
  pub receive_timestamp_ns : U64
  pub plane_count : U32
  pub reserved0 : U32
  pub video_scan_mode : U32
  pub video_field_flags : U32
  pub plane_offset_bytes : List U64
  pub plane_size_bytes : List U64
  pub plane_line_size_bytes : List U64

pub record MtlWorkerSharedMemorySlotHeader : Type 0 where
  pub magic : U32
  pub layout_version : U32
  pub state : U32
  pub flags : U32
  pub sequence : U64
  pub payload_size : U64
  pub media : MtlWorkerSharedMemorySlotMediaMetadata

-- `sizeof(MtlWorkerSharedMemorySlotHeader)`: 32 bytes and 152 of metadata, up to a multiple of 64.
abbrev pub header_size : ℕ
header_size = 192

-- `alignof(MtlWorkerSharedMemorySlotHeader)`
abbrev pub header_alignment : ℕ
header_alignment = 64

-- A map with `mapped` false is one with a null `mapping_`.
pub record MtlWorkerSharedMemoryRingMap : Type 0 where
  pub descriptor : MtlWorkerSharedMemoryRingDescriptor
  pub mapped : Bool
  pub mapping_size : ℕ
  pub headers : List MtlWorkerSharedMemorySlotHeader

-- The slots' headers, aligned, and payloads that begin behind them.
unfoldable pub require_ring_alignment : MtlWorkerSharedMemoryRingDescriptor → Expected (Unit {0})
require_ring_alignment d = do
  reject
      (not (d.slot_region_offset_bytes.value % header_alignment == 0)
        || not (d.slot_stride_bytes.value % header_alignment == 0))
      invalid_value
  reject (ltb (d.slot_payload_offset_bytes.value) header_size) invalid_value

-- `checked_size_t` lets every 64-bit number pass where `std::size_t` has 64 bits.
unfoldable pub validate_ring_descriptor_for_mapping :
    MtlWorkerSharedMemoryRingDescriptor → Expected (Unit {0})
validate_ring_descriptor_for_mapping d = do
  require_ring_fields d
  require_ring_alignment d
  require_ring_layout d

-- A system call that fails.
abbrev pub answered : {A : Type 0} → Option A → Expected A
answered none = unexpected system_failure
answered (some answer) = ok answer

unfoldable pub map_from_descriptor :
    MtlWorkerSharedMemoryRingDescriptor
    → Bool
    → Option ℕ
    → Option (List MtlWorkerSharedMemorySlotHeader)
    → Expected MtlWorkerSharedMemoryRingMap
map_from_descriptor d fd_is_valid fstat mmap = do
  validate_ring_descriptor_for_mapping d
  reject (not fd_is_valid) invalid_value
  file_size ← answered fstat
  reject (ltb file_size (d.mapped_size_bytes.value)) invalid_value
  headers ← answered mmap
  ok (record {
    descriptor = d;
    mapped = true;
    mapping_size = d.mapped_size_bytes.value;
    headers = headers;
  })

-- Where a slot's header is.
unfoldable pub slot_header : MtlWorkerSharedMemoryRingMap → ℕ → Expected ℕ
slot_header map slot_index = do
  reject (not map.mapped || leb (map.descriptor.slot_count.value) slot_index) invalid_value
  slot_offset ← fits (mul_overflows_u64 slot_index (map.descriptor.slot_stride_bytes.value))
  offset ← fits (add_overflows_u64 (map.descriptor.slot_region_offset_bytes.value) slot_offset)
  reject (ltb map.mapping_size ((offset + header_size) % u64_mod)) invalid_value
  ok offset

-- Where a slot's payload is, and its capacity.
unfoldable pub slot_payload : MtlWorkerSharedMemoryRingMap → ℕ → Expected (ℕ × ℕ)
slot_payload map slot_index = do
  reject (not map.mapped || leb (map.descriptor.slot_count.value) slot_index) invalid_value
  slot_offset ← fits (mul_overflows_u64 slot_index (map.descriptor.slot_stride_bytes.value))
  slot_start ← fits (add_overflows_u64 (map.descriptor.slot_region_offset_bytes.value) slot_offset)
  offset ← fits (add_overflows_u64 slot_start (map.descriptor.slot_payload_offset_bytes.value))
  reject
      (ltb map.mapping_size ((offset + map.descriptor.slot_payload_capacity_bytes.value) % u64_mod))
      invalid_value
  ok (offset, map.descriptor.slot_payload_capacity_bytes.value)

-- `MtlWorkerSharedMemorySlotMediaMetadata{}`
unfoldable pub no_metadata : MtlWorkerSharedMemorySlotMediaMetadata
no_metadata = record {
  media_kind = word 32 0;
  media_format = word 32 0;
  width = word 32 0;
  height = word 32 0;
  sample_rate_hz = word 32 0;
  channels = word 32 0;
  samples_per_channel = word 32 0;
  rtp_timestamp = word 32 0;
  receive_timestamp_ns = word 64 0;
  plane_count = word 32 0;
  reserved0 = word 32 0;
  video_scan_mode = word 32 0;
  video_field_flags = word 32 0;
  plane_offset_bytes = replicate 4 (word 64 0);
  plane_size_bytes = replicate 4 (word 64 0);
  plane_line_size_bytes = replicate 4 (word 64 0);
}
