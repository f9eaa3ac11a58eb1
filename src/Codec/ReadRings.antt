-- ===== src/Codec/ReadRings.antt =====
-- libs/st2110core/src/backends/mtl/mtl_worker_ipc_codec.cpp: the readers of the ring descriptors that
-- Codec.Rings writes.
use st2110_obs_plugin.Base.{ℕ, zero, suc, ◌||◌, List, [], ◌∷◌, ltb, require, reject, invalid_value}
use st2110_obs_plugin.Protocol.{
  MtlWorkerMediaKind, is_video, is_audio, max_shared_memory_ring_descriptors,
  MtlWorkerSharedMemoryRingDescriptor, validate_shared_memory_ring_descriptor,
}
use st2110_obs_plugin.Codec.Rings.{validate_shared_memory_ring_descriptors}
use st2110_obs_plugin.Codec.Reader.{Reader, return, check, ◌>>=◌, ◌>>◌, read_u32, read_u64}

unfoldable pub read_worker_media_kind : Reader MtlWorkerMediaKind
read_worker_media_kind = do
  value ← read_u32
  check (require (is_video value || is_audio value) invalid_value)
  return value

unfoldable pub read_shared_memory_ring_descriptor : Reader MtlWorkerSharedMemoryRingDescriptor
read_shared_memory_ring_descriptor = do
  ring_id ← read_u64
  media_kind ← read_worker_media_kind
  fd_index ← read_u32
  layout_version ← read_u32
  mapped_size_bytes ← read_u64
  slot_region_offset_bytes ← read_u64
  slot_count ← read_u32
  slot_stride_bytes ← read_u64
  slot_payload_offset_bytes ← read_u64
  slot_payload_capacity_bytes ← read_u64
  let descriptor : MtlWorkerSharedMemoryRingDescriptor = record {
    ring_id = ring_id;
    media_kind = media_kind;
    fd_index = fd_index;
    layout_version = layout_version;
    mapped_size_bytes = mapped_size_bytes;
    slot_region_offset_bytes = slot_region_offset_bytes;
    slot_count = slot_count;
    slot_stride_bytes = slot_stride_bytes;
    slot_payload_offset_bytes = slot_payload_offset_bytes;
    slot_payload_capacity_bytes = slot_payload_capacity_bytes;
  }
  check (validate_shared_memory_ring_descriptor descriptor)
  return descriptor

unfoldable pub read_each : ℕ → Reader (List MtlWorkerSharedMemoryRingDescriptor)
read_each zero = return []
read_each (suc n) = do
  descriptor ← read_shared_memory_ring_descriptor
  descriptors ← read_each n
  return (descriptor ∷ descriptors)

unfoldable pub read_shared_memory_ring_descriptors :
    Reader (List MtlWorkerSharedMemoryRingDescriptor)
read_shared_memory_ring_descriptors = do
  count ← read_u32
  check (reject (ltb max_shared_memory_ring_descriptors (count.value)) invalid_value)
  descriptors ← read_each (count.value)
  check (validate_shared_memory_ring_descriptors descriptors)
  return descriptors
