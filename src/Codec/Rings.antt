-- ===== src/Codec/Rings.antt =====
-- libs/st2110core/src/backends/mtl/mtl_worker_ipc_codec.cpp: the descriptors of the shared memory
-- rings in a start request. `validate_shared_memory_ring_descriptor` is in Protocol.
use st2110_obs_plugin.Base.{
  Bool, ◌>>=◌, ◌>>◌, ◌||◌, ◌&&◌, List, [], ◌∷◌, length, ltb, ◌==◌, if◌then◌else◌, Expected, ok,
  reject, require, invalid_value,
}
use st2110_obs_plugin.Word.{word, U64}
use st2110_obs_plugin.Protocol.{
  MtlWorkerMediaKind, is_video, is_audio, max_shared_memory_ring_descriptors,
  MtlWorkerSharedMemoryRingDescriptor, validate_shared_memory_ring_descriptor,
}
use st2110_obs_plugin.Codec.Writer.{Writer, ◌then◌, nothing, write_u32, write_u64}

-- `descriptors[j].ring_id == descriptors[i].ring_id` for an earlier `j`
unfoldable pub is_taken : U64 → List MtlWorkerSharedMemoryRingDescriptor → Bool
is_taken ring_id [] = Bool.false
is_taken ring_id (d ∷ earlier) = d.ring_id.value == ring_id.value || is_taken ring_id earlier

-- The loop over the descriptors, those before it at hand.
unfoldable pub validate_each :
    List MtlWorkerSharedMemoryRingDescriptor
    → List MtlWorkerSharedMemoryRingDescriptor
    → Expected (Unit {0})
validate_each earlier [] = ok tt
validate_each earlier (d ∷ later) =
    let rest = validate_each (d ∷ earlier) later in
    validate_shared_memory_ring_descriptor d
    >> reject (is_taken d.ring_id earlier) invalid_value
    >> rest

unfoldable pub validate_shared_memory_ring_descriptors :
    List MtlWorkerSharedMemoryRingDescriptor → Expected (Unit {0})
validate_shared_memory_ring_descriptors descriptors = do
  reject (ltb max_shared_memory_ring_descriptors (length descriptors)) invalid_value
  validate_each [] descriptors

unfoldable pub media_kind_has_matching_session : MtlWorkerMediaKind → Bool → Bool → Bool
media_kind_has_matching_session kind has_video has_audio =
    is_video kind && has_video || is_audio kind && has_audio

unfoldable pub all_match : Bool → Bool → List MtlWorkerSharedMemoryRingDescriptor → Bool
all_match has_video has_audio [] = Bool.true
all_match has_video has_audio (d ∷ rest) =
    media_kind_has_matching_session d.media_kind has_video has_audio
    && all_match has_video has_audio rest

unfoldable pub validate_start_sessions_media_rings :
    Bool → Bool → List MtlWorkerSharedMemoryRingDescriptor → Expected (Unit {0})
validate_start_sessions_media_rings has_video has_audio descriptors = do
  validate_shared_memory_ring_descriptors descriptors
  require (all_match has_video has_audio descriptors) invalid_value

unfoldable pub write_shared_memory_ring_descriptor :
    MtlWorkerSharedMemoryRingDescriptor → Expected Writer
write_shared_memory_ring_descriptor d = do
  validate_shared_memory_ring_descriptor d
  ok (
      write_u64 d.ring_id
      then write_u32 d.media_kind
      then write_u32 d.fd_index
      then write_u32 d.layout_version
      then write_u64 d.mapped_size_bytes
      then write_u64 d.slot_region_offset_bytes
      then write_u32 d.slot_count
      then write_u64 d.slot_stride_bytes
      then write_u64 d.slot_payload_offset_bytes
      then write_u64 d.slot_payload_capacity_bytes)

unfoldable pub write_each : List MtlWorkerSharedMemoryRingDescriptor → Expected Writer
write_each [] = ok nothing
write_each (d ∷ rest) =
    let others = write_each rest in
    write_shared_memory_ring_descriptor d
    >>= (λ first. others >>= (λ behind. ok (first then behind)))

unfoldable pub write_shared_memory_ring_descriptors :
    List MtlWorkerSharedMemoryRingDescriptor → Expected Writer
write_shared_memory_ring_descriptors descriptors = do
  validate_shared_memory_ring_descriptors descriptors
  each ← write_each descriptors
  ok (write_u32 (word 32 (length descriptors)) then each)
