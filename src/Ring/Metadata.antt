-- ===== src/Ring/Metadata.antt =====
-- libs/st2110core/src/backends/mtl/mtl_worker_shared_memory_ring.cpp:
-- the test of what a slot says of its payload.
use st2110_obs_plugin.Base.{
  ℕ, zero, suc, ◌+◌, ◌||◌, get_or, ltb, ◌==◌, if◌then◌else◌, Expected, ok, ◌>>=◌, ◌>>◌, reject,
  require, invalid_value, max,
}
use st2110_obs_plugin.Word.{word}
use st2110_obs_plugin.Protocol.{is_video, is_audio, add_overflows_u64, fits}
use st2110_obs_plugin.Ring.{MtlWorkerSharedMemorySlotMediaMetadata}

-- The loop over the planes from `i` on; `covered` is where they end so far.
unfoldable pub planes_end : MtlWorkerSharedMemorySlotMediaMetadata → ℕ → ℕ → ℕ → ℕ → Expected ℕ
planes_end metadata payload_size covered i zero = ok covered
planes_end metadata payload_size covered i (suc left) =
    let offset = (get_or metadata.plane_offset_bytes i (word 64 0)).value in
    let size = (get_or metadata.plane_size_bytes i (word 64 0)).value in
    let rest = planes_end metadata payload_size (max covered (offset + size)) (suc i) left in
    reject (size == 0) invalid_value
    >> fits (add_overflows_u64 offset size)
    >>= (λ end. reject (ltb payload_size end) invalid_value >> rest)

-- What a video slot and what an audio slot must say.
unfoldable pub require_media : MtlWorkerSharedMemorySlotMediaMetadata → Expected (Unit {0})
require_media metadata =
    if is_video metadata.media_kind
    then reject (metadata.width.value == 0 || metadata.height.value == 0) invalid_value
    else reject
        (metadata.sample_rate_hz.value == 0
          || metadata.channels.value == 0
          || metadata.samples_per_channel.value == 0)
        invalid_value

unfoldable pub validate_slot_media_metadata :
    MtlWorkerSharedMemorySlotMediaMetadata → ℕ → ℕ → Expected (Unit {0})
validate_slot_media_metadata metadata payload_size payload_capacity = do
  require (is_video metadata.media_kind || is_audio metadata.media_kind) invalid_value
  reject (payload_size == 0 || ltb payload_capacity payload_size) invalid_value
  reject (metadata.plane_count.value == 0 || ltb 4 (metadata.plane_count.value)) invalid_value
  covered_payload_end ← planes_end metadata payload_size 0 0 (metadata.plane_count.value)
  reject (ltb payload_size covered_payload_end) invalid_value
  require_media metadata
