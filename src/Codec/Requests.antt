-- ===== src/Codec/Requests.antt =====
-- libs/st2110core/src/backends/mtl/mtl_worker_ipc_codec.cpp, `serialize_mtl_worker_control_request`, and
-- the requests of mtl_worker_protocol.hpp.
use st2110_obs_plugin.Base.{Bool, true, false, Option, none, some, List, Expected, ok, ◌>>=◌, ◌>>◌}
use st2110_obs_plugin.Word.{U8, U64}
use st2110_obs_plugin.Protocol.{MtlWorkerSharedMemoryRingDescriptor}
use st2110_obs_plugin.Codec.Writer.{Writer, ◌then◌, write_u64, write_optional, finish}
use st2110_obs_plugin.Codec.Tags.{MessageTag, write_tag}
use st2110_obs_plugin.Codec.Sessions.{
  MtlRuntimeConfig, MtlVideoStartConfig, MtlAudioStartConfig, write_runtime_config,
  write_video_start_config, write_audio_start_config,
}
use st2110_obs_plugin.Codec.Rings.{
  validate_start_sessions_media_rings, write_shared_memory_ring_descriptors,
}

pub record MtlWorkerStartSessionsRequest : Type 0 where
  pub request_id : U64
  pub graph_id : U64
  pub video : Option MtlVideoStartConfig
  pub audio : Option MtlAudioStartConfig
  pub media_rings : List MtlWorkerSharedMemoryRingDescriptor

-- The ids are `request_id` and, where there are two, `graph_id`.
pub data MtlWorkerControlRequest : Type 0 where
  config_handshake : U64 → MtlRuntimeConfig → MtlWorkerControlRequest
  start_sessions : MtlWorkerStartSessionsRequest → MtlWorkerControlRequest
  stop_sessions : U64 → U64 → MtlWorkerControlRequest
  stats : U64 → U64 → MtlWorkerControlRequest
  health_check : U64 → MtlWorkerControlRequest
  shutdown : U64 → MtlWorkerControlRequest

abbrev pub has_value {ℓ} : {A : Type ℓ} → Option A → Bool
has_value none = false
has_value (some a) = true

unfoldable pub write_start_sessions : MtlWorkerStartSessionsRequest → Expected Writer
write_start_sessions request = do
  video ← write_optional write_video_start_config request.video
  audio ← write_optional write_audio_start_config request.audio
  validate_start_sessions_media_rings (has_value request.video) (has_value request.audio)
      request.media_rings
  media_rings ← write_shared_memory_ring_descriptors request.media_rings
  ok (
      write_tag MessageTag.start_sessions_request
      then write_u64 request.request_id
      then write_u64 request.graph_id
      then video
      then audio
      then media_rings)

unfoldable pub write_request : MtlWorkerControlRequest → Expected Writer
write_request (MtlWorkerControlRequest.config_handshake request_id runtime) = do
  written ← write_runtime_config runtime
  ok (write_tag MessageTag.config_handshake_request then write_u64 request_id then written)
write_request (MtlWorkerControlRequest.start_sessions request) = write_start_sessions request
write_request (MtlWorkerControlRequest.stop_sessions request_id graph_id) =
    ok
      (write_tag MessageTag.stop_sessions_request then write_u64 request_id then write_u64 graph_id)
write_request (MtlWorkerControlRequest.stats request_id graph_id) =
    ok (write_tag MessageTag.stats_request then write_u64 request_id then write_u64 graph_id)
write_request (MtlWorkerControlRequest.health_check request_id) =
    ok (write_tag MessageTag.health_check_request then write_u64 request_id)
write_request (MtlWorkerControlRequest.shutdown request_id) =
    ok (write_tag MessageTag.shutdown_request then write_u64 request_id)

unfoldable pub serialize_mtl_worker_control_request : MtlWorkerControlRequest → Expected (List U8)
serialize_mtl_worker_control_request request = do writer ← write_request request; ok (finish writer)
