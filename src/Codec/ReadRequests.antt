-- ===== src/Codec/ReadRequests.antt =====
-- libs/st2110core/src/backends/mtl/mtl_worker_ipc_codec.cpp, `deserialize_mtl_worker_control_request`:
-- a tag, the fields of its request, and nothing behind them.
use st2110_obs_plugin.Base.{
  ℕ, ◌||◌, List, Expected, ◌==◌, if◌then◌else◌, require, invalid_value, unsupported,
}
use st2110_obs_plugin.Word.{U8}
use st2110_obs_plugin.Codec.Tags.{MessageTag, tag_value}
use st2110_obs_plugin.Codec.Requests.{MtlWorkerControlRequest, has_value}
use st2110_obs_plugin.Codec.Reader.{
  Reader, return, fail, check, ◌>>=◌, ◌>>◌, read_u8, read_u64, read_optional, whole, deserialize,
}
use st2110_obs_plugin.Codec.Rings.{validate_start_sessions_media_rings}
use st2110_obs_plugin.Codec.ReadRings.{read_shared_memory_ring_descriptors}
use st2110_obs_plugin.Codec.ReadSessions.{
  read_runtime_config, read_video_start_config, read_audio_start_config,
}

unfoldable pub read_config_handshake : Reader MtlWorkerControlRequest
read_config_handshake = do
  request_id ← read_u64
  runtime ← read_runtime_config
  return (MtlWorkerControlRequest.config_handshake request_id runtime)

unfoldable pub read_start_sessions : Reader MtlWorkerControlRequest
read_start_sessions = do
  request_id ← read_u64
  graph_id ← read_u64
  video ← read_optional read_video_start_config
  audio ← read_optional read_audio_start_config
  media_rings ← read_shared_memory_ring_descriptors
  check (validate_start_sessions_media_rings (has_value video) (has_value audio) media_rings)
  check (require (has_value video || has_value audio) invalid_value)
  return (
      MtlWorkerControlRequest.start_sessions record {
        request_id = request_id;
        graph_id = graph_id;
        video = video;
        audio = audio;
        media_rings = media_rings;
      })

unfoldable pub read_stop_sessions : Reader MtlWorkerControlRequest
read_stop_sessions = do
  request_id ← read_u64
  graph_id ← read_u64
  return (MtlWorkerControlRequest.stop_sessions request_id graph_id)

unfoldable pub read_stats : Reader MtlWorkerControlRequest
read_stats = do
  request_id ← read_u64
  graph_id ← read_u64
  return (MtlWorkerControlRequest.stats request_id graph_id)

unfoldable pub read_health_check : Reader MtlWorkerControlRequest
read_health_check = do
  request_id ← read_u64
  return (MtlWorkerControlRequest.health_check request_id)

unfoldable pub read_shutdown : Reader MtlWorkerControlRequest
read_shutdown = do request_id ← read_u64; return (MtlWorkerControlRequest.shutdown request_id)

-- `switch (static_cast<MessageTag>(*tag))`
unfoldable pub read_request_of : ℕ → Reader MtlWorkerControlRequest
read_request_of tag =
    if tag == tag_value MessageTag.config_handshake_request
    then whole read_config_handshake
    else if tag == tag_value MessageTag.start_sessions_request
    then whole read_start_sessions
    else if tag == tag_value MessageTag.stop_sessions_request
    then whole read_stop_sessions
    else if tag == tag_value MessageTag.stats_request
    then whole read_stats
    else if tag == tag_value MessageTag.health_check_request
    then whole read_health_check
    else if tag == tag_value MessageTag.shutdown_request
    then whole read_shutdown
    else fail unsupported

unfoldable pub read_request : Reader MtlWorkerControlRequest
read_request = do tag ← read_u8; read_request_of (tag.value)

unfoldable pub deserialize_mtl_worker_control_request : List U8 → Expected MtlWorkerControlRequest
deserialize_mtl_worker_control_request = deserialize read_request
