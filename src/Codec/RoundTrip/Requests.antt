-- ===== src/Codec/RoundTrip/Requests.antt =====
-- A control request that is serialized is deserialized to itself.
use st2110_obs_plugin.Base.{◌≡◌, refl, subst, true, ◌||◌, List, [], ok, chain_ok, ok_injective}
use st2110_obs_plugin.Word
use st2110_obs_plugin.Word.{U8}
use st2110_obs_plugin.Codec.Writer.{Writer, write_optional, finish}
use st2110_obs_plugin.Codec.Sessions.{
  write_runtime_config, write_video_start_config, write_audio_start_config,
}
use st2110_obs_plugin.Codec.Rings.{
  validate_start_sessions_media_rings, write_shared_memory_ring_descriptors,
}
use st2110_obs_plugin.Codec.Tags.{MessageTag}
use st2110_obs_plugin.Codec.RoundTrip.Tagged.{tagged}
use st2110_obs_plugin.Codec.Requests.{
  MtlWorkerStartSessionsRequest, MtlWorkerControlRequest, has_value, write_start_sessions,
  write_request, serialize_mtl_worker_control_request,
}
use st2110_obs_plugin.Codec.ReadRequests.{
  read_config_handshake, read_start_sessions, read_stop_sessions, read_stats, read_health_check,
  read_shutdown, read_request_of, read_request, deserialize_mtl_worker_control_request,
}
use st2110_obs_plugin.Codec.Reading.{
  next, last, closing, checked, built, u64, optional, deserialize-ok,
}
use st2110_obs_plugin.Codec.RoundTrip.Sessions.{
  read_runtime_config-Reads, read_video_start_config-Reads, read_audio_start_config-Reads,
}
use st2110_obs_plugin.Codec.RoundTrip.Rings.{read_shared_memory_ring_descriptors-Reads}

-- A start request asks for a session; the other requests are as they come.
abbrev pub HasSession : MtlWorkerControlRequest → Type 0
HasSession (MtlWorkerControlRequest.start_sessions request) =
    (has_value request.video || has_value request.audio) ≡ true
HasSession _ = Unit

read_start_sessions-Reads :
    (request : MtlWorkerStartSessionsRequest) {w : Writer}
    → write_start_sessions request ≡ ok w
    → (has_value request.video || has_value request.audio) ≡ true
    → read_request (w []) ≡ ok (MtlWorkerControlRequest.start_sessions request, [])
unfolding read_request read_start_sessions write_start_sessions read_request_of Word.word
read_start_sessions-Reads request e h =
    let video = chain_ok (write_optional write_video_start_config request.video) _ e in
    let audio = chain_ok (write_optional write_audio_start_config request.audio) _ (video.2) in
    let valid =
      chain_ok
        (validate_start_sessions_media_rings (has_value request.video) (has_value request.audio)
          request.media_rings)
        _ (audio.2) in
    let rings = chain_ok (write_shared_memory_ring_descriptors request.media_rings) _ (valid.2) in
    tagged MessageTag.start_sessions_request read_request_of {read = read_start_sessions} refl
      (rings.2)
      (next _ u64 (
        next _ u64 (
          next _ (optional _ _ read_video_start_config-Reads _ (video.1)) (
            next _ (optional _ _ read_audio_start_config-Reads _ (audio.1)) (
              closing _ (read_shared_memory_ring_descriptors-Reads _ (rings.1))
                (checked _ (valid.1) (checked _ (rw h) built)))))))

read_request-exact :
    (request : MtlWorkerControlRequest) {w : Writer}
    → write_request request ≡ ok w
    → HasSession request
    → read_request (w []) ≡ ok (request, [])
unfolding write_request read_request read_request_of Word.word read_config_handshake
    read_stop_sessions read_stats read_health_check read_shutdown
read_request-exact (MtlWorkerControlRequest.config_handshake request_id runtime) e h =
    let config = chain_ok (write_runtime_config runtime) _ e in
    tagged MessageTag.config_handshake_request read_request_of {read = read_config_handshake} refl
      (config.2) (next _ u64 (last _ (read_runtime_config-Reads _ (config.1)) refl))
read_request-exact (MtlWorkerControlRequest.start_sessions request) e h =
    read_start_sessions-Reads request e h
read_request-exact (MtlWorkerControlRequest.stop_sessions request_id graph_id) e h =
    tagged MessageTag.stop_sessions_request read_request_of {read = read_stop_sessions} refl e
      (next _ u64 (last _ u64 refl))
read_request-exact (MtlWorkerControlRequest.stats request_id graph_id) e h =
    tagged MessageTag.stats_request read_request_of {read = read_stats} refl e
      (next _ u64 (last _ u64 refl))
read_request-exact (MtlWorkerControlRequest.health_check request_id) e h =
    tagged MessageTag.health_check_request read_request_of {read = read_health_check} refl e
      (last _ u64 refl)
read_request-exact (MtlWorkerControlRequest.shutdown request_id) e h =
    tagged MessageTag.shutdown_request read_request_of {read = read_shutdown} refl e
      (last _ u64 refl)

-- Whatever bytes a control request is serialized to, they deserialize to that request; of a start
-- request this asks that it has a video or an audio session, which its reader insists on.
pub deserialize-serialize_request :
    (request : MtlWorkerControlRequest) (bytes : List U8)
    → serialize_mtl_worker_control_request request ≡ ok bytes
    → HasSession request
    → deserialize_mtl_worker_control_request bytes ≡ ok request
unfolding serialize_mtl_worker_control_request deserialize_mtl_worker_control_request finish
deserialize-serialize_request request bytes e h =
    let w = chain_ok (write_request request) _ e in
    deserialize-ok read_request (
      subst (λ b. read_request b ≡ ok (request, [])) (ok_injective (w.2))
        (read_request-exact request (w.1) h))
