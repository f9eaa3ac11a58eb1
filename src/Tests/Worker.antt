-- ===== src/Tests/Worker.antt =====
-- Messages between the plugin's process and the worker's: a start request with a video session and its
-- ring, and an event.
use st2110_obs_plugin.Base.{
  ◌≡◌, refl, none, some, List, [], ◌∷◌, ◌++◌, Expected, ok, unexpected, invalid_value,
}
use st2110_obs_plugin.Word.{word, U8}
use st2110_obs_plugin.Protocol.{
  MtlWorkerSharedMemoryRingDescriptor, validate_shared_memory_ring_descriptor, require_ring_fields,
  require_ring_layout, has_bad_field, add_overflows_u64, mul_overflows_u64,
}
use st2110_obs_plugin.Codec.Writer.{write_string, write_optional}
use st2110_obs_plugin.Codec.Rings.{
  is_taken, validate_each, validate_shared_memory_ring_descriptors, media_kind_has_matching_session,
  all_match, validate_start_sessions_media_rings, write_shared_memory_ring_descriptor, write_each,
  write_shared_memory_ring_descriptors,
}
use st2110_obs_plugin.Codec.Sessions.{
  MtlRuntimeConfig, MtlSessionPortConfig, MtlVideoStartConfig, write_runtime_port,
  write_runtime_config, write_redundant_port, write_video_start_config,
}
use st2110_obs_plugin.Codec.Requests.{
  MtlWorkerControlRequest, write_start_sessions, write_request,
  serialize_mtl_worker_control_request,
}
use st2110_obs_plugin.Codec.ReadRequests.{deserialize_mtl_worker_control_request}
use st2110_obs_plugin.Codec.Events.{
  MtlWorkerControlEvent, serialize_mtl_worker_control_event, deserialize_mtl_worker_control_event,
  write_event,
}
use st2110_obs_plugin.Codec.RoundTrip.Requests.{deserialize-serialize_request}
use st2110_obs_plugin.Codec.RoundTrip.Events.{deserialize-serialize_event}
use st2110_obs_plugin.Codec.Prefix.Messages.{deserialize_request-Closed, deserialize_event-Closed}

-- Two slots of 1,024 bytes behind 64, in a mapping of 4,096.
abbrev pub small_ring : MtlWorkerSharedMemoryRingDescriptor
small_ring = record {
  ring_id = word 64 7;
  media_kind = word 32 0;
  fd_index = word 32 0;
  layout_version = word 32 3;
  mapped_size_bytes = word 64 4096;
  slot_region_offset_bytes = word 64 64;
  slot_count = word 32 2;
  slot_stride_bytes = word 64 1024;
  slot_payload_offset_bytes = word 64 256;
  slot_payload_capacity_bytes = word 64 768;
}

abbrev one_port : MtlRuntimeConfig
one_port = record {
  primary_port = record {
    port_name = word 8 101 ∷ word 8 48 ∷ [];
    sip_addr = (word 8 10, word 8 0, word 8 0, word 8 2);
  };
  redundant_port = none;
}

abbrev group : MtlSessionPortConfig
group = record {
  ip_addr = (word 8 239, word 8 1, word 8 1, word 8 1);
  source_ip = some (word 8 10, word 8 0, word 8 0, word 8 9);
  udp_port = word 16 20000;
}

abbrev full_hd : MtlVideoStartConfig
full_hd = record {
  runtime = one_port;
  primary = group;
  redundant = none;
  expected_payload_type = word 8 96;
  width = word 32 1920;
  height = word 32 1080;
  fps = word 32 1;
  scan_mode = word 32 0;
  transport_format = word 32 0;
  output_format = word 32 0;
  frame_buffer_count = word 16 3;
}

abbrev start_video : MtlWorkerControlRequest
start_video = MtlWorkerControlRequest.start_sessions record {
  request_id = word 64 1;
  graph_id = word 64 2;
  video = some full_hd;
  audio = none;
  media_rings = small_ring ∷ [];
}

abbrev bytes_of : Expected (List U8) → List U8
bytes_of (ok bytes) = bytes
bytes_of (unexpected error) = []

abbrev start_video_bytes : List U8
start_video_bytes = bytes_of (serialize_mtl_worker_control_request start_video)

start_video_written : serialize_mtl_worker_control_request start_video ≡ ok start_video_bytes
unfolding serialize_mtl_worker_control_request write_request write_start_sessions write_optional
    write_video_start_config write_runtime_config write_runtime_port write_string
    write_redundant_port validate_start_sessions_media_rings validate_shared_memory_ring_descriptors
    validate_each validate_shared_memory_ring_descriptor require_ring_fields has_bad_field word
    require_ring_layout all_match is_taken media_kind_has_matching_session write_each
    write_shared_memory_ring_descriptor write_shared_memory_ring_descriptors add_overflows_u64
    mul_overflows_u64
start_video_written = refl

deserialize-serialize_request_example :
    deserialize_mtl_worker_control_request start_video_bytes ≡ ok start_video
deserialize-serialize_request_example =
    deserialize-serialize_request start_video start_video_bytes start_video_written refl

deserialize_request-Closed_example :
    deserialize_mtl_worker_control_request (start_video_bytes ++ word 8 0 ∷ [])
    ≡ unexpected invalid_value
deserialize_request-Closed_example =
    deserialize_request-Closed start_video_bytes (word 8 0) [] start_video
      deserialize-serialize_request_example

-- `Error::SystemFailure` with two characters.
abbrev failure : MtlWorkerControlEvent
failure =
    MtlWorkerControlEvent.failed (word 64 1) (word 64 2) (word 32 7) (word 8 110 ∷ word 8 111 ∷ [])

abbrev failure_bytes : List U8
failure_bytes = bytes_of (serialize_mtl_worker_control_event failure)

failure_written : serialize_mtl_worker_control_event failure ≡ ok failure_bytes
unfolding serialize_mtl_worker_control_event write_event write_string
failure_written = refl

deserialize-serialize_event_example :
    deserialize_mtl_worker_control_event failure_bytes ≡ ok failure
deserialize-serialize_event_example =
    deserialize-serialize_event failure failure_bytes failure_written

deserialize_event-Closed_example :
    deserialize_mtl_worker_control_event (failure_bytes ++ word 8 0 ∷ []) ≡ unexpected invalid_value
deserialize_event-Closed_example =
    deserialize_event-Closed failure_bytes (word 8 0) [] failure deserialize-serialize_event_example
