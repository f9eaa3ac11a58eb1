-- ===== src/Codec/StatsEvent.antt =====
-- libs/st2110core/include/st2110/backends/mtl/mtl_worker_protocol.hpp, `MtlWorkerStatsEvent`, and its
-- bytes in libs/st2110core/src/backends/mtl/mtl_worker_ipc_codec.cpp.
use st2110_obs_plugin.Base.{Bool}
use st2110_obs_plugin.Word.{U64}
use st2110_obs_plugin.Codec.Writer.{Writer, ◌then◌, write_u64, write_bool}
use st2110_obs_plugin.Codec.Reader.{Reader, return, ◌>>=◌, read_u64, read_bool_u8}
use st2110_obs_plugin.Codec.Stats.{
  MtlWorkerRxPortStats, write_rx_port_stats, read_rx_port_stats, MtlWorkerSt20RxUserStats,
  write_st20_rx_user_stats, read_st20_rx_user_stats, MtlWorkerDeviceRxPortStats,
  write_device_rx_port_stats, read_device_rx_port_stats,
}

pub record MtlWorkerStatsEvent : Type 0 where
  pub request_id : U64
  pub graph_id : U64
  pub video_frames_received : U64
  pub audio_blocks_received : U64
  pub video_frames_dropped : U64
  pub audio_blocks_dropped : U64
  pub video_frame_packets_total : U64
  pub video_frame_packets_received_primary : U64
  pub video_frame_packets_received_redundant : U64
  pub video_reconstructed_frames : U64
  pub video_corrupted_frames : U64
  pub video_complete_frames : U64
  pub video_session_stats_available : Bool
  pub video_session_primary : MtlWorkerRxPortStats
  pub video_session_redundant : MtlWorkerRxPortStats
  pub video_session_packets_received : U64
  pub video_session_packets_out_of_order : U64
  pub video_session_packets_wrong_ssrc_dropped : U64
  pub video_session_packets_wrong_payload_type_dropped : U64
  pub video_session_bytes_received : U64
  pub video_session_frames_dropped : U64
  pub video_session_frames_packets_missed : U64
  pub video_session_packets_wrong_length_dropped : U64
  pub video_session_slot_get_frame_failures : U64
  pub video_session_stats_query_failures : U64
  pub video_st20_rx : MtlWorkerSt20RxUserStats
  pub audio_block_bytes_received : U64
  pub audio_block_packets_total : U64
  pub audio_block_packets_received_primary : U64
  pub audio_block_packets_received_redundant : U64
  pub audio_session_stats_available : Bool
  pub audio_session_primary : MtlWorkerRxPortStats
  pub audio_session_redundant : MtlWorkerRxPortStats
  pub audio_session_packets_received : U64
  pub audio_session_packets_out_of_order : U64
  pub audio_session_packets_wrong_ssrc_dropped : U64
  pub audio_session_packets_wrong_payload_type_dropped : U64
  pub audio_session_packets_redundant : U64
  pub audio_session_packets_dropped : U64
  pub audio_session_packets_length_mismatch_dropped : U64
  pub audio_session_slot_get_frame_failures : U64
  pub audio_session_stats_query_failures : U64
  pub mtl_primary_port_stats_available : Bool
  pub mtl_primary_port : MtlWorkerDeviceRxPortStats
  pub mtl_redundant_port_stats_available : Bool
  pub mtl_redundant_port : MtlWorkerDeviceRxPortStats
  pub mtl_port_stats_query_failures : U64
  pub frame_ready_events : U64
  pub audio_block_ready_events : U64
  pub video_frames_delivered : U64
  pub audio_blocks_delivered : U64
  pub released_slots : U64
  pub malformed_ready_events : U64
  pub stale_ready_events : U64
  pub delivery_failures : U64
  pub release_failures : U64
  pub ignored_events : U64

unfoldable pub write_stats_event : MtlWorkerStatsEvent → Writer
write_stats_event event =
    write_u64 event.request_id
    then write_u64 event.graph_id
    then write_u64 event.video_frames_received
    then write_u64 event.audio_blocks_received
    then write_u64 event.video_frames_dropped
    then write_u64 event.audio_blocks_dropped
    then write_u64 event.video_frame_packets_total
    then write_u64 event.video_frame_packets_received_primary
    then write_u64 event.video_frame_packets_received_redundant
    then write_u64 event.video_reconstructed_frames
    then write_u64 event.video_corrupted_frames
    then write_u64 event.video_complete_frames
    then write_bool event.video_session_stats_available
    then write_rx_port_stats event.video_session_primary
    then write_rx_port_stats event.video_session_redundant
    then write_u64 event.video_session_packets_received
    then write_u64 event.video_session_packets_out_of_order
    then write_u64 event.video_session_packets_wrong_ssrc_dropped
    then write_u64 event.video_session_packets_wrong_payload_type_dropped
    then write_u64 event.video_session_bytes_received
    then write_u64 event.video_session_frames_dropped
    then write_u64 event.video_session_frames_packets_missed
    then write_u64 event.video_session_packets_wrong_length_dropped
    then write_u64 event.video_session_slot_get_frame_failures
    then write_u64 event.video_session_stats_query_failures
    then write_st20_rx_user_stats event.video_st20_rx
    then write_u64 event.audio_block_bytes_received
    then write_u64 event.audio_block_packets_total
    then write_u64 event.audio_block_packets_received_primary
    then write_u64 event.audio_block_packets_received_redundant
    then write_bool event.audio_session_stats_available
    then write_rx_port_stats event.audio_session_primary
    then write_rx_port_stats event.audio_session_redundant
    then write_u64 event.audio_session_packets_received
    then write_u64 event.audio_session_packets_out_of_order
    then write_u64 event.audio_session_packets_wrong_ssrc_dropped
    then write_u64 event.audio_session_packets_wrong_payload_type_dropped
    then write_u64 event.audio_session_packets_redundant
    then write_u64 event.audio_session_packets_dropped
    then write_u64 event.audio_session_packets_length_mismatch_dropped
    then write_u64 event.audio_session_slot_get_frame_failures
    then write_u64 event.audio_session_stats_query_failures
    then write_bool event.mtl_primary_port_stats_available
    then write_device_rx_port_stats event.mtl_primary_port
    then write_bool event.mtl_redundant_port_stats_available
    then write_device_rx_port_stats event.mtl_redundant_port
    then write_u64 event.mtl_port_stats_query_failures
    then write_u64 event.frame_ready_events
    then write_u64 event.audio_block_ready_events
    then write_u64 event.video_frames_delivered
    then write_u64 event.audio_blocks_delivered
    then write_u64 event.released_slots
    then write_u64 event.malformed_ready_events
    then write_u64 event.stale_ready_events
    then write_u64 event.delivery_failures
    then write_u64 event.release_failures
    then write_u64 event.ignored_events

unfoldable pub read_stats_event : Reader MtlWorkerStatsEvent
read_stats_event = do
  request_id ← read_u64
  graph_id ← read_u64
  video_frames_received ← read_u64
  audio_blocks_received ← read_u64
  video_frames_dropped ← read_u64
  audio_blocks_dropped ← read_u64
  video_frame_packets_total ← read_u64
  video_frame_packets_received_primary ← read_u64
  video_frame_packets_received_redundant ← read_u64
  video_reconstructed_frames ← read_u64
  video_corrupted_frames ← read_u64
  video_complete_frames ← read_u64
  video_session_stats_available ← read_bool_u8
  video_session_primary ← read_rx_port_stats
  video_session_redundant ← read_rx_port_stats
  video_session_packets_received ← read_u64
  video_session_packets_out_of_order ← read_u64
  video_session_packets_wrong_ssrc_dropped ← read_u64
  video_session_packets_wrong_payload_type_dropped ← read_u64
  video_session_bytes_received ← read_u64
  video_session_frames_dropped ← read_u64
  video_session_frames_packets_missed ← read_u64
  video_session_packets_wrong_length_dropped ← read_u64
  video_session_slot_get_frame_failures ← read_u64
  video_session_stats_query_failures ← read_u64
  video_st20_rx ← read_st20_rx_user_stats
  audio_block_bytes_received ← read_u64
  audio_block_packets_total ← read_u64
  audio_block_packets_received_primary ← read_u64
  audio_block_packets_received_redundant ← read_u64
  audio_session_stats_available ← read_bool_u8
  audio_session_primary ← read_rx_port_stats
  audio_session_redundant ← read_rx_port_stats
  audio_session_packets_received ← read_u64
  audio_session_packets_out_of_order ← read_u64
  audio_session_packets_wrong_ssrc_dropped ← read_u64
  audio_session_packets_wrong_payload_type_dropped ← read_u64
  audio_session_packets_redundant ← read_u64
  audio_session_packets_dropped ← read_u64
  audio_session_packets_length_mismatch_dropped ← read_u64
  audio_session_slot_get_frame_failures ← read_u64
  audio_session_stats_query_failures ← read_u64
  mtl_primary_port_stats_available ← read_bool_u8
  mtl_primary_port ← read_device_rx_port_stats
  mtl_redundant_port_stats_available ← read_bool_u8
  mtl_redundant_port ← read_device_rx_port_stats
  mtl_port_stats_query_failures ← read_u64
  frame_ready_events ← read_u64
  audio_block_ready_events ← read_u64
  video_frames_delivered ← read_u64
  audio_blocks_delivered ← read_u64
  released_slots ← read_u64
  malformed_ready_events ← read_u64
  stale_ready_events ← read_u64
  delivery_failures ← read_u64
  release_failures ← read_u64
  ignored_events ← read_u64
  return record {
    request_id = request_id;
    graph_id = graph_id;
    video_frames_received = video_frames_received;
    audio_blocks_received = audio_blocks_received;
    video_frames_dropped = video_frames_dropped;
    audio_blocks_dropped = audio_blocks_dropped;
    video_frame_packets_total = video_frame_packets_total;
    video_frame_packets_received_primary = video_frame_packets_received_primary;
    video_frame_packets_received_redundant = video_frame_packets_received_redundant;
    video_reconstructed_frames = video_reconstructed_frames;
    video_corrupted_frames = video_corrupted_frames;
    video_complete_frames = video_complete_frames;
    video_session_stats_available = video_session_stats_available;
    video_session_primary = video_session_primary;
    video_session_redundant = video_session_redundant;
    video_session_packets_received = video_session_packets_received;
    video_session_packets_out_of_order = video_session_packets_out_of_order;
    video_session_packets_wrong_ssrc_dropped = video_session_packets_wrong_ssrc_dropped;
    video_session_packets_wrong_payload_type_dropped =
        video_session_packets_wrong_payload_type_dropped;
    video_session_bytes_received = video_session_bytes_received;
    video_session_frames_dropped = video_session_frames_dropped;
    video_session_frames_packets_missed = video_session_frames_packets_missed;
    video_session_packets_wrong_length_dropped = video_session_packets_wrong_length_dropped;
    video_session_slot_get_frame_failures = video_session_slot_get_frame_failures;
    video_session_stats_query_failures = video_session_stats_query_failures;
    video_st20_rx = video_st20_rx;
    audio_block_bytes_received = audio_block_bytes_received;
    audio_block_packets_total = audio_block_packets_total;
    audio_block_packets_received_primary = audio_block_packets_received_primary;
    audio_block_packets_received_redundant = audio_block_packets_received_redundant;
    audio_session_stats_available = audio_session_stats_available;
    audio_session_primary = audio_session_primary;
    audio_session_redundant = audio_session_redundant;
    audio_session_packets_received = audio_session_packets_received;
    audio_session_packets_out_of_order = audio_session_packets_out_of_order;
    audio_session_packets_wrong_ssrc_dropped = audio_session_packets_wrong_ssrc_dropped;
    audio_session_packets_wrong_payload_type_dropped =
        audio_session_packets_wrong_payload_type_dropped;
    audio_session_packets_redundant = audio_session_packets_redundant;
    audio_session_packets_dropped = audio_session_packets_dropped;
    audio_session_packets_length_mismatch_dropped = audio_session_packets_length_mismatch_dropped;
    audio_session_slot_get_frame_failures = audio_session_slot_get_frame_failures;
    audio_session_stats_query_failures = audio_session_stats_query_failures;
    mtl_primary_port_stats_available = mtl_primary_port_stats_available;
    mtl_primary_port = mtl_primary_port;
    mtl_redundant_port_stats_available = mtl_redundant_port_stats_available;
    mtl_redundant_port = mtl_redundant_port;
    mtl_port_stats_query_failures = mtl_port_stats_query_failures;
    frame_ready_events = frame_ready_events;
    audio_block_ready_events = audio_block_ready_events;
    video_frames_delivered = video_frames_delivered;
    audio_blocks_delivered = audio_blocks_delivered;
    released_slots = released_slots;
    malformed_ready_events = malformed_ready_events;
    stale_ready_events = stale_ready_events;
    delivery_failures = delivery_failures;
    release_failures = release_failures;
    ignored_events = ignored_events;
  }
