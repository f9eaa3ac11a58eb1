-- ===== src/Codec/Tags.antt =====
-- libs/st2110core/src/backends/mtl/mtl_worker_ipc_codec.cpp, `MessageTag`: the first byte of a message.
use st2110_obs_plugin.Base.{ℕ}
use st2110_obs_plugin.Word.{word}
use st2110_obs_plugin.Codec.Writer.{Writer, write_u8}

-- The numbers of `MessageTag`.
pub data MessageTag : Type 0 where
  config_handshake_request : MessageTag
  start_sessions_request : MessageTag
  stop_sessions_request : MessageTag
  shutdown_request : MessageTag
  stats_request : MessageTag
  health_check_request : MessageTag
  health_event : MessageTag
  error_event : MessageTag
  started_event : MessageTag
  stopped_event : MessageTag
  stats_event : MessageTag
  frame_ready_event : MessageTag
  audio_block_ready_event : MessageTag

abbrev pub tag_value : MessageTag → ℕ
tag_value MessageTag.config_handshake_request = 1
tag_value MessageTag.start_sessions_request = 2
tag_value MessageTag.stop_sessions_request = 3
tag_value MessageTag.shutdown_request = 4
tag_value MessageTag.stats_request = 5
tag_value MessageTag.health_check_request = 6
tag_value MessageTag.health_event = 101
tag_value MessageTag.error_event = 102
tag_value MessageTag.started_event = 103
tag_value MessageTag.stopped_event = 104
tag_value MessageTag.stats_event = 105
tag_value MessageTag.frame_ready_event = 106
tag_value MessageTag.audio_block_ready_event = 107

abbrev pub write_tag : MessageTag → Writer
write_tag tag = write_u8 (word 8 (tag_value tag))
