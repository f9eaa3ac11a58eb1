-- ===== src/Codec/ReadSessions.antt =====
-- libs/st2110core/src/backends/mtl/mtl_worker_ipc_codec.cpp: the readers of the session
-- configurations that Codec.Sessions writes.
use st2110_obs_plugin.Base.{Option}
use st2110_obs_plugin.Codec.Writer.{Ipv4}
use st2110_obs_plugin.Codec.Sessions.{
  MtlRuntimePortConfig, MtlRuntimeConfig, MtlSessionPortConfig, MtlVideoStartConfig,
  AudioMediaWords, MtlAudioStartConfig,
}
use st2110_obs_plugin.Codec.Reader.{
  Reader, return, ◌>>=◌, read_u8, read_u16, read_u32, read_u64, read_string, read_ipv4,
  read_optional,
}

unfoldable pub read_runtime_port : Reader MtlRuntimePortConfig
read_runtime_port = do
  name ← read_string
  ip ← read_ipv4
  return record { port_name = name; sip_addr = ip }

unfoldable pub read_runtime_config : Reader MtlRuntimeConfig
read_runtime_config = do
  primary ← read_runtime_port
  redundant ← read_optional read_runtime_port
  return record { primary_port = primary; redundant_port = redundant }

unfoldable pub read_optional_ipv4 : Reader (Option Ipv4)
read_optional_ipv4 = read_optional read_ipv4

-- `read_video_session_port` and `read_audio_session_port`, line for line the same.
unfoldable pub read_session_port : Reader MtlSessionPortConfig
read_session_port = do
  ip ← read_ipv4
  source_ip ← read_optional_ipv4
  udp_port ← read_u16
  return record { ip_addr = ip; source_ip = source_ip; udp_port = udp_port }

unfoldable pub read_video_start_config : Reader MtlVideoStartConfig
read_video_start_config = do
  runtime ← read_runtime_config
  primary ← read_session_port
  redundant ← read_optional read_session_port
  payload_type ← read_u8
  width ← read_u32
  height ← read_u32
  fps ← read_u32
  scan_mode ← read_u32
  transport_format ← read_u32
  output_format ← read_u32
  frame_buffer_count ← read_u16
  return record {
    runtime = runtime;
    primary = primary;
    redundant = redundant;
    expected_payload_type = payload_type;
    width = width;
    height = height;
    fps = fps;
    scan_mode = scan_mode;
    transport_format = transport_format;
    output_format = output_format;
    frame_buffer_count = frame_buffer_count;
  }

unfoldable pub read_audio_media_description : Reader AudioMediaWords
read_audio_media_description = do
  pcm_encoding ← read_u32
  pcm_bit_depth ← read_u32
  sampling_rate_hz ← read_u32
  packet_time_us ← read_u32
  channel_count ← read_u16
  return record {
    pcm_encoding = pcm_encoding;
    pcm_bit_depth = pcm_bit_depth;
    sampling_rate_hz = sampling_rate_hz;
    packet_time_us = packet_time_us;
    channel_count = channel_count;
  }

unfoldable pub read_audio_start_config : Reader MtlAudioStartConfig
read_audio_start_config = do
  runtime ← read_runtime_config
  primary ← read_session_port
  redundant ← read_optional read_session_port
  payload_type ← read_u8
  media ← read_audio_media_description
  samples_per_packet ← read_u32
  pcm_format ← read_u32
  sampling ← read_u32
  packet_time ← read_u32
  frame_buffer_count ← read_u16
  frame_buffer_duration_ns ← read_u64
  return record {
    runtime = runtime;
    primary = primary;
    redundant = redundant;
    expected_payload_type = payload_type;
    media = media;
    samples_per_packet = samples_per_packet;
    pcm_format = pcm_format;
    sampling = sampling;
    packet_time = packet_time;
    frame_buffer_count = frame_buffer_count;
    frame_buffer_duration_ns = frame_buffer_duration_ns;
  }
