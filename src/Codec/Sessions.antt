-- ===== src/Codec/Sessions.antt =====
-- libs/st2110core/src/backends/mtl/mtl_worker_ipc_codec.cpp, `write_runtime_port` to
-- `read_audio_start_config`, and the structs of mtl_runtime_config.hpp, mtl_video_start_config.hpp,
-- mtl_audio_start_config.hpp and audio_signaling.hpp that they carry. An enum is its underlying value
-- as the wire has it: the readers cast the number without a test.
use st2110_obs_plugin.Base.{true, false, Option, none, some, List, Expected, ok, ◌>>=◌}
use st2110_obs_plugin.Word.{U8, U16, U32, U64}
use st2110_obs_plugin.Codec.Writer.{
  Writer, ◌then◌, write_u8, write_u16, write_u32, write_u64, write_string, write_bool, write_ipv4,
  write_optional, Ipv4,
}

pub record MtlRuntimePortConfig : Type 0 where
  pub port_name : List U8
  pub sip_addr : Ipv4

pub record MtlRuntimeConfig : Type 0 where
  pub primary_port : MtlRuntimePortConfig
  pub redundant_port : Option MtlRuntimePortConfig

-- `MtlVideoSessionPortConfig` and `MtlAudioSessionPortConfig`, which have the same fields.
pub record MtlSessionPortConfig : Type 0 where
  pub ip_addr : Ipv4
  pub source_ip : Option Ipv4
  pub udp_port : U16

pub record MtlVideoStartConfig : Type 0 where
  pub runtime : MtlRuntimeConfig
  pub primary : MtlSessionPortConfig
  pub redundant : Option MtlSessionPortConfig
  pub expected_payload_type : U8
  pub width : U32
  pub height : U32
  pub fps : U32
  pub scan_mode : U32
  pub transport_format : U32
  pub output_format : U32
  pub frame_buffer_count : U16

-- `AudioMediaDescription`, its fields as the words on the wire.
pub record AudioMediaWords : Type 0 where
  pub pcm_encoding : U32
  pub pcm_bit_depth : U32
  pub sampling_rate_hz : U32
  pub packet_time_us : U32
  pub channel_count : U16

pub record MtlAudioStartConfig : Type 0 where
  pub runtime : MtlRuntimeConfig
  pub primary : MtlSessionPortConfig
  pub redundant : Option MtlSessionPortConfig
  pub expected_payload_type : U8
  pub media : AudioMediaWords
  pub samples_per_packet : U32
  pub pcm_format : U32
  pub sampling : U32
  pub packet_time : U32
  pub frame_buffer_count : U16
  pub frame_buffer_duration_ns : U64

unfoldable pub write_runtime_port : MtlRuntimePortConfig → Expected Writer
write_runtime_port port = do
  name ← write_string port.port_name
  ok (name then write_ipv4 port.sip_addr)

unfoldable pub write_runtime_config : MtlRuntimeConfig → Expected Writer
write_runtime_config runtime = do
  primary ← write_runtime_port runtime.primary_port
  redundant ← write_optional write_runtime_port runtime.redundant_port
  ok (primary then redundant)

unfoldable pub write_optional_ipv4 : Option Ipv4 → Writer
write_optional_ipv4 none = write_bool false
write_optional_ipv4 (some ip) = write_bool true then write_ipv4 ip

-- `write_video_session_port` and `write_audio_session_port`, line for line the same.
unfoldable pub write_session_port : MtlSessionPortConfig → Writer
write_session_port port =
    write_ipv4 port.ip_addr then write_optional_ipv4 port.source_ip then write_u16 port.udp_port

unfoldable pub write_redundant_port : Option MtlSessionPortConfig → Expected Writer
write_redundant_port = write_optional (λ port. ok (write_session_port port))

unfoldable pub write_video_start_config : MtlVideoStartConfig → Expected Writer
write_video_start_config cfg = do
  runtime ← write_runtime_config cfg.runtime
  redundant ← write_redundant_port cfg.redundant
  ok (
      runtime
      then write_session_port cfg.primary
      then redundant
      then write_u8 cfg.expected_payload_type
      then write_u32 cfg.width
      then write_u32 cfg.height
      then write_u32 cfg.fps
      then write_u32 cfg.scan_mode
      then write_u32 cfg.transport_format
      then write_u32 cfg.output_format
      then write_u16 cfg.frame_buffer_count)

unfoldable pub write_audio_media_description : AudioMediaWords → Writer
write_audio_media_description media =
    write_u32 media.pcm_encoding
    then write_u32 media.pcm_bit_depth
    then write_u32 media.sampling_rate_hz
    then write_u32 media.packet_time_us
    then write_u16 media.channel_count

unfoldable pub write_audio_start_config : MtlAudioStartConfig → Expected Writer
write_audio_start_config cfg = do
  runtime ← write_runtime_config cfg.runtime
  redundant ← write_redundant_port cfg.redundant
  ok (
      runtime
      then write_session_port cfg.primary
      then redundant
      then write_u8 cfg.expected_payload_type
      then write_audio_media_description cfg.media
      then write_u32 cfg.samples_per_packet
      then write_u32 cfg.pcm_format
      then write_u32 cfg.sampling
      then write_u32 cfg.packet_time
      then write_u16 cfg.frame_buffer_count
      then write_u64 cfg.frame_buffer_duration_ns)
