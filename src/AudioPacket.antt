-- ===== src/AudioPacket.antt =====
-- libs/st2110core/include/st2110/receive/audio/audio_packet.hpp: from a UDP payload to an audio
-- packet. Of the audio signaling, the packet uses the fields of `AudioMediaDescription` only.
use st2110_obs_plugin.Base.{
  ℕ, ◌*◌, List, length, ◌==◌, Expected, ok, ◌>>=◌, ◌>>◌, require, invalid_value,
}
use st2110_obs_plugin.Rtp.{RtpHeaderView, parse_rtp_header, rtp_payload_span}

-- `AudioPcmBitDepth` (model/audio/audio_signaling.hpp)
pub data AudioPcmBitDepth : Type 0 where
  bits16 : AudioPcmBitDepth
  bits24 : AudioPcmBitDepth

pub record AudioMediaDescription : Type 0 where
  pub sampling_rate_hz : ℕ
  pub channel_count : ℕ
  pub pcm_bit_depth : AudioPcmBitDepth

-- With the fields of its base `PacketView`.
pub record AudioPacketView : Type 0 where
  pub rtp : RtpHeaderView
  pub payload_data : List ℕ
  pub receive_timestamp_ns : ℕ
  pub sampling_rate_hz : ℕ
  pub channel_count : ℕ
  pub samples_per_channel : ℕ
  pub pcm_bit_depth : AudioPcmBitDepth

unfoldable pub audio_pcm_wire_sample_bytes : AudioPcmBitDepth → ℕ
audio_pcm_wire_sample_bytes bits16 = 2
audio_pcm_wire_sample_bytes bits24 = 3

-- `std::size_t` products: of a 32-bit, a 16-bit and a two-bit number, below 2^64.
unfoldable pub audio_rtp_packet_payload_size_bytes : AudioPcmBitDepth → ℕ → ℕ → ℕ
unfolding audio_pcm_wire_sample_bytes
audio_rtp_packet_payload_size_bytes depth samples_per_packet channel_count =
    samples_per_packet * channel_count * audio_pcm_wire_sample_bytes depth

unfoldable pub make_audio_rtp_packet_view :
    RtpHeaderView → List ℕ → AudioMediaDescription → ℕ → AudioPacketView
make_audio_rtp_packet_view rtp payload media samples_per_packet = record {
  rtp = rtp;
  payload_data = payload;
  receive_timestamp_ns = 0;
  sampling_rate_hz = media.sampling_rate_hz;
  channel_count = media.channel_count;
  samples_per_channel = samples_per_packet;
  pcm_bit_depth = media.pcm_bit_depth;
}

unfoldable pub parse_audio_rtp_packet_view :
    List ℕ → AudioMediaDescription → ℕ → Expected AudioPacketView
unfolding audio_rtp_packet_payload_size_bytes make_audio_rtp_packet_view
parse_audio_rtp_packet_view udp_payload media samples_per_packet = do
  rtp ← parse_rtp_header udp_payload
  let payload = rtp_payload_span udp_payload rtp
  require
      (length payload
        == audio_rtp_packet_payload_size_bytes media.pcm_bit_depth samples_per_packet
            media.channel_count)
      invalid_value
  ok (make_audio_rtp_packet_view rtp payload media samples_per_packet)
