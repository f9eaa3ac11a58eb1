-- ===== src/Stored.antt =====
-- libs/st2110core/include/st2110/receive/shared/reorder_buffer.hpp (`StoredPacket`) and the two
-- classes of stored packets of receive/shared/fixed_reorder_buffer.hpp: an owned copy of a packet
-- view, and the view of that copy. The derived classes' own fields are `StoredDetail`, the virtual
-- `view` is a function by its cases.
pub mod RoundTrip
use st2110_obs_plugin.Base.{ℕ, zero, suc, ◌+◌, List, [], ◌∷◌, take, drop, set, get_or}
use st2110_obs_plugin.Rtp.{RtpHeaderView}
use st2110_obs_plugin.PayloadHeader.{SrdHeader, no_srd, srd_at}
use st2110_obs_plugin.VideoPacket.{
  SrdSegmentView, VideoPacketView, no_segments, segment_at, subspan, fill_headers, fill_bytes,
  sum_lengths,
}
use st2110_obs_plugin.AudioPacket.{AudioPacketView, AudioPcmBitDepth}

pub data StoredDetail : Type 0 where
  -- segment_headers, segment_count
  video : List SrdHeader → ℕ → StoredDetail
  -- sampling_rate_hz, channel_count, samples_per_channel, bit_depth
  audio : ℕ → ℕ → ℕ → AudioPcmBitDepth → StoredDetail

pub record StoredPacket : Type 0 where
  pub rtp : RtpHeaderView
  pub payload_data : List ℕ
  pub extended_seq : ℕ
  pub receive_timestamp_ns : ℕ
  pub detail : StoredDetail

abbrev pub reorder_sequence : StoredPacket → ℕ
reorder_sequence p = p.extended_seq

-- The loop of the constructor of `VideoStoredPacket`.
unfoldable pub copy_headers : ℕ → ℕ → List SrdSegmentView → List SrdHeader → List SrdHeader
copy_headers zero i segments headers = headers
copy_headers (suc rounds) i segments headers =
    copy_headers rounds (i + 1) segments (set headers i (segment_at segments i).header)

unfoldable pub store_video : VideoPacketView → StoredPacket
unfolding copy_headers
store_video v = record {
  rtp = v.rtp;
  payload_data = v.payload_data;
  extended_seq = v.extended_seq;
  receive_timestamp_ns = v.receive_timestamp_ns;
  detail =
      video (copy_headers v.segment_count 0 v.segments (no_srd ∷ no_srd ∷ no_srd ∷ []))
        v.segment_count;
}

-- `AudioPacketView::reorder_sequence` is the RTP sequence number.
unfoldable pub store_audio : AudioPacketView → StoredPacket
store_audio a = record {
  rtp = a.rtp;
  payload_data = a.payload_data;
  extended_seq = a.rtp.seq_number;
  receive_timestamp_ns = a.receive_timestamp_ns;
  detail = audio a.sampling_rate_hz a.channel_count a.samples_per_channel a.pcm_bit_depth;
}

pub data PacketView : Type 0 where
  video_view : VideoPacketView → PacketView
  audio_view : AudioPacketView → PacketView

-- The loop of `VideoStoredPacket::view` writes header and bytes of a segment in one round.
unfoldable pub view_segments :
    ℕ → ℕ → ℕ → List SrdHeader → List ℕ → List SrdSegmentView → List SrdSegmentView
view_segments zero i offset headers payload segments = segments
view_segments (suc rounds) i offset headers payload segments =
    let size = (srd_at headers i).length_bytes in
    view_segments rounds (i + 1) (offset + size) headers payload
      (set segments i (record { header = srd_at headers i; bytes = subspan payload offset size }))

unfoldable pub view_of : StoredPacket → StoredDetail → PacketView
unfolding view_segments sum_lengths
view_of p (video headers count) = video_view (record {
  rtp = p.rtp;
  payload_data = p.payload_data;
  receive_timestamp_ns = p.receive_timestamp_ns;
  segments = view_segments count 0 0 headers p.payload_data no_segments;
  segment_count = count;
  extended_seq = p.extended_seq;
  trailing_padding = drop (sum_lengths count 0 headers) p.payload_data;
})
view_of p (audio rate channels samples depth) = audio_view (record {
  rtp = p.rtp;
  payload_data = p.payload_data;
  receive_timestamp_ns = p.receive_timestamp_ns;
  sampling_rate_hz = rate;
  channel_count = channels;
  samples_per_channel = samples;
  pcm_bit_depth = depth;
})

unfoldable pub view : StoredPacket → PacketView
unfolding view_of
view p = view_of p p.detail
