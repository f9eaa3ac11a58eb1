-- ===== src/VideoPacket.antt =====
-- libs/st2110core/include/st2110/receive/video/video_packet_view.hpp and
-- libs/st2110core/include/st2110/ingress/shared/packet_parse.hpp: from a UDP payload to a video
-- packet with its SRD segments. A subspan is `take` of `drop`; the array `segments[3]` is a list.
pub mod Parsed
use st2110_obs_plugin.Base.{
  ℕ, zero, suc, ◌+◌, Bool, not, ◌&&◌, List, [], ◌∷◌, length, take, drop, set, get_or, ltb, ◌==◌,
  if◌then◌else◌, Error, Expected, ok, unexpected, no_error, short_packet, invalid_value, is_ok,
}
use st2110_obs_plugin.Rtp.{RtpHeaderView, parse_rtp_header, rtp_payload_span}
use st2110_obs_plugin.PayloadHeader.{
  SrdHeader, no_srd, St2110PayloadHeaderView, srd_at, parse_st2110_20_payload_header,
  validate_st2110_20_payload_header, combine_extended_seq,
}
use st2110_obs_plugin.PacketStats.{
  PacketParseStage, rtp_header, st2110_payload_header_parse, st2110_payload_header_validate,
  srd_payload_split, packet_policy, PacketParseStats, record_packet_parse_result,
}

pub record SrdSegmentView : Type 0 where
  pub header : SrdHeader
  pub bytes : List ℕ

abbrev pub no_segment : SrdSegmentView
no_segment = record { header = no_srd; bytes = [] }

abbrev pub no_segments : List SrdSegmentView
no_segments = no_segment ∷ no_segment ∷ no_segment ∷ []

-- With the fields of its base `PacketView`.
pub record VideoPacketView : Type 0 where
  pub rtp : RtpHeaderView
  pub payload_data : List ℕ
  pub receive_timestamp_ns : ℕ
  pub segments : List SrdSegmentView
  pub segment_count : ℕ
  pub extended_seq : ℕ
  pub trailing_padding : List ℕ

abbrev pub subspan : List ℕ → ℕ → ℕ → List ℕ
subspan s offset count = take count (drop offset s)

abbrev pub segment_at : List SrdSegmentView → ℕ → SrdSegmentView
segment_at segments i = get_or segments i no_segment

-- The loops over the SRD headers, on the rounds that are left: each writes one field of
-- `segments[i]`, and `sum_lengths` adds up the lengths.
unfoldable pub fill_headers : ℕ → ℕ → List SrdHeader → List SrdSegmentView → List SrdSegmentView
fill_headers zero i srd segments = segments
fill_headers (suc rounds) i srd segments =
    fill_headers rounds (i + 1) srd
      (set segments i (record (segment_at segments i) { header = srd_at srd i }))

unfoldable pub sum_lengths : ℕ → ℕ → List SrdHeader → ℕ
sum_lengths zero i srd = 0
sum_lengths (suc rounds) i srd = (srd_at srd i).length_bytes + sum_lengths rounds (i + 1) srd

unfoldable pub fill_bytes :
    ℕ → ℕ → ℕ → List SrdHeader → List ℕ → List SrdSegmentView → List SrdSegmentView
fill_bytes zero i offset srd payload segments = segments
fill_bytes (suc rounds) i offset srd payload segments =
    let size = (srd_at srd i).length_bytes in
    fill_bytes rounds (i + 1) (offset + size) srd payload
      (set segments i (record (segment_at segments i) { bytes = subspan payload offset size }))

-- `std::expected<VideoPacketView, PacketViewParseFailure>`
pub data Staged : Type 0 where
  parsed : VideoPacketView → Staged
  failed : Error → PacketParseStage → Staged

abbrev pub is_empty : List ℕ → Bool
is_empty s = length s == 0

-- The view of a packet whose two headers are accepted.
unfoldable pub split_view : RtpHeaderView → St2110PayloadHeaderView → List ℕ → VideoPacketView
unfolding fill_headers sum_lengths fill_bytes
split_view rtp h payload_data = record {
  rtp = rtp;
  payload_data = payload_data;
  receive_timestamp_ns = 0;
  segments =
      fill_bytes h.srd_count 0 0 h.srd payload_data (fill_headers h.srd_count 0 h.srd no_segments);
  segment_count = h.srd_count;
  extended_seq = combine_extended_seq h.ext_seq rtp.seq_number;
  trailing_padding = drop (sum_lengths h.srd_count 0 h.srd) payload_data;
}

-- `parse_packet_view_staged` from the validated payload header on.
unfoldable pub split_payload : RtpHeaderView → St2110PayloadHeaderView → List ℕ → Staged
unfolding sum_lengths
split_payload rtp h payload_data =
    if h.srd_count == 1 && (srd_at h.srd 0).length_bytes == 0 && not (is_empty payload_data)
    then failed invalid_value srd_payload_split
    else if ltb (length payload_data) (sum_lengths h.srd_count 0 h.srd)
    then failed short_packet srd_payload_split
    else parsed (split_view rtp h payload_data)

unfoldable pub parse_payload : RtpHeaderView → List ℕ → Staged
parse_payload rtp rtp_payload = elim (parse_st2110_20_payload_header rtp_payload) [
  | unexpected e ↦ failed e st2110_payload_header_parse
  | ok h ↦
      if is_ok (validate_st2110_20_payload_header h)
      then split_payload rtp h (drop h.header_bytes rtp_payload)
      else failed (validate_st2110_20_payload_header h) st2110_payload_header_validate
]

unfoldable pub parse_packet_view_staged : List ℕ → Staged
unfolding parse_payload
parse_packet_view_staged udp_payload = elim (parse_rtp_header udp_payload) [
  | unexpected e ↦ failed e rtp_header
  | ok rtp ↦ parse_payload rtp (rtp_payload_span udp_payload rtp)
]

unfoldable pub parse_packet_view : List ℕ → Expected VideoPacketView
parse_packet_view udp_payload = elim (parse_packet_view_staged udp_payload) [
  | parsed view ↦ ok view
  | failed e stage ↦ unexpected e
]

abbrev pub udp_header_bytes : ℕ
udp_header_bytes = 8

unfoldable pub validate_packet_parse_policy : List ℕ → ℕ → Error
validate_packet_parse_policy udp_payload maxudp =
    if ltb maxudp (length udp_payload + udp_header_bytes) then invalid_value else no_error

-- The overload with the statistics: the result beside the new counters.
unfoldable pub parse_packet_view_counted :
    List ℕ → PacketParseStats → ℕ → Expected VideoPacketView × PacketParseStats
parse_packet_view_counted udp_payload stats maxudp =
    let policy = validate_packet_parse_policy udp_payload maxudp in
    let view : Expected VideoPacketView × PacketParseStats =
      elim (parse_packet_view_staged udp_payload) [
        | parsed v ↦ (ok v, record_packet_parse_result stats no_error rtp_header)
        | failed e stage ↦ (unexpected e, record_packet_parse_result stats e stage)
      ] in
    if is_ok policy
    then view
    else (unexpected policy, record_packet_parse_result stats policy packet_policy)
