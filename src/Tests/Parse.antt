-- ===== src/Tests/Parse.antt =====
-- A small video datagram through the parsers.
use st2110_obs_plugin.Base.{
  ℕ, ◌≡◌, ◌↔◌, refl, true, false, List, [], ◌∷◌, ok, unexpected, short_packet, arith, no_error,
}
use st2110_obs_plugin.Rtp.{
  RtpHeaderView, parse_rtp_header, rtp_payload_span, skip_extension, trim_padding,
}
use st2110_obs_plugin.Foundation.{read_be16, read_be32}
use st2110_obs_plugin.Rtp.Bounds.{parse_rtp_header-IsHeaderOf}
use st2110_obs_plugin.Rtp.Bounds
use st2110_obs_plugin.Rtp.RoundTrip.{RtpPacket, encode, header, parse_rtp_header-encode}
use st2110_obs_plugin.Rtp.RoundTrip as Sent
use st2110_obs_plugin.PayloadHeader.{
  SrdHeader, no_srd, St2110PayloadHeaderView, parse_st2110_20_payload_header, read_srd,
  validate_st2110_20_payload_header,
}
use st2110_obs_plugin.PayloadHeader.Bounds.{parse_st2110_20_payload_header-IsHeaderOf}
use st2110_obs_plugin.PayloadHeader.Bounds as SrdBounds
use st2110_obs_plugin.PayloadHeader.RoundTrip as Srds
use st2110_obs_plugin.PayloadHeader.RoundTrip.{parse_st2110_20_payload_header-encode}
use st2110_obs_plugin.PayloadHeader.Validation.{IsWellFormed, validate_st2110_20_payload_header_iff}
use st2110_obs_plugin.PacketStats.{
  PacketParseStats, rtp_header, IsConsistent, record_packet_parse_result,
  record_packet_parse_result-IsConsistent,
}
use st2110_obs_plugin.VideoPacket.{
  VideoPacketView, parse_packet_view, parse_packet_view_staged, split_payload, split_view,
}
use st2110_obs_plugin.VideoPacket.Parsed.{IsSplit, parse_packet_view-IsSplit}
use st2110_obs_plugin.Stored.{view, store_video, video_view}
use st2110_obs_plugin.Stored.RoundTrip.{view-store_video}

-- Extended sequence number 1, one SRD header (four bytes of row 2 from sample 6 on, second field),
-- four bytes, and two bytes of padding.
abbrev st2110_payload : List ℕ
st2110_payload = 0 ∷ 1 ∷ 0 ∷ 4 ∷ 128 ∷ 2 ∷ 0 ∷ 6 ∷ 10 ∷ 20 ∷ 30 ∷ 40 ∷ 0 ∷ 0 ∷ []

abbrev pub datagram : List ℕ
datagram = 128 ∷ 224 ∷ 0 ∷ 7 ∷ 0 ∷ 0 ∷ 3 ∷ 232 ∷ 0 ∷ 0 ∷ 0 ∷ 1 ∷ st2110_payload

abbrev pub datagram_header : RtpHeaderView
datagram_header = record {
  version = 2;
  padding_flag = false;
  extension_flag = false;
  csrc_count = 0;
  marker = true;
  payload_type = 96;
  seq_number = 7;
  timestamp = 1000;
  ssrc = 1;
  payload_offset = 12;
  payload_len = 14;
}

abbrev srd : SrdHeader
srd = record { length_bytes = 4; row_number = 2; offset = 6; field_id = true; continuation = false }

abbrev payload_header : St2110PayloadHeaderView
payload_header = record {
  ext_seq = 1;
  srd = srd ∷ no_srd ∷ no_srd ∷ [];
  srd_count = 1;
  header_bytes = 8;
}

abbrev parsed_view : VideoPacketView
parsed_view = split_view datagram_header payload_header (10 ∷ 20 ∷ 30 ∷ 40 ∷ 0 ∷ 0 ∷ [])

parse_datagram : parse_rtp_header datagram ≡ ok datagram_header
unfolding parse_rtp_header skip_extension trim_padding read_be16 read_be32
parse_datagram = refl

parse_short : parse_rtp_header (128 ∷ 96 ∷ []) ≡ unexpected short_packet
unfolding parse_rtp_header
parse_short = refl

parse_srd : parse_st2110_20_payload_header st2110_payload ≡ ok payload_header
unfolding parse_st2110_20_payload_header read_srd read_be16
parse_srd = refl

parse_view : parse_packet_view datagram ≡ ok parsed_view
unfolding parse_packet_view parse_packet_view_staged split_payload rtp_payload_span parse_rtp_header
    skip_extension trim_padding parse_st2110_20_payload_header read_srd read_be16 read_be32
    validate_st2110_20_payload_header
parse_view = refl

parse_rtp_header-IsHeaderOf_example : Bounds.IsHeaderOf datagram datagram_header
parse_rtp_header-IsHeaderOf_example =
    parse_rtp_header-IsHeaderOf datagram (omega arith) parse_datagram

parse_st2110_20_payload_header-IsHeaderOf_example :
    SrdBounds.IsHeaderOf st2110_payload payload_header
parse_st2110_20_payload_header-IsHeaderOf_example =
    parse_st2110_20_payload_header-IsHeaderOf st2110_payload (omega arith) parse_srd

validate_st2110_20_payload_header_iff_example :
    (validate_st2110_20_payload_header payload_header ≡ no_error) ↔ IsWellFormed payload_header
validate_st2110_20_payload_header_iff_example = validate_st2110_20_payload_header_iff payload_header

-- A packet with one contributing source, one word of extension and three bytes of padding.
abbrev sent : RtpPacket
sent = record {
  marker = true;
  payload_type = 96;
  seq_number = 65535;
  timestamp = 90000;
  ssrc = 7;
  csrc_count = 1;
  csrc = 1 ∷ 2 ∷ 3 ∷ 4 ∷ [];
  extension_flag = true;
  profile = 48862;
  extension_words = 1;
  extension = 5 ∷ 6 ∷ 7 ∷ 8 ∷ [];
  payload = 9 ∷ 10 ∷ [];
  padding_flag = true;
  padding = 3;
}

sent-IsValid : Sent.IsValid sent
sent-IsValid = record {
  payload_type_width = omega arith;
  seq_width = omega arith;
  timestamp_width = omega arith;
  ssrc_width = omega arith;
  csrc_width = omega arith;
  csrc_bytes = refl;
  profile_width = omega arith;
  extension_width = omega arith;
  extension_bytes = refl;
  padding_positive = omega arith;
  padding_width = omega arith;
}

parse_rtp_header-encode_example :
    (parse_rtp_header (encode sent) ≡ ok (header sent))
    × (rtp_payload_span (encode sent) (header sent) ≡ 9 ∷ 10 ∷ [])
parse_rtp_header-encode_example = parse_rtp_header-encode sent sent-IsValid

abbrev first_srd : SrdHeader
first_srd = record {
  length_bytes = 2;
  row_number = 1;
  offset = 8;
  field_id = false;
  continuation = true;
}

abbrev two_srds : List SrdHeader
two_srds = first_srd ∷ srd ∷ []

parse_st2110_20_payload_header-encode_example :
    parse_st2110_20_payload_header (Srds.encode 9 two_srds (1 ∷ [])) ≡ ok (Srds.parsed 9 two_srds)
parse_st2110_20_payload_header-encode_example =
    parse_st2110_20_payload_header-encode 9 two_srds (1 ∷ []) (omega arith) (omega arith)
      (refl, refl) (omega arith) (omega arith)

parse_packet_view-IsSplit_example : IsSplit datagram parsed_view
parse_packet_view-IsSplit_example = parse_packet_view-IsSplit datagram parse_view

view-store_video_example :
    view (store_video (record parsed_view { receive_timestamp_ns = 5 }))
    ≡ video_view (record parsed_view { receive_timestamp_ns = 5 })
view-store_video_example = view-store_video datagram 5 parse_view

-- Two packets so far, one of them with a bad SRD header.
abbrev counted : PacketParseStats
counted = record {
  parser_stats = record {
    packets_total = 2;
    packets_ok = 1;
    packets_failed = 1;
    short_packet = 0;
    bad_rtp_version = 0;
    invalid_value = 1;
    unsupported = 0;
    buffer_too_small = 0;
    other_error = 0;
  };
  rtp_header_fail = 0;
  st2110_header_parse_fail = 0;
  bad_srd = 1;
  srd_payload_split_fail = 0;
  packet_policy_fail = 0;
}

counted-IsConsistent : IsConsistent counted
counted-IsConsistent = record { by_result = refl; by_error = refl; by_stage = refl }

record_packet_parse_result-IsConsistent_example :
    IsConsistent (record_packet_parse_result counted short_packet rtp_header)
record_packet_parse_result-IsConsistent_example =
    record_packet_parse_result-IsConsistent counted short_packet rtp_header counted-IsConsistent
