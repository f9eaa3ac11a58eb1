-- ===== src/Rtp.antt =====
-- libs/st2110core/include/st2110/ingress/shared/rtp.hpp: the RTP fixed header (RFC 3550).
-- `x >> k` is a division and `x & mask` a remainder; sizes are `std::size_t` values far below 2^64.
pub mod Bounds
pub mod RoundTrip
use st2110_obs_plugin.Base.{
  ℕ, ◌+◌, ◌-◌, ◌*◌, ◌/◌, ◌%◌, Bool, true, false, ◌||◌, List, length, take, drop, ltb, ◌==◌,
  if◌then◌else◌, Expected, ok, unexpected, ◌>>=◌, ◌>>◌, require, reject, short_packet,
  bad_rtp_version, invalid_value, u16_mod,
}
use st2110_obs_plugin.Foundation.{byte, read_be16, read_be32, sub_size}

pub record RtpHeaderView : Type 0 where
  pub version : ℕ
  pub padding_flag : Bool
  pub extension_flag : Bool
  pub csrc_count : ℕ
  pub marker : Bool
  pub payload_type : ℕ
  pub seq_number : ℕ
  pub timestamp : ℕ
  pub ssrc : ℕ
  pub payload_offset : ℕ
  pub payload_len : ℕ

-- `if (extension_flag) { … }`: the offset behind the header extension, if there is one.
unfoldable pub skip_extension : List ℕ → ℕ → Bool → Expected ℕ
skip_extension udp_payload offset false = ok offset
skip_extension udp_payload offset true = do
  reject (ltb (length udp_payload) (offset + 4)) short_packet
  let ext_bytes = read_be16 udp_payload (offset + 2) * 4
  reject (ltb (length udp_payload) (offset + 4 + ext_bytes)) short_packet
  ok (offset + (4 + ext_bytes))

-- `if (padding_flag) { … } else { … }`: the payload's length without the padding at the end.
unfoldable pub trim_padding : List ℕ → ℕ → Bool → Expected ℕ
trim_padding udp_payload offset false = ok (sub_size (length udp_payload) offset)
trim_padding udp_payload offset true = do
  let pad = byte udp_payload (length udp_payload - 1)
  reject (pad == 0 || ltb (sub_size (length udp_payload) offset) pad) invalid_value
  ok (sub_size (sub_size (length udp_payload) pad) offset)

unfoldable pub parse_rtp_header : List ℕ → Expected RtpHeaderView
parse_rtp_header udp_payload = do
  reject (ltb (length udp_payload) 12) short_packet
  let b0 = byte udp_payload 0
  let b1 = byte udp_payload 1
  require (b0 / 64 == 2) bad_rtp_version
  let padding_flag = b0 / 32 % 2 == 1
  let extension_flag = b0 / 16 % 2 == 1
  let csrc_count = b0 % 16
  reject (ltb (length udp_payload) (12 + 4 * csrc_count)) short_packet
  offset ← skip_extension udp_payload (12 + 4 * csrc_count) extension_flag
  payload_len ← trim_padding udp_payload offset padding_flag
  ok (record {
    version = b0 / 64;
    padding_flag = padding_flag;
    extension_flag = extension_flag;
    csrc_count = csrc_count;
    marker = b1 / 128 == 1;
    payload_type = b1 % 128;
    seq_number = read_be16 udp_payload 2;
    timestamp = read_be32 udp_payload 4;
    ssrc = read_be32 udp_payload 8;
    payload_offset = offset;
    payload_len = payload_len;
  })

unfoldable pub rtp_payload_span : List ℕ → RtpHeaderView → List ℕ
rtp_payload_span udp_payload header =
    take header.payload_len (drop header.payload_offset udp_payload)
