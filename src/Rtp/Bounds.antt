-- ===== src/Rtp/Bounds.antt =====
-- What a parsed RTP header promises: where the payload lies, and the width of each field.
use st2110_obs_plugin.Base.{
  ℕ, ◌+◌, ◌*◌, ◌/◌, ◌%◌, ◌^◌, ◌≤◌, ◌<◌, ◌≡◌, Bool, true, false, List, length, arith, ◌==◌, ok,
}
use st2110_obs_plugin.Foundation.{IsBytes, byte, byte-lt, read_be16-lt, read_be32-lt}
use st2110_obs_plugin.Rtp.{RtpHeaderView, skip_extension, trim_padding, parse_rtp_header}

skip_extension_bounds :
    (s : List ℕ) (offset : ℕ) (flag : Bool) (o : ℕ)
    → offset ≤ length s
    → skip_extension s offset flag ≡ ok o
    → (offset ≤ o) × (o ≤ length s)
unfolding skip_extension
skip_extension_bounds s offset false r h e = ground arith
skip_extension_bounds s offset true r h e = ground arith

trim_padding_bounds :
    (s : List ℕ) (offset : ℕ) (flag : Bool) (n : ℕ)
    → offset ≤ length s
    → trim_padding s offset flag ≡ ok n
    → offset + n ≤ length s
unfolding trim_padding
trim_padding_bounds s offset false r h e = ground arith
trim_padding_bounds s offset true r h e = ground arith

-- The widths of the fields, and the payload inside the datagram behind the fixed header and the
-- contributing sources.
pub record IsHeaderOf (s : List ℕ) (h : RtpHeaderView) : Type 0 where
  pub version_two : h.version ≡ 2
  pub csrc_width : h.csrc_count < 16
  pub payload_type_width : h.payload_type < 128
  pub seq_width : h.seq_number < 2 ^ 16
  pub timestamp_width : h.timestamp < 2 ^ 32
  pub ssrc_width : h.ssrc < 2 ^ 32
  pub behind_header : 12 + 4 * h.csrc_count ≤ h.payload_offset
  pub inside : h.payload_offset + h.payload_len ≤ length s

-- Whatever datagram the parser accepts, each field fits its width, the version is 2, and the
-- payload lies inside the datagram, behind the fixed header and the contributing sources.
pub parse_rtp_header-IsHeaderOf :
    (s : List ℕ) {h : RtpHeaderView} → IsBytes s → parse_rtp_header s ≡ ok h → IsHeaderOf s h
unfolding parse_rtp_header
parse_rtp_header-IsHeaderOf s {h} b e = ground (
  arith,
  byte-lt s 0 b,
  byte-lt s 1 b,
  read_be16-lt s 2 b,
  read_be32-lt s 4 b,
  read_be32-lt s 8 b,
  skip_extension_bounds s (12 + 4 * (byte s 0 % 16)) (byte s 0 / 16 % 2 == 1) h.payload_offset,
  trim_padding_bounds s h.payload_offset (byte s 0 / 32 % 2 == 1) h.payload_len,
)
