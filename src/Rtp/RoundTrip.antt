-- ===== src/Rtp/RoundTrip.antt =====
-- The wire format of RFC 3550, written from the sender's side, and that `parse_rtp_header` reads it.
use mathlib.Core.List.{append_assoc}
use st2110_obs_plugin.Base.{
  ℕ, ◌+◌, ◌-◌, ◌*◌, ◌/◌, ◌%◌, ◌^◌, ◌<◌, ◌≡◌, ap, sym, subst, Bool, true, false, List, [], ◌∷◌, ◌++◌,
  length, replicate, arith, ok, length-append, get_or-append_right, drop-append, take-append,
  length-replicate, if◌then◌else◌,
}
use st2110_obs_plugin.Foundation.{read_be16, read_be32}
use st2110_obs_plugin.Rtp.{
  RtpHeaderView, skip_extension, trim_padding, parse_rtp_header, rtp_payload_span,
}

-- An RTP packet as its sender sees it. `csrc` holds four bytes for each contributing source,
-- `extension` a two-byte profile and four bytes for each word, `padding` the number of bytes
-- added at the end.
pub record RtpPacket : Type 0 where
  pub marker : Bool
  pub payload_type : ℕ
  pub seq_number : ℕ
  pub timestamp : ℕ
  pub ssrc : ℕ
  pub csrc_count : ℕ
  pub csrc : List ℕ
  pub extension_flag : Bool
  pub profile : ℕ
  pub extension_words : ℕ
  pub extension : List ℕ
  pub payload : List ℕ
  pub padding_flag : Bool
  pub padding : ℕ

pub record IsValid (p : RtpPacket) : Type 0 where
  pub payload_type_width : p.payload_type < 128
  pub seq_width : p.seq_number < 2 ^ 16
  pub timestamp_width : p.timestamp < 2 ^ 32
  pub ssrc_width : p.ssrc < 2 ^ 32
  pub csrc_width : p.csrc_count < 16
  pub csrc_bytes : length p.csrc ≡ 4 * p.csrc_count
  pub profile_width : p.profile < 2 ^ 16
  pub extension_width : p.extension_words < 2 ^ 16
  pub extension_bytes : length p.extension ≡ 4 * p.extension_words
  pub padding_positive : 0 < p.padding
  pub padding_width : p.padding < 256

abbrev be16 : ℕ → List ℕ → List ℕ
be16 n rest = n / 256 ∷ n % 256 ∷ rest

abbrev be32 : ℕ → List ℕ → List ℕ
be32 n rest = n / 2 ^ 24 ∷ n / 2 ^ 16 % 256 ∷ n / 2 ^ 8 % 256 ∷ n % 256 ∷ rest

abbrev bit : Bool → ℕ
bit true = 1
bit false = 0

extension_bytes : Bool → ℕ → ℕ → List ℕ → List ℕ
extension_bytes false profile words content = []
extension_bytes true profile words content = be16 profile (be16 words content)

padding_bytes : Bool → ℕ → List ℕ
padding_bytes false n = []
padding_bytes true n = replicate (n - 1) 0 ++ n ∷ []

abbrev tail : RtpPacket → List ℕ
tail p =
    p.csrc
    ++ (extension_bytes p.extension_flag p.profile p.extension_words p.extension
        ++ (p.payload ++ padding_bytes p.padding_flag p.padding))

unfoldable pub encode : RtpPacket → List ℕ
unfolding extension_bytes padding_bytes
encode p =
    (128 + 32 * bit p.padding_flag + 16 * bit p.extension_flag + p.csrc_count)
    ∷ (128 * bit p.marker + p.payload_type)
    ∷ be16 p.seq_number (be32 p.timestamp (be32 p.ssrc (tail p)))

-- The offset behind the extension.
payload_offset : RtpPacket → ℕ
payload_offset p =
    12 + 4 * p.csrc_count + (if p.extension_flag then 4 + 4 * p.extension_words else 0)

unfoldable pub header : RtpPacket → RtpHeaderView
unfolding payload_offset
header p = record {
  version = 2;
  padding_flag = p.padding_flag;
  extension_flag = p.extension_flag;
  csrc_count = p.csrc_count;
  marker = p.marker;
  payload_type = p.payload_type;
  seq_number = p.seq_number;
  timestamp = p.timestamp;
  ssrc = p.ssrc;
  payload_offset = payload_offset p;
  payload_len = length p.payload;
}

skip_extension_lem :
    (pre content rest : List ℕ) (flag : Bool) (profile words : ℕ)
    → words < 2 ^ 16
    → length content ≡ 4 * words
    → skip_extension (pre ++ (extension_bytes flag profile words content ++ rest)) (length pre) flag
      ≡ ok (length pre + (if flag then 4 + 4 * words else 0))
unfolding skip_extension extension_bytes read_be16
skip_extension_lem pre content rest false profile words h l = ap ok (omega arith)
skip_extension_lem pre content rest true profile words h l = ground (
  arith,
  length-append pre (be16 profile (be16 words content) ++ rest),
  length-append content rest,
  get_or-append_right pre (be16 profile (be16 words content) ++ rest) 2 0,
  get_or-append_right pre (be16 profile (be16 words content) ++ rest) 3 0,
)

trim_padding_lem :
    (pre payload : List ℕ) (flag : Bool) (n : ℕ)
    → 0 < n
    → n < 256
    → trim_padding (pre ++ (payload ++ padding_bytes flag n)) (length pre) flag
      ≡ ok (length payload)
unfolding trim_padding padding_bytes
trim_padding_lem pre payload false n h k =
    ap ok (ground (arith, length-append pre (payload ++ []), length-append payload []))
trim_padding_lem pre payload true n h k = ground (
  arith,
  length-append pre (payload ++ (replicate (n - 1) 0 ++ n ∷ [])),
  length-append payload (replicate (n - 1) 0 ++ n ∷ []),
  length-append (replicate (n - 1) 0) (n ∷ []),
  length-replicate {A = ℕ} (n - 1) 0,
  get_or-append_right pre (payload ++ (replicate (n - 1) 0 ++ n ∷ []))
      (length payload + (n - 1 + 0)) 0,
  get_or-append_right payload (replicate (n - 1) 0 ++ n ∷ []) (n - 1 + 0) 0,
  get_or-append_right (replicate (n - 1) 0) (n ∷ []) 0 0,
)

-- The datagram up to the extension.
front : RtpPacket → List ℕ
front p =
    (128 + 32 * bit p.padding_flag + 16 * bit p.extension_flag + p.csrc_count)
    ∷ (128 * bit p.marker + p.payload_type)
    ∷ be16 p.seq_number (be32 p.timestamp (be32 p.ssrc p.csrc))

skip_extension-encode :
    (p : RtpPacket)
    → IsValid p
    → skip_extension (encode p) (12 + 4 * p.csrc_count) p.extension_flag ≡ ok (payload_offset p)
unfolding encode payload_offset front
skip_extension-encode p v =
    let e : length (front p) ≡ 12 + 4 * p.csrc_count = omega arith in
    subst
      (λ o.
        skip_extension (encode p) o p.extension_flag
        ≡ ok (o + (if p.extension_flag then 4 + 4 * p.extension_words else 0)))
      e
      (skip_extension_lem (front p) p.extension
        (p.payload ++ padding_bytes p.padding_flag p.padding) p.extension_flag p.profile
        p.extension_words v.extension_width v.extension_bytes)

length-extension_bytes :
    (flag : Bool) (profile words : ℕ) (content : List ℕ)
    → length content ≡ 4 * words
    → length (extension_bytes flag profile words content) ≡ (if flag then 4 + 4 * words else 0)
unfolding extension_bytes
length-extension_bytes flag profile words content h = ground arith

-- The datagram up to the payload.
before : RtpPacket → List ℕ
before p = front p ++ extension_bytes p.extension_flag p.profile p.extension_words p.extension

length-before : (p : RtpPacket) → IsValid p → length (before p) ≡ payload_offset p
unfolding before front payload_offset
length-before p v = omega (
  arith,
  length-append (front p)
      (extension_bytes p.extension_flag p.profile p.extension_words p.extension),
  length-extension_bytes p.extension_flag p.profile p.extension_words p.extension v.extension_bytes,
)

encode-before :
    (p : RtpPacket) → encode p ≡ before p ++ (p.payload ++ padding_bytes p.padding_flag p.padding)
unfolding encode before front
encode-before p = sym (append_assoc (front p) _ _)

trim_padding-encode :
    (p : RtpPacket)
    → IsValid p
    → trim_padding (encode p) (payload_offset p) p.padding_flag ≡ ok (length p.payload)
trim_padding-encode p v =
    rw (← length-before p v, encode-before p)
      (trim_padding_lem (before p) p.payload p.padding_flag p.padding v.padding_positive
        v.padding_width)

parse_rtp_header_sent : (p : RtpPacket) → IsValid p → parse_rtp_header (encode p) ≡ ok (header p)
unfolding parse_rtp_header encode header read_be16 read_be32
parse_rtp_header_sent p v = ground (
  arith,
  skip_extension-encode p v,
  trim_padding-encode p v,
  length-append p.csrc (
      extension_bytes p.extension_flag p.profile p.extension_words p.extension
      ++ (p.payload ++ padding_bytes p.padding_flag p.padding)),
)

-- What a sender puts on the wire by RFC 3550 (fixed header, contributing sources, optional
-- extension, payload, optional padding) is parsed to the sender's fields, and the payload span is
-- the sender's payload, without the extension and the padding.
pub parse_rtp_header-encode :
    (p : RtpPacket)
    → IsValid p
    → (parse_rtp_header (encode p) ≡ ok (header p))
      × (rtp_payload_span (encode p) (header p) ≡ p.payload)
unfolding rtp_payload_span header
parse_rtp_header-encode p v = (
  parse_rtp_header_sent p v,
  rw (encode-before p, ← length-before p v, drop-append) (take-append p.payload _),
)
