-- ===== src/VideoPacket/Parsed.antt =====
-- What `parse_packet_view` has checked when it accepts a datagram, and how the segments of the
-- packet then cover its payload.
use mathlib.Core.List.{append_assoc}
use mathlib.Core.Path.{subst₂}
use st2110_obs_plugin.Base.{
  ℕ, zero, suc, ◌+◌, ◌*◌, map, ◌≡◌, ◌≤◌, refl, ap, sym, subst, ◌∙◌, List, [], ◌∷◌, ◌++◌, All,
  length, take, drop, arith, Expected, ok, unexpected, take-append-drop, length-take, length-drop,
  take-nil, drop-nil,
}
use st2110_obs_plugin.Rtp.{RtpHeaderView, parse_rtp_header, rtp_payload_span}
use st2110_obs_plugin.PayloadHeader.{
  SrdHeader, srd_at, St2110PayloadHeaderView, parse_st2110_20_payload_header, combine_extended_seq,
}
use st2110_obs_plugin.PayloadHeader.Validation.{IsWellFormed, validate_st2110_20_payload_header_iff}
use st2110_obs_plugin.VideoPacket.{
  SrdSegmentView, no_segments, fill_headers, fill_bytes, VideoPacketView, parsed, subspan,
  sum_lengths, split_view, parse_payload, split_payload, parse_packet_view_staged,
  parse_packet_view,
}

pub record Checks (udp_payload : List ℕ) (v : VideoPacketView) : Type 0 where
  pub rtp : RtpHeaderView
  pub header : St2110PayloadHeaderView
  pub rtp_parsed : parse_rtp_header udp_payload ≡ ok rtp
  pub header_parsed : parse_st2110_20_payload_header (rtp_payload_span udp_payload rtp) ≡ ok header
  pub header_valid : IsWellFormed header
  pub fits :
      sum_lengths header.srd_count 0 header.srd
      ≤ length (drop header.header_bytes (rtp_payload_span udp_payload rtp))
  pub split :
      v ≡ split_view rtp header (drop header.header_bytes (rtp_payload_span udp_payload rtp))

payload-Checks :
    (udp : List ℕ) (rtp : RtpHeaderView) (v : VideoPacketView)
    (r : Expected St2110PayloadHeaderView)
    → parse_rtp_header udp ≡ ok rtp
    → parse_st2110_20_payload_header (rtp_payload_span udp rtp) ≡ r
    → parse_payload rtp (rtp_payload_span udp rtp) ≡ parsed v
    → Checks udp v
unfolding parse_payload split_payload
payload-Checks udp rtp v (unexpected e) p q h = absurd (ground arith)
payload-Checks udp rtp v (ok header) p q h = record {
  rtp = rtp;
  header = header;
  rtp_parsed = p;
  header_parsed = q;
  header_valid = (validate_st2110_20_payload_header_iff header).0 (ground arith);
  fits = ground arith;
  split = ground arith;
}

staged-Checks :
    (udp : List ℕ) (v : VideoPacketView) (r : Expected RtpHeaderView)
    → parse_rtp_header udp ≡ r
    → parse_packet_view_staged udp ≡ parsed v
    → Checks udp v
unfolding parse_packet_view_staged
staged-Checks udp v (unexpected e) p h = absurd (ground arith)
staged-Checks udp v (ok rtp) p h = payload-Checks udp rtp v _ p refl (ground arith)

pub parse_packet_view-Checks :
    (udp_payload : List ℕ) {v : VideoPacketView}
    → parse_packet_view udp_payload ≡ ok v
    → Checks udp_payload v
unfolding parse_packet_view
parse_packet_view-Checks udp {v} h = staged-Checks udp v _ refl (ground arith)

-- The bytes of the segments, one behind the other.
abbrev pub joined : List SrdSegmentView → List ℕ
joined [] = []
joined (s ∷ ss) = s.bytes ++ joined ss

abbrev pub first : ℕ → List SrdHeader → List SrdHeader
first zero srd = []
first (suc zero) srd = srd_at srd 0 ∷ []
first (suc (suc zero)) srd = srd_at srd 0 ∷ srd_at srd 1 ∷ []
first (suc (suc (suc n))) srd = srd_at srd 0 ∷ srd_at srd 1 ∷ srd_at srd 2 ∷ []

-- The headers are those that the two parsers find in the datagram; the payload is what is behind both;
-- there is a segment for each SRD header. The segments in use hold as many bytes as their headers say, and with the padding they make up
-- the payload.
pub record IsSplit (udp_payload : List ℕ) (v : VideoPacketView) : Type 0 where
  pub header : St2110PayloadHeaderView
  pub rtp_parsed : parse_rtp_header udp_payload ≡ ok v.rtp
  pub header_parsed :
      parse_st2110_20_payload_header (rtp_payload_span udp_payload v.rtp) ≡ ok header
  pub payload :
      v.payload_data ≡ drop (2 + 6 * header.srd_count) (rtp_payload_span udp_payload v.rtp)
  pub counts : v.segment_count ≡ header.srd_count
  pub extended : v.extended_seq ≡ combine_extended_seq header.ext_seq v.rtp.seq_number
  pub headers :
      map (λ (s : SrdSegmentView). s.header) (take v.segment_count v.segments)
      ≡ first header.srd_count header.srd
  pub sizes : All (λ s. length s.bytes ≡ s.header.length_bytes) (take v.segment_count v.segments)
  pub covers : joined (take v.segment_count v.segments) ++ v.trailing_padding ≡ v.payload_data

subspan-drop :
    (s : List ℕ) (offset count : ℕ)
    → subspan s offset count ++ drop (offset + count) s ≡ drop offset s
subspan-drop s ℕ.zero count = rw (zero_add count) (take-append-drop count s)
  where
    zero_add : (n : ℕ) → 0 + n ≡ n
    zero_add n = omega arith
subspan-drop [] (suc offset) count = rw (take-nil, drop-nil)
subspan-drop (x ∷ s) (suc offset) count =
    let e : suc offset + count ≡ suc (offset + count) = omega arith in
    rw e (subspan-drop s offset count)

length-subspan :
    (s : List ℕ) (offset count : ℕ)
    → offset + count ≤ length s
    → length (subspan s offset count) ≡ count
length-subspan s offset count h =
    omega (arith, length-take count (drop offset s), length-drop offset s)

-- The segments as the headers cut them out of a payload, from an offset on.
abbrev cut : ℕ → List SrdHeader → List ℕ → List SrdSegmentView
cut offset [] p = []
cut offset (h ∷ hs) p =
    record { header = h; bytes = subspan p offset h.length_bytes }
    ∷ cut (offset + h.length_bytes) hs p

abbrev total : List SrdHeader → ℕ
total [] = 0
total (h ∷ hs) = h.length_bytes + total hs

cut-covers :
    (offset : ℕ) (hs : List SrdHeader) (p : List ℕ)
    → joined (cut offset hs p) ++ drop (offset + total hs) p ≡ drop offset p
cut-covers offset [] p = ap (λ k. drop k p) (omega arith)
cut-covers offset (h ∷ hs) p =
    let a = h.length_bytes in
    let e : offset + (a + total hs) ≡ offset + a + total hs = omega arith in
    rw (e, append_assoc, cut-covers (offset + a) hs p) (subspan-drop p offset a)

cut-sizes :
    (offset : ℕ) (hs : List SrdHeader) (p : List ℕ)
    → offset + total hs ≤ length p
    → All (λ s. length s.bytes ≡ s.header.length_bytes) (cut offset hs p)
cut-sizes offset [] p f = tt
cut-sizes offset (h ∷ hs) p f = (
  length-subspan p offset h.length_bytes (omega arith),
  cut-sizes (offset + h.length_bytes) hs p (omega arith),
)

cut-headers :
    (offset : ℕ) (hs : List SrdHeader) (p : List ℕ)
    → map (λ (s : SrdSegmentView). s.header) (cut offset hs p) ≡ hs
cut-headers offset [] p = refl
cut-headers offset (h ∷ hs) p = ap (◌∷◌ h) (cut-headers (offset + h.length_bytes) hs p)

segments_of : ℕ → List SrdHeader → List ℕ → List SrdSegmentView
segments_of n srd p = take n (fill_bytes n 0 0 srd p (fill_headers n 0 srd no_segments))

segments-cut :
    (n : ℕ) (srd : List SrdHeader) (p : List ℕ)
    → n ≤ 3
    → (segments_of n srd p ≡ cut 0 (first n srd) p) × (sum_lengths n 0 srd ≡ total (first n srd))
unfolding segments_of fill_bytes fill_headers sum_lengths
segments-cut zero srd p h = (refl, refl)
segments-cut (suc zero) srd p h = (refl, refl)
segments-cut (suc (suc zero)) srd p h = (refl, refl)
segments-cut (suc (suc (suc zero))) srd p h = (refl, refl)
segments-cut (suc (suc (suc (suc n)))) srd p h = absurd (omega arith)

header_size :
    (payload : List ℕ) {h : St2110PayloadHeaderView}
    → parse_st2110_20_payload_header payload ≡ ok h
    → h.header_bytes ≡ 2 + 6 * h.srd_count
unfolding parse_st2110_20_payload_header
header_size payload e = ground arith

split_view-IsSplit :
    (udp : List ℕ) (rtp : RtpHeaderView) (h : St2110PayloadHeaderView) (p : List ℕ)
    → h.srd_count ≤ 3
    → sum_lengths h.srd_count 0 h.srd ≤ length p
    → parse_rtp_header udp ≡ ok rtp
    → parse_st2110_20_payload_header (rtp_payload_span udp rtp) ≡ ok h
    → p ≡ drop (2 + 6 * h.srd_count) (rtp_payload_span udp rtp)
    → IsSplit udp (split_view rtp h p)
unfolding split_view segments_of
split_view-IsSplit udp rtp h p k f er eh ep = record {
  header = h;
  rtp_parsed = er;
  header_parsed = eh;
  payload = ep;
  counts = refl;
  extended = refl;
  headers =
      ap (map (λ (s : SrdSegmentView). s.header)) q.0 ∙ cut-headers 0 (first h.srd_count h.srd) p;
  sizes =
      subst (All (λ s. length s.bytes ≡ s.header.length_bytes)) (sym q.0)
        (cut-sizes 0 (first h.srd_count h.srd) p (omega (arith, q.1)));
  covers =
      subst₂ (λ ss n. joined ss ++ drop n p ≡ p) (sym q.0) (sym (q.1 ∙ omega arith))
        (cut-covers 0 (first h.srd_count h.srd) p);
}
  where
    q :
        (segments_of h.srd_count h.srd p ≡ cut 0 (first h.srd_count h.srd) p)
        × (sum_lengths h.srd_count 0 h.srd ≡ total (first h.srd_count h.srd))
    q = segments-cut h.srd_count h.srd p k

-- The packet that the parser makes of a datagram carries the headers found in it: the RTP header, the
-- sequence number with the extension of the payload header, and a segment for each SRD header. Its
-- payload is all of the RTP payload that is behind the payload header, and is split into the segments,
-- each as long as its SRD header says, and the trailing padding: no byte is lost, doubled or moved.
pub parse_packet_view-IsSplit :
    (udp_payload : List ℕ) {v : VideoPacketView}
    → parse_packet_view udp_payload ≡ ok v
    → IsSplit udp_payload v
parse_packet_view-IsSplit udp h =
    let c = parse_packet_view-Checks udp h in
    subst (IsSplit udp) (sym c.split) (
      split_view-IsSplit udp c.rtp c.header _ (count_le c.header c.header_valid) c.fits c.rtp_parsed
        c.header_parsed
        (ap (λ n. drop n (rtp_payload_span udp c.rtp)) (header_size _ c.header_parsed)))
  where
    count_le : (h : St2110PayloadHeaderView) → IsWellFormed h → h.srd_count ≤ 3
    count_le h w = ground arith
