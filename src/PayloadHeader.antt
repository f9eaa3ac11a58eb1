-- ===== src/PayloadHeader.antt =====
-- libs/st2110core/include/st2110/ingress/shared/st2110_20.hpp: the ST 2110-20 payload header, an
-- extended sequence number and one to three sample row data (SRD) headers.
-- The array `srd[3]` is a list of three headers, written by index.
pub mod Bounds
pub mod RoundTrip
pub mod Validation
use st2110_obs_plugin.Base.{
  ℕ, zero, suc, ◌+◌, ◌-◌, ◌*◌, ◌/◌, ◌%◌, Bool, false, not, ◌&&◌, ◌||◌, List, [], ◌∷◌, length, set,
  get_or, ltb, ◌==◌, ◌^◌, if◌then◌else◌, Error, Expected, ok, unexpected, no_error, short_packet,
  invalid_value, is_ok,
}
use st2110_obs_plugin.Foundation.{read_be16, sub_size}

pub record SrdHeader : Type 0 where
  pub length_bytes : ℕ
  pub row_number : ℕ
  pub offset : ℕ
  pub field_id : Bool
  pub continuation : Bool

-- `SrdHeader{}`
abbrev pub no_srd : SrdHeader
no_srd = record {
  length_bytes = 0;
  row_number = 0;
  offset = 0;
  field_id = false;
  continuation = false;
}

pub record St2110PayloadHeaderView : Type 0 where
  pub ext_seq : ℕ
  pub srd : List SrdHeader
  pub srd_count : ℕ
  pub header_bytes : ℕ

-- `h.srd[i]`
abbrev pub srd_at : List SrdHeader → ℕ → SrdHeader
srd_at srd i = get_or srd i no_srd

-- One SRD header of six bytes.
unfoldable pub read_srd : List ℕ → ℕ → SrdHeader
read_srd payload offset = record {
  length_bytes = read_be16 payload offset;
  row_number = read_be16 payload (offset + 2) % 2 ^ 15;
  offset = read_be16 payload (offset + 4) % 2 ^ 15;
  field_id = read_be16 payload (offset + 2) / 2 ^ 15 == 1;
  continuation = read_be16 payload (offset + 4) / 2 ^ 15 == 1;
}

-- The loop `while (true)`, on the rounds that are left: it ends by its own tests in the third
-- round at the latest.
unfoldable pub read_srds :
    ℕ → List ℕ → ℕ → ℕ → ℕ → List SrdHeader → Expected St2110PayloadHeaderView
read_srds zero payload ext offset count srd = unexpected invalid_value
read_srds (suc rounds) payload ext offset count srd =
    let header = read_srd payload offset in
    let srd' = set srd count header in
    let done : St2110PayloadHeaderView = record {
      ext_seq = ext;
      srd = srd';
      srd_count = count + 1;
      header_bytes = offset + 6;
    } in
    let rest = read_srds rounds payload ext (offset + 6) (count + 1) srd' in
    if ltb (sub_size (length payload) offset) 6
    then unexpected short_packet
    else if count + 1 == 3
    then (if header.continuation then unexpected invalid_value else ok done)
    else if header.continuation
    then rest
    else ok done

unfoldable pub parse_st2110_20_payload_header : List ℕ → Expected St2110PayloadHeaderView
unfolding read_srds
parse_st2110_20_payload_header payload =
    if ltb (length payload) 8
    then unexpected short_packet
    else read_srds 3 payload (read_be16 payload 0) 2 0 (no_srd ∷ no_srd ∷ no_srd ∷ [])

-- One round of the loop of `validate_st2110_20_srd_ordering`.
abbrev pub misordered : SrdHeader → SrdHeader → Bool
misordered a b =
    ltb b.row_number a.row_number || (a.row_number == b.row_number && not (ltb a.offset b.offset))

unfoldable pub ordering_from : ℕ → ℕ → List SrdHeader → Error
ordering_from zero i srd = no_error
ordering_from (suc rounds) i srd =
    let rest = ordering_from rounds (i + 1) srd in
    if misordered (srd_at srd i) (srd_at srd (i + 1)) then invalid_value else rest

unfoldable pub validate_st2110_20_srd_ordering : St2110PayloadHeaderView → Error
unfolding ordering_from
validate_st2110_20_srd_ordering h =
    if ltb 1 h.srd_count then ordering_from (h.srd_count - 1) 0 h.srd else no_error

-- One round of the loop of `validate_st2110_20_payload_header` over the SRD headers.
abbrev pub bad_srd : SrdHeader → Bool → Bool
bad_srd header last =
    header.length_bytes == 0
    || (not header.continuation && not last)
    || (header.continuation && last)

unfoldable pub srds_from : ℕ → ℕ → ℕ → List SrdHeader → Error
srds_from zero i count srd = no_error
srds_from (suc rounds) i count srd =
    let rest = srds_from rounds (i + 1) count srd in
    if bad_srd (srd_at srd i) (i == count - 1) then invalid_value else rest

-- The test of the SRD headers one by one.
unfoldable pub validate_srds : St2110PayloadHeaderView → Error
unfolding srds_from
validate_srds h =
    if h.srd_count == 1
    then (if (srd_at h.srd 0).continuation then invalid_value else no_error)
    else srds_from h.srd_count 0 h.srd_count h.srd

unfoldable pub validate_st2110_20_payload_header : St2110PayloadHeaderView → Error
unfolding validate_srds validate_st2110_20_srd_ordering
validate_st2110_20_payload_header h =
    if h.srd_count == 0 || ltb 3 h.srd_count
    then invalid_value
    else if not (is_ok (validate_srds h))
    then validate_srds h
    else if not (is_ok (validate_st2110_20_srd_ordering h))
    then validate_st2110_20_srd_ordering h
    else if not (h.header_bytes == 2 + 6 * h.srd_count)
    then invalid_value
    else no_error

unfoldable pub combine_extended_seq : ℕ → ℕ → ℕ
combine_extended_seq hi16 lo16 = hi16 * 2 ^ 16 + lo16
