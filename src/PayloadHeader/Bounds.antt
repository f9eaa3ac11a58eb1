-- ===== src/PayloadHeader/Bounds.antt =====
-- What a parsed ST 2110-20 payload header promises.
use st2110_obs_plugin.Base.{ℕ, ◌+◌, ◌*◌, ◌^◌, ◌≤◌, ◌<◌, ◌≡◌, List, length, arith, ok}
use st2110_obs_plugin.Foundation.{IsBytes, read_be16-lt}
use st2110_obs_plugin.PayloadHeader.{St2110PayloadHeaderView, parse_st2110_20_payload_header}

-- The count of SRD headers, the bytes that they take, and that these lie inside the payload.
pub record IsHeaderOf (payload : List ℕ) (h : St2110PayloadHeaderView) : Type 0 where
  pub some_srd : 0 < h.srd_count
  pub at_most_three : h.srd_count ≤ 3
  pub size : h.header_bytes ≡ 2 + 6 * h.srd_count
  pub inside : h.header_bytes ≤ length payload
  pub ext_width : h.ext_seq < 2 ^ 16

-- Whatever payload the parser accepts, it found one to three SRD headers, which with the extended
-- sequence number take two bytes and six for each, all inside the payload.
pub parse_st2110_20_payload_header-IsHeaderOf :
    (payload : List ℕ) {h : St2110PayloadHeaderView}
    → IsBytes payload
    → parse_st2110_20_payload_header payload ≡ ok h
    → IsHeaderOf payload h
unfolding parse_st2110_20_payload_header
parse_st2110_20_payload_header-IsHeaderOf payload b e = ground (arith, read_be16-lt payload 0 b)
