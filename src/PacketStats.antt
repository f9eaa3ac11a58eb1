-- ===== src/PacketStats.antt =====
-- libs/st2110core/include/st2110/ingress/shared/packet_parse_stats.hpp: the parse counters.
use st2110_obs_plugin.Base.{
  ℕ, Bool, true, false, Error, is_ok, inc64, if◌then◌else◌, ◌+◌, ◌%◌, ◌≡◌, arith, u64_mod,
}

pub data PacketParseStage : Type 0 where
  rtp_header : PacketParseStage
  st2110_payload_header_parse : PacketParseStage
  st2110_payload_header_validate : PacketParseStage
  srd_payload_split : PacketParseStage
  packet_policy : PacketParseStage

pub record ParserStats : Type 0 where
  pub packets_total : ℕ
  pub packets_ok : ℕ
  pub packets_failed : ℕ
  pub short_packet : ℕ
  pub bad_rtp_version : ℕ
  pub invalid_value : ℕ
  pub unsupported : ℕ
  pub buffer_too_small : ℕ
  pub other_error : ℕ

-- The counters `total`, `ok` and `failed`, passed by reference in the source.
unfoldable pub record_result_counter : ParserStats → Bool → ParserStats
record_result_counter s true = record s {
  packets_total = inc64 s.packets_total;
  packets_ok = inc64 s.packets_ok;
}
record_result_counter s false = record s {
  packets_total = inc64 s.packets_total;
  packets_failed = inc64 s.packets_failed;
}

-- The switch over the error that is no `Ok`.
unfoldable pub count_error : ParserStats → Error → ParserStats
count_error s Error.no_error = s
count_error s Error.short_packet = record s { short_packet = inc64 s.short_packet }
count_error s Error.bad_rtp_version = record s { bad_rtp_version = inc64 s.bad_rtp_version }
count_error s Error.invalid_value = record s { invalid_value = inc64 s.invalid_value }
count_error s Error.unsupported = record s { unsupported = inc64 s.unsupported }
count_error s Error.buffer_too_small = record s { buffer_too_small = inc64 s.buffer_too_small }
count_error s _ = record s { other_error = inc64 s.other_error }

unfoldable pub record_parse_result : ParserStats → Error → ParserStats
unfolding record_result_counter count_error
record_parse_result s err =
    let counted = record_result_counter s (is_ok err) in
    if is_ok err then counted else count_error counted err

pub record PacketParseStats : Type 0 where
  pub parser_stats : ParserStats
  pub rtp_header_fail : ℕ
  pub st2110_header_parse_fail : ℕ
  pub bad_srd : ℕ
  pub srd_payload_split_fail : ℕ
  pub packet_policy_fail : ℕ

unfoldable pub count_stage : PacketParseStats → PacketParseStage → PacketParseStats
count_stage s rtp_header = record s { rtp_header_fail = inc64 s.rtp_header_fail }
count_stage s st2110_payload_header_parse = record s {
  st2110_header_parse_fail = inc64 s.st2110_header_parse_fail;
}
count_stage s st2110_payload_header_validate = record s { bad_srd = inc64 s.bad_srd }
count_stage s srd_payload_split = record s {
  srd_payload_split_fail = inc64 s.srd_payload_split_fail;
}
count_stage s packet_policy = record s { packet_policy_fail = inc64 s.packet_policy_fail }

unfoldable pub record_packet_parse_result :
    PacketParseStats → Error → PacketParseStage → PacketParseStats
unfolding record_parse_result count_stage
record_packet_parse_result s err stage =
    let counted = record s { parser_stats = record_parse_result s.parser_stats err } in
    if is_ok err then counted else count_stage counted stage

-- The counters agree: every packet is counted as accepted or as failed, and every failure once by
-- its error and once by the stage that found it. The counters wrap, so the sums are taken modulo
-- 2^64.
pub record IsConsistent (s : PacketParseStats) : Type 0 where
  pub by_result :
      s.parser_stats.packets_total
      ≡ (s.parser_stats.packets_ok + s.parser_stats.packets_failed) % u64_mod
  pub by_error :
      s.parser_stats.packets_failed
      ≡ (s.parser_stats.short_packet + s.parser_stats.bad_rtp_version + s.parser_stats.invalid_value
          + s.parser_stats.unsupported + s.parser_stats.buffer_too_small
          + s.parser_stats.other_error)
        % u64_mod
  pub by_stage :
      s.parser_stats.packets_failed
      ≡ (s.rtp_header_fail + s.st2110_header_parse_fail + s.bad_srd + s.srd_payload_split_fail
          + s.packet_policy_fail)
        % u64_mod

-- Recording a result keeps the counters consistent, for each error and stage: packets are accepted or
-- failed, and failures add up both by error and by stage, modulo 2^64.
pub record_packet_parse_result-IsConsistent :
    (s : PacketParseStats) (err : Error) (stage : PacketParseStage)
    → IsConsistent s
    → IsConsistent (record_packet_parse_result s err stage)
unfolding record_packet_parse_result
record_packet_parse_result-IsConsistent s err stage v = ground arith
