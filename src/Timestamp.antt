-- ===== src/Timestamp.antt =====
-- libs/st2110core/include/st2110/foundation/rtp_timestamp_mapper.hpp, rtp_timestamp_anchor_policy.hpp
-- and contracts/rtp_timestamp_mapper_config.hpp: RTP timestamps, which wrap at 2^32, become
-- nanoseconds. A call returns its result with the new state; it may fail after the state has moved on.
pub mod Checked
pub mod Unwrapping
use st2110_obs_plugin.Base.{
  ℕ, ◌+◌, ◌-◌, ◌*◌, ◌/◌, ◌%◌, Bool, true, false, not, ◌&&◌, ltb, leb, ◌==◌, if◌then◌else◌, Expected,
  ok, unexpected, ◌>>=◌, ◌>>◌, reject, invalid_value, u32_mod, u64_mod, u64_max,
}

pub data RtpTimestampInitialAnchorMode : Type 0 where
  configured_reference : RtpTimestampInitialAnchorMode
  first_observed_becomes_local_zero : RtpTimestampInitialAnchorMode

pub record RtpTimestampMapperConfig : Type 0 where
  pub rtp_clock_rate : ℕ
  pub initial_anchor_mode : RtpTimestampInitialAnchorMode
  pub anchor_rtp_timestamp : ℕ
  pub anchor_timestamp_ns : ℕ

abbrev pub nanoseconds_per_second : ℕ
nanoseconds_per_second = 1_000_000_000

abbrev pub ambiguous_forward_delta : ℕ
ambiguous_forward_delta = 0x8000_0000

unfoldable pub checked_add_u64 : ℕ → ℕ → Expected ℕ
checked_add_u64 a b =
    if ltb (u64_max - b) a then unexpected invalid_value else ok ((a + b) % u64_mod)

unfoldable pub checked_mul_u64 : ℕ → ℕ → Expected ℕ
checked_mul_u64 a b =
    if not (a == 0) && ltb (u64_max / a) b then unexpected invalid_value else ok (a * b % u64_mod)

unfoldable pub forward_rtp_timestamp_delta : ℕ → ℕ → Expected ℕ
forward_rtp_timestamp_delta previous current =
    let raw_delta = (current + u32_mod - previous) % u32_mod in
    if leb ambiguous_forward_delta raw_delta then unexpected invalid_value else ok raw_delta

-- The remainder is below the clock rate, a 32-bit number: its product does not wrap.
unfoldable pub rtp_ticks_to_timestamp_ns : ℕ → ℕ → ℕ → Expected ℕ
unfolding checked_add_u64 checked_mul_u64
rtp_ticks_to_timestamp_ns ticks rtp_clock_rate anchor_timestamp_ns = do
  reject (rtp_clock_rate == 0) invalid_value
  let seconds = ticks / rtp_clock_rate
  let remainder_ticks = ticks % rtp_clock_rate
  seconds_ns ← checked_mul_u64 seconds nanoseconds_per_second
  let remainder_ns = remainder_ticks * nanoseconds_per_second / rtp_clock_rate
  relative_ns ← checked_add_u64 seconds_ns remainder_ns
  checked_add_u64 anchor_timestamp_ns relative_ns

pub record RtpTimestampMapper : Type 0 where
  pub cfg : RtpTimestampMapperConfig
  pub has_runtime_origin : Bool
  pub last_raw_rtp_timestamp : ℕ
  pub ticks_since_anchor : ℕ

unfoldable pub make_mapper : RtpTimestampMapperConfig → RtpTimestampMapper
make_mapper cfg = record {
  cfg = cfg;
  has_runtime_origin = false;
  last_raw_rtp_timestamp = 0;
  ticks_since_anchor = 0;
}

-- `reset`; nothing of the old state stays.
unfoldable pub reset_mapper : RtpTimestampMapper → RtpTimestampMapperConfig → RtpTimestampMapper
reset_mapper m cfg = record m {
  cfg = cfg;
  has_runtime_origin = false;
  last_raw_rtp_timestamp = 0;
  ticks_since_anchor = 0;
}

abbrev pub is_first : RtpTimestampMapper → Bool
is_first m = not m.has_runtime_origin && is_zero m.cfg.initial_anchor_mode
  where
    is_zero : RtpTimestampInitialAnchorMode → Bool
    is_zero configured_reference = false
    is_zero first_observed_becomes_local_zero = true

abbrev pub effective_anchor : RtpTimestampMapperConfig → RtpTimestampInitialAnchorMode → ℕ
effective_anchor cfg configured_reference = cfg.anchor_timestamp_ns
effective_anchor cfg first_observed_becomes_local_zero = 0

abbrev pub previous_timestamp : RtpTimestampMapper → ℕ
previous_timestamp m =
    if m.has_runtime_origin then m.last_raw_rtp_timestamp else m.cfg.anchor_rtp_timestamp

-- `map` from the forward delta on.
unfoldable pub advance : RtpTimestampMapper → ℕ → Expected ℕ → Expected ℕ × RtpTimestampMapper
unfolding rtp_ticks_to_timestamp_ns
advance m rtp_timestamp (unexpected e) = (unexpected e, m)
advance m rtp_timestamp (ok delta) =
    if ltb (u64_max - delta) m.ticks_since_anchor then (unexpected invalid_value, m) else (
      rtp_ticks_to_timestamp_ns (m.ticks_since_anchor + delta) m.cfg.rtp_clock_rate
          (effective_anchor m.cfg m.cfg.initial_anchor_mode),
      record m {
        ticks_since_anchor = m.ticks_since_anchor + delta;
        last_raw_rtp_timestamp = rtp_timestamp;
        has_runtime_origin = true;
      },
    )

unfoldable pub map_timestamp : RtpTimestampMapper → ℕ → Expected ℕ × RtpTimestampMapper
unfolding advance forward_rtp_timestamp_delta
map_timestamp m rtp_timestamp =
    if m.cfg.rtp_clock_rate == 0
    then (unexpected invalid_value, m)
    else if is_first m
    then (
      ok 0,
      record m {
        has_runtime_origin = true;
        last_raw_rtp_timestamp = rtp_timestamp;
        ticks_since_anchor = 0;
      },
    )
    else advance m rtp_timestamp (forward_rtp_timestamp_delta (previous_timestamp m) rtp_timestamp)
