-- ===== src/Timestamp/Checked.antt =====
-- The conversion of ticks to nanoseconds computes the exact number or fails.
use native.Mathlib.Nat.{mul-add-div, div-add-mod, div-lt_iff_lt-mul, mul_comm, mod-lt}
use st2110_obs_plugin.Base.{
  ℕ, zero, suc, ◌+◌, ◌*◌, ◌/◌, ◌%◌, ◌<◌, ◌≡◌, sym, ap, ◌∙◌, false, arith, Expected, ok, unexpected,
  ◌>>=◌, invalid_value, u64_mod, u64_max, leb, ◌==◌, if◌then◌else◌,
}
use st2110_obs_plugin.Timestamp.{
  nanoseconds_per_second, checked_add_u64, checked_mul_u64, rtp_ticks_to_timestamp_ns,
}

-- The number that fits 64 bits, or the error.
unfoldable pub fitting : ℕ → Expected ℕ
fitting n = if leb n u64_max then ok n else unexpected invalid_value

checked_add_u64_lem : (a b : ℕ) → b < u64_mod → checked_add_u64 a b ≡ fitting (a + b)
unfolding checked_add_u64 fitting
checked_add_u64_lem a b h = ground arith

checked_mul_u64_lem :
    (a : ℕ) → checked_mul_u64 a nanoseconds_per_second ≡ fitting (a * nanoseconds_per_second)
unfolding checked_mul_u64 fitting
checked_mul_u64_lem zero = ground arith
checked_mul_u64_lem (suc a) =
    let k =
      div-lt_iff_lt-mul {k = suc a} {x = u64_max} {y = nanoseconds_per_second} (omega arith) in
    let l = mul_comm nanoseconds_per_second (suc a) in ground arith

split :
    (ticks rate : ℕ)
    → 0 < rate
    → ticks * nanoseconds_per_second / rate
      ≡ ticks / rate * nanoseconds_per_second + ticks % rate * nanoseconds_per_second / rate
split ticks rate h =
    ap (λ n. n / rate)
      (ap (λ n. n * nanoseconds_per_second) (sym (div-add-mod ticks rate)) ∙ grind arith)
    ∙ mul-add-div h (ticks / rate * nanoseconds_per_second) (ticks % rate * nanoseconds_per_second)

chain :
    (s x anchor : ℕ)
    → x < nanoseconds_per_second
    → anchor < u64_mod
    → (checked_mul_u64 s nanoseconds_per_second >>= λ seconds_ns.
        checked_add_u64 seconds_ns x >>= λ relative_ns. checked_add_u64 anchor relative_ns)
      ≡ fitting (anchor + (s * nanoseconds_per_second + x))
unfolding checked_add_u64 fitting
chain s x anchor h k = rw (checked_mul_u64_lem s) (ground arith)

-- With a clock rate and an anchor of 64 bits, the conversion gives the anchor plus the whole number of
-- nanoseconds in the ticks, rounded down once, exactly where that fits 64 bits; and it fails exactly
-- where it does not. No product or sum on the way wraps.
pub rtp_ticks_to_timestamp_ns-exact :
    (ticks rate anchor : ℕ)
    → 0 < rate
    → anchor < u64_mod
    → rtp_ticks_to_timestamp_ns ticks rate anchor
      ≡ fitting (anchor + ticks * nanoseconds_per_second / rate)
unfolding rtp_ticks_to_timestamp_ns
rtp_ticks_to_timestamp_ns-exact ticks rate anchor h k =
    let below : ticks % rate * nanoseconds_per_second / rate < nanoseconds_per_second =
      (div-lt_iff_lt-mul h).1 (grind (arith, mod-lt ticks h)) in
    let z : (rate == 0) ≡ false = ground arith in
    rw (z, split ticks rate h)
      (chain (ticks / rate) (ticks % rate * nanoseconds_per_second / rate) anchor below k)
