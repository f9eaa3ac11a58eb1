-- ===== src/Timestamp/Unwrapping.antt =====
-- Timestamps that wrap at 2^32 are followed on an unbounded scale.
use st2110_obs_plugin.Base.{
  ℕ, ◌+◌, ◌-◌, ◌%◌, ◌^◌, ◌≤◌, ◌<◌, ◌≡◌, refl, ap, ◌∙◌, true, false, List, [], ◌∷◌, map, arith,
  Expected, ok, ltb, ◌==◌, u32_mod, u64_mod, u64_max,
}
use st2110_obs_plugin.Timestamp.{
  RtpTimestampMapperConfig, RtpTimestampMapper, first_observed_becomes_local_zero, make_mapper,
  effective_anchor, forward_rtp_timestamp_delta, rtp_ticks_to_timestamp_ns, advance, map_timestamp,
}

-- A sequence of calls.
unfoldable pub map_all : RtpTimestampMapper → List ℕ → List (Expected ℕ) × RtpTimestampMapper
map_all m [] = ([], m)
map_all m (t ∷ ts) =
    let (r, m') = map_timestamp m t in let (rs, m'') = map_all m' ts in (r ∷ rs, m'')

-- The state that has followed the clock from `origin` to `t`.
abbrev pub at_time : RtpTimestampMapper → ℕ → ℕ → RtpTimestampMapper
at_time m origin t = record m {
  has_runtime_origin = true;
  last_raw_rtp_timestamp = t % u32_mod;
  ticks_since_anchor = t - origin;
}

-- Each reading is less than 2^31 after the one before, and the whole time fits 64 bits.
abbrev pub Rising : ℕ → ℕ → List ℕ → Type 0
Rising origin t [] = Unit
Rising origin t (t' ∷ ts) =
    (t ≤ t') × (t' < t + 2 ^ 31) × (t' - origin < u64_mod) × Rising origin t' ts

unfoldable pub wrap : ℕ → ℕ
wrap t = t % u32_mod

forward_rtp_timestamp_delta_lem :
    (t t' : ℕ)
    → t ≤ t'
    → t' < t + 2 ^ 31
    → forward_rtp_timestamp_delta (t % u32_mod) (t' % u32_mod) ≡ ok (t' - t)
unfolding forward_rtp_timestamp_delta
forward_rtp_timestamp_delta_lem t t' h k = ground arith

map_timestamp_lem :
    (m : RtpTimestampMapper) (origin t t' : ℕ)
    → 0 < m.cfg.rtp_clock_rate
    → map_timestamp (at_time m origin t) (t' % u32_mod)
      ≡ advance
          (at_time m origin t)
          (t' % u32_mod)
          (forward_rtp_timestamp_delta (t % u32_mod) (t' % u32_mod))
unfolding map_timestamp
map_timestamp_lem m origin t t' pos = ground arith

advance_lem :
    (m : RtpTimestampMapper) (origin t t' : ℕ)
    → origin ≤ t
    → t ≤ t'
    → t' - origin < u64_mod
    → advance (at_time m origin t) (t' % u32_mod) (ok (t' - t)) ≡ (
      rtp_ticks_to_timestamp_ns
          (t' - origin)
          m.cfg.rtp_clock_rate
          (effective_anchor m.cfg m.cfg.initial_anchor_mode),
      at_time m origin t',
    )
unfolding advance
advance_lem m origin t t' o h w =
    let e : t - origin + (t' - t) ≡ t' - origin = omega arith in
    let f : ltb (u64_max - (t' - t)) (t - origin) ≡ false = ground arith in rw (f, e) refl

map_timestamp-at_time :
    (m : RtpTimestampMapper) (origin t t' : ℕ)
    → 0 < m.cfg.rtp_clock_rate
    → origin ≤ t
    → t ≤ t'
    → t' < t + 2 ^ 31
    → t' - origin < u64_mod
    → map_timestamp (at_time m origin t) (t' % u32_mod) ≡ (
      rtp_ticks_to_timestamp_ns
          (t' - origin)
          m.cfg.rtp_clock_rate
          (effective_anchor m.cfg m.cfg.initial_anchor_mode),
      at_time m origin t',
    )
map_timestamp-at_time m origin t t' pos o h k w =
    map_timestamp_lem m origin t t' pos
    ∙ ap (advance (at_time m origin t) (t' % u32_mod)) (forward_rtp_timestamp_delta_lem t t' h k)
    ∙ advance_lem m origin t t' o h w

-- The nanoseconds of a reading.
abbrev pub since : RtpTimestampMapperConfig → ℕ → ℕ → Expected ℕ
since cfg origin t =
    rtp_ticks_to_timestamp_ns (t - origin) cfg.rtp_clock_rate
      (effective_anchor cfg cfg.initial_anchor_mode)

map_all-at_time :
    (m : RtpTimestampMapper) (origin t : ℕ) (ts : List ℕ)
    → 0 < m.cfg.rtp_clock_rate
    → origin ≤ t
    → Rising origin t ts
    → (map_all (at_time m origin t) (map wrap ts)).0 ≡ map (since m.cfg origin) ts
unfolding map_all wrap
map_all-at_time m origin t [] pos o r = refl
map_all-at_time m origin t (t' ∷ ts) pos o (h, k, w, r) =
    let e = map_timestamp-at_time m origin t t' pos o h k w in
    rw e (ap (◌∷◌ (since m.cfg origin t')) (map_all-at_time m origin t' ts pos (omega arith) r))

first_lem :
    (cfg : RtpTimestampMapperConfig) (origin : ℕ)
    → cfg.initial_anchor_mode ≡ first_observed_becomes_local_zero
    → 0 < cfg.rtp_clock_rate
    → map_timestamp (make_mapper cfg) (origin % u32_mod)
      ≡ (ok 0, at_time (make_mapper cfg) origin origin)
unfolding map_timestamp make_mapper
first_lem cfg origin z pos =
    let e : origin - origin ≡ 0 = omega arith in
    let f : (cfg.rtp_clock_rate == 0) ≡ false = ground arith in rw (f, z, e) refl

-- A new mapper whose first timestamp becomes zero maps the readings of a clock that it sees modulo
-- 2^32, each less than 2^31 after the one before and all within 64 bits of the first: the first to
-- zero, each later one to the nanoseconds of its whole distance from the first, through any number of
-- wrap-arounds.
pub map_all-unwraps :
    (cfg : RtpTimestampMapperConfig) (origin : ℕ) (ts : List ℕ)
    → cfg.initial_anchor_mode ≡ first_observed_becomes_local_zero
    → 0 < cfg.rtp_clock_rate
    → Rising origin origin ts
    → (map_all (make_mapper cfg) (map wrap (origin ∷ ts))).0
      ≡ ok 0 ∷ map (λ t. rtp_ticks_to_timestamp_ns (t - origin) cfg.rtp_clock_rate 0) ts
unfolding map_all wrap make_mapper
map_all-unwraps cfg origin ts z pos r = rw (first_lem cfg origin z pos) (
    ap (◌∷◌ (ok 0)) (
      map_all-at_time (make_mapper cfg) origin origin ts pos (omega arith) r
      ∙ ap
          (λ mode.
            map
              (λ t.
                rtp_ticks_to_timestamp_ns (t - origin) cfg.rtp_clock_rate
                  (effective_anchor cfg mode))
              ts)
          z))
