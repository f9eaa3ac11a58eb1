-- ===== src/Reconstructor/Pairing.antt =====
-- Which two segments become a frame.
use st2110_obs_plugin.Base.{
  ℕ, ◌≡◌, ◌⊎◌, inl, inr, refl, sym, ap, subst, ◌∙◌, Bool, true, false, ◌&&◌, Option, none, some,
  Bool-cases, ◌==◌, arith, returns, and_then-returns,
}
use st2110_obs_plugin.Assembler.{AssembledVideoUnit, segment_unit}
use st2110_obs_plugin.VideoFrame.{make_frame}
use st2110_obs_plugin.Reconstructor.{
  VideoUnitReconstructorConfig, ReconstructedVideoFrame, PendingUnitPair, no_units,
  copy_sub_unit_rows, combine, join, keep_matching, place_segment, push_kind, push_unit,
}

record Joined (pair : PendingUnitPair) (f : ReconstructedVideoFrame) (pair' : PendingUnitPair)
    : Type 0 where
  first : AssembledVideoUnit
  second : AssembledVideoUnit
  has_first : pair.first ≡ some first
  has_second : pair.second ≡ some second
  timestamp : f.rtp_timestamp ≡ first.rtp_timestamp
  complete : f.complete ≡ first.complete && second.complete
  used_up : pair' ≡ no_units

combine_lem :
    (cfg : VideoUnitReconstructorConfig) (a b : AssembledVideoUnit) {f : ReconstructedVideoFrame}
    → combine cfg a b ≡ returns f
    → (f.rtp_timestamp ≡ a.rtp_timestamp) × (f.complete ≡ a.complete && b.complete)
unfolding combine
combine_lem cfg a b {f} e =
    let (frame, m, e1) = and_then-returns (make_frame cfg.width cfg.height cfg.format) _ e in
    let (half, n, e2) = and_then-returns (copy_sub_unit_rows frame a.frame 0) _ e1 in
    let (whole, o, e3) = and_then-returns (copy_sub_unit_rows half b.frame 1) _ e2 in
    (ground arith, ground arith)

join-Joined :
    (cfg : VideoUnitReconstructorConfig) (first second : Option AssembledVideoUnit)
    {f : ReconstructedVideoFrame} {pair' : PendingUnitPair}
    → join cfg (record { first = first; second = second }) ≡ returns (some f, pair')
    → Joined (record { first = first; second = second }) f pair'
unfolding join
join-Joined cfg none second e = absurd (ground arith)
join-Joined cfg (some a) none e = absurd (ground arith)
join-Joined cfg (some a) (some b) {f} {pair'} e =
    let (g, m, e1) = and_then-returns (combine cfg a b) _ e in
    let q : g ≡ f = ground arith in
    let c = combine_lem cfg a b (m ∙ ap returns q) in
    record {
      first = a;
      second = b;
      has_first = refl;
      has_second = refl;
      timestamp = c.0;
      complete = c.1;
      used_up = ground arith;
    }

keep_matching_lem :
    (o : Option AssembledVideoUnit) (t : ℕ) {u : AssembledVideoUnit}
    → keep_matching o t ≡ some u
    → (o ≡ some u) × (u.rtp_timestamp ≡ t)
unfolding keep_matching
keep_matching_lem none t e = absurd (ground arith)
keep_matching_lem (some x) t {u} e = elim (Bool-cases (x.rtp_timestamp == t)) [
  | inl q ↦
      let z : x ≡ u = ground arith in (ap some z, subst (λ y. y.rtp_timestamp ≡ t) z (ground arith))
  | inr q ↦ absurd (ground arith)
]

pushed_segment :
    (cfg : VideoUnitReconstructorConfig) (pair : PendingUnitPair) (unit : AssembledVideoUnit)
    → unit.unit_kind ≡ segment_unit
    → push_unit cfg pair unit ≡ join cfg (place_segment pair unit)
unfolding push_unit push_kind
pushed_segment cfg pair unit k = ap (push_kind cfg pair unit) k

placed_first :
    (pair : PendingUnitPair) (unit : AssembledVideoUnit)
    → (unit.sub_unit_index == 0) ≡ true
    → place_segment pair unit
      ≡ record { first = some unit; second = keep_matching pair.second unit.rtp_timestamp }
unfolding place_segment
placed_first pair unit z = rw z refl

placed_second :
    (pair : PendingUnitPair) (unit : AssembledVideoUnit)
    → (unit.sub_unit_index == 0) ≡ false
    → place_segment pair unit
      ≡ record { first = keep_matching pair.first unit.rtp_timestamp; second = some unit }
unfolding place_segment
placed_second pair unit z = rw z refl

and_swap : (a b : Bool) → a && b ≡ b && a
and_swap a b = ground arith

-- The segment `other` waited for `unit`, and the two became the frame.
pub record Matched (pair : PendingUnitPair) (unit : AssembledVideoUnit)
    (f : ReconstructedVideoFrame) (pair' : PendingUnitPair) : Type 0 where
  pub other : AssembledVideoUnit
  pub waited : (pair.first ≡ some other) ⊎ (pair.second ≡ some other)
  pub same_timestamp : other.rtp_timestamp ≡ unit.rtp_timestamp
  pub timestamp : f.rtp_timestamp ≡ unit.rtp_timestamp
  pub complete : f.complete ≡ other.complete && unit.complete
  pub used_up : pair' ≡ no_units

-- A segment that completes a frame found its other half waiting, with its own timestamp: no frame is
-- ever made of segments of two timestamps. The frame has that timestamp, is complete when both halves
-- are, and the pair is empty afterwards.
pub push_unit-Matched :
    (cfg : VideoUnitReconstructorConfig) (pair : PendingUnitPair) (unit : AssembledVideoUnit)
    {f : ReconstructedVideoFrame} {pair' : PendingUnitPair}
    → unit.unit_kind ≡ segment_unit
    → push_unit cfg pair unit ≡ returns (some f, pair')
    → Matched pair unit f pair'
push_unit-Matched cfg pair unit {f} {pair'} k e = elim (Bool-cases (unit.sub_unit_index == 0)) [
  | inl z ↦
      let j =
        join-Joined cfg (some unit) (keep_matching pair.second unit.rtp_timestamp) {f = f}
          {pair' = pair'}
          (ap (join cfg) (sym (placed_first pair unit z))
            ∙ sym (pushed_segment cfg pair unit k)
            ∙ e) in
      let m = keep_matching_lem pair.second unit.rtp_timestamp j.has_second in
      let u : unit ≡ j.first = ground (arith, j.has_first) in
      record {
        other = j.second;
        waited = inr m.0;
        same_timestamp = m.1;
        timestamp = j.timestamp ∙ ap (λ y. y.rtp_timestamp) (sym u);
        complete =
            j.complete
            ∙ ap (λ y. y.complete && j.second.complete) (sym u)
            ∙ and_swap unit.complete j.second.complete;
        used_up = j.used_up;
      }
  | inr z ↦
      let j =
        join-Joined cfg (keep_matching pair.first unit.rtp_timestamp) (some unit) {f = f}
          {pair' = pair'}
          (ap (join cfg) (sym (placed_second pair unit z))
            ∙ sym (pushed_segment cfg pair unit k)
            ∙ e) in
      let m = keep_matching_lem pair.first unit.rtp_timestamp j.has_first in
      let u : unit ≡ j.second = ground (arith, j.has_second) in
      record {
        other = j.first;
        waited = inl m.0;
        same_timestamp = m.1;
        timestamp = j.timestamp ∙ m.1;
        complete = j.complete ∙ ap (λ y. j.first.complete && y.complete) (sym u);
        used_up = j.used_up;
      }
]
