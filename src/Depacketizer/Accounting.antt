-- ===== src/Depacketizer/Accounting.antt =====
-- What one packet does to the depacketizer's counters, and which units it lets out.
use st2110_obs_plugin.Base.{
  ℕ, zero, suc, ◌+◌, ◌%◌, ◌≡◌, ◌⊎◌, inl, inr, refl, sym, ap, subst, ◌∙◌, length-append, Bool, true,
  false, ◌&&◌, some, List, [], ◌∷◌, ◌++◌, length, All, Bool-cases, Option-cases, arith, returns,
  and_then, and_then-returns, inc64, u64_mod,
}
use st2110_obs_plugin.VideoPacket.{VideoPacketView, SrdSegmentView, segment_at}
use st2110_obs_plugin.VideoFrame.{PixelFormat, make_frame, row_data, copy_bytes}
use st2110_obs_plugin.Assembler.{
  FrameAssembler, AssembledVideoUnit, PartialUnitPolicy, drop_partial, emit_with_flag, is_complete,
  mark_written, finished, make_assembler, begin, write_segment, renew, end_result, end,
}
use st2110_obs_plugin.Depacketizer.{
  Depacketizer, VideoAssemblyKey, count_end, begin_unit, handle_end_result, end_current_unit,
  map_segment_to_unit_local_write, write_segments, write_packet_segments, push_segments, before,
  start_unit, push_packet, unit_height_for_key, video_packet_assembly_key, same_key,
}

-- The assembler has the policy of the configuration.
abbrev pub IsConfigured : Depacketizer → Type 0
IsConfigured d = d.assembler.partial_policy ≡ d.cfg.policy

-- A unit that may be emitted: it is marked so, and it is complete where partial ones are dropped.
abbrev pub IsEmittable : PartialUnitPolicy → AssembledVideoUnit → Type 0
IsEmittable policy u = (u.can_emit ≡ true) × ((policy ≡ emit_with_flag) ⊎ (u.complete ≡ true))

-- Units emitted are counted as complete or partial; nothing else of the two changes.
abbrev Counted : Depacketizer → ℕ → Depacketizer → Type 0
Counted d n d' =
    (d'.stats.units_ok + d'.stats.units_partial) % u64_mod
    ≡ (d.stats.units_ok + d.stats.units_partial + n) % u64_mod

record Step (d : Depacketizer) (used : ℕ → ℕ) (units : List AssembledVideoUnit) (d' : Depacketizer)
    : Type 0 where
  same_cfg : d'.cfg ≡ d.cfg
  configured : IsConfigured d'
  packets_in : d'.stats.packets_in ≡ d.stats.packets_in
  packets_used : d'.stats.packets_used ≡ used d.stats.packets_used
  counted : Counted d (length units) d'
  emittable : All (IsEmittable d.cfg.policy) units

make_assembler-policy :
    (w h : ℕ) (fmt : PixelFormat) (policy : PartialUnitPolicy) {a : FrameAssembler}
    → make_assembler w h fmt policy ≡ returns a
    → a.partial_policy ≡ policy
unfolding make_assembler
make_assembler-policy w h fmt policy e =
    let (f, m, g) = and_then-returns (make_frame w h fmt) _ e in ground arith

write_segment-policy :
    (a : FrameAssembler) (plane row off : ℕ) (bytes : List ℕ) {a' : FrameAssembler}
    → write_segment a plane row off bytes ≡ returns a'
    → a'.partial_policy ≡ a.partial_policy
unfolding write_segment
write_segment-policy a plane row off bytes e =
    let (start, m, e1) = and_then-returns (row_data a.current_frame row plane) _ e in
    let (copied, n, e2) =
      and_then-returns (copy_bytes a.current_frame.frame_data (start + off) bytes) _ e1 in
    let (marked, o, e3) =
      and_then-returns (mark_written a.coverage plane row off (length bytes)) _ e2 in
    ground arith

write_segments-policy :
    (fmt : PixelFormat) (n i : ℕ) (segments : List SrdSegmentView) (a : FrameAssembler)
    {a' : FrameAssembler}
    → write_segments fmt n i segments a ≡ returns a'
    → a'.partial_policy ≡ a.partial_policy
unfolding write_segments
write_segments-policy fmt zero i segments a e = ground arith
write_segments-policy fmt (suc n) i segments a e =
    let (op, m, e1) =
      and_then-returns (map_segment_to_unit_local_write fmt (segment_at segments i)) _ e in
    let (b, o, e2) =
      and_then-returns (write_segment a op.plane op.row op.byte_offset op.bytes) _ e1 in
    write_segments-policy fmt n (i + 1) segments b e2
    ∙ write_segment-policy a op.plane op.row op.byte_offset op.bytes o

begin_unit-Step :
    (d : Depacketizer) (key : VideoAssemblyKey) (now : ℕ) {d' : Depacketizer}
    → begin_unit d key now ≡ returns d'
    → Step d (λ n. n) [] d'
unfolding begin_unit begin
begin_unit-Step d key now {d'} e =
    let h = unit_height_for_key d.cfg.scan_mode d.cfg.height key.sub_unit_index in
    let (a, m, e1) =
      and_then-returns (make_assembler d.cfg.width h d.cfg.format d.cfg.policy) _ e in
    let u : d' ≡ record d { assembler = begin a key.rtp_timestamp now; current_key = some key } =
      ground arith in
    rw u (record {
      same_cfg = refl;
      configured = make_assembler-policy d.cfg.width h d.cfg.format d.cfg.policy m;
      packets_in = refl;
      packets_used = refl;
      counted = omega arith;
      emittable = tt;
    })

policy_cases : (p : PartialUnitPolicy) → (p ≡ emit_with_flag) ⊎ (p ≡ drop_partial)
policy_cases emit_with_flag = inl refl
policy_cases drop_partial = inr refl

-- What `handle_end_result` makes of the three ends that `end_current_unit` can have.
handled :
    (d : Depacketizer) (marker : Bool) (a : FrameAssembler)
    → IsConfigured d
    → a.partial_policy ≡ d.assembler.partial_policy
    → let r = handle_end_result (record d { assembler = a }) (end_result d.assembler marker true) in
      Step d (λ n. n) r.0 r.1
unfolding handle_end_result end_result finished count_end
handled d marker a c p = elim (Bool-cases (is_complete d.assembler.coverage)) [
  | inl t ↦ rw t (record {
    same_cfg = refl;
    configured = p ∙ c;
    packets_in = refl;
    packets_used = refl;
    counted = omega arith;
    emittable = elim (Option-cases d.current_key) [
      | inl k ↦ rw k ((refl, inr refl), tt)
      | inr (x, k) ↦ rw k ((refl, inr refl), tt)
    ];
  })
  | inr t ↦ elim (policy_cases d.assembler.partial_policy) [
    | inl q ↦
        rw (t, q)
          (record {
            same_cfg = refl;
            configured = p ∙ c;
            packets_in = refl;
            packets_used = refl;
            counted = omega arith;
            emittable = elim (Option-cases d.current_key) [
              | inl k ↦ rw k ((refl, inl (sym c ∙ q)), tt)
              | inr (x, k) ↦ rw k ((refl, inl (sym c ∙ q)), tt)
            ];
          })
    | inr q ↦
        rw (t, q)
          (record {
            same_cfg = refl;
            configured = p ∙ c;
            packets_in = refl;
            packets_used = refl;
            counted = omega arith;
            emittable = tt;
          })
  ]
]

end_current_unit-Step :
    (d : Depacketizer) (marker : Bool) {units : List AssembledVideoUnit} {d' : Depacketizer}
    → IsConfigured d
    → end_current_unit d marker ≡ returns (units, d')
    → Step d (λ n. n) units d'
unfolding end_current_unit end
end_current_unit-Step d marker {units} {d'} c e =
    let (r, m, e1) = and_then-returns (end d.assembler marker true) _ e in
    let (b, n, e2) = and_then-returns (renew d.assembler) _ m in
    let (f, o, e3) =
      and_then-returns (make_frame d.assembler.width d.assembler.height d.assembler.format) _ n in
    let s = handled d marker b c (ground arith) in
    let u : units
        ≡ (handle_end_result (record d { assembler = b }) (end_result d.assembler marker true)).0 =
      ground arith in
    let v : d'
        ≡ (handle_end_result (record d { assembler = b }) (end_result d.assembler marker true)).1 =
      ground arith in
    rw (u, v) s

write_packet_segments-Step :
    (d : Depacketizer) (packet : VideoPacketView) {d' : Depacketizer}
    → IsConfigured d
    → write_packet_segments d packet ≡ returns d'
    → Step d (λ n. n) [] d'
unfolding write_packet_segments
write_packet_segments-Step d packet {d'} c e =
    let (a, m, e1) =
      and_then-returns
        (write_segments d.cfg.format packet.segment_count 0 packet.segments d.assembler) _ e in
    let u : d' ≡ record d { assembler = a } = ground arith in
    rw u (record {
      same_cfg = refl;
      configured =
          write_segments-policy d.cfg.format packet.segment_count 0 packet.segments d.assembler m
          ∙ c;
      packets_in = refl;
      packets_used = refl;
      counted = omega arith;
      emittable = tt;
    })

All-append :
    (P : AssembledVideoUnit → Type 0) (xs ys : List AssembledVideoUnit)
    → All P xs
    → All P ys
    → All P (xs ++ ys)
All-append P [] ys p q = q
All-append P (x ∷ xs) ys p q = (p.0, All-append P xs ys p.1 q)

-- Two parts of a call, the first of which uses no packet.
Step-then :
    (d e f : Depacketizer) (used : ℕ → ℕ) (us vs : List AssembledVideoUnit)
    → Step d (λ n. n) us e
    → Step e used vs f
    → Step d used (us ++ vs) f
Step-then d e f used us vs a b = record {
  same_cfg = b.same_cfg ∙ a.same_cfg;
  configured = b.configured;
  packets_in = b.packets_in ∙ a.packets_in;
  packets_used = b.packets_used ∙ ap used a.packets_used;
  counted = omega (arith, length-append us vs, a.counted, b.counted);
  emittable =
      All-append _ us vs a.emittable
        (subst (λ c. All (IsEmittable c.policy) vs) a.same_cfg b.emittable);
}

-- The packet is used before the rest of the call.
Step-after :
    (d e f : Depacketizer) (vs : List AssembledVideoUnit)
    → Step d inc64 [] e
    → Step e (λ n. n) vs f
    → Step d inc64 vs f
Step-after d e f vs a b = record {
  same_cfg = b.same_cfg ∙ a.same_cfg;
  configured = b.configured;
  packets_in = b.packets_in ∙ a.packets_in;
  packets_used = b.packets_used ∙ a.packets_used;
  counted = omega (arith, a.counted, b.counted);
  emittable = subst (λ c. All (IsEmittable c.policy) vs) a.same_cfg b.emittable;
}

push_segments-Step :
    (d : Depacketizer) (packet : VideoPacketView) {units : List AssembledVideoUnit}
    {d' : Depacketizer}
    → IsConfigured d
    → push_segments d packet ≡ returns (units, d')
    → Step d inc64 units d'
unfolding push_segments
push_segments-Step d packet {units} {d'} c e =
    let (a, m, e1) = and_then-returns (write_packet_segments d packet) _ e in
    let s = write_packet_segments-Step d packet c m in
    let used = record a { stats = record a.stats { packets_used = inc64 a.stats.packets_used } } in
    let t : Step d inc64 [] used = record {
      same_cfg = s.same_cfg;
      configured = s.configured;
      packets_in = s.packets_in;
      packets_used = ap inc64 s.packets_used;
      counted = s.counted;
      emittable = tt;
    } in
    elim (Bool-cases
      (packet.rtp.marker && a.cfg.video_receive_completion_policy.marker_terminates_current_unit)) [
        | inl b ↦
            Step-after d used d' units t
              (end_current_unit-Step used true s.configured (ground arith))
        | inr b ↦
            let u : units ≡ [] = ground arith in let v : d' ≡ used = ground arith in rw (u, v) t
      ]

start_unit-Step :
    (d : Depacketizer) (packet : VideoPacketView) {units : List AssembledVideoUnit}
    {d' : Depacketizer}
    → start_unit d packet ≡ returns (units, d')
    → Step d inc64 units d'
unfolding start_unit
start_unit-Step d packet {units} {d'} e =
    let key = video_packet_assembly_key d.cfg.scan_mode packet in
    let (b, m, e1) = and_then-returns (begin_unit d key packet.receive_timestamp_ns) _ e in
    let s = begin_unit-Step d key packet.receive_timestamp_ns m in
    Step-then d b d' inc64 [] units s (push_segments-Step b packet s.configured e1)

-- The counters and the units after a call of `push`.
pub record Taken (d : Depacketizer) (units : List AssembledVideoUnit) (d' : Depacketizer)
    : Type 0 where
  pub same_cfg : d'.cfg ≡ d.cfg
  pub configured : IsConfigured d'
  pub packets_in : d'.stats.packets_in ≡ inc64 d.stats.packets_in
  pub packets_used : d'.stats.packets_used ≡ inc64 d.stats.packets_used
  pub counted :
      (d'.stats.units_ok + d'.stats.units_partial) % u64_mod
      ≡ (d.stats.units_ok + d.stats.units_partial + length units) % u64_mod
  pub emittable : All (IsEmittable d.cfg.policy) units

Taken-of-Step :
    (d : Depacketizer) (units : List AssembledVideoUnit) (d' : Depacketizer)
    → Step
        (record d { stats = record d.stats { packets_in = inc64 d.stats.packets_in } })
        inc64
        units
        d'
    → Taken d units d'
Taken-of-Step d units d' s = record {
  same_cfg = s.same_cfg;
  configured = s.configured;
  packets_in = s.packets_in;
  packets_used = s.packets_used;
  counted = s.counted;
  emittable = s.emittable;
}

-- The unit in progress ends, and the packet starts another.
restart-Step :
    (d : Depacketizer) (packet : VideoPacketView) {units : List AssembledVideoUnit}
    {d' : Depacketizer}
    → IsConfigured d
    → and_then (end_current_unit d false) (λ r. before r.0 (start_unit r.1 packet))
      ≡ returns (units, d')
    → Step d inc64 units d'
restart-Step d packet {units} {d'} c e =
    let (r, m, e1) = and_then-returns (end_current_unit d false) _ e in
    let (t, n, e2) = and_then-returns (start_unit r.1 packet) _ e1 in
    let s =
      Step-then d r.1 t.1 inc64 r.0 t.0 (end_current_unit-Step d false c m)
        (start_unit-Step r.1 packet n) in
    let u : r.0 ++ t.0 ≡ units = ground arith in
    let v : t.1 ≡ d' = ground arith in
    subst (λ y. Step d inc64 units y) v (subst (λ x. Step d inc64 x t.1) u s)

counted_in : Depacketizer → Depacketizer
counted_in d = record d { stats = record d.stats { packets_in = inc64 d.stats.packets_in } }

-- A packet that a configured depacketizer takes without a throw or an undefined access is counted as
-- arrived and as used; the units that it lets out are counted as complete or as partial, and may be
-- emitted; where partial units are to be dropped, each of them is complete.
pub push_packet-Taken :
    (d : Depacketizer) (packet : VideoPacketView) {units : List AssembledVideoUnit}
    {d' : Depacketizer}
    → IsConfigured d
    → push_packet d packet ≡ returns (units, d')
    → Taken d units d'
unfolding push_packet counted_in
push_packet-Taken d packet {units} {d'} c e =
    Taken-of-Step d units d' (elim (Option-cases d.current_key) [
      | inl k ↦ start_unit-Step (counted_in d) packet (rw (k, push_packet) at e)
      | inr (key, k) ↦
          elim (Bool-cases (same_key key (video_packet_assembly_key d.cfg.scan_mode packet))) [
            | inl b ↦ push_segments-Step (counted_in d) packet c (rw (k, b, push_packet) at e)
            | inr b ↦ restart-Step (counted_in d) packet c (rw (k, b, push_packet) at e)
          ]
    ])
