-- ===== src/Depacketizer.antt =====
-- libs/st2110core/include/st2110/receive/video/depacketizer.hpp, depacketizer_stats.hpp and
-- contracts/video/depacketizer_config.hpp: packets of one video unit (frame, field or segment) are
-- written into one frame, and a new unit or the marker ends the unit in progress.
-- A call returns the units that it emits with the new state.
pub mod Accounting
use st2110_obs_plugin.Base.{
  ℕ, zero, suc, ◌+◌, ◌*◌, ◌/◌, Bool, true, false, not, ◌&&◌, Option, none, some, List, [], ◌∷◌,
  ◌++◌, ◌==◌, if◌then◌else◌, Outcome, returns, throws, undefined, and_then, runtime_error, inc64,
  ◌%◌, u32_mod,
}
use st2110_obs_plugin.PayloadHeader.{SrdHeader}
use st2110_obs_plugin.VideoPacket.{SrdSegmentView, VideoPacketView, segment_at}
use st2110_obs_plugin.VideoFrame.{
  PixelFormat, uyvy, rgb8, yuv422_rfc4175_pg2_be10, yuv422_rfc4175_pg2_be12,
  yuv444_rfc4175_pg4_be10, yuv444_rfc4175_pg2_be12, rgb_rfc4175_pg4_be10, rgb_rfc4175_pg2_be12,
}
use st2110_obs_plugin.Assembler.{
  FrameAssembler, FrameAssemblerEndResult, FrameAssemblerEndStatus, emitted_complete,
  emitted_partial, dropped_partial, not_emittable, AssembledVideoUnit, VideoAssemblyUnitKind,
  frame_unit, field_unit, segment_unit, PartialUnitPolicy, make_assembler, begin, write_segment,
  end,
}

pub data VideoScanMode : Type 0 where
  progressive : VideoScanMode
  interlaced : VideoScanMode
  psf : VideoScanMode

pub record VideoReceiveCompletionPolicy : Type 0 where
  pub unit_kind : VideoAssemblyUnitKind
  pub marker_terminates_current_unit : Bool

pub record DepacketizerConfig : Type 0 where
  pub video_receive_completion_policy : VideoReceiveCompletionPolicy
  pub scan_mode : VideoScanMode
  pub format : PixelFormat
  pub width : ℕ
  pub height : ℕ
  pub policy : PartialUnitPolicy

unfoldable pub completion_policy_for : VideoScanMode → VideoReceiveCompletionPolicy
completion_policy_for progressive = record {
  unit_kind = frame_unit;
  marker_terminates_current_unit = true;
}
completion_policy_for interlaced = record {
  unit_kind = field_unit;
  marker_terminates_current_unit = true;
}
completion_policy_for psf = record {
  unit_kind = segment_unit;
  marker_terminates_current_unit = false;
}

unfoldable pub make_depacketizer_config :
    VideoScanMode → PixelFormat → ℕ → ℕ → PartialUnitPolicy → DepacketizerConfig
unfolding completion_policy_for
make_depacketizer_config mode format width height policy = record {
  video_receive_completion_policy = completion_policy_for mode;
  scan_mode = mode;
  format = format;
  width = width;
  height = height;
  policy = policy;
}

pub record VideoFrameWriteOp : Type 0 where
  pub plane : ℕ
  pub row : ℕ
  pub byte_offset : ℕ
  pub bytes : List ℕ

pub record VideoAssemblyKey : Type 0 where
  pub unit_kind : VideoAssemblyUnitKind
  pub rtp_timestamp : ℕ
  pub sub_unit_index : ℕ

pub record DepacketizerStats : Type 0 where
  pub packets_in : ℕ
  pub packets_used : ℕ
  pub units_ok : ℕ
  pub units_partial : ℕ
  pub units_dropped : ℕ

abbrev pub no_depacketizer_stats : DepacketizerStats
no_depacketizer_stats = record {
  packets_in = 0;
  packets_used = 0;
  units_ok = 0;
  units_partial = 0;
  units_dropped = 0;
}

pub record Depacketizer : Type 0 where
  pub cfg : DepacketizerConfig
  pub assembler : FrameAssembler
  pub current_key : Option VideoAssemblyKey
  pub stats : DepacketizerStats

unfoldable pub make_depacketizer : DepacketizerConfig → Outcome Depacketizer
make_depacketizer cfg =
    and_then (make_assembler cfg.width cfg.height cfg.format cfg.policy) (λ assembler.
      returns (record {
        cfg = cfg;
        assembler = assembler;
        current_key = none;
        stats = no_depacketizer_stats;
      }))

-- `reset`; the constructor with the configuration that is there.
unfoldable pub reset_depacketizer : Depacketizer → Outcome Depacketizer
unfolding make_depacketizer
reset_depacketizer d = make_depacketizer d.cfg

abbrev pub same_kind : VideoAssemblyUnitKind → VideoAssemblyUnitKind → Bool
same_kind frame_unit frame_unit = true
same_kind field_unit field_unit = true
same_kind segment_unit segment_unit = true
same_kind _ _ = false

-- `operator==` of `VideoAssemblyKey`
unfoldable pub same_key : VideoAssemblyKey → VideoAssemblyKey → Bool
same_key k l =
    same_kind k.unit_kind l.unit_kind
    && k.rtp_timestamp == l.rtp_timestamp
    && k.sub_unit_index == l.sub_unit_index

unfoldable pub unit_height_for_key : VideoScanMode → ℕ → ℕ → ℕ
unit_height_for_key progressive full_height sub_unit_index = full_height
unit_height_for_key _ full_height sub_unit_index =
    if sub_unit_index == 0 then (full_height + 1) % u32_mod / 2 else full_height / 2

abbrev pub sub_index : VideoPacketView → ℕ
sub_index packet = if (segment_at packet.segments 0).header.field_id then 1 else 0

unfoldable pub video_packet_assembly_key : VideoScanMode → VideoPacketView → VideoAssemblyKey
video_packet_assembly_key progressive packet = record {
  unit_kind = frame_unit;
  rtp_timestamp = packet.rtp.timestamp;
  sub_unit_index = 0;
}
video_packet_assembly_key interlaced packet = record {
  unit_kind = field_unit;
  rtp_timestamp = packet.rtp.timestamp;
  sub_unit_index = sub_index packet;
}
video_packet_assembly_key psf packet = record {
  unit_kind = segment_unit;
  rtp_timestamp = packet.rtp.timestamp;
  sub_unit_index = sub_index packet;
}

unfoldable pub begin_unit : Depacketizer → VideoAssemblyKey → ℕ → Outcome Depacketizer
unfolding unit_height_for_key
begin_unit d key receive_timestamp_ns =
    and_then
      (make_assembler d.cfg.width
        (unit_height_for_key d.cfg.scan_mode d.cfg.height key.sub_unit_index) d.cfg.format
        d.cfg.policy)
      (λ assembler. returns (record d {
        assembler = begin assembler key.rtp_timestamp receive_timestamp_ns;
        current_key = some key;
      }))

unfoldable pub count_end : DepacketizerStats → FrameAssemblerEndStatus → DepacketizerStats
count_end s emitted_complete = record s { units_ok = inc64 s.units_ok }
count_end s emitted_partial = record s { units_partial = inc64 s.units_partial }
count_end s dropped_partial = record s { units_dropped = inc64 s.units_dropped }
count_end s not_emittable = record s { units_dropped = inc64 s.units_dropped }

abbrev pub label : Option VideoAssemblyKey → AssembledVideoUnit → AssembledVideoUnit
label none u = u
label (some key) u = record u { unit_kind = key.unit_kind; sub_unit_index = key.sub_unit_index }

abbrev pub emitted : Option VideoAssemblyKey → Option AssembledVideoUnit → List AssembledVideoUnit
emitted key none = []
emitted key (some u) = label key u ∷ []

unfoldable pub handle_end_result :
    Depacketizer → FrameAssemblerEndResult → List AssembledVideoUnit × Depacketizer
unfolding count_end
handle_end_result d end_res = (
  emitted d.current_key end_res.unit,
  record d { stats = count_end d.stats end_res.status; current_key = none },
)

unfoldable pub end_current_unit :
    Depacketizer → Bool → Outcome (List AssembledVideoUnit × Depacketizer)
unfolding handle_end_result
end_current_unit d marker_seen =
    and_then (end d.assembler marker_seen true)
      (λ r. returns (handle_end_result (record d { assembler = r.1 }) r.0))

abbrev pub pgroup_byte_offset : ℕ → ℕ → ℕ → ℕ
pgroup_byte_offset sample_offset samples_per_pgroup bytes_per_pgroup =
    sample_offset / samples_per_pgroup * bytes_per_pgroup

abbrev pub write_at : SrdSegmentView → ℕ → Outcome VideoFrameWriteOp
write_at segment byte_offset = returns (record {
  plane = 0;
  row = segment.header.row_number;
  byte_offset = byte_offset;
  bytes = segment.bytes;
})

unfoldable pub map_segment_to_unit_local_write :
    PixelFormat → SrdSegmentView → Outcome VideoFrameWriteOp
map_segment_to_unit_local_write uyvy s = write_at s (s.header.offset * 2)
map_segment_to_unit_local_write rgb8 s = write_at s (s.header.offset * 3)
map_segment_to_unit_local_write yuv422_rfc4175_pg2_be10 s =
    write_at s (pgroup_byte_offset s.header.offset 2 5)
map_segment_to_unit_local_write yuv422_rfc4175_pg2_be12 s =
    write_at s (pgroup_byte_offset s.header.offset 2 6)
map_segment_to_unit_local_write yuv444_rfc4175_pg4_be10 s =
    write_at s (pgroup_byte_offset s.header.offset 4 15)
map_segment_to_unit_local_write rgb_rfc4175_pg4_be10 s =
    write_at s (pgroup_byte_offset s.header.offset 4 15)
map_segment_to_unit_local_write yuv444_rfc4175_pg2_be12 s =
    write_at s (pgroup_byte_offset s.header.offset 2 9)
map_segment_to_unit_local_write rgb_rfc4175_pg2_be12 s =
    write_at s (pgroup_byte_offset s.header.offset 2 9)
map_segment_to_unit_local_write _ s = throws runtime_error

-- The loop of `write_packet_segments`, on the rounds that are left.
unfoldable pub write_segments :
    PixelFormat → ℕ → ℕ → List SrdSegmentView → FrameAssembler → Outcome FrameAssembler
unfolding map_segment_to_unit_local_write
write_segments format zero i segments a = returns a
write_segments format (suc rounds) i segments a =
    and_then (map_segment_to_unit_local_write format (segment_at segments i)) (λ op.
      and_then (write_segment a op.plane op.row op.byte_offset op.bytes)
        (write_segments format rounds (i + 1) segments))

unfoldable pub write_packet_segments : Depacketizer → VideoPacketView → Outcome Depacketizer
unfolding write_segments
write_packet_segments d packet =
    and_then (write_segments d.cfg.format packet.segment_count 0 packet.segments d.assembler)
      (λ assembler. returns (record d { assembler = assembler }))

-- The end of `push`: the segments are written, and the marker may end the unit.
unfoldable pub push_segments :
    Depacketizer → VideoPacketView → Outcome (List AssembledVideoUnit × Depacketizer)
unfolding write_packet_segments end_current_unit
push_segments d packet = and_then (write_packet_segments d packet) (λ e.
    let used = record e { stats = record e.stats { packets_used = inc64 e.stats.packets_used } } in
    elim (packet.rtp.marker
      && e.cfg.video_receive_completion_policy.marker_terminates_current_unit) [
        | true ↦ end_current_unit used true
        | false ↦ returns ([], used)
      ])

abbrev pub before :
    List AssembledVideoUnit
    → Outcome (List AssembledVideoUnit × Depacketizer)
    → Outcome (List AssembledVideoUnit × Depacketizer)
before units r = and_then r (λ s. returns (units ++ s.0, s.1))

-- A new unit starts with this packet.
unfoldable pub start_unit :
    Depacketizer → VideoPacketView → Outcome (List AssembledVideoUnit × Depacketizer)
unfolding begin_unit push_segments video_packet_assembly_key
start_unit d packet =
    and_then
      (begin_unit d (video_packet_assembly_key d.cfg.scan_mode packet) packet.receive_timestamp_ns)
      (λ begun. push_segments begun packet)

unfoldable pub push_packet :
    Depacketizer → VideoPacketView → Outcome (List AssembledVideoUnit × Depacketizer)
unfolding start_unit push_segments end_current_unit same_key
push_packet d packet =
    let counted = record d { stats = record d.stats { packets_in = inc64 d.stats.packets_in } } in
    elim d.current_key [
      | none ↦ start_unit counted packet
      | some key ↦ elim (same_key key (video_packet_assembly_key d.cfg.scan_mode packet)) [
        | true ↦ push_segments counted packet
        | false ↦
            and_then (end_current_unit counted false)
              (λ ended. before ended.0 (start_unit ended.1 packet))
      ]
    ]
