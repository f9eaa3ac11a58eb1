-- ===== src/Tests/Video.antt =====
-- A field of two samples and one row through the video side, and a write that leaves the frame.
use st2110_obs_plugin.VideoFrame.{copy_bytes, row_data}
use st2110_obs_plugin.Assembler.{begin, end, mark_byte, mark_bytes}
use st2110_obs_plugin.Base.{
  ℕ, ◌≡◌, ◌↔◌, refl, true, false, none, some, List, [], ◌∷◌, arith, returns, undefined, throws,
  out_of_range,
}
use st2110_obs_plugin.VideoPacket.{VideoPacketView, no_segment}
use st2110_obs_plugin.VideoFrame.{VideoFrame, uyvy, plane_at, make_frame}
use st2110_obs_plugin.VideoFrame.Layout.{IsPacked, Inside, make_frame-IsPacked}
use st2110_obs_plugin.Assembler.{
  FrameAssembler, FrameWriteCoverage, AssembledVideoUnit, emit_with_flag, segment_unit, field_unit,
  VideoAssemblyUnitKind, make_assembler, write_segment, is_complete, reset_from, expected_sum,
}
use st2110_obs_plugin.Assembler.Completeness.{Write, mark_all, AllCovered, is_complete-covered}
use st2110_obs_plugin.Assembler.Segment.{Wrote, write_segment-Wrote}
use st2110_obs_plugin.Depacketizer.{Depacketizer, interlaced, push_packet, no_depacketizer_stats}
use st2110_obs_plugin.Depacketizer.Accounting.{Taken, push_packet-Taken}
use st2110_obs_plugin.Reconstructor.{PendingUnitPair, ReconstructedVideoFrame, no_units, push_unit}
use st2110_obs_plugin.Reconstructor.Pairing.{Matched, push_unit-Matched}
use st2110_obs_plugin.Tests.Parse.{datagram_header}

abbrev frame_with : List ℕ → VideoFrame
frame_with bytes = record {
  width = 2;
  height = 1;
  format = uyvy;
  frame_data = bytes;
  planes = plane_at 0 4 1 ∷ [];
}

abbrev blank : VideoFrame
blank = frame_with (0 ∷ 0 ∷ 0 ∷ 0 ∷ [])

makes_blank : make_frame 2 1 uyvy ≡ returns blank
unfolding make_frame
makes_blank = refl

make_frame-IsPacked_example : IsPacked 0 blank.planes × Inside 4 blank.planes
make_frame-IsPacked_example = make_frame-IsPacked 2 1 uyvy makes_blank (omega arith, tt)

abbrev coverage_with : List ℕ → ℕ → FrameWriteCoverage
coverage_with flags n = record {
  planes =
      record {
        active_row_bytes = 4;
        height_rows = 1;
        expected_bytes = 4;
        written_unique_bytes = n;
        written = flags;
      }
      ∷ [];
  total_expected_bytes = 4;
  total_written_unique_bytes = n;
}

abbrev assembler_with : ℕ → VideoFrame → FrameWriteCoverage → FrameAssembler
assembler_with timestamp frame coverage = record {
  width = 2;
  height = 1;
  format = uyvy;
  current_rtp_timestamp = timestamp;
  current_receive_timestamp_ns = 0;
  current_frame = frame;
  coverage = coverage;
  partial_policy = emit_with_flag;
}

abbrev fresh : FrameAssembler
fresh = assembler_with 1000 blank (coverage_with (0 ∷ 0 ∷ 0 ∷ 0 ∷ []) 0)

abbrev half_written : FrameAssembler
half_written =
    assembler_with 1000 (frame_with (0 ∷ 0 ∷ 7 ∷ 8 ∷ [])) (coverage_with (0 ∷ 0 ∷ 1 ∷ 1 ∷ []) 2)

writes_half : write_segment fresh 0 0 2 (7 ∷ 8 ∷ []) ≡ returns half_written
unfolding write_segment row_data copy_bytes mark_bytes mark_byte
writes_half = refl

-- Three bytes at the offset two of a row of four: the source copies them behind the frame.
leaves_frame : write_segment fresh 0 0 2 (7 ∷ 8 ∷ 9 ∷ []) ≡ undefined
unfolding write_segment row_data copy_bytes
leaves_frame = refl

-- A row that the frame does not have.
throws_on_row : write_segment fresh 0 1 0 (7 ∷ 8 ∷ []) ≡ throws out_of_range
unfolding write_segment row_data
throws_on_row = refl

write_segment-Wrote_example : Wrote fresh 0 0 2 (7 ∷ 8 ∷ []) half_written
write_segment-Wrote_example = write_segment-Wrote fresh 0 0 2 (7 ∷ 8 ∷ []) writes_half

abbrev two_writes : List Write
two_writes =
    record { plane = 0; row = 0; byte_offset = 0; count = 3 }
    ∷ record { plane = 0; row = 0; byte_offset = 2; count = 2 }
    ∷ []

marks_all : mark_all (reset_from blank) two_writes ≡ returns (coverage_with (1 ∷ 1 ∷ 1 ∷ 1 ∷ []) 4)
unfolding mark_all reset_from mark_bytes mark_byte
marks_all = refl

is_complete-covered_example :
    (is_complete (coverage_with (1 ∷ 1 ∷ 1 ∷ 1 ∷ []) 4) ≡ true)
    ↔ AllCovered two_writes 0 blank.planes
unfolding expected_sum
is_complete-covered_example = is_complete-covered blank two_writes marks_all (omega arith)

abbrev field_packet : VideoPacketView
field_packet = record {
  rtp = datagram_header;
  payload_data = 1 ∷ 2 ∷ 3 ∷ 4 ∷ [];
  receive_timestamp_ns = 0;
  segments =
      record {
        header = record {
          length_bytes = 4;
          row_number = 0;
          offset = 0;
          field_id = true;
          continuation = false;
        };
        bytes = 1 ∷ 2 ∷ 3 ∷ 4 ∷ [];
      }
      ∷ no_segment
      ∷ no_segment
      ∷ [];
  segment_count = 1;
  extended_seq = 7;
  trailing_padding = [];
}

abbrev idle : Depacketizer
idle = record {
  cfg = record {
    video_receive_completion_policy = record {
      unit_kind = field_unit;
      marker_terminates_current_unit = true;
    };
    scan_mode = interlaced;
    format = uyvy;
    width = 2;
    height = 2;
    policy = emit_with_flag;
  };
  assembler = fresh;
  current_key = none;
  stats = no_depacketizer_stats;
}

abbrev unit_with : VideoAssemblyUnitKind → ℕ → List ℕ → AssembledVideoUnit
unit_with kind sub bytes = record {
  frame = frame_with bytes;
  unit_kind = kind;
  rtp_timestamp = 1000;
  receive_timestamp_ns = 0;
  sub_unit_index = sub;
  marker_seen = true;
  can_emit = true;
  complete = true;
}

abbrev after_field : Depacketizer
after_field = record idle {
  assembler = assembler_with 1000 blank (coverage_with (1 ∷ 1 ∷ 1 ∷ 1 ∷ []) 4);
  stats = record no_depacketizer_stats { packets_in = 1; packets_used = 1; units_ok = 1 };
}

takes_field :
    push_packet idle field_packet
    ≡ returns (unit_with field_unit 1 (1 ∷ 2 ∷ 3 ∷ 4 ∷ []) ∷ [], after_field)
unfolding push_packet make_assembler make_frame write_segment row_data begin copy_bytes mark_bytes
    mark_byte end
takes_field = refl

push_packet-Taken_example :
    Taken idle (unit_with field_unit 1 (1 ∷ 2 ∷ 3 ∷ 4 ∷ []) ∷ []) after_field
push_packet-Taken_example = push_packet-Taken idle field_packet refl takes_field

abbrev waiting_segment : PendingUnitPair
waiting_segment = record no_units { first = some (unit_with segment_unit 0 (1 ∷ 2 ∷ 3 ∷ 4 ∷ [])) }

abbrev whole : ReconstructedVideoFrame
whole = record {
  frame = record {
    width = 2;
    height = 2;
    format = uyvy;
    frame_data = 1 ∷ 2 ∷ 3 ∷ 4 ∷ 5 ∷ 6 ∷ 7 ∷ 8 ∷ [];
    planes = plane_at 0 4 2 ∷ [];
  };
  rtp_timestamp = 1000;
  receive_timestamp_ns = 0;
  complete = true;
}

abbrev second_segment : AssembledVideoUnit
second_segment = unit_with segment_unit 1 (5 ∷ 6 ∷ 7 ∷ 8 ∷ [])

weaves :
    push_unit (record { format = uyvy; width = 2; height = 2 }) waiting_segment second_segment
    ≡ returns (some whole, no_units)
unfolding push_unit make_frame row_data copy_bytes
weaves = refl

push_unit-Matched_example : Matched waiting_segment second_segment whole no_units
push_unit-Matched_example =
    push_unit-Matched (record { format = uyvy; width = 2; height = 2 }) waiting_segment
      second_segment refl weaves
