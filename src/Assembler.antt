-- ===== src/Assembler.antt =====
-- libs/st2110core/include/st2110/receive/video/frame_write_coverage.hpp and frame_assembler.hpp: one
-- frame in the making, and which of its bytes have been written. `written` has one flag a byte, as in
-- the source. An index outside a vector, and a pointer outside the frame's data, are undefined.
pub mod Tally
pub mod Completeness
pub mod Segment
use st2110_obs_plugin.Base.{
  ℕ, zero, suc, ◌+◌, ◌*◌, Bool, true, false, not, ◌&&◌, Option, none, some, List, [], ◌∷◌, map,
  length, get_elem?, set, replicate, ◌==◌, if◌then◌else◌, Outcome, returns, throws, undefined,
  and_then,
}
use st2110_obs_plugin.VideoFrame.{PixelFormat, Plane, VideoFrame, make_frame, row_data, copy_bytes}

pub record PlaneWriteCoverage : Type 0 where
  pub active_row_bytes : ℕ
  pub height_rows : ℕ
  pub expected_bytes : ℕ
  pub written_unique_bytes : ℕ
  pub written : List ℕ

pub record FrameWriteCoverage : Type 0 where
  pub planes : List PlaneWriteCoverage
  pub total_expected_bytes : ℕ
  pub total_written_unique_bytes : ℕ

abbrev pub cover_plane : Plane → PlaneWriteCoverage
cover_plane p = record {
  active_row_bytes = p.active_row_bytes;
  height_rows = p.height_rows;
  expected_bytes = p.active_row_bytes * p.height_rows;
  written_unique_bytes = 0;
  written = replicate (p.active_row_bytes * p.height_rows) 0;
}

-- The bytes of all planes; the source's sum is far below 2^64, since a side has at most 32767 pixels.
unfoldable pub expected_sum : List Plane → ℕ
expected_sum [] = 0
expected_sum (p ∷ ps) = p.active_row_bytes * p.height_rows + expected_sum ps

unfoldable pub reset_from : VideoFrame → FrameWriteCoverage
unfolding expected_sum
reset_from frame = record {
  planes = map cover_plane frame.planes;
  total_expected_bytes = expected_sum frame.planes;
  total_written_unique_bytes = 0;
}

-- One round of the loop of `mark_written`, on the plane and the counter of the frame.
unfoldable pub mark_byte : PlaneWriteCoverage → ℕ → ℕ → Outcome (PlaneWriteCoverage × ℕ)
mark_byte p total index = elim (get_elem? p.written index) [
  | none ↦ undefined
  | some byte ↦ returns (
      if byte == 0
      then (
        record p {
          written = set p.written index 1;
          written_unique_bytes = p.written_unique_bytes + 1;
        },
        total + 1,
      )
      else (p, total))
]

-- The rounds that are left, from the byte at `index` on.
unfoldable pub mark_bytes : ℕ → PlaneWriteCoverage → ℕ → ℕ → Outcome (PlaneWriteCoverage × ℕ)
mark_bytes zero p total index = returns (p, total)
mark_bytes (suc rounds) p total index =
    and_then (mark_byte p total index) (λ s. mark_bytes rounds s.0 s.1 (index + 1))

unfoldable pub mark_written : FrameWriteCoverage → ℕ → ℕ → ℕ → ℕ → Outcome FrameWriteCoverage
mark_written c plane row byte_offset count = elim (get_elem? c.planes plane) [
  | none ↦ undefined
  | some p ↦
      and_then
        (mark_bytes count p c.total_written_unique_bytes (row * p.active_row_bytes + byte_offset))
        (λ s.
          returns (record c { planes = set c.planes plane s.0; total_written_unique_bytes = s.1 }))
]

unfoldable pub is_complete : FrameWriteCoverage → Bool
is_complete c =
    not (c.total_expected_bytes == 0) && c.total_written_unique_bytes == c.total_expected_bytes

pub data PartialUnitPolicy : Type 0 where
  emit_with_flag : PartialUnitPolicy
  drop_partial : PartialUnitPolicy

pub data FrameAssemblerEndStatus : Type 0 where
  not_emittable : FrameAssemblerEndStatus
  emitted_complete : FrameAssemblerEndStatus
  emitted_partial : FrameAssemblerEndStatus
  dropped_partial : FrameAssemblerEndStatus

pub data VideoAssemblyUnitKind : Type 0 where
  frame_unit : VideoAssemblyUnitKind
  field_unit : VideoAssemblyUnitKind
  segment_unit : VideoAssemblyUnitKind

pub record AssembledVideoUnit : Type 0 where
  pub frame : VideoFrame
  pub unit_kind : VideoAssemblyUnitKind
  pub rtp_timestamp : ℕ
  pub receive_timestamp_ns : ℕ
  pub sub_unit_index : ℕ
  pub marker_seen : Bool
  pub can_emit : Bool
  pub complete : Bool

pub record FrameAssemblerEndResult : Type 0 where
  pub unit : Option AssembledVideoUnit
  pub status : FrameAssemblerEndStatus

pub record FrameAssembler : Type 0 where
  pub width : ℕ
  pub height : ℕ
  pub format : PixelFormat
  pub current_rtp_timestamp : ℕ
  pub current_receive_timestamp_ns : ℕ
  pub current_frame : VideoFrame
  pub coverage : FrameWriteCoverage
  pub partial_policy : PartialUnitPolicy

unfoldable pub make_assembler : ℕ → ℕ → PixelFormat → PartialUnitPolicy → Outcome FrameAssembler
unfolding reset_from
make_assembler width height format policy = and_then (make_frame width height format) (λ frame.
    returns (record {
      width = width;
      height = height;
      format = format;
      current_rtp_timestamp = 0;
      current_receive_timestamp_ns = 0;
      current_frame = frame;
      coverage = reset_from frame;
      partial_policy = policy;
    }))

unfoldable pub begin : FrameAssembler → ℕ → ℕ → FrameAssembler
unfolding reset_from
begin a rtp_timestamp receive_timestamp_ns = record a {
  current_rtp_timestamp = rtp_timestamp;
  current_receive_timestamp_ns = receive_timestamp_ns;
  coverage = reset_from a.current_frame;
}

unfoldable pub write_segment : FrameAssembler → ℕ → ℕ → ℕ → List ℕ → Outcome FrameAssembler
unfolding mark_written
write_segment a plane row byte_offset bytes =
    and_then (row_data a.current_frame row plane) (λ start.
      and_then (copy_bytes a.current_frame.frame_data (start + byte_offset) bytes) (λ copied.
        and_then (mark_written a.coverage plane row byte_offset (length bytes)) (λ marked.
          returns (record a {
            current_frame = record a.current_frame { frame_data = copied };
            coverage = marked;
          }))))

-- `current_frame_ = VideoFrame(width_, height_, format_)`
abbrev pub renew : FrameAssembler → Outcome FrameAssembler
renew a =
    and_then (make_frame a.width a.height a.format)
      (λ frame. returns (record a { current_frame = frame }))

unfoldable pub finished : FrameAssembler → Bool → Bool → AssembledVideoUnit
finished a marker complete = record {
  frame = a.current_frame;
  unit_kind = frame_unit;
  rtp_timestamp = a.current_rtp_timestamp;
  receive_timestamp_ns = a.current_receive_timestamp_ns;
  sub_unit_index = 0;
  marker_seen = marker;
  can_emit = true;
  complete = complete;
}

-- What `end` returns, and its new state is `renew`'s on every path.
unfoldable pub end_result : FrameAssembler → Bool → Bool → FrameAssemblerEndResult
unfolding is_complete finished
end_result a marker can_emit =
    let fully_written = is_complete a.coverage in
    if not can_emit then record { unit = none; status = not_emittable } else elim fully_written [
      | true ↦ record { unit = some (finished a marker true); status = emitted_complete }
      | false ↦ elim a.partial_policy [
        | drop_partial ↦ record { unit = none; status = dropped_partial }
        | emit_with_flag ↦ record {
          unit = some (finished a marker false);
          status = emitted_partial;
        }
      ]
    ]

unfoldable pub end :
    FrameAssembler → Bool → Bool → Outcome (FrameAssemblerEndResult × FrameAssembler)
unfolding end_result
end a marker can_emit =
    and_then (renew a) (λ renewed. returns (end_result a marker can_emit, renewed))
