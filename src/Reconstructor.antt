-- ===== src/Reconstructor.antt =====
-- libs/st2110core/include/st2110/receive/video/video_unit_reconstructor.hpp and
-- video_receive_pipeline.hpp: fields and segments are put together into frames.
pub mod Pairing
use st2110_obs_plugin.Base.{
  ℕ, zero, suc, ◌+◌, ◌*◌, Bool, true, false, not, ◌&&◌, Option, none, some, List, [], ◌∷◌, ◌++◌,
  length, take, drop, ltb, get_elem?, ◌==◌, if◌then◌else◌, Outcome, returns, throws, undefined,
  and_then, out_of_range, ◌%◌, u32_mod,
}
use st2110_obs_plugin.VideoPacket.{VideoPacketView}
use st2110_obs_plugin.VideoFrame.{PixelFormat, Plane, VideoFrame, make_frame, row_data, copy_bytes}
use st2110_obs_plugin.Assembler.{
  AssembledVideoUnit, VideoAssemblyUnitKind, frame_unit, field_unit, segment_unit,
}
use st2110_obs_plugin.Depacketizer.{
  Depacketizer, DepacketizerConfig, make_depacketizer, push_packet,
}

pub record VideoUnitReconstructorConfig : Type 0 where
  pub format : PixelFormat
  pub width : ℕ
  pub height : ℕ

pub record ReconstructedVideoFrame : Type 0 where
  pub frame : VideoFrame
  pub rtp_timestamp : ℕ
  pub receive_timestamp_ns : ℕ
  pub complete : Bool

pub record PendingUnitPair : Type 0 where
  pub first : Option AssembledVideoUnit
  pub second : Option AssembledVideoUnit

abbrev pub no_units : PendingUnitPair
no_units = record { first = none; second = none }

-- `std::memcpy` out of the data of a frame. A pointer behind the end of the data is undefined.
unfoldable pub read_bytes : List ℕ → ℕ → ℕ → Outcome (List ℕ)
read_bytes source position count =
    if ltb (length source) (position + count)
    then undefined
    else returns (take count (drop position source))

-- One row of `copy_sub_unit_rows`.
unfoldable pub copy_row : ℕ → VideoFrame → ℕ → ℕ → ℕ → VideoFrame → Outcome VideoFrame
unfolding read_bytes
copy_row row_bytes src sub_unit_index plane src_row dst =
    and_then (row_data dst ((src_row * 2 + sub_unit_index) % u32_mod) plane) (λ to.
      and_then (row_data src src_row plane) (λ from.
        and_then (read_bytes src.frame_data from row_bytes) (λ bytes.
          and_then (copy_bytes dst.frame_data to bytes)
            (λ copied. returns (record dst { frame_data = copied })))))

-- The loop over the rows of a plane, on the rounds that are left.
unfoldable pub copy_rows : ℕ → ℕ → VideoFrame → ℕ → ℕ → ℕ → VideoFrame → Outcome VideoFrame
unfolding copy_row
copy_rows zero row_bytes src sub_unit_index plane src_row dst = returns dst
copy_rows (suc rounds) row_bytes src sub_unit_index plane src_row dst =
    and_then (copy_row row_bytes src sub_unit_index plane src_row dst)
      (copy_rows rounds row_bytes src sub_unit_index plane (src_row + 1))

-- The loop over the planes of the destination; the planes stay as they are. A plane that the source
-- does not have throws.
unfoldable pub copy_planes : List Plane → VideoFrame → ℕ → ℕ → VideoFrame → Outcome VideoFrame
unfolding copy_rows
copy_planes [] src sub_unit_index plane dst = returns dst
copy_planes (p ∷ ps) src sub_unit_index plane dst = elim (get_elem? src.planes plane) [
  | none ↦ throws out_of_range
  | some q ↦
      and_then (copy_rows q.height_rows p.active_row_bytes src sub_unit_index plane 0 dst)
        (copy_planes ps src sub_unit_index (plane + 1))
]

unfoldable pub copy_sub_unit_rows : VideoFrame → VideoFrame → ℕ → Outcome VideoFrame
unfolding copy_planes
copy_sub_unit_rows dst src sub_unit_index = copy_planes dst.planes src sub_unit_index 0 dst

-- Two units become a frame.
unfoldable pub combine :
    VideoUnitReconstructorConfig
    → AssembledVideoUnit
    → AssembledVideoUnit
    → Outcome ReconstructedVideoFrame
unfolding copy_sub_unit_rows
combine cfg first second = and_then (make_frame cfg.width cfg.height cfg.format) (λ frame.
    and_then (copy_sub_unit_rows frame first.frame 0) (λ half.
      and_then (copy_sub_unit_rows half second.frame 1) (λ whole. returns (record {
        frame = whole;
        rtp_timestamp = first.rtp_timestamp;
        receive_timestamp_ns = first.receive_timestamp_ns;
        complete = first.complete && second.complete;
      }))))

-- A pair with both units is used up.
unfoldable pub join :
    VideoUnitReconstructorConfig
    → PendingUnitPair
    → Outcome (Option ReconstructedVideoFrame × PendingUnitPair)
unfolding combine
join cfg pair = elim pair.first [
  | none ↦ returns (none, pair)
  | some first ↦ elim pair.second [
    | none ↦ returns (none, pair)
    | some second ↦ and_then (combine cfg first second) (λ frame. returns (some frame, no_units))
  ]
]

unfoldable pub place_field : PendingUnitPair → AssembledVideoUnit → PendingUnitPair
place_field pair unit =
    if unit.sub_unit_index == 0
    then record pair { first = some unit }
    else record pair { second = some unit }

-- A waiting unit of another timestamp is dropped.
unfoldable pub keep_matching : Option AssembledVideoUnit → ℕ → Option AssembledVideoUnit
keep_matching none rtp_timestamp = none
keep_matching (some u) rtp_timestamp = if u.rtp_timestamp == rtp_timestamp then some u else none

unfoldable pub place_segment : PendingUnitPair → AssembledVideoUnit → PendingUnitPair
unfolding keep_matching
place_segment pair unit =
    if unit.sub_unit_index == 0
    then record { first = some unit; second = keep_matching pair.second unit.rtp_timestamp }
    else record { first = keep_matching pair.first unit.rtp_timestamp; second = some unit }

-- The switch of `push`.
unfoldable pub push_kind :
    VideoUnitReconstructorConfig
    → PendingUnitPair
    → AssembledVideoUnit
    → VideoAssemblyUnitKind
    → Outcome (Option ReconstructedVideoFrame × PendingUnitPair)
unfolding join place_field place_segment
push_kind cfg pair unit frame_unit = returns (
  some (record {
    frame = unit.frame;
    rtp_timestamp = unit.rtp_timestamp;
    receive_timestamp_ns = unit.receive_timestamp_ns;
    complete = unit.complete;
  }),
  pair,
)
push_kind cfg pair unit field_unit = join cfg (place_field pair unit)
push_kind cfg pair unit segment_unit = join cfg (place_segment pair unit)

unfoldable pub push_unit :
    VideoUnitReconstructorConfig
    → PendingUnitPair
    → AssembledVideoUnit
    → Outcome (Option ReconstructedVideoFrame × PendingUnitPair)
unfolding push_kind
push_unit cfg pair unit = push_kind cfg pair unit unit.unit_kind

pub record VideoReceivePipeline : Type 0 where
  pub depacketizer : Depacketizer
  pub reconstructor : VideoUnitReconstructorConfig
  pub unit_pair : PendingUnitPair

unfoldable pub make_pipeline :
    DepacketizerConfig → VideoUnitReconstructorConfig → Outcome VideoReceivePipeline
make_pipeline depacketizer reconstructor = and_then (make_depacketizer depacketizer) (λ d.
    returns (record { depacketizer = d; reconstructor = reconstructor; unit_pair = no_units }))

abbrev pub frames_with :
    Option ReconstructedVideoFrame → List ReconstructedVideoFrame → List ReconstructedVideoFrame
frames_with none frames = frames
frames_with (some f) frames = f ∷ frames

-- The loop over the units.
unfoldable pub push_units :
    VideoUnitReconstructorConfig
    → List AssembledVideoUnit
    → PendingUnitPair
    → Outcome (List ReconstructedVideoFrame × PendingUnitPair)
unfolding push_unit
push_units cfg [] pair = returns ([], pair)
push_units cfg (unit ∷ units) pair =
    and_then (push_unit cfg pair unit)
      (λ r. and_then (push_units cfg units r.1) (λ s. returns (frames_with r.0 s.0, s.1)))

unfoldable pub push_pipeline :
    VideoReceivePipeline
    → VideoPacketView
    → Outcome (List ReconstructedVideoFrame × VideoReceivePipeline)
unfolding push_units
push_pipeline p packet = and_then (push_packet p.depacketizer packet) (λ r.
    and_then (push_units p.reconstructor r.0 p.unit_pair)
      (λ s. returns (s.0, record p { depacketizer = r.1; unit_pair = s.1 })))
