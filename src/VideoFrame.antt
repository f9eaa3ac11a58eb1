-- ===== src/VideoFrame.antt =====
-- libs/st2110core/include/st2110/delivery/video/pixel_format.hpp and video_frame.hpp: the layout of a
-- frame in planes, and access to its rows. `planes_[4]` with `planes_count_` is the list of the planes
-- that count; `frame_data` is a list of bytes. Sizes wrap at 2^64; the memory never runs out.
pub mod Layout
pub mod Writing
use st2110_obs_plugin.Base.{
  ℕ, zero, suc, ◌+◌, ◌*◌, ◌/◌, ◌%◌, max, Bool, true, false, ◌||◌, Option, none, some, List, [], ◌∷◌,
  ◌++◌, length, get_elem?, take, drop, replicate, ltb, ◌==◌, if◌then◌else◌, Outcome, returns,
  throws, undefined, and_then, invalid_argument, out_of_range, u64_mod,
}

pub data PixelFormat : Type 0 where
  uyvy : PixelFormat
  rgb8 : PixelFormat
  yuv422_rfc4175_pg2_be10 : PixelFormat
  yuv422_rfc4175_pg2_be12 : PixelFormat
  yuv444_rfc4175_pg4_be10 : PixelFormat
  yuv444_rfc4175_pg2_be12 : PixelFormat
  rgb_rfc4175_pg4_be10 : PixelFormat
  rgb_rfc4175_pg2_be12 : PixelFormat
  yuv422_planar8 : PixelFormat
  yuv422_planar10_le : PixelFormat
  yuv422_planar12_le : PixelFormat
  yuv422_planar16_le : PixelFormat
  yuv444_planar10_le : PixelFormat
  yuv444_planar12_le : PixelFormat
  yuv420_planar8 : PixelFormat
  bgra : PixelFormat
  argb : PixelFormat
  v210 : PixelFormat
  y210 : PixelFormat

pub record Plane : Type 0 where
  pub offset_bytes : ℕ
  pub stride_bytes : ℕ
  pub active_row_bytes : ℕ
  pub height_rows : ℕ

pub record VideoFrame : Type 0 where
  pub width : ℕ
  pub height : ℕ
  pub format : PixelFormat
  pub frame_data : List ℕ
  pub planes : List Plane

-- Where a plane ends: `offset_bytes + stride_bytes * height_rows`
abbrev pub end_bytes : Plane → ℕ
end_bytes p = (p.offset_bytes + p.stride_bytes * p.height_rows) % u64_mod

unfoldable pub require_multiple : ℕ → ℕ → List Plane → Outcome (List Plane)
require_multiple n divisor planes =
    if n % divisor == 0 then returns planes else throws invalid_argument

abbrev pub plane_at : ℕ → ℕ → ℕ → Plane
plane_at offset row_bytes rows = record {
  offset_bytes = offset;
  stride_bytes = row_bytes;
  active_row_bytes = row_bytes;
  height_rows = rows;
}

abbrev pub configure_single_plane : ℕ → ℕ → List Plane
configure_single_plane height active_row_bytes = plane_at 0 active_row_bytes height ∷ []

unfoldable pub configure_three_planes : ℕ → ℕ → ℕ → ℕ → ℕ → ℕ → List Plane
configure_three_planes bytes0 bytes1 bytes2 rows0 rows1 rows2 =
    let plane0 = plane_at 0 bytes0 rows0 in
    let plane1 = plane_at (end_bytes plane0) bytes1 rows1 in
    let plane2 = plane_at (end_bytes plane1) bytes2 rows2 in plane0 ∷ plane1 ∷ plane2 ∷ []

-- The switch of `fill_planes`; the widths have 32 bits, so no row wraps.
unfoldable pub planes_of : ℕ → ℕ → PixelFormat → Outcome (List Plane)
unfolding configure_three_planes require_multiple
planes_of width height uyvy = require_multiple width 2 (configure_single_plane height (width * 2))
planes_of width height rgb8 = returns (configure_single_plane height (width * 3))
planes_of width height bgra = returns (configure_single_plane height (width * 4))
planes_of width height argb = returns (configure_single_plane height (width * 4))
planes_of width height y210 = require_multiple width 2 (configure_single_plane height (width * 4))
planes_of width height v210 =
    require_multiple width 6 (configure_single_plane height (width / 6 * 16))
planes_of width height yuv422_rfc4175_pg2_be10 =
    require_multiple width 2 (configure_single_plane height (width / 2 * 5))
planes_of width height yuv422_rfc4175_pg2_be12 =
    require_multiple width 2 (configure_single_plane height (width / 2 * 6))
planes_of width height yuv444_rfc4175_pg4_be10 =
    require_multiple width 4 (configure_single_plane height (width / 4 * 15))
planes_of width height rgb_rfc4175_pg4_be10 =
    require_multiple width 4 (configure_single_plane height (width / 4 * 15))
planes_of width height yuv444_rfc4175_pg2_be12 =
    require_multiple width 2 (configure_single_plane height (width / 2 * 9))
planes_of width height rgb_rfc4175_pg2_be12 =
    require_multiple width 2 (configure_single_plane height (width / 2 * 9))
planes_of width height yuv422_planar8 =
    require_multiple width 2
      (configure_three_planes width (width / 2) (width / 2) height height height)
planes_of width height yuv422_planar10_le =
    require_multiple width 2
      (configure_three_planes (width * 2) (width / 2 * 2) (width / 2 * 2) height height height)
planes_of width height yuv422_planar12_le =
    require_multiple width 2
      (configure_three_planes (width * 2) (width / 2 * 2) (width / 2 * 2) height height height)
planes_of width height yuv422_planar16_le =
    require_multiple width 2
      (configure_three_planes (width * 2) (width / 2 * 2) (width / 2 * 2) height height height)
planes_of width height yuv444_planar10_le =
    returns (configure_three_planes (width * 2) (width * 2) (width * 2) height height height)
planes_of width height yuv444_planar12_le =
    returns (configure_three_planes (width * 2) (width * 2) (width * 2) height height height)
planes_of width height yuv420_planar8 =
    and_then
      (require_multiple width 2
        (configure_three_planes width (width / 2) (width / 2) height (height / 2) (height / 2)))
      (require_multiple height 2)

unfoldable pub fill_planes : ℕ → ℕ → PixelFormat → Outcome (List Plane)
unfolding planes_of
fill_planes width height format =
    if width == 0 || height == 0 then throws invalid_argument else planes_of width height format

-- The loop over the planes of the constructor.
unfoldable pub total_size : ℕ → List Plane → ℕ
total_size size [] = size
total_size size (p ∷ ps) = total_size (max size (end_bytes p)) ps

unfoldable pub make_frame : ℕ → ℕ → PixelFormat → Outcome VideoFrame
unfolding fill_planes total_size
make_frame width height format = and_then (fill_planes width height format) (λ planes.
    returns (record {
      width = width;
      height = height;
      format = format;
      frame_data = replicate (total_size 0 planes) 0;
      planes = planes;
    }))

-- The position of the row that `row_data` points to.
unfoldable pub row_data : VideoFrame → ℕ → ℕ → Outcome ℕ
row_data f row plane = elim (get_elem? f.planes plane) [
  | none ↦ throws out_of_range
  | some p ↦
      if ltb row p.height_rows
      then returns (p.offset_bytes + row * p.stride_bytes)
      else throws out_of_range
]

-- `std::memcpy` into the frame. A pointer behind the end of the data is undefined.
unfoldable pub copy_bytes : List ℕ → ℕ → List ℕ → Outcome (List ℕ)
copy_bytes target position bytes =
    if ltb (length target) (position + length bytes)
    then undefined
    else returns (take position target ++ (bytes ++ drop (position + length bytes) target))
