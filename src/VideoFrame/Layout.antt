-- ===== src/VideoFrame/Layout.antt =====
-- The layout of every frame that can be made.
use st2110_obs_plugin.Base.{
  ℕ, ◌+◌, ◌*◌, ◌≤◌, ◌<◌, ◌≡◌, max, refl, List, [], ◌∷◌, length, replicate, All, arith, returns,
  length-replicate, u64_mod, Outcome, throws, undefined, and_then, subst,
}
use st2110_obs_plugin.VideoFrame.{
  PixelFormat, Plane, VideoFrame, end_bytes, planes_of, fill_planes, total_size, make_frame,
}

-- Each plane starts where the one before it ends, the rows are packed, and none is of another height
-- than the plane says.
abbrev pub IsPacked : ℕ → List Plane → Type 0
IsPacked start [] = Unit
IsPacked start (p ∷ ps) =
    (p.offset_bytes ≡ start) × (p.stride_bytes ≡ p.active_row_bytes) × IsPacked (end_bytes p) ps

abbrev pub Unwrapped : List Plane → Type 0
Unwrapped = All (λ p. p.offset_bytes + p.stride_bytes * p.height_rows < u64_mod)

abbrev pub Inside : ℕ → List Plane → Type 0
Inside size = All (λ p. p.offset_bytes + p.stride_bytes * p.height_rows ≤ size)

planes_of-IsPacked :
    (w h : ℕ) (fmt : PixelFormat) (ps : List Plane) → planes_of w h fmt ≡ returns ps → IsPacked 0 ps
unfolding planes_of
planes_of-IsPacked w h fmt ps e = ground arith

fill_planes-IsPacked :
    (w h : ℕ) (fmt : PixelFormat) (ps : List Plane)
    → fill_planes w h fmt ≡ returns ps
    → IsPacked 0 ps
unfolding fill_planes
fill_planes-IsPacked w h fmt ps e = planes_of-IsPacked w h fmt ps (ground arith)

total_size-least : (n : ℕ) (ps : List Plane) → n ≤ total_size n ps
unfolding total_size
total_size-least n [] = omega arith
total_size-least n (p ∷ ps) = let h = total_size-least (max n (end_bytes p)) ps in omega arith

total_size-Inside : (n : ℕ) (ps : List Plane) → Unwrapped ps → Inside (total_size n ps) ps
unfolding total_size
total_size-Inside n [] u = tt
total_size-Inside n (p ∷ ps) (a, u) =
    let h = total_size-least (max n (end_bytes p)) ps in
    (omega arith, total_size-Inside (max n (end_bytes p)) ps u)

-- A frame that could be made, in whose layout no size wraps at 2^64, has its planes packed: the first
-- at the start, each next where the one before ends, rows without gaps, and all inside the data.
pub make_frame-IsPacked :
    (w h : ℕ) (fmt : PixelFormat) {f : VideoFrame}
    → make_frame w h fmt ≡ returns f
    → Unwrapped f.planes
    → IsPacked 0 f.planes × Inside (length f.frame_data) f.planes
make_frame-IsPacked w h fmt {f} e u = go (fill_planes w h fmt) refl (unfold make_frame in e)
  where
    go :
        (o : Outcome (List Plane))
        → fill_planes w h fmt ≡ o
        → and_then o (λ planes. returns (record {
          width = w;
          height = h;
          format = fmt;
          frame_data = replicate (total_size 0 planes) 0;
          planes = planes;
        }))
          ≡ returns f
        → IsPacked 0 f.planes × Inside (length f.frame_data) f.planes
    go (throws x) p q = absurd (ground arith)
    go undefined p q = absurd (ground arith)
    go (returns ps) p q =
        let g : f.planes ≡ ps = ground arith in
        let d : f.frame_data ≡ replicate (total_size 0 ps) 0 = ground arith in
        rw (d, g, length-replicate {A = ℕ} (total_size 0 ps) 0)
          (fill_planes-IsPacked w h fmt ps p, total_size-Inside 0 ps (subst Unwrapped g u))
