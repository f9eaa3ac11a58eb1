-- ===== src/Assembler/Segment.antt =====
-- Where a segment is written.
use st2110_obs_plugin.Base.{
  ℕ, ◌+◌, ◌*◌, ◌-◌, ◌<◌, ◌≤◌, ◌≡◌, sym, take, drop, zero, suc, [], ◌∷◌, refl, drop-nil, ap, subst,
  ◌∙◌, inl, inr, Option-cases, some, List, length, get_elem?, arith, returns, and_then-returns,
}
use st2110_obs_plugin.VideoFrame.{Plane, VideoFrame, row_data, copy_bytes}
use st2110_obs_plugin.VideoFrame.Writing.{Copied, copy_bytes-Copied}
use st2110_obs_plugin.Assembler.{FrameAssembler, mark_written, write_segment}

pub record Wrote (a : FrameAssembler) (plane row byte_offset : ℕ) (bytes : List ℕ)
    (a' : FrameAssembler) : Type 0 where
  pub target : Plane
  pub has_plane : get_elem? a.current_frame.planes plane ≡ some target
  pub has_row : row < target.height_rows
  pub copied :
      Copied a.current_frame.frame_data
        (target.offset_bytes + row * target.stride_bytes + byte_offset)
        bytes
        a'.current_frame.frame_data
  pub marked : mark_written a.coverage plane row byte_offset (length bytes) ≡ returns a'.coverage
  pub other_rows :
      byte_offset + length bytes ≤ target.stride_bytes
      → let row_start = target.offset_bytes + row * target.stride_bytes in
        (take row_start a'.current_frame.frame_data ≡ take row_start a.current_frame.frame_data)
        × (drop (row_start + target.stride_bytes) a'.current_frame.frame_data
            ≡ drop (row_start + target.stride_bytes) a.current_frame.frame_data)
  pub same_planes : a'.current_frame.planes ≡ a.current_frame.planes

take-take : (n m : ℕ) (xs : List ℕ) → n ≤ m → take n (take m xs) ≡ take n xs
take-take zero m xs h = refl
take-take (suc n) zero xs h = absurd (omega arith)
take-take (suc n) (suc m) [] h = refl
take-take (suc n) (suc m) (x ∷ xs) h = ap (◌∷◌ x) (take-take n m xs (omega arith))

drop-drop : (n m : ℕ) (xs : List ℕ) → n ≤ m → drop (m - n) (drop n xs) ≡ drop m xs
drop-drop zero m xs h = ap (λ k. drop k xs) (omega arith)
drop-drop (suc n) zero xs h = absurd (omega arith)
drop-drop (suc n) (suc m) [] h = drop-nil ℕ (suc m - suc n)
drop-drop (suc n) (suc m) (x ∷ xs) h =
    ap (λ k. drop k (drop n xs)) (omega arith) ∙ drop-drop n m xs (omega arith)

take_less : (n m : ℕ) (xs ys : List ℕ) → n ≤ m → take m xs ≡ take m ys → take n xs ≡ take n ys
take_less n m xs ys h e = sym (take-take n m xs h) ∙ ap (take n) e ∙ take-take n m ys h

drop_more : (n m : ℕ) (xs ys : List ℕ) → n ≤ m → drop n xs ≡ drop n ys → drop m xs ≡ drop m ys
drop_more n m xs ys h e = sym (drop-drop n m xs h) ∙ ap (drop (m - n)) e ∙ drop-drop n m ys h

-- What is copied into one row leaves the others alone.
Copied-rows :
    (target bytes out : List ℕ) (start off stride : ℕ)
    → Copied target (start + off) bytes out
    → off + length bytes ≤ stride
    → (take start out ≡ take start target)
      × (drop (start + stride) out ≡ drop (start + stride) target)
Copied-rows target bytes out start off stride c h = (
  take_less start (start + off) out target (omega arith) c.before,
  drop_more (start + off + length bytes) (start + stride) out target (omega arith) c.after,
)

row_data_lem :
    (f : VideoFrame) (row plane : ℕ) {start : ℕ}
    → row_data f row plane ≡ returns start
    → (p : Plane) × (get_elem? f.planes plane ≡ some p)
      × (row < p.height_rows)
      × (start ≡ p.offset_bytes + row * p.stride_bytes)
unfolding row_data
row_data_lem f row plane h = elim (Option-cases (get_elem? f.planes plane)) [
  | inl e ↦ absurd (ground arith)
  | inr (p, e) ↦ (p, e, ground arith, ground arith)
]

-- A segment whose write neither throws nor leaves the frame is written from its offset in its row of
-- its plane on: the bytes there are the segment's, every other byte of the frame is as before, and
-- just these bytes are handed to the coverage. The source does not stop at the end of the row; where
-- offset and segment do fit the row, no byte in front of the row or behind it is changed.
pub write_segment-Wrote :
    (a : FrameAssembler) (plane row byte_offset : ℕ) (bytes : List ℕ) {a' : FrameAssembler}
    → write_segment a plane row byte_offset bytes ≡ returns a'
    → Wrote a plane row byte_offset bytes a'
unfolding write_segment
write_segment-Wrote a plane row off bytes {a'} e =
    let (start, m, e1) = and_then-returns (row_data a.current_frame row plane) _ e in
    let (out, n, e2) =
      and_then-returns (copy_bytes a.current_frame.frame_data (start + off) bytes) _ e1 in
    let (c, o, e3) = and_then-returns (mark_written a.coverage plane row off (length bytes)) _ e2 in
    let (p, h, k, s) = row_data_lem a.current_frame row plane m in
    let d : out ≡ a'.current_frame.frame_data = ground arith in
    let f : c ≡ a'.coverage = ground arith in
    let landed : Copied a.current_frame.frame_data (p.offset_bytes + row * p.stride_bytes + off)
        bytes a'.current_frame.frame_data =
      subst (Copied a.current_frame.frame_data (p.offset_bytes + row * p.stride_bytes + off) bytes)
        d
        (subst (λ at. Copied a.current_frame.frame_data (at + off) bytes out) s
          (copy_bytes-Copied a.current_frame.frame_data bytes (start + off) n)) in
    record {
      target = p;
      has_plane = h;
      has_row = k;
      copied = landed;
      other_rows =
          Copied-rows _ bytes _ (p.offset_bytes + row * p.stride_bytes) off p.stride_bytes landed;
      marked = o ∙ ap returns f;
      same_planes = ground arith;
    }
