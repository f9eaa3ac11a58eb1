-- ===== src/Reorder/Bound.antt =====
-- The reorder buffer never holds more packets than its window is wide.
use st2110_obs_plugin.Base.{
  ℕ, zero, suc, ◌≤◌, ◌<◌, ◌≢◌, Bool, ◌≡◌, ◌∙◌, refl, some, List, [], ◌∷◌, All, arith, length,
}
use st2110_obs_plugin.Stored.{StoredPacket, reorder_sequence}
use st2110_obs_plugin.Reorder.Entries.{
  Entry, erase, IsOrdered, All-erase, All-map, All-and, erase-IsOrdered, erase-ne, length-erase,
}
use st2110_obs_plugin.Reorder.Invariant.{IsValid, Fits, distance-next, next-lt, make-IsValid}
use st2110_obs_plugin.Reorder.Pushing.{push_cases}
use st2110_obs_plugin.Reorder.Delivery.{
  Op, pushes, pops, flushes_once, flushes_after, flushes_at_marker, step, run, run-IsValid,
}
use st2110_obs_plugin.Reorder.{
  Buffer, make, modulus, next, cast, store_packet, push_ahead, advance_expected_to, admit, pop_next,
  flush_missing_once, flush_after_n_packets, flush_missing_until_marker_boundary,
}

-- Without the expected number the packets fit a window that is narrower by one and starts one later.
narrow :
    (is_video : Bool) (w n : ℕ) (es : List (Entry StoredPacket))
    → n < modulus is_video
    → All (Fits is_video (suc w) n) es
    → All (λ e. e.key ≢ n) es
    → All (Fits is_video w (next is_video n)) es
narrow is_video w n es h f g =
    All-map _ _ es
      (λ e p. (p.0.0, p.0.1, omega (arith, distance-next is_video n e.key h p.0.0 p.1, p.0.2)))
      (All-and _ _ es f g)

length-le_window :
    (is_video : Bool) (w n : ℕ) (es : List (Entry StoredPacket))
    → n < modulus is_video
    → IsOrdered es
    → All (Fits is_video w n) es
    → length es ≤ w
length-le_window is_video zero n [] h o f = omega arith
length-le_window is_video zero n (e ∷ es) h o f = absurd (omega (arith, f.0.2))
length-le_window is_video (suc w) n es h o f = omega (
  arith,
  length-erase n es,
  length-le_window is_video w (next is_video n) (erase n es) (next-lt is_video n)
      (erase-IsOrdered n es o)
      (narrow is_video w n (erase n es) h (All-erase _ n es f) (erase-ne n es o)),
)

-- A valid buffer holds no more packets than its window is wide.
pub length-le-window_size :
    (is_video : Bool) {b : Buffer} → IsValid is_video b → length b.packets ≤ b.window_size
length-le-window_size is_video {b} v =
    length-le_window is_video b.window_size b.next_expected b.packets v.next_width v.ordered
      v.fitting

-- No call changes the window's size.
module _ (is_video : Bool) where
  store_packet-window :
      (b : Buffer) (seq : ℕ) (packet : StoredPacket)
      → (store_packet is_video b seq packet).1.window_size ≡ b.window_size
  unfolding store_packet
  store_packet-window b seq packet = ground arith

  admit-window : (b : Buffer) (seq : ℕ) → (admit is_video b seq).window_size ≡ b.window_size
  unfolding admit
  admit-window b seq = ground arith

  push_ahead-window :
      (b : Buffer) (seq : ℕ) (packet : StoredPacket)
      → (push_ahead is_video b seq packet).1.window_size ≡ b.window_size
  unfolding push_ahead advance_expected_to store_packet
  push_ahead-window b seq packet = ground arith

  step-window : (b : Buffer) (op : Op) → (step is_video b op).1.window_size ≡ b.window_size
  unfolding step pop_next flush_missing_once flush_after_n_packets
      flush_missing_until_marker_boundary
  step-window b (pushes packet) =
      let seq = cast is_video (reorder_sequence packet) in
      let same = admit-window b seq in
      push_cases (λ r. r.1.window_size ≡ b.window_size) is_video b packet
        (λ h. store_packet-window _ seq packet ∙ same) (λ h k. same)
        (λ h k. push_ahead-window _ seq packet ∙ same)
  step-window b pops = ground arith
  step-window b flushes_once = ground arith
  step-window b (flushes_after n) = ground arith
  step-window b flushes_at_marker = ground arith

  run-window : (b : Buffer) (ops : List Op) → (run is_video b ops).1.window_size ≡ b.window_size
  unfolding run
  run-window b [] = refl
  run-window b (op ∷ ops) = run-window (step is_video b op).1 ops ∙ step-window b op

make-window : (n : ℕ) {b : Buffer} → make n ≡ some b → b.window_size ≡ n
unfolding make
make-window n e = ground arith

-- Whatever is pushed, popped and flushed in a buffer that was made for a window of `n` numbers, it never
-- holds more than `n` packets.
pub length-run :
    (is_video : Bool) (n : ℕ) {b : Buffer} (ops : List Op)
    → make n ≡ some b
    → length (run is_video b ops).1.packets ≤ n
length-run is_video n {b} ops e =
    let c = (run is_video b ops).1 in
    omega (
      arith,
      length-le-window_size is_video {b = c}
          (run-IsValid is_video b ops (make-IsValid is_video n e)),
      run-window is_video b ops,
      make-window n e,
    )
