-- ===== src/Downstream/Termination.antt =====
-- The drain ends: each round brings the buffered packets nearer to the expected number or delivers
-- one, and a buffer has room for no more than its window.
use st2110_obs_plugin.Base.{
  ℕ, zero, suc, ◌+◌, ◌*◌, ◌≤◌, ◌<◌, ◌≡◌, ◌≢◌, refl, inl, inr, Bool, true, false, not, ◌&&◌, ◌||◌,
  Option, none, some, List, [], ◌∷◌, length, Bool-cases, Option-cases, All, arith, Outcome, returns,
  throws, undefined,
}
use st2110_obs_plugin.Stored.{StoredPacket}
use st2110_obs_plugin.Reorder.Entries.{
  Entry, find, contains, erase, is_empty, contains-ne, erase-ne, All-erase,
}
use st2110_obs_plugin.Reorder.Invariant.{
  IsValid, Fits, distance-next, pop_next-IsValid, flush_missing_once-IsValid,
}
use mathlib.Core.Option
use st2110_obs_plugin.Reorder.Bound.{length-le-window_size}
use st2110_obs_plugin.Downstream.{
  ReceiveReorderGapPolicy, wait_for_missing, flush_gap_once, flush_after_n,
  flush_on_marker_boundary, allow_multiple_gap_flushes, apply_reorder_buffer_policy, deliver_first,
  drain_from, drain_reorder_buffer_to_sink,
}
use st2110_obs_plugin.Reorder.{
  Buffer, modulus, distance, next, pop_next, flush_missing_once, flush_after_n_packets,
  flush_missing_until_marker_boundary,
}

module _ (is_video : Bool) where
  -- How far the buffered packets are ahead of the expected number, and how many they are.
  unfoldable pub weight : ℕ → List (Entry StoredPacket) → ℕ
  weight n [] = 0
  weight n (e ∷ es) = distance is_video n e.key + 1 + weight n es

  weight-next :
      (w n : ℕ) (es : List (Entry StoredPacket))
      → n < modulus is_video
      → All (Fits is_video w n) es
      → All (λ e. e.key ≢ n) es
      → weight (next is_video n) es + length es ≡ weight n es
  unfolding weight
  weight-next w n [] h f g = omega arith
  weight-next w n (e ∷ es) h f g =
      omega (arith, distance-next is_video n e.key h f.0.0 g.0, weight-next w n es h f.1 g.1)

  weight-erase :
      (n : ℕ) (es : List (Entry StoredPacket)) (a : StoredPacket)
      → find n es ≡ some a
      → weight n (erase n es) < weight n es
  unfolding weight erase find
  weight-erase n [] a h = absurd (ground arith)
  weight-erase n (e ∷ es) a h = ground (arith, weight-erase n es a)

  abbrev pub measure : Buffer → ℕ
  measure b = weight b.next_expected b.packets

  -- A pop delivers and lowers the measure, or leaves the expected number and the packets alone.
  abbrev Popped : Buffer → Option StoredPacket × Buffer → Type 0
  Popped b (some p, b') = measure b' < measure b
  Popped b (none, b') = (b'.next_expected ≡ b.next_expected) × (b'.packets ≡ b.packets)

  pub pop_next-Popped : (b : Buffer) → IsValid is_video b → Popped b (pop_next is_video b)
  unfolding pop_next
  pop_next-Popped b v = elim (Bool-cases (not b.initialized || is_empty b.packets)) [
    | inl t ↦ rw (t, pop_next) (refl, refl)
    | inr t ↦ elim (Option-cases (find b.next_expected b.packets)) [
      | inl s ↦ elim (Bool-cases (not (is_empty b.packets) && not b.missing_head_accounted)) [
        | inl u ↦ rw (t, s, u, pop_next) (refl, refl)
        | inr u ↦ rw (t, s, u, pop_next) (refl, refl)
      ]
      | inr (a, s) ↦
          rw (t, s, pop_next)
            (omega (
              arith,
              weight-erase b.next_expected b.packets a s,
              weight-next b.window_size b.next_expected (erase b.next_expected b.packets)
                  v.next_width (All-erase _ b.next_expected b.packets v.fitting)
                  (erase-ne b.next_expected b.packets v.ordered),
            ))
    ]
  ]

  nonempty-length : (es : List (Entry StoredPacket)) → is_empty es ≡ false → 0 < length es
  nonempty-length [] h = absurd (ground arith)
  nonempty-length (e ∷ es) h = omega arith

  -- A flush that happens lowers the measure.
  pub flush_missing_once-measure :
      (b : Buffer)
      → IsValid is_video b
      → (flush_missing_once is_video b).0 ≡ true
      → measure (flush_missing_once is_video b).1 < measure b
  unfolding flush_missing_once
  flush_missing_once-measure b v =
      elim (Bool-cases
        (not b.initialized || is_empty b.packets || contains b.next_expected b.packets)) [
          | inl t ↦ rw t (λ h. absurd (ground arith))
          | inr t ↦ rw t (λ h. omega (
            arith,
            nonempty-length b.packets (ground arith),
            weight-next b.window_size b.next_expected b.packets v.next_width v.fitting
                (contains-ne b.next_expected b.packets (ground arith)),
          ))
        ]

  Popped-measure :
      (b : Buffer) (p : StoredPacket) (r : Option StoredPacket × Buffer)
      → Popped b r
      → r.0 ≡ some p
      → measure r.1 < measure b
  Popped-measure b p (some q, b') m e = m
  Popped-measure b p (none, b') m e = cc

  unpopped_measure :
      (b : Buffer) (r : Option StoredPacket × Buffer)
      → Popped b r
      → r.0 ≡ none
      → measure r.1 ≡ measure b
  unpopped_measure b (some q, b') m e = cc
  unpopped_measure b (none, b') m e = cc (m.0, m.1)

  -- A policy that flushed something lowered the measure.
  policy_progress :
      (policy : ReceiveReorderGapPolicy) (n : ℕ) (b b' : Buffer)
      → IsValid is_video b
      → apply_reorder_buffer_policy is_video policy n b ≡ returns (true, b')
      → IsValid is_video b' × (measure b' < measure b)
  unfolding apply_reorder_buffer_policy flush_after_n_packets flush_missing_until_marker_boundary
  policy_progress wait_for_missing n b b' v e = absurd (ground arith)
  policy_progress flush_gap_once n b b' v e =
      ground (arith, flush_missing_once-IsValid is_video b v, flush_missing_once-measure b v)
  policy_progress flush_after_n n b b' v e =
      ground (arith, flush_missing_once-IsValid is_video b v, flush_missing_once-measure b v)
  policy_progress flush_on_marker_boundary n b b' v e =
      ground (arith, flush_missing_once-IsValid is_video b v, flush_missing_once-measure b v)
  policy_progress _ n b b' v e = absurd (ground arith)

module _ (is_video : Bool) (policy : ReceiveReorderGapPolicy) (n : ℕ) where
  abbrev Ends : Option (Outcome (List StoredPacket × Buffer)) → Type 0
  Ends r = (o : Outcome (List StoredPacket × Buffer)) × (r ≡ some o)

  delivered_Ends :
      (p : StoredPacket) (r : Option (Outcome (List StoredPacket × Buffer)))
      → Ends r
      → Ends (Option.map (deliver_first is_video p) r)
  delivered_Ends p r (o, e) = (deliver_first is_video p o, rw e)

  -- The round after a pop that found nothing.
  abbrev flush_round : ℕ → Outcome (Bool × Buffer) → Option (Outcome (List StoredPacket × Buffer))
  flush_round fuel r = elim r [
    | returns (flushed, b'') ↦ elim flushed [
      | true ↦ drain_from is_video policy n fuel true b''
      | false ↦ some (returns ([], b''))
    ]
    | throws e ↦ some (throws e)
    | undefined ↦ some undefined
  ]

  flush_round-Ends :
      (fuel : ℕ) (r : Outcome (Bool × Buffer))
      → ((b : Buffer) → r ≡ returns (true, b) → Ends (drain_from is_video policy n fuel true b))
      → Ends (flush_round fuel r)
  flush_round-Ends fuel (returns (true, b)) h = h b refl
  flush_round-Ends fuel (returns (false, b)) h = (returns ([], b), refl)
  flush_round-Ends fuel (throws e) h = (throws e, refl)
  flush_round-Ends fuel undefined h = (undefined, refl)

  drain_from-Ends :
      (fuel : ℕ) (used : Bool) (b : Buffer)
      → IsValid is_video b
      → measure is_video b < fuel
      → Ends (drain_from is_video policy n fuel used b)
  unfolding drain_from
  drain_from-Ends zero used b v m = absurd (omega arith)
  drain_from-Ends (suc fuel) used b v m =
      let r = pop_next is_video b in
      let popped = pop_next-Popped is_video b v in
      let v' = pop_next-IsValid is_video b v in
      elim (Option-cases (pop_next is_video b).0) [
        | inr (p, e) ↦
            rw (e, drain_from)
              (delivered_Ends p (drain_from is_video policy n fuel used r.1) (
                drain_from-Ends fuel used r.1 v'
                  (omega (arith, Popped-measure is_video b p r popped e))))
        | inl e ↦ elim (Bool-cases (used && not (allow_multiple_gap_flushes policy))) [
          | inl u ↦ rw (e, u, drain_from) (returns ([], r.1), refl)
          | inr u ↦
              rw (e, u, drain_from)
                (flush_round-Ends fuel (apply_reorder_buffer_policy is_video policy n r.1) (λ c f.
                  drain_from-Ends fuel true c (policy_progress is_video policy n r.1 c v' f).0 (
                    omega (
                      arith,
                      (policy_progress is_video policy n r.1 c v' f).1,
                      unpopped_measure is_video b r popped e,
                    ))))
        ]
      ]

weight-le :
    (is_video : Bool) (w n : ℕ) (es : List (Entry StoredPacket))
    → All (Fits is_video w n) es
    → weight is_video n es ≤ length es * w
unfolding weight
weight-le is_video w n [] f = omega arith
weight-le is_video w n (e ∷ es) f =
    let h = weight-le is_video w n es f.1 in let k = f.0.2 in omega arith

measure-le :
    (is_video : Bool) (b : Buffer)
    → IsValid is_video b
    → measure is_video b ≤ b.window_size * b.window_size
measure-le is_video b v =
    let h = weight-le is_video b.window_size b.next_expected b.packets v.fitting in
    let k = length-le-window_size is_video v in grind arith

-- The drain of a valid buffer ends, whatever the policy: a fuel above the square of the window's size
-- is enough for it to return or to throw.
pub drain_reorder_buffer_to_sink_total :
    (is_video : Bool) (policy : ReceiveReorderGapPolicy) (n fuel : ℕ) (b : Buffer)
    → IsValid is_video b
    → b.window_size * b.window_size < fuel
    → (o : Outcome (List StoredPacket × Buffer)) × (drain_reorder_buffer_to_sink is_video policy n
          fuel b
        ≡ some o)
unfolding drain_reorder_buffer_to_sink
drain_reorder_buffer_to_sink_total is_video policy n fuel b v m =
    drain_from-Ends is_video policy n fuel false b v (omega (arith, measure-le is_video b v))
