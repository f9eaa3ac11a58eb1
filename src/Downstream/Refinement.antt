-- ===== src/Downstream/Refinement.antt =====
-- The drain is a sequence of calls of the reorder buffer, and leaves nothing behind that could be
-- delivered.
use mathlib.Core.Option
use st2110_obs_plugin.Base.{
  ℕ, zero, suc, ◌≡◌, refl, subst, ap, inl, inr, Bool, true, false, not, ◌&&◌, Option, none, some,
  List, [], ◌∷◌, All, Bool-cases, Option-cases, arith, Outcome, returns, throws, undefined,
}
use st2110_obs_plugin.Stored.{StoredPacket}
use st2110_obs_plugin.Reorder.{
  Buffer, pop_next, flush_missing_once, flush_after_n_packets, flush_missing_until_marker_boundary,
}
use st2110_obs_plugin.Reorder.Delivery.{
  Op, pushes, pops, flushes_once, flushes_after, flushes_at_marker, step, run, collect,
}
use st2110_obs_plugin.Downstream.{
  ReceiveReorderGapPolicy, wait_for_missing, flush_gap_once, flush_after_n,
  flush_on_marker_boundary, allow_multiple_gap_flushes, apply_reorder_buffer_policy, deliver_first,
  drain_from, drain_reorder_buffer_to_sink,
}

-- A call that the drain makes: all but `push`.
abbrev pub IsDrainCall : Op → Type 0
IsDrainCall (pushes packet) = ⊥
IsDrainCall _ = Unit

-- What a drain that returns has done.
pub record Drained (is_video : Bool) (b : Buffer) (r : List StoredPacket × Buffer) : Type 0 where
  pub calls : List Op
  pub ran : run is_video b calls ≡ r
  pub no_push : All IsDrainCall calls
  pub nothing_left : (pop_next is_video r.1).0 ≡ none

module _ (is_video : Bool) where
  pop_next_again :
      (b : Buffer)
      → (pop_next is_video b).0 ≡ none
      → (pop_next is_video (pop_next is_video b).1).0 ≡ none
  unfolding pop_next
  pop_next_again b h = ground arith

  -- A policy makes one call at most, and changes nothing if it flushes nothing.
  policy_idle :
      (policy : ReceiveReorderGapPolicy) (n : ℕ) (b c : Buffer)
      → apply_reorder_buffer_policy is_video policy n b ≡ returns (false, c)
      → c ≡ b
  unfolding apply_reorder_buffer_policy flush_after_n_packets flush_missing_until_marker_boundary
      flush_missing_once
  policy_idle wait_for_missing n b c e = ground arith
  policy_idle flush_gap_once n b c e = ground arith
  policy_idle flush_after_n n b c e = ground arith
  policy_idle flush_on_marker_boundary n b c e = ground arith
  policy_idle _ n b c e = absurd (ground arith)

  policy_call :
      (policy : ReceiveReorderGapPolicy) (n : ℕ) (b c : Buffer)
      → apply_reorder_buffer_policy is_video policy n b ≡ returns (true, c)
      → (op : Op) × (step is_video b op ≡ (none, c)) × IsDrainCall op
  unfolding apply_reorder_buffer_policy step
  policy_call wait_for_missing n b c e = absurd (ground arith)
  policy_call flush_gap_once n b c e = (flushes_once, ground arith, tt)
  policy_call flush_after_n n b c e = (flushes_after n, ground arith, tt)
  policy_call flush_on_marker_boundary n b c e = (flushes_at_marker, ground arith, tt)
  policy_call _ n b c e = absurd (ground arith)

  -- One call in front.
  call_first :
      (b : Buffer) (op : Op) (out : Option StoredPacket) (b' : Buffer)
      (r : List StoredPacket × Buffer)
      → step is_video b op ≡ (out, b')
      → IsDrainCall op
      → Drained is_video b' r
      → Drained is_video b (collect out r.0, r.1)
  unfolding run
  call_first b op out b' r e i d = record {
    calls = op ∷ d.calls;
    ran = ground (arith, e, d.ran);
    no_push = (i, d.no_push);
    nothing_left = d.nothing_left;
  }

  pops_step :
      (b : Buffer) (out : Option StoredPacket)
      → (pop_next is_video b).0 ≡ out
      → step is_video b pops ≡ (out, (pop_next is_video b).1)
  unfolding step
  pops_step b out e = ap (λ o. (o, (pop_next is_video b).1)) e

  delivered_inversion :
      (p : StoredPacket) (o : Option (Outcome (List StoredPacket × Buffer)))
      (r : List StoredPacket × Buffer)
      → Option.map (deliver_first is_video p) o ≡ some (returns r)
      → (s : List StoredPacket × Buffer) × (o ≡ some (returns s)) × ((p ∷ s.0, s.1) ≡ r)
  delivered_inversion p none r h = absurd (ground arith)
  delivered_inversion p (some (returns s)) r h = (s, refl, ground arith)
  delivered_inversion p (some (throws e)) r h = absurd (ground arith)
  delivered_inversion p (some undefined) r h = absurd (ground arith)

  -- A pop that delivered nothing, as a run.
  stopped :
      (b : Buffer)
      → (pop_next is_video b).0 ≡ none
      → Drained is_video b ([], (pop_next is_video b).1)
  unfolding run
  stopped b e = record {
    calls = pops ∷ [];
    ran = ground (arith, pops_step b none e);
    no_push = (tt, tt);
    nothing_left = pop_next_again b e;
  }

  module _ (policy : ReceiveReorderGapPolicy) (n : ℕ) where
    -- The round after a pop that found nothing.
    flush_round :
        (fuel : ℕ) (b : Buffer) (o : Outcome (Bool × Buffer)) (r : List StoredPacket × Buffer)
        → (pop_next is_video b).0 ≡ none
        → apply_reorder_buffer_policy is_video policy n (pop_next is_video b).1 ≡ o
        → ((c : Buffer)
            → drain_from is_video policy n fuel true c ≡ some (returns r)
            → Drained is_video c r)
        → elim o [
          | returns (flushed, c) ↦ elim flushed [
            | true ↦ drain_from is_video policy n fuel true c
            | false ↦ some (returns ([], c))
          ]
          | throws e ↦ some (throws e)
          | undefined ↦ some undefined
        ]
          ≡ some (returns r)
        → Drained is_video b r
    flush_round fuel b (returns (true, c)) r e a rest h =
        let (op, s, i) = policy_call policy n (pop_next is_video b).1 c a in
        call_first b pops none (pop_next is_video b).1 r (pops_step b none e) tt
          (call_first (pop_next is_video b).1 op none c r s i (rest c h))
    flush_round fuel b (returns (false, c)) r e a rest h =
        subst (Drained is_video b)
          (ground (arith, policy_idle policy n (pop_next is_video b).1 c a)) (stopped b e)
    flush_round fuel b (throws x) r e a rest h = absurd (ground arith)
    flush_round fuel b undefined r e a rest h = absurd (ground arith)

    drain_from-Drained :
        (fuel : ℕ) (used : Bool) (b : Buffer) (r : List StoredPacket × Buffer)
        → drain_from is_video policy n fuel used b ≡ some (returns r)
        → Drained is_video b r
    unfolding drain_from
    drain_from-Drained zero used b r h = absurd (ground arith)
    drain_from-Drained (suc fuel) used b r h = elim (Option-cases (pop_next is_video b).0) [
      | inr (p, e) ↦
          let i =
            delivered_inversion p (drain_from is_video policy n fuel used (pop_next is_video b).1) r
              (rw (e, drain_from) at h) in
          subst (Drained is_video b) i.2 (
            call_first b pops (some p) (pop_next is_video b).1 i.0 (pops_step b (some p) e) tt
              (drain_from-Drained fuel used (pop_next is_video b).1 i.0 i.1))
      | inl e ↦ elim (Bool-cases (used && not (allow_multiple_gap_flushes policy))) [
        | inl u ↦
            subst (Drained is_video b) (ground (arith, rw (e, u, drain_from) at h)) (stopped b e)
        | inr u ↦
            flush_round fuel b
              (apply_reorder_buffer_policy is_video policy n (pop_next is_video b).1) r e refl
              (λ c. drain_from-Drained fuel true c r) (rw (e, u, drain_from) at h)
      ]
    ]

-- A drain that returns is a sequence of calls of the buffer's operations, and it stops only when the
-- expected packet is not there.
pub drain_reorder_buffer_to_sink-Drained :
    (is_video : Bool) (policy : ReceiveReorderGapPolicy) (n fuel : ℕ) (b : Buffer)
    {r : List StoredPacket × Buffer}
    → drain_reorder_buffer_to_sink is_video policy n fuel b ≡ some (returns r)
    → Drained is_video b r
unfolding drain_reorder_buffer_to_sink
drain_reorder_buffer_to_sink-Drained is_video policy n fuel b {r} h =
    drain_from-Drained is_video policy n fuel false b r h
